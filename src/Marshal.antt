-- ===== src/Marshal.antt =====
-- js_marshal.c: the size that a document is given in the store, and the room that marshaling it
-- takes. `Walk` has the walk that `calcSize` and `marshalDoc` both make, with its explicit stack;
-- `Size` the recursive description of the size; `Agree` compares the walk with it.
pub mod Values
pub mod Walk
pub mod Size
pub mod Agree
