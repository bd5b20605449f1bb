-- ===== src/Math.antt =====
-- js_math.c and the conversions of js_values.c, on values that are not objects. `Values` has the
-- values, `Convert` the conversions, `Arith` the operations on numbers, `Compare` the comparisons,
-- `Dispatch` `eval_math` and `eval_neg`; `Order` and `Words` are about the operations. `Elements`
-- has the elements of typed arrays, which js_object.c reads and stores, and `Stored` is about them.
pub mod Values
pub mod Convert
pub mod Arith
pub mod Compare
pub mod Dispatch
pub mod Order
pub mod Words
pub mod Elements
pub mod Stored
