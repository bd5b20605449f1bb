-- ===== src/Keys.antt =====
-- js_dbindex.c: the keys of an index. `Options` and `Fields` are about the options of a key field,
-- `Encode` and `Order` about the bytes of one field, `Layout`, `Laid`, `Compiled` and `Room` about the
-- block of a key specification, `Build`, `OneKey` and `Endless` about the keys of a document, and
-- `Text` prints a key.
pub mod Options
pub mod Fields
pub mod Encode
pub mod Order
pub mod Text
pub mod Layout
pub mod Laid
pub mod Compiled
pub mod Room
pub mod Build
pub mod Endless
pub mod OneKey
