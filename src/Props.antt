-- ===== src/Props.antt =====
-- The property tables of js_object.c: `pair_t` vectors with an open hash table behind the pairs.
-- `Hash` has the hash function and the table entries, `Table` the operations; the other modules are
-- about the operations as those of a finite map. `Attribute` has the lookup in an object, its
-- prototype and the builtins, and `Places` the places where it looks.
pub mod Hash
pub mod Table
pub mod Trail
pub mod Probe
pub mod Valid
pub mod Rehash
pub mod Insert
pub mod Refine
pub mod Marshaled
pub mod Delete
pub mod Layout
pub mod Cloned
pub mod Attribute
pub mod Places
