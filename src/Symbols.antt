-- ===== src/Symbols.antt =====
-- js_symbols.c: the symbol tables of functions and blocks. `Tree` has the parse nodes, `Tables` the
-- tables and their symbols, `Hoist` enters the declarations of a program, `Assign` gives each name the
-- slot of its symbol; `Slots` and `Declared` are about hoisting, `Scopes`, `Bound`, `Resolve` and
-- `Apart` about the names that are looked up.
pub mod Tree
pub mod Tables
pub mod Hoist
pub mod Slots
pub mod Declared
pub mod Assign
pub mod Scopes
pub mod Bound
pub mod Resolve
pub mod Apart
