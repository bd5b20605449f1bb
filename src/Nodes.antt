-- ===== src/Nodes.antt =====
-- js_parse.c: the table of parse nodes, and the literals of the scanner.
pub mod Table
pub mod Modules
pub mod Literals
pub mod Decode
