-- ===== src/Json.antt =====
-- js_jsonparse.c: the parser of JSON texts, a machine that reads one byte a round and keeps a stack of
-- the containers that are open. `Parse` has the machine, `Print` a printer to read back.
pub mod Values
pub mod Parse
pub mod Print
pub mod Printed
