-- ===== src/Marshal/Agree.antt =====
-- The walk with its explicit stack against the recursive size.
pub mod Walker
pub mod Sizes
