-- ===== src/Macros.antt =====
-- src/rtactor-macros/src/lib.rs: the code that the derive macros generate.
pub mod Syntax
pub mod Derive
pub mod Types
