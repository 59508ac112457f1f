-- ===== src/Cerr.antt =====
-- Package cerr (cerr/cerr.go).
pub mod Code
pub mod Registry
pub mod Errors
pub mod Laws
