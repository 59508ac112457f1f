-- ===== src/Config.antt =====
-- Package config (config/config.go).
pub mod Value
pub mod Env
pub mod Flags
pub mod SliceValue
pub mod Load
pub mod Json
