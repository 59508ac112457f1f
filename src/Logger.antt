-- ===== src/Logger.antt =====
-- Package logger (logger/*.go).
pub mod Level
pub mod Keyvals
pub mod Std
pub mod Zap
pub mod Helper
pub mod Global
pub mod Laws
