-- ===== src/Transport.antt =====
-- Packages transport/chttp and transport/cgrpc.
pub mod Cgrpc
pub mod Chttp
