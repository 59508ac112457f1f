-- ===== src/Go.antt =====
-- What the SDK uses of Go's standard library on strings, numbers and maps.
pub mod Text
pub mod Number
pub mod Dict
pub mod Order
pub mod Query
pub mod Base64
