-- ===== src/Core.antt =====
-- The support code of include/core and src/core.
pub mod Chars
pub mod Text
pub mod Number
pub mod Status
pub mod Span
pub mod Reader
pub mod Encoding
pub mod Diagnostics
pub mod Time
pub mod Timestamp
