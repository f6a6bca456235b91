-- ===== src/Json.antt =====
-- JSON logs: the value type, its rendering, the parser, and the mapping of a value to an event
-- (src/jsonlog).
mod Samples
pub mod Value
pub mod Scan
pub mod Limits
pub mod Parser
pub mod RoundTrip
pub mod Mapper
