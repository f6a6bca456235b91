-- ===== src/Json/RoundTrip.antt =====
-- `JsonParser` reads back what `render_compact` writes (src/jsonlog/json_parser.cpp,
-- src/jsonlog/json_value.cpp): strings, numbers, and then values.
pub mod Strings
pub mod Numbers
pub mod Texts
pub mod Steps
pub mod Arrays
pub mod Objects
pub mod Values
mod Examples
