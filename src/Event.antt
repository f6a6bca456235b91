-- ===== src/Event.antt =====
-- The unified event model (include/event, src/event).
pub mod Severity
pub mod Fields
pub mod Record
pub mod Stream
