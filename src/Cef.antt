-- ===== src/Cef.antt =====
-- The ArcSight Common Event Format (include/cef, src/cef).
pub mod Record
pub mod Header
pub mod Extensions
pub mod Events
