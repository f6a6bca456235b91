-- ===== src/Serialize.antt =====
-- The export serializers (src/serialize).
pub mod Writer
pub mod Csv
