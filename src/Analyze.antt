-- ===== src/Analyze.antt =====
-- The analyses of a stream of events (include/analyze, src/analyze).
pub mod Timeline
pub mod Counter
pub mod Statistics
