-- ===== src/Query.antt =====
-- The filter expressions (include/query/filter.hpp, src/query/filter.cpp).
pub mod Filter
pub mod Parser
