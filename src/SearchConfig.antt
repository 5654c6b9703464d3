-- ===== src/SearchConfig.antt =====
-- packages/search-config: the canonical sources, and the evaluation of the search against them.
pub mod Cases
pub mod Evaluator
pub mod Json
pub mod Manifest
pub mod Sources
