-- ===== src/Frontend.antt =====
-- apps/frontend: how the search front end reads a query and orders what it found.
pub mod Ranking
