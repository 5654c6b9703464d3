-- ===== src/Kernel.antt =====
-- packages/kernel: what the search and the index share.
pub mod Diversify
pub mod Snippet
