-- ===== src/Core.antt =====
-- packages/core: what all services share.
pub mod Retry
pub mod UrlAdmission
