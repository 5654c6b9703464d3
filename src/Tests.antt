-- ===== src/Tests.antt =====
-- The theorems at concrete inputs, and runs of the definitions.
mod SimpleUrls
mod Kernel
mod Core
mod Crawler
mod Producer
mod Frontend
mod Crawling
mod Known
mod Pages
mod Excerpts
mod Evaluation
mod Cases
