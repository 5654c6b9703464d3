-- ===== src/Crawler.antt =====
-- apps/crawler: the crawler's queue, its pacing of hosts, and the processing of one URL.
pub mod Attempts
pub mod Denylist
pub mod Store
pub mod DomainPacing
pub mod Discovery
pub mod Enqueue
pub mod Queue
pub mod Run
pub mod Services
pub mod Pages
pub mod Pipeline
pub mod Indexer
pub mod Fetch
pub mod Worker
pub mod WorkerLoop
pub mod Precheck
pub mod Planner
pub mod Maintenance
