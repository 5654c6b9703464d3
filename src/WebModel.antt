-- ===== src/WebModel.antt =====
-- packages/web-model/src/web_search_web_model: what is known of the web beside the pages
-- themselves. Links has the graph of observed links, Ledger the URLs that have been seen.
pub mod Links
pub mod Ledger
