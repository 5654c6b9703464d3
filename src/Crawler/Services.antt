-- ===== src/Crawler/Services.antt =====
-- What the processing of one URL asks for and writes to: the answers of the services, how the
-- writes end, and the writes to the repositories as steps (apps/crawler/src/web_search_crawler,
-- workers/types.py and the calls in services/).
use web_search.Core.UrlAdmission.{Policy, UrlLib}
use web_search.Prelude.{ℕ, ◌⊎◌, Bool, Option, none, some, List, nat_eq, list_eq, Text, pair_eq}
use web_search.Crawler.Store.{DelayOps}
use web_search.Crawler.Enqueue.{AttemptEnd, enqueue_urls_for_crawl}
use web_search.Crawler.Discovery.{DiscoveryKind, UrlParts}
use web_search.Crawler.Run.{Raised, Answer, Answer.returned, Answer.raised, Writes, Run}
use web_search.Crawler.Fetch.{FetchResult}
use web_search.Crawler.Indexer.{IndexerSubmitResult}
use web_search.WebModel.Links.{replace_observed_links}
use web_search.WebModel.Ledger.{LedgerSettings, record_discovered_urls}

-- Which call of the ledger it is: for the URL itself, for the entries of a feed, or for what a page
-- names.
pub data LedgerCall : Type 0 where
  for_url for_entries : LedgerCall
  for_discovered : DiscoveryKind → LedgerCall

-- `ParseResult`
pub record ParseResult : Type 0 where
  pub title : Text
  pub content : Text
  pub outlinks : List Text
  pub feed_links : List Text

pub record FeedEntry : Type 0 where
  pub url : Text
  pub title : Text
  pub content : Text

pub data ProcessStatus : Type 0 where
  indexed skipped failed : ProcessStatus

-- `PipelineProcessResult`, without timings
pub record PipelineProcessResult : Type 0 where
  pub status : ProcessStatus
  pub message : Text
  pub outlinks_discovered : ℕ
  pub host_error : Bool

-- The libraries, the services and the time of one call of `process_url`. `submit` is asked once for
-- each page or entry, by its number; `parse_feed` answers the text of its exception.
pub record Services (Delay : Type 0) : Type 0 where
  pub ops : DelayOps Delay
  pub lib : UrlLib
  pub policy : Policy
  pub url_hash : Text → Text
  pub get_domain : Text → Text
  pub lower : Text → Text
  pub urlparse : Text → UrlParts
  pub hostname : Text → Option (Option Text)
  pub choice : Text → List Text → Text
  pub now : ℕ
  pub fetch : Answer FetchResult
  pub parse_page : Text → Answer ParseResult
  pub parse_feed : Text → List FeedEntry ⊎ Text
  pub submit : ℕ → (url title content : Text) → IndexerSubmitResult
  pub writes : Writes
  pub ledger_settings : LedgerSettings
  pub ledger_ends : LedgerCall → ℕ → ℕ → AttemptEnd
  pub queue_ends : DiscoveryKind → ℕ → ℕ → AttemptEnd
  pub links_fail : Bool
  pub write_error : Raised

module _ {Delay : Type 0} (services : Services Delay) where
  open services use {
    ops, lib, policy, url_hash, get_domain, hostname, now, ledger_settings, ledger_ends, queue_ends,
    links_fail, write_error,
  }

  -- A result that may be missing, and the state with what is written.
  abbrev answer_of : Option ℕ → Answer Unit
  answer_of none = raised write_error
  answer_of (some n) = returned tt

  -- `ctx.link_graph.replace_observed_links`
  unfoldable pub observe_links : Text → List Text → Run Delay Unit
  unfolding replace_observed_links
  observe_links url outlinks state =
      let o =
        replace_observed_links hostname lib policy links_fail now url outlinks state.link_tables in
      (answer_of o.observed, record state { link_tables = o.tables })

  -- `ctx.url_ledger.record_discovered_urls`
  unfoldable pub record_urls : LedgerCall → List Text → Run Delay Unit
  unfolding record_discovered_urls
  record_urls ledger_call urls state =
      let o =
        record_discovered_urls lib policy url_hash get_domain ledger_settings
          (ledger_ends ledger_call) now urls state.urls in
      (answer_of o.recorded, record state { urls = o.urls })

  -- `ctx.url_store.enqueue_urls_for_crawl`
  unfoldable pub enqueue_urls : DiscoveryKind → List Text → Run Delay Unit
  unfolding enqueue_urls_for_crawl
  enqueue_urls kind urls state =
      let o =
        enqueue_urls_for_crawl ops lib policy url_hash get_domain (queue_ends kind) now urls
          state.db in
      (answer_of o.added, record state { db = o.db })
