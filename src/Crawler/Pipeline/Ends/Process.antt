-- ===== src/Crawler/Pipeline/Ends/Process.antt =====
-- What `process_url` leaves in the log and in the pacing of the URL's domain.
use web_search.Prelude.{
  ℕ, ◌≡◌, ◌⊎◌, Bool, true, false, [], ◌∷◌, ◌++◌, if◌then◌else◌, nat_eq, list_eq, Text, pair_eq,
}
use web_search.Crawler.Store.{DelayOps}
use web_search.Crawler.Queue.{record_crawl_task_result}
use web_search.Crawler.Precheck.{Context}
use web_search.Crawler.Run.{
  Raised, Raised.network, Raised.unexpected, Raised.cancelled, Answer, Answer.returned,
  Answer.raised, AttemptStatus, LoggedAttempt, CrawlState, Writes,
}
use web_search.Crawler.Run.Unrecorded.{Unrecorded}
use web_search.Crawler.Services.{LedgerCall.for_url, PipelineProcessResult, Services}
use web_search.Crawler.Pipeline.Ends.{agrees, Ended, Ended.unlogged, Ended.concluded}

module _ {Delay : Type 0} (ops : DelayOps Delay) (get_domain : Text → Text) (now : ℕ) where
  -- The state behind the two writes, where the result is taken.
  abbrev pub closed : Bool → LoggedAttempt → Bool → CrawlState Delay → CrawlState Delay
  closed log_fails attempt is_done state = record state {
    attempts = if log_fails then state.attempts else state.attempts ++ attempt ∷ [];
    db = record_crawl_task_result ops get_domain now attempt.url is_done state.db;
  }

module _ {Delay : Type 0} (services : Services Delay) (handler_writes : Writes)
    (ctx : Context Delay) where
  open services use {ops, get_domain, now, writes}

  -- What `process_url` has done, from this state: nothing was logged or recorded up to the state in
  -- which one attempt at the URL is written and one result recorded, by the stages or by the handler
  -- of an exception; or it was cancelled, and nothing was logged or recorded at all.
  pub data Processed (start : CrawlState Delay) : Answer Unit × CrawlState Delay → Type 0 where
    by_stages :
        (attempt : LoggedAttempt) (is_done : Bool) (result : PipelineProcessResult)
        (state : CrawlState Delay)
        → Unrecorded start state
        → attempt.url ≡ ctx.url
        → agrees result.status attempt.status is_done ≡ true
        → Processed start
            (returned tt, closed ops get_domain now writes.log_fails attempt is_done state)
    by_handler :
        (attempt : LoggedAttempt) (state : CrawlState Delay)
        → Unrecorded start state
        → attempt.url ≡ ctx.url
        → (attempt.status ≡ AttemptStatus.http_error)
          ⊎ (attempt.status ≡ AttemptStatus.unknown_error)
        → Processed start
            (returned tt, closed ops get_domain now handler_writes.log_fails attempt false state)
    is_cancelled :
        (state : CrawlState Delay)
        → Unrecorded start state
        → Processed start (raised cancelled, state)
