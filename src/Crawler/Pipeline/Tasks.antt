-- ===== src/Crawler/Pipeline/Tasks.antt =====
-- apps/crawler/src/web_search_crawler/workers/tasks.py: `process_url`, with what it does about an
-- exception: `CancelledError` is let through. `handler_writes` says how the writes of the handler
-- end. A call of the log or of the indexer's client is not cancelled here.
use web_search.Prelude.{false, none, some, [], ◌∷◌, nat_eq, list_eq, Text, pair_eq}
use web_search.Crawler.Precheck.{Context}
use web_search.Crawler.Run.{
  Raised, Raised.network, Raised.unexpected, Raised.cancelled, Answer, Answer.returned,
  Answer.raised, AttemptStatus, AttemptStatus.http_error, AttemptStatus.unknown_error, CrawlState,
  Writes, Run, give, ◌▷◌, conclude,
}
use web_search.Crawler.Services.{LedgerCall.for_url, Services, record_urls}
use web_search.Crawler.Pipeline.{execute_crawl}

module _ {Delay : Type 0} (services : Services Delay) (handler_writes : Writes) where
  open services use {ops, get_domain, now}

  -- The log entry and the failed result of both `except` clauses.
  unfoldable pub handle_failure : Text → AttemptStatus → Text → Run Delay Unit
  unfolding conclude
  handle_failure url status error =
      conclude ops get_domain handler_writes now
        (record { url = url; status = status; http_code = none; error_message = some error }) false

  unfoldable pub handle_raised : Text → Raised → Run Delay Unit
  unfolding handle_failure
  handle_raised url (network error) = handle_failure url http_error error
  handle_raised url (unexpected error) = handle_failure url unknown_error error
  handle_raised url cancelled = λ state. (raised cancelled, state)

  -- The body of the `try`.
  unfoldable pub try_url : Context Delay → Run Delay Unit
  unfolding record_urls execute_crawl
  try_url ctx = record_urls services for_url (ctx.url ∷ []) ▷ λ _.
      execute_crawl services ctx ▷ λ outcome. give tt

  -- What is done about the exception of a `try`.
  unfoldable pub handled : Text → Answer Unit × CrawlState Delay → Answer Unit × CrawlState Delay
  unfolding handle_raised
  handled url (returned x, state) = (returned tt, state)
  handled url (raised e, state) = handle_raised url e state

  unfoldable pub process_url : Context Delay → Run Delay Unit
  unfolding try_url handled
  process_url ctx state = handled ctx.url (try_url ctx state)
