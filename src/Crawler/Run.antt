-- ===== src/Crawler/Run.antt =====
-- What the stages of apps/crawler/src/web_search_crawler/workers/pipeline.py share: the tables and
-- the log as state, calls that may raise, and the two writes that end an attempt. A step is a
-- function of the state that returns or raises; what it wrote before it raised stays. The log of
-- utils/history.py swallows its errors: `log_fails` says that a row is lost so. `result_raises` is
-- what `record_crawl_task_result` raises. Timings are left out of the log.
pub mod Unrecorded
use web_search.Prelude.{
  ℕ, ◌≡◌, refl, Bool, Option, none, some, List, [], ◌∷◌, ◌++◌, if◌then◌else◌, nat_eq, list_eq, Text,
  pair_eq,
}
use web_search.Crawler.Store.{QueueRow, DelayOps, Db}
use web_search.Crawler.Queue.{record_crawl_task_result}
use web_search.WebModel.Links.{LinkTables}

-- An error of aiohttp or a timeout, or any other `Exception`, with its text, or `CancelledError`,
-- which is none.
pub data Raised : Type 0 where
  network unexpected : Text → Raised
  cancelled : Raised

pub data Answer (A : Type 0) : Type 0 where
  returned : A → Answer A
  raised : Raised → Answer A

-- `CrawlAttemptStatus` (packages/contracts/src/web_search_contracts/enums.py)
pub data AttemptStatus : Type 0 where
  indexed blocked skipped indexer_error http_error unknown_error dead_letter retry_later :
      AttemptStatus

-- A row of `crawl_logs`.
pub record LoggedAttempt : Type 0 where
  pub url : Text
  pub status : AttemptStatus
  pub http_code : Option ℕ
  pub error_message : Option Text

pub record CrawlState (Delay : Type 0) : Type 0 where
  pub attempts : List LoggedAttempt
  pub db : Db Delay
  pub urls : List QueueRow
  pub link_tables : LinkTables

-- How the writes of one attempt end.
pub record Writes : Type 0 where
  pub log_fails : Bool
  pub result_raises : Option Raised
  pub delay_raises : Option Raised

abbrev pub Run : Type 0 → Type 0 → Type 0
Run Delay A = CrawlState Delay → Answer A × CrawlState Delay

-- `return x`
abbrev pub give : {Delay A : Type 0} → A → Run Delay A
give x state = (returned x, state)

-- A call of a service, which answers without a change of the state.
abbrev pub ask : {Delay A : Type 0} → Answer A → Run Delay A
ask answer state = (answer, state)

abbrev pub go_on :
    {Delay A B : Type 0}
    → (A → Run Delay B)
    → Answer A × CrawlState Delay
    → Answer B × CrawlState Delay
go_on f (returned x, state) = f x state
go_on f (raised e, state) = (raised e, state)

-- One step after another, unless the first raises.
infixr 5 ◌▷◌
abbrev pub ◌▷◌ : {Delay A B : Type 0} → Run Delay A → (A → Run Delay B) → Run Delay B
◌▷◌ step f state = go_on f (step state)

-- A write that raises leaves the state as it was.
abbrev pub written :
    {Delay : Type 0}
    → Option Raised
    → (before after : CrawlState Delay) → Answer Unit × CrawlState Delay
written none before after = (returned tt, after)
written (some e) before after = (raised e, before)

module _ {Delay : Type 0} (ops : DelayOps Delay) (get_domain : Text → Text) where
  unfoldable pub log_crawl_attempt : (log_fails : Bool) → LoggedAttempt → Run Delay Unit
  log_crawl_attempt log_fails attempt state =
      if log_fails
      then (returned tt, state)
      else (returned tt, record state { attempts = state.attempts ++ attempt ∷ [] })

  unfoldable pub record_result :
      (result_raises : Option Raised) → ℕ → Text → (is_done : Bool) → Run Delay Unit
  unfolding record_crawl_task_result
  record_result (some e) now url is_done state = (raised e, state)
  record_result none now url is_done state = (
    returned tt,
    record state { db = record_crawl_task_result ops get_domain now url is_done state.db },
  )

  -- The two writes at the end of every attempt.
  unfoldable pub conclude : Writes → ℕ → LoggedAttempt → (is_done : Bool) → Run Delay Unit
  unfolding log_crawl_attempt record_result
  conclude writes now attempt is_done = log_crawl_attempt writes.log_fails attempt ▷ λ _.
      record_result writes.result_raises now attempt.url is_done

-- What holds after a call of a service, by what it answers.
pub ask_cases {κ} :
    {Delay A B : Type 0} (P : Answer B × CrawlState Delay → Type κ) (answer : Answer A)
    (f : A → Run Delay B) {state : CrawlState Delay}
    → ((x : A) → answer ≡ returned x → P (f x state))
    → ((e : Raised) → answer ≡ raised e → P (raised e, state))
    → P ((ask answer ▷ f) state)
ask_cases P (returned x) f good bad = good x refl
ask_cases P (raised e) f good bad = bad e refl

pub written_cases {κ} :
    {Delay : Type 0} (P : Answer Unit × CrawlState Delay → Type κ) (raises : Option Raised)
    {before after : CrawlState Delay}
    → P (returned tt, after)
    → ((e : Raised) → P (raised e, before))
    → P (written raises before after)
written_cases P none good bad = good
written_cases P (some e) good bad = bad e
