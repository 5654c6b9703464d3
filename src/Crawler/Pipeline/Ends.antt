-- ===== src/Crawler/Pipeline/Ends.antt =====
-- How the stages of the pipeline end: with one entry of the log and one result of the task.
pub mod Stages
pub mod Crawl
pub mod Process
use web_search.Prelude.{
  ℕ, zero, suc, ◌+◌, ◌-◌, ◌*◌, ◌/◌, ◌%◌, ◌^◌, ◌≤◌, ◌<◌, min, max, ◌≡◌, refl, sym, ap, ◌∙◌, ◌≢◌, ◌↔◌,
  ◌⊎◌, inl, inr, Bool, true, false, not, ◌&&◌, ◌||◌, Option, none, some, List, [], ◌∷◌, ◌++◌, map,
  reverse, Perm, Sublist, append-nil, append_assoc, arith, ltb, leb, nat_beq, if◌then◌else◌, ltb→lt,
  lt→ltb, leb→le, nat_beq_iff, Bool-cases, Option-cases, Bool-eq_of_iff, length, take, drop, any,
  all, keep, is_empty, length-append, length-take, take-append-drop, length-keep-le, any-append,
  keep-append, All, Any, Member, HasEq, ◌==◌, nat_eq, list_eq, list_beq, list_beq_iff, beq_refl,
  contains, contains_iff, update, occurrences, capped, occurrences-capped, capped-sublist,
  WithinQuota, take-capped-WithinQuota, sort_by, Sorted, sort_by-perm, sort_by-All, sort_by-Sorted,
  Text, codes, starts_with, ends_with, occurs_in, split, join, strip, lstrip, rstrip, is_space,
  from_last, ascii_lower, starts_with_iff, ends_with_iff, split-ne_nil, join-split, split-append,
  any-congr, any-or, any-false, keep-congr, keep-All, All-keep, All-append, any_iff, Any-map,
  All-map, All-of, beq_sym, text_leb, text_leb_total, text_leb_trans, unique, if_true, if_false,
  Tracks, Tracks-skip, Tracks-take, All-take, keep-All_of, keep_of_All, All-Member, capped-All,
  keep-All_both, All-members, some_pair, decimal, Sorted-eq_of_perm, keep-perm, text_leb_antisymm,
  text_leb_refl, sort_by-All_inv, All-split, contains-sort_by, ◌>>=◌, sort_by_of_Sorted,
  sort_by-Falling, Falling, sort_by-flag, if_cases, contains-append, contains-keep, pair_eq,
  pair_beq, pair_beq_iff, some_injective, ℤ, pos, negsuc, is_positive, is_negative, int_leb,
}
use web_search.Crawler.Precheck.{Context}
use web_search.Crawler.Run.{
  Raised, Answer, Answer.returned, Answer.raised, AttemptStatus, LoggedAttempt, CrawlState, Run,
  give, ask, go_on, ◌▷◌, conclude, ask_cases,
}
use web_search.Crawler.Run.Unrecorded.{
  Unrecorded, Unrecorded-refl, Unrecorded-trans, Unrecorded-apart, queued-SamePacing,
}
use web_search.Crawler.Fetch.{FetchResult}
use web_search.Crawler.Services.{
  LedgerCall, LedgerCall.for_entries, LedgerCall.for_discovered, ParseResult, FeedEntry,
  ProcessStatus, PipelineProcessResult, Services, observe_links, record_urls, enqueue_urls,
}
use web_search.Crawler.Discovery.{DiscoveryKind, html_outlink, syndication_feed, admitted_urls}
use web_search.Crawler.Indexer.{IndexerSubmitResult}
use web_search.Crawler.Fetch.{is_feed_content_type}
use web_search.Crawler.Pages.{
  finish, admit_discovered_urls, finish_submitted, finish_without_content, process_parsed,
  process_html_result, submit_entries, finish_feed, process_entries, process_feed_result,
}
use web_search.Crawler.Pipeline.{
  result_of, finish_error, process_body, finish_unread, process_unfailed, process_fetch_result,
}

-- Whether what is returned, what is logged and what is recorded go together.
abbrev pub agrees : ProcessStatus → AttemptStatus → (is_done : Bool) → Bool
agrees ProcessStatus.indexed AttemptStatus.indexed is_done = is_done
agrees ProcessStatus.skipped AttemptStatus.skipped is_done = true
agrees ProcessStatus.skipped AttemptStatus.blocked is_done = not is_done
agrees ProcessStatus.failed AttemptStatus.skipped is_done = not is_done
agrees ProcessStatus.failed AttemptStatus.http_error is_done = not is_done
agrees ProcessStatus.failed AttemptStatus.indexer_error is_done = not is_done
agrees _ _ is_done = false

module _ {Delay : Type 0} (services : Services Delay) (ctx : Context Delay) where
  open services use {ops, get_domain, now, writes}

  -- An attempt at `ctx.url` has ended, from this state: a stage raised before anything was logged or
  -- recorded, or the last that it did were the two writes, for one attempt, with a result that agrees
  -- with them.
  pub data Ended (start : CrawlState Delay)
      : Answer PipelineProcessResult × CrawlState Delay → Type 0 where
    unlogged :
        (e : Raised) (state : CrawlState Delay)
        → Unrecorded start state
        → Ended start (raised e, state)
    concluded :
        (attempt : LoggedAttempt) (is_done : Bool) (result : PipelineProcessResult)
        (state : CrawlState Delay)
        → Unrecorded start state
        → attempt.url ≡ ctx.url
        → agrees result.status attempt.status is_done ≡ true
        → Ended start
            ((conclude ops get_domain writes now attempt is_done ▷ λ _. give result) state)

  -- A crawl that began later has ended so from an earlier state too.
  pub Ended-from :
      (start state : CrawlState Delay) (r : Answer PipelineProcessResult × CrawlState Delay)
      → Unrecorded start state
      → Ended state r
      → Ended start r
  Ended-from start state r h (unlogged e later same) =
      unlogged e later (Unrecorded-trans start state later h same)
  Ended-from start state r h (concluded attempt is_done result later same url ok) =
      concluded attempt is_done result later (Unrecorded-trans start state later h same) url ok

  -- A stage that ends so from every state up to which nothing is logged or recorded.
  pub Ends : CrawlState Delay → Run Delay PipelineProcessResult → Type 0
  Ends start stage = (state : CrawlState Delay) → Unrecorded start state → Ended start (stage state)

  -- A step that logs and records nothing.
  pub Quiet : {A : Type 0} → Run Delay A → Type 0
  Quiet step = (state : CrawlState Delay) → Unrecorded state (step state).1

  module _ {A : Type 0} where
    go_on-Ended :
        (start : CrawlState Delay) (f : A → Run Delay PipelineProcessResult)
        (r : Answer A × CrawlState Delay)
        → Unrecorded start r.1
        → ((x : A) → Ends start (f x))
        → Ended start (go_on f r)
    unfolding Ends
    go_on-Ended start f (returned x, state) same next = next x state same
    go_on-Ended start f (raised e, state) same next = unlogged e state same

    -- A quiet step before a stage.
    pub Ends-after :
        (start : CrawlState Delay) (step : Run Delay A) (f : A → Run Delay PipelineProcessResult)
        → Quiet step
        → ((x : A) → Ends start (f x))
        → Ends start (step ▷ f)
    unfolding Ends Quiet
    Ends-after start step f quiet next state same =
        go_on-Ended start f (step state)
          (Unrecorded-trans start state (step state).1 same (quiet state)) next

    pub Quiet-ask : (answer : Answer A) → Quiet (ask answer)
    unfolding Quiet
    Quiet-ask answer state = Unrecorded-refl state

  go_on-Quiet :
      {A B : Type 0} (f : A → Run Delay B) (r : Answer A × CrawlState Delay)
      → ((x : A) → Quiet (f x))
      → Unrecorded r.1 (go_on f r).1
  unfolding Quiet
  go_on-Quiet f (returned x, state) next = next x state
  go_on-Quiet f (raised e, state) next = Unrecorded-refl state

  pub Quiet-after :
      {A B : Type 0} (step : Run Delay A) (f : A → Run Delay B)
      → Quiet step
      → ((x : A) → Quiet (f x))
      → Quiet (step ▷ f)
  unfolding Quiet
  Quiet-after step f quiet next state =
      Unrecorded-trans state (step state).1 (go_on f (step state)).1 (quiet state)
        (go_on-Quiet f (step state) next)

  pub finish-Ends :
      (start : CrawlState Delay) (status : AttemptStatus) (code : Option ℕ) (message : Option Text)
      (is_done : Bool) (result : PipelineProcessResult)
      → agrees result.status status is_done ≡ true
      → Ends start (finish services ctx status code message is_done result)
  unfolding finish Ends
  finish-Ends start status code message is_done result ok state same =
      concluded _ is_done result state same refl ok

  pub links-Quiet :
      (url : Text) (outlinks : List Text) → Quiet (observe_links services url outlinks)
  unfolding Quiet observe_links
  links-Quiet url outlinks state = Unrecorded-apart state _ refl refl

  pub urls-Quiet : (call : LedgerCall) (urls : List Text) → Quiet (record_urls services call urls)
  unfolding Quiet record_urls
  urls-Quiet call urls state = Unrecorded-apart state _ refl refl

  queue-Quiet : (kind : DiscoveryKind) (urls : List Text) → Quiet (enqueue_urls services kind urls)
  unfolding Quiet enqueue_urls
  queue-Quiet kind urls state = record {
    unlogged = refl;
    paced =
        queued-SamePacing ops now (services.queue_ends kind) services.lib services.policy
          services.url_hash get_domain urls state.db;
  }

  give-Quiet : {A : Type 0} (x : A) → Quiet {A = A} (give x)
  unfolding Quiet
  give-Quiet x state = Unrecorded-refl state

  pub admit-Quiet :
      (urls : List Text) (kind : DiscoveryKind)
      → Quiet (admit_discovered_urls services ctx urls kind)
  unfolding admit_discovered_urls
  admit-Quiet [] kind = give-Quiet tt
  admit-Quiet (d ∷ ds) kind =
      let (valid, queueable) =
        admitted_urls services.lower services.urlparse get_domain services.choice ctx.url
          ctx.blocked_domains (d ∷ ds) kind in
      let enqueue = if is_empty queueable then give tt else enqueue_urls services kind queueable in
      let record_valid = record_urls services (for_discovered kind) valid in
      if_cases Quiet (is_empty valid) {y = record_valid ▷ λ _. enqueue} (λ e. give-Quiet tt)
        (λ e.
          Quiet-after record_valid (λ _. enqueue) (urls-Quiet (for_discovered kind) valid)
            (λ x.
              if_cases Quiet (is_empty queueable) {y = enqueue_urls services kind queueable}
                (λ e. give-Quiet tt) (λ e. queue-Quiet kind queueable)))
