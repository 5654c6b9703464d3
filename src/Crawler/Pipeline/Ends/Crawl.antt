-- ===== src/Crawler/Pipeline/Ends/Crawl.antt =====
-- A crawl of one URL, from the checks on.
use web_search.Prelude.{
  ℕ, ◌≡◌, refl, sym, ◌⊎◌, inl, inr, true, false, Option, none, some, [], ◌∷◌, ◌++◌, arith, is_empty,
  nat_eq, list_eq, Text, codes, pair_eq,
}
use mathlib.Core.Path.{subst}
use web_search.Crawler.Precheck.{
  Context, skip, keep_crawl_delay, store_crawl_delay, Checked, Checked.goes_on, Checked.skips,
  Checked.stops, precheck-Checked,
}
use web_search.Crawler.Run.{
  Answer, Answer.returned, Answer.raised, AttemptStatus, AttemptStatus.blocked,
  AttemptStatus.skipped, CrawlState, give, go_on, ◌▷◌, ask_cases, written_cases,
}
use web_search.Crawler.Run.Unrecorded.{
  Unrecorded, Unrecorded-refl, Unrecorded-trans, delayed-SamePacing,
}
use web_search.Crawler.Services.{ProcessStatus, Services}
use web_search.Crawler.Pipeline.{result_of, crawl_unless, execute_crawl}
use web_search.Crawler.Pipeline.Ends.{
  agrees, Ended, Ended.unlogged, Ended.concluded, Ends, Ends-after, Quiet-ask,
}
use web_search.Crawler.Pipeline.Ends.Stages.{process_fetch_result-Ends}

module _ {Delay : Type 0} (services : Services Delay) (ctx : Context Delay) where
  open services use {ops, lower, get_domain, writes, now, fetch}

  fetch-Ends : (start : CrawlState Delay) → Ends services ctx start (crawl_unless services ctx none)
  unfolding crawl_unless
  fetch-Ends start =
      Ends-after services ctx start _ _ (Quiet-ask services ctx fetch)
        (process_fetch_result-Ends services ctx start)

  store-Ends :
      (start : CrawlState Delay) (delay : Option Delay)
      → Ends services ctx start (
          store_crawl_delay ops lower get_domain writes now ctx.domain delay ▷ λ _.
          crawl_unless services ctx none)
  unfolding store_crawl_delay Ends
  store-Ends start none state same = fetch-Ends start state same
  store-Ends start (some delay) state same =
      written_cases (λ r. Ended services ctx start (go_on (λ _. crawl_unless services ctx none) r))
        writes.delay_raises
        (fetch-Ends start _ (
          Unrecorded-trans start state _ same (record {
            unlogged = refl;
            paced = delayed-SamePacing ops now ctx.domain delay state.db.domain_state;
          })))
        (λ e. unlogged e state same)

  -- The checks that go on have no reason to give.
  reasonless :
      (r : Answer Unit × CrawlState Delay)
      → go_on (crawl_unless services ctx) (go_on (λ _. give none) r)
        ≡ go_on (λ _. crawl_unless services ctx none) r
  reasonless (returned x, state) = refl
  reasonless (raised e, state) = refl

  delay-Ended :
      (start : CrawlState Delay) (state : CrawlState Delay)
      → Unrecorded start state
      → Ended services ctx start (
          go_on
            (crawl_unless services ctx)
            (keep_crawl_delay ops lower get_domain writes now ctx state))
  unfolding keep_crawl_delay Ends
  delay-Ended start state same =
      ask_cases (λ r. Ended services ctx start (go_on (crawl_unless services ctx) r))
        ctx.crawl_delay _
        (λ delay d.
          subst (Ended services ctx start) (sym (reasonless _)) (store-Ends start delay state same))
        (λ e d. unlogged e state same)

  skipped_path :
      (c : ℕ) (cs : Text) (r : Answer Unit × CrawlState Delay)
      → go_on (crawl_unless services ctx) (go_on (λ _. give (some (c ∷ cs))) r)
        ≡ go_on
            (λ _. give (result_of ProcessStatus.skipped (codes "Crawl skipped: " ++ c ∷ cs) false))
            r
  unfolding crawl_unless
  skipped_path c cs (returned x, state) = refl
  skipped_path c cs (raised e, state) = refl

  status_agrees :
      (status : AttemptStatus)
      → (status ≡ blocked) ⊎ (status ≡ skipped)
      → agrees ProcessStatus.skipped status false ≡ true
  status_agrees status (inl e) = rw e refl
  status_agrees status (inr e) = rw e refl

  skip-Ended :
      (start : CrawlState Delay) (state : CrawlState Delay) (reason : Text) (status : AttemptStatus)
      (message : Text)
      → Unrecorded start state
      → is_empty reason ≡ false
      → (status ≡ blocked) ⊎ (status ≡ skipped)
      → Ended services ctx start (
          go_on
            (crawl_unless services ctx)
            (skip ops lower get_domain writes now ctx.url status message reason state))
  unfolding skip
  skip-Ended start state [] status message same filled which = absurd (ground (arith, filled))
  skip-Ended start state (c ∷ cs) status message same filled which =
      subst (Ended services ctx start) (sym (skipped_path c cs _))
        (concluded _ false _ state same refl (status_agrees status which))

  checked-Ended :
      (start : CrawlState Delay) (state : CrawlState Delay)
      (r : Answer (Option Text) × CrawlState Delay)
      → Unrecorded start state
      → Checked ops lower get_domain writes now ctx state r
      → Ended services ctx start (go_on (crawl_unless services ctx) r)
  checked-Ended start state r same (goes_on may) = delay-Ended start state same
  checked-Ended start state r same (skips reason status message filled which bad) =
      skip-Ended start state reason status message same filled which
  checked-Ended start state r same (stops e asked) = unlogged e state same

  -- However the checks, the fetch, the parser, the indexer and the repositories answer,
  -- `execute_crawl` ends with the two writes of one attempt at the URL, behind which it has
  -- nothing left to do, and returns a result that agrees with the logged status and with the
  -- recorded one; or a stage raised before anything was logged or recorded.
  pub execute_crawl-Ended :
      (state : CrawlState Delay) → Ended services ctx state (execute_crawl services ctx state)
  unfolding execute_crawl
  execute_crawl-Ended state =
      checked-Ended state state _ (Unrecorded-refl state)
        (precheck-Checked ops lower get_domain writes now ctx state)
