-- ===== src/Crawler/Precheck/Outcomes.antt =====
-- How the checks before a fetch end, path by path.
use web_search.Prelude.{
  ℕ, ◌≤◌, ◌<◌, ◌≡◌, refl, sym, ◌⊎◌, inl, inr, Bool, true, false, not, Option, none, some, [], ◌∷◌,
  ◌++◌, arith, ltb, if◌then◌else◌, ltb→lt, length, nat_eq, list_eq, Text, codes, if_cases, pair_eq,
}
use mathlib.Core.Path.{subst}
use web_search.Crawler.Store.{DelayOps}
use web_search.Crawler.Denylist.{is_domain_denied}
use web_search.Crawler.DomainPacing.{set_domain_crawl_delay}
use web_search.Crawler.Queue.{record_crawl_task_result}
use web_search.Crawler.Run.{
  Raised, Answer, Answer.returned, Answer.raised, AttemptStatus, AttemptStatus.blocked,
  AttemptStatus.skipped, LoggedAttempt, CrawlState, Writes, Run, give, go_on, ◌▷◌,
  log_crawl_attempt, record_result, conclude, ask_cases, written,
}
use web_search.Core.UrlAdmission.{max_url_length}
use web_search.Crawler.Precheck.{
  Context, MayFetch, too_long, skip, store_crawl_delay, keep_crawl_delay, precheck,
}

-- The log with one more attempt, unless it is lost.
abbrev pub logged :
    {Delay : Type 0} (log_fails : Bool) → LoggedAttempt → CrawlState Delay → CrawlState Delay
logged log_fails attempt state = record state {
  attempts = if log_fails then state.attempts else state.attempts ++ attempt ∷ [];
}

module _ {Delay : Type 0} (ops : DelayOps Delay) (lower get_domain : Text → Text) (writes : Writes)
    (now : ℕ) where
  -- The first check that speaks against the fetch, with the status, the message and the reason
  -- that it gives.
  pub data Objection (ctx : Context Delay) : AttemptStatus → (message reason : Text) → Type 0 where
    denied :
        is_domain_denied lower ctx.domain ctx.blocked_domains ≡ true
        → Objection ctx blocked (codes "Domain denied by crawl denylist") (codes "blocked")
    long :
        is_domain_denied lower ctx.domain ctx.blocked_domains ≡ false
        → max_url_length < length ctx.url
        → Objection ctx skipped (too_long ctx.url) (codes "url_too_long")
    disallowed :
        is_domain_denied lower ctx.domain ctx.blocked_domains ≡ false
        → length ctx.url ≤ max_url_length
        → ctx.can_fetch ≡ returned false
        → Objection ctx blocked (codes "Blocked by robots.txt") (codes "robots_blocked")
    private_host :
        is_domain_denied lower ctx.domain ctx.blocked_domains ≡ false
        → length ctx.url ≤ max_url_length
        → ctx.can_fetch ≡ returned true
        → ctx.is_private ≡ returned true
        → Objection ctx blocked (codes "SSRF: private IP") (codes "ssrf_blocked")

  -- The attempt that is logged of a skip.
  abbrev pub attempt_of : Text → AttemptStatus → Text → LoggedAttempt
  attempt_of url status message = record {
    url = url;
    status = status;
    http_code = none;
    error_message = some message;
  }

  pub data Prechecked (ctx : Context Delay) (state : CrawlState Delay)
      : Answer (Option Text) × CrawlState Delay → Type 0 where
    passes :
        MayFetch ops lower get_domain writes now ctx
        → ctx.crawl_delay ≡ returned none
        → Prechecked ctx state (returned none, state)
    paces :
        MayFetch ops lower get_domain writes now ctx
        → (delay : Delay) → ctx.crawl_delay ≡ returned (some delay)
        → writes.delay_raises ≡ none
        → Prechecked ctx state (
          returned none,
          record state {
            db = record state.db {
              domain_state = set_domain_crawl_delay ops now ctx.domain delay state.db.domain_state;
            };
          },
        )
    loses_delay :
        MayFetch ops lower get_domain writes now ctx
        → (delay : Delay) (e : Raised) → ctx.crawl_delay ≡ returned (some delay)
        → writes.delay_raises ≡ some e
        → Prechecked ctx state (raised e, state)
    unanswered :
        (e : Raised)
        → (ctx.can_fetch ≡ raised e)
          ⊎ (ctx.is_private ≡ raised e)
          ⊎ (MayFetch ops lower get_domain writes now ctx × (ctx.crawl_delay ≡ raised e))
        → Prechecked ctx state (raised e, state)
    skips :
        (status : AttemptStatus) (message reason : Text)
        → Objection ctx status message reason
        → writes.result_raises ≡ none
        → Prechecked ctx state (
          returned (some reason),
          record (logged writes.log_fails (attempt_of ctx.url status message) state) {
            db = record_crawl_task_result ops get_domain now ctx.url false state.db;
          },
        )
    loses_result :
        (status : AttemptStatus) (message reason : Text) (e : Raised)
        → Objection ctx status message reason
        → writes.result_raises ≡ some e
        → Prechecked ctx state
            (raised e, logged writes.log_fails (attempt_of ctx.url status message) state)

  written_by :
      (raises : Option Raised) (before after : CrawlState Delay) → Answer Unit × CrawlState Delay
  written_by none before after = (returned tt, after)
  written_by (some e) before after = (raised e, before)

  concluded_by :
      (log_fails : Bool) (raises : Option Raised) (attempt : LoggedAttempt)
      (state : CrawlState Delay)
      → (log_crawl_attempt ops get_domain log_fails attempt ▷ λ _.
            record_result ops get_domain raises now attempt.url false)
          state
        ≡ written_by raises
            (logged log_fails attempt state)
            (record (logged log_fails attempt state) {
              db = record_crawl_task_result ops get_domain now attempt.url false state.db;
            })
  unfolding log_crawl_attempt record_result written_by
  concluded_by true none attempt state = refl
  concluded_by false none attempt state = refl
  concluded_by true (some e) attempt state = refl
  concluded_by false (some e) attempt state = refl

  module _ (ctx : Context Delay) (state : CrawlState Delay) where
    abbrev P : Answer (Option Text) × CrawlState Delay → Type 0
    P r = Prechecked ctx state r

    skip_by :
        (status : AttemptStatus) (message reason : Text) (raises : Option Raised)
        → Objection ctx status message reason
        → writes.result_raises ≡ raises
        → let attempt = attempt_of ctx.url status message in
          P (
            go_on
              (λ _. give (some reason))
              (written_by raises
                (logged writes.log_fails attempt state)
                (record (logged writes.log_fails attempt state) {
                  db = record_crawl_task_result ops get_domain now ctx.url false state.db;
                })))
    unfolding written_by
    skip_by status message reason none o e = skips status message reason o e
    skip_by status message reason (some x) o e = loses_result status message reason x o e

    skip-Prechecked :
        (status : AttemptStatus) (message reason : Text)
        → Objection ctx status message reason
        → P (skip ops lower get_domain writes now ctx.url status message reason state)
    unfolding skip conclude
    skip-Prechecked status message reason o =
        subst (λ r. P (go_on (λ _. give (some reason)) r))
          (sym (
            concluded_by writes.log_fails writes.result_raises (attempt_of ctx.url status message)
              state))
          (skip_by status message reason writes.result_raises o refl)

    paced_by :
        (delay : Delay) (raises : Option Raised)
        → MayFetch ops lower get_domain writes now ctx
        → ctx.crawl_delay ≡ returned (some delay)
        → writes.delay_raises ≡ raises
        → P (
            go_on
              (λ _. give none)
              (written raises state (record state {
                db = record state.db {
                  domain_state =
                      set_domain_crawl_delay ops now ctx.domain delay state.db.domain_state;
                };
              })))
    paced_by delay none may d e = paces may delay d e
    paced_by delay (some x) may d e = loses_delay may delay x d e

    stored-Prechecked :
        (delay : Option Delay)
        → MayFetch ops lower get_domain writes now ctx
        → ctx.crawl_delay ≡ returned delay
        → P (
            go_on
              (λ _. give none)
              (store_crawl_delay ops lower get_domain writes now ctx.domain delay state))
    unfolding store_crawl_delay
    stored-Prechecked none may d = passes may d
    stored-Prechecked (some delay) may d = paced_by delay writes.delay_raises may d refl

    delay-Prechecked :
        MayFetch ops lower get_domain writes now ctx
        → P (keep_crawl_delay ops lower get_domain writes now ctx state)
    unfolding keep_crawl_delay
    delay-Prechecked may =
        ask_cases P ctx.crawl_delay _ (λ delay d. stored-Prechecked delay may d)
          (λ e d. unanswered e (inr (inr (may, d))))

    -- The checks go on exactly where the domain is not denied, the URL is not too long, robots.txt
    -- allows the fetch and the host is no private one; then at most the delay that robots.txt asks
    -- for is stored, or what asking for it or storing it raised is raised. The first check that
    -- speaks against the fetch gives the status and the reason of the skip: one attempt at the URL
    -- is logged with that status, unless the log loses it, and a failure is recorded for the URL, or
    -- what that raises is raised. What the question to robots.txt or to the resolver raises is
    -- raised, and nothing has changed.
    pub precheck-Prechecked : P (precheck ops lower get_domain writes now ctx state)
    unfolding precheck
    precheck-Prechecked =
        let R = λ (step : Run Delay (Option Text)). P (step state) in
        if_cases R (is_domain_denied lower ctx.domain ctx.blocked_domains)
          (λ e. skip-Prechecked _ _ _ (denied e))
          (λ undenied.
            if_cases R (ltb max_url_length (length ctx.url))
              (λ e. skip-Prechecked _ _ _ (long undenied (ltb→lt _ _ e)))
              (λ e.
                let short : length ctx.url ≤ max_url_length = ground (arith, e) in
                ask_cases P ctx.can_fetch _
                  (λ can_fetch asked.
                    if_cases R (not can_fetch)
                      (λ e.
                        skip-Prechecked _ _ _
                          (disallowed undenied short (ground (arith, asked, e))))
                      (λ e.
                        let robots : ctx.can_fetch ≡ returned true = ground (arith, asked, e) in
                        ask_cases P ctx.is_private _
                          (λ is_private told.
                            if_cases R is_private
                              (λ e.
                                skip-Prechecked _ _ _
                                  (private_host undenied short robots (ground (arith, told, e))))
                              (λ e. delay-Prechecked (record {
                                undenied = undenied;
                                short = short;
                                robots = robots;
                                public_host = ground (arith, told, e);
                              })))
                          (λ e told. unanswered e (inr (inl told)))))
                  (λ e asked. unanswered e (inl asked))))
