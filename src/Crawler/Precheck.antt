-- ===== src/Crawler/Precheck.antt =====
-- apps/crawler/src/web_search_crawler/workers/pipeline.py, the checks before a fetch. What
-- robots.txt and the resolver say of the URL is a parameter.
pub mod Outcomes
use web_search.Prelude.{
  ℕ, ◌≤◌, ◌≡◌, refl, ◌⊎◌, inl, inr, Bool, true, false, not, Option, none, some, List, ◌++◌, arith,
  ltb, if◌then◌else◌, length, is_empty, nat_eq, list_eq, Text, codes, decimal, if_cases, pair_eq,
}
use web_search.Crawler.Store.{DelayOps}
use web_search.Crawler.Denylist.{is_domain_denied}
use web_search.Crawler.DomainPacing.{set_domain_crawl_delay}
use web_search.Crawler.Run.{
  Raised, Answer, Answer.returned, Answer.raised, AttemptStatus, AttemptStatus.blocked,
  AttemptStatus.skipped, CrawlState, Writes, Run, give, ask, ◌▷◌, conclude, ask_cases, written,
}
use web_search.Core.UrlAdmission.{max_url_length}

-- What is read of `PipelineContext` here, and what its services answer.
pub record Context (Delay : Type 0) : Type 0 where
  pub url : Text
  pub domain : Text
  pub blocked_domains : List Text
  pub can_fetch : Answer Bool
  pub is_private : Answer Bool
  pub crawl_delay : Answer (Option Delay)

-- `f"URL too long: {len(ctx.url)} > {MAX_URL_LENGTH}"`
abbrev pub too_long : Text → Text
too_long url =
    codes "URL too long: " ++ decimal (length url) ++ codes " > " ++ decimal max_url_length

module _ {Delay : Type 0} (ops : DelayOps Delay) (lower get_domain : Text → Text) (writes : Writes)
    (now : ℕ) where
  -- The two writes that every skip makes.
  unfoldable pub skip : Text → AttemptStatus → (message reason : Text) → Run Delay (Option Text)
  unfolding conclude
  skip url status message reason =
      conclude ops get_domain writes now
        (record { url = url; status = status; http_code = none; error_message = some message })
        false
      ▷ λ _. give (some reason)

  unfoldable pub store_crawl_delay : Text → Option Delay → Run Delay Unit
  unfolding set_domain_crawl_delay
  store_crawl_delay domain none state = (returned tt, state)
  store_crawl_delay domain (some delay) state = written writes.delay_raises state (record state {
    db = record state.db {
      domain_state = set_domain_crawl_delay ops now domain delay state.db.domain_state;
    };
  })

  -- The delay of robots.txt, if there is one.
  unfoldable pub keep_crawl_delay : Context Delay → Run Delay (Option Text)
  unfolding store_crawl_delay
  keep_crawl_delay ctx =
      ask ctx.crawl_delay ▷ λ delay. store_crawl_delay ctx.domain delay ▷ λ _. give none

  -- The reason for a skip, or `none`.
  unfoldable pub precheck : Context Delay → Run Delay (Option Text)
  unfolding skip keep_crawl_delay is_domain_denied decimal
  precheck ctx =
      if is_domain_denied lower ctx.domain ctx.blocked_domains
      then skip ctx.url blocked (codes "Domain denied by crawl denylist") (codes "blocked")
      else if ltb max_url_length (length ctx.url)
      then skip ctx.url skipped (too_long ctx.url) (codes "url_too_long")
      else ask ctx.can_fetch ▷ λ can_fetch.
          if not can_fetch
          then skip ctx.url blocked (codes "Blocked by robots.txt") (codes "robots_blocked")
          else ask ctx.is_private ▷ λ is_private.
              if is_private
              then skip ctx.url blocked (codes "SSRF: private IP") (codes "ssrf_blocked")
              else keep_crawl_delay ctx

  -- Nothing speaks against a fetch.
  pub record MayFetch (ctx : Context Delay) : Type 0 where
    pub undenied : is_domain_denied lower ctx.domain ctx.blocked_domains ≡ false
    pub short : length ctx.url ≤ max_url_length
    pub robots : ctx.can_fetch ≡ returned true
    pub public_host : ctx.is_private ≡ returned false

  -- What the checks have done: the URL may be fetched and at most the delay of its domain is
  -- stored; or one attempt is logged as blocked or skipped, and a failure is recorded for the URL; or
  -- robots.txt or the resolver could not be asked, and nothing has changed.
  pub data Checked (ctx : Context Delay) (state : CrawlState Delay)
      : Answer (Option Text) × CrawlState Delay → Type 0 where
    goes_on : MayFetch ctx → Checked ctx state (keep_crawl_delay ctx state)
    skips :
        (reason : Text) (status : AttemptStatus) (message : Text)
        → is_empty reason ≡ false
        → (status ≡ blocked) ⊎ (status ≡ skipped)
        → (MayFetch ctx → ⊥)
        → Checked ctx state (skip ctx.url status message reason state)
    stops :
        (e : Raised)
        → (ctx.can_fetch ≡ raised e) ⊎ (ctx.is_private ≡ raised e)
        → Checked ctx state (raised e, state)

  -- `precheck` goes on to the delay of the domain, without a reason to skip, exactly where the
  -- domain is not denied, the URL is not too long, robots.txt allows the fetch and the host is no
  -- private one; otherwise it logs one attempt as blocked or skipped, records a failed crawl of
  -- the URL and returns a reason, or changes nothing and raises what the question to robots.txt or to the resolver raised.
  pub precheck-Checked :
      (ctx : Context Delay) (state : CrawlState Delay) → Checked ctx state (precheck ctx state)
  unfolding precheck
  precheck-Checked ctx state =
      let P = Checked ctx state in
      let R = λ (step : Run Delay (Option Text)). P (step state) in
      if_cases R (is_domain_denied lower ctx.domain ctx.blocked_domains)
        (λ e. skips _ blocked _ refl (inl refl) (λ m. ground (arith, m.undenied, e)))
        (λ undenied.
          if_cases R (ltb max_url_length (length ctx.url))
            (λ e. skips _ skipped _ refl (inr refl) (λ m. ground (arith, m.short, e)))
            (λ short.
              ask_cases P ctx.can_fetch _
                (λ can_fetch asked.
                  if_cases R (not can_fetch)
                    (λ e.
                      skips _ blocked _ refl (inl refl) (λ m. ground (arith, m.robots, asked, e)))
                    (λ robots.
                      ask_cases P ctx.is_private _
                        (λ is_private told.
                          if_cases R is_private
                            (λ e.
                              skips _ blocked _ refl (inl refl)
                                (λ m. ground (arith, m.public_host, told, e)))
                            (λ public. goes_on (record {
                              undenied = undenied;
                              short = ground (arith, short);
                              robots = ground (arith, asked, robots);
                              public_host = ground (arith, told, public);
                            })))
                        (λ e told. stops e (inr told))))
                (λ e asked. stops e (inl asked))))
