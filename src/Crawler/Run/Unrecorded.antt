-- ===== src/Crawler/Run/Unrecorded.antt =====
-- What the steps of a crawl leave alone before its result is recorded: the log, and the pacing of
-- every domain, that is, when its row in `domain_state` lets it be crawled again. Rows that are
-- inserted pace a domain as no row does, and a delay of robots.txt changes no pace that is running.
use web_search.Prelude.{
  ℕ, ◌+◌, max, ◌≡◌, refl, ap, ◌∙◌, Bool, true, false, not, ◌&&◌, Option, none, some, List, [], ◌∷◌,
  map, if◌then◌else◌, is_empty, nat_eq, list_eq, list_beq, list_beq_iff, contains, Text, if_cases,
  pair_eq,
}
use web_search.Crawler.Store.{DomainRow, DelayOps, Db, row_of}
use web_search.Crawler.DomainPacing.{new_row, ensure_domain_state_rows, set_domain_crawl_delay}
use web_search.Crawler.DomainPacing.Rows.{present}
use web_search.Crawler.DomainPacing.Inserts.{
  ensure_domain_state_rows-row_of, set_domain_crawl_delay-row_of,
}
use web_search.Crawler.Enqueue.{
  CrawlRecord, AttemptEnd, chunk_attempts, insert_crawl_queue_batch, enqueue_chunks, enqueue_rows,
  Outcome, normalize_batch_urls, enqueue_urls_for_crawl, chunked, crawl_queue_admission_chunk_size,
}
use web_search.Crawler.Queue.{crawl_queue_retry_limit}
use web_search.Core.UrlAdmission.{Policy, UrlLib}
use web_search.Crawler.Run.{CrawlState}

module _ {Delay : Type 0} where
  -- The time of the next request, the end of the backoff and the failures in a row.
  abbrev pub pacing : Option (DomainRow Delay) → ℕ × Option ℕ × ℕ
  pacing none = (0, none, 0)
  pacing (some s) = (s.next_request_at, s.backoff_until, s.fail_streak)

  pub SamePacing : List (DomainRow Delay) → List (DomainRow Delay) → Type 0
  SamePacing before after = (d : Text) → pacing (row_of d after) ≡ pacing (row_of d before)

  -- Between two states nothing was logged and no result recorded.
  pub record Unrecorded (before after : CrawlState Delay) : Type 0 where
    pub unlogged : after.attempts ≡ before.attempts
    pub paced : SamePacing before.db.domain_state after.db.domain_state

  pub Unrecorded-refl : (state : CrawlState Delay) → Unrecorded state state
  unfolding SamePacing
  Unrecorded-refl state = record { unlogged = refl; paced = λ d. refl }

  pub Unrecorded-trans :
      (a b c : CrawlState Delay) → Unrecorded a b → Unrecorded b c → Unrecorded a c
  unfolding SamePacing
  Unrecorded-trans a b c h k = record {
    unlogged = k.unlogged ∙ h.unlogged;
    paced = λ d. k.paced d ∙ h.paced d;
  }

  same_rows : (t : List (DomainRow Delay)) → SamePacing t t
  unfolding SamePacing
  same_rows t d = refl

  -- A step that does not touch the log and the pacing.
  pub Unrecorded-apart :
      (before after : CrawlState Delay)
      → after.attempts ≡ before.attempts
      → after.db.domain_state ≡ before.db.domain_state
      → Unrecorded before after
  unfolding SamePacing
  Unrecorded-apart before after same paced = record {
    unlogged = same;
    paced = λ d. ap (λ t. pacing (row_of d t)) paced;
  }

module _ {Delay : Type 0} (ops : DelayOps Delay) (now : ℕ) where
  paced_by_insert :
      (d : Text) (o : Option (DomainRow Delay)) (wanted : Bool)
      → pacing
          (elim o [ some s ↦ some s | none ↦ if wanted then some (new_row ops now d) else none ])
        ≡ pacing o
  unfolding new_row
  paced_by_insert d none true = refl
  paced_by_insert d none false = refl
  paced_by_insert d (some s) wanted = refl

  ensured-SamePacing :
      (domains : List Text) (t : List (DomainRow Delay))
      → SamePacing t (ensure_domain_state_rows ops now domains t)
  unfolding SamePacing
  ensured-SamePacing domains t d =
      ap pacing (ensure_domain_state_rows-row_of ops now d domains t)
      ∙ paced_by_insert d (row_of d t) (not (is_empty d) && contains d domains)

  paced_by_delay :
      (d : Text) (o : Option (DomainRow Delay)) (delay : Delay)
      → pacing (
          some (record (elim o [ none ↦ new_row ops now d | some s ↦ s ]) {
            crawl_delay_sec = delay;
            updated_at = now;
          }))
        ≡ pacing o
  unfolding new_row
  paced_by_delay d none delay = refl
  paced_by_delay d (some s) delay = refl

  pub delayed-SamePacing :
      (domain : Text) (delay : Delay) (t : List (DomainRow Delay))
      → SamePacing t (set_domain_crawl_delay ops now domain delay t)
  unfolding SamePacing set_domain_crawl_delay
  delayed-SamePacing [] delay t d = refl
  delayed-SamePacing (c ∷ cs) delay t d =
      ap pacing (set_domain_crawl_delay-row_of ops now d (c ∷ cs) delay t refl)
      ∙ if_cases (λ o. pacing o ≡ pacing (row_of d t)) (list_beq (c ∷ cs) d) {y = row_of d t}
          (λ e.
            let one = (list_beq_iff (c ∷ cs) d).0 e in
            paced_by_delay (c ∷ cs) (row_of (c ∷ cs) t) (
              ops.greatest (present ops now (c ∷ cs) t).crawl_delay_sec
                (ops.greatest delay ops.zero_delay))
            ∙ ap (λ x. pacing (row_of x t)) one)
          (λ e. refl)

  -- Queueing URLs inserts rows of `domain_state` at most.
  batch-SamePacing :
      (rows : List CrawlRecord) (db : Db Delay)
      → SamePacing db.domain_state (insert_crawl_queue_batch ops rows now db).1.domain_state
  unfolding insert_crawl_queue_batch
  batch-SamePacing [] db = same_rows db.domain_state
  batch-SamePacing (r ∷ rows) db =
      ensured-SamePacing (map (λ x. x.domain) (r ∷ rows)) db.domain_state

  module _ (ends : ℕ → ℕ → AttemptEnd) where
    chunks-SamePacing :
        (i : ℕ) (chunks : List (List CrawlRecord)) (added : ℕ) (db : Db Delay)
        → SamePacing db.domain_state (enqueue_chunks ops ends now i chunks added db).db.domain_state
    unfolding enqueue_chunks SamePacing
    chunks-SamePacing i [] added db d = refl
    chunks-SamePacing i (chunk ∷ chunks) added db d =
        let saved = (insert_crawl_queue_batch ops chunk now db).1 in
        let gain = (insert_crawl_queue_batch ops chunk now db).0 in
        let tried = chunk_attempts (ends i) gain (crawl_queue_retry_limit + 1) 0 added in
        if_cases
          (λ (o : Outcome Delay).
            pacing (row_of d o.db.domain_state) ≡ pacing (row_of d db.domain_state))
          tried.0 {x = enqueue_chunks ops ends now (i + 1) chunks tried.1 saved}
          {y = record { added = none; db = db }}
          (λ done. chunks-SamePacing (i + 1) chunks tried.1 saved d ∙ batch-SamePacing chunk db d)
          (λ failed. refl)

    rows-SamePacing :
        (rows : Option (List CrawlRecord)) (db : Db Delay)
        → SamePacing db.domain_state (enqueue_rows ops ends now rows db).db.domain_state
    unfolding enqueue_rows
    rows-SamePacing none db = same_rows db.domain_state
    rows-SamePacing (some []) db = same_rows db.domain_state
    rows-SamePacing (some (r ∷ rows)) db =
        chunks-SamePacing 0 (chunked (r ∷ rows) (max 1 crawl_queue_admission_chunk_size)) 0 db

    pub queued-SamePacing :
        (lib : UrlLib) (policy : Policy) (url_hash get_domain : Text → Text) (urls : List Text)
        (db : Db Delay)
        → SamePacing db.domain_state
            (enqueue_urls_for_crawl ops lib policy url_hash get_domain ends now urls
              db).db.domain_state
    unfolding enqueue_urls_for_crawl
    queued-SamePacing lib policy url_hash get_domain [] db = same_rows db.domain_state
    queued-SamePacing lib policy url_hash get_domain (u ∷ urls) db =
        rows-SamePacing (normalize_batch_urls lib policy url_hash get_domain (u ∷ urls)) db
