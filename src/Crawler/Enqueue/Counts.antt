-- ===== src/Crawler/Enqueue/Counts.antt =====
-- What `enqueue_urls_for_crawl` reports.
use web_search.Prelude.{
  ℕ, zero, suc, ◌+◌, ◌≤◌, max, ◌≡◌, refl, sym, ◌≢◌, inl, inr, true, Option, none, some, List, [],
  ◌∷◌, arith, Bool-cases, length, length-append, nat_eq, list_eq, sort_by, Text,
}
use mathlib.Core.Path.{subst}
use web_search.Crawler.Store.{DelayOps, Db}
use web_search.Crawler.Queue.{crawl_queue_retry_limit}
use web_search.Crawler.Enqueue.{
  CrawlRecord, AttemptEnd, AttemptEnd.commit_failed, chunk_attempts, Outcome,
  insert_crawl_queue_batch, enqueue_chunks, enqueue_rows, normalize_batch_urls,
  enqueue_urls_for_crawl, chunked, crawl_queue_admission_chunk_size,
}
use web_search.Core.UrlAdmission.{Policy, UrlLib}

-- No commit fails: every failure is one of a statement.
abbrev pub CommitsHold : (ℕ → AttemptEnd) → Type 0
CommitsHold ends = (j : ℕ) → ends j ≢ commit_failed

module _ (ends : ℕ → AttemptEnd) (gain : ℕ) where
  attempts_at_least :
      (rounds j added : ℕ)
      → (chunk_attempts ends gain rounds j added).0 ≡ true
      → added + gain ≤ (chunk_attempts ends gain rounds j added).1
  unfolding chunk_attempts
  attempts_at_least zero j added h = ground arith
  attempts_at_least (suc rounds) j added h = ground (
    arith,
    attempts_at_least rounds (j + 1) added,
    attempts_at_least rounds (j + 1) (added + gain),
  )

  attempts_exactly :
      (rounds j added : ℕ)
      → CommitsHold ends
      → (chunk_attempts ends gain rounds j added).0 ≡ true
      → (chunk_attempts ends gain rounds j added).1 ≡ added + gain
  unfolding chunk_attempts
  attempts_exactly zero j added c h = ground arith
  attempts_exactly (suc rounds) j added c h =
      ground (arith, attempts_exactly rounds (j + 1) added c, c j)

module _ {Delay : Type 0} (ops : DelayOps Delay) (now : ℕ) where
  batch_gain :
      (rows : List CrawlRecord) (db : Db Delay)
      → let (gain, saved) = insert_crawl_queue_batch ops rows now db in
        length saved.crawl_queue ≡ length db.crawl_queue + gain
  unfolding insert_crawl_queue_batch
  batch_gain [] db = omega arith
  batch_gain (r ∷ rows) db = length-append db.crawl_queue _

  module _ (ends : ℕ → ℕ → AttemptEnd) where
    -- The result of a loop that returns, against the rows it has added.
    record Counted (added : ℕ) (db : Db Delay) (o : Outcome Delay) (k : ℕ) : Type 0 where
      at_least : length o.db.crawl_queue + added ≤ length db.crawl_queue + k
      exactly :
          ((i : ℕ) → CommitsHold (ends i))
          → length o.db.crawl_queue + added ≡ length db.crawl_queue + k

    enqueue_chunks-Counted :
        (i : ℕ) (chunks : List (List CrawlRecord)) (added k : ℕ) (db : Db Delay)
        → (enqueue_chunks ops ends now i chunks added db).added ≡ some k
        → Counted added db (enqueue_chunks ops ends now i chunks added db) k
    unfolding enqueue_chunks
    enqueue_chunks-Counted i [] added k db h =
        let same : added ≡ k = ground (arith, h) in
        record { at_least = omega (arith, same); exactly = λ c. omega (arith, same) }
    enqueue_chunks-Counted i (chunk ∷ chunks) added k db h =
        let gain = (insert_crawl_queue_batch ops chunk now db).0 in
        let saved = (insert_crawl_queue_batch ops chunk now db).1 in
        let tried = chunk_attempts (ends i) gain (crawl_queue_retry_limit + 1) 0 added in
        elim (Bool-cases tried.0) [
          | inl done ↦
              let rest =
                enqueue_chunks-Counted (i + 1) chunks tried.1 k saved (ground (arith, done, h)) in
              let grown = batch_gain chunk db in
              let least =
                attempts_at_least (ends i) gain (crawl_queue_retry_limit + 1) 0 added done in
              rw (done, enqueue_chunks)
                (record {
                  at_least = omega (arith, rest.at_least, grown, least);
                  exactly = λ c.
                      let all = rest.exactly c in
                      let one =
                        attempts_exactly (ends i) gain (crawl_queue_retry_limit + 1) 0 added (c i)
                          done in
                      omega (arith, all, grown, one);
                })
          | inr failed ↦ absurd (ground (arith, failed, h))
        ]

    -- No rows are no chunks.
    pub enqueue_rows-as_chunks :
        (rows : List CrawlRecord) (db : Db Delay)
        → enqueue_rows ops ends now (some rows) db
          ≡ enqueue_chunks ops ends now 0
              (chunked rows (max 1 crawl_queue_admission_chunk_size))
              0
              db
    unfolding enqueue_rows
    enqueue_rows-as_chunks [] db = refl
    enqueue_rows-as_chunks (r ∷ rows) db = refl

    -- No URLs are no rows.
    pub enqueue_urls_for_crawl-as_rows :
        (lib : UrlLib) (policy : Policy) (url_hash get_domain : Text → Text) (urls : List Text)
        (db : Db Delay)
        → enqueue_urls_for_crawl ops lib policy url_hash get_domain ends now urls db
          ≡ enqueue_rows ops ends now (normalize_batch_urls lib policy url_hash get_domain urls) db
    unfolding enqueue_urls_for_crawl sort_by
    enqueue_urls_for_crawl-as_rows lib policy url_hash get_domain [] db = refl
    enqueue_urls_for_crawl-as_rows lib policy url_hash get_domain (u ∷ urls) db = refl

    rows_raise : (k : ℕ) (db : Db Delay) → (enqueue_rows ops ends now none db).added ≢ some k
    unfolding enqueue_rows
    rows_raise k db h = cc

    enqueue_rows-count :
        (rows : Option (List CrawlRecord)) (k : ℕ) (db : Db Delay)
        → (enqueue_rows ops ends now rows db).added ≡ some k
        → Counted 0 db (enqueue_rows ops ends now rows db) k
    enqueue_rows-count none k db h = absurd (rows_raise k db h)
    enqueue_rows-count (some rows) k db h =
        subst (λ o. o.added ≡ some k → Counted 0 db o k) (sym (enqueue_rows-as_chunks rows db))
          (enqueue_chunks-Counted 0 (chunked rows (max 1 crawl_queue_admission_chunk_size)) 0 k db)
          h

    -- A call of `enqueue_urls_for_crawl` that returns reports at least as many rows as the queue
    -- has got, and exactly as many where no commit fails.
    pub enqueue_urls_for_crawl-count :
        (lib : UrlLib) (policy : Policy) (url_hash get_domain : Text → Text) (urls : List Text)
        (k : ℕ) (db : Db Delay)
        → (enqueue_urls_for_crawl ops lib policy url_hash get_domain ends now urls db).added
          ≡ some k
        → let after =
            (enqueue_urls_for_crawl ops lib policy url_hash get_domain ends now urls db).db in
          (length after.crawl_queue ≤ length db.crawl_queue + k)
          × (((i : ℕ) → CommitsHold (ends i))
              → length after.crawl_queue ≡ length db.crawl_queue + k)
    enqueue_urls_for_crawl-count lib policy url_hash get_domain urls k db h =
        let as_rows = enqueue_urls_for_crawl-as_rows lib policy url_hash get_domain urls db in
        let rows = normalize_batch_urls lib policy url_hash get_domain urls in
        let counted = enqueue_rows-count rows k db (rw as_rows at h) in
        rw as_rows (omega (arith, counted.at_least), λ c. omega (arith, counted.exactly c))
