-- ===== src/Crawler/Enqueue/Outcomes.antt =====
-- What `enqueue_urls_for_crawl` leaves in the queue, whether it returns or raises.
use web_search.Prelude.{
  ℕ, ◌+◌, max, ◌≡◌, refl, sym, ap, ◌≢◌, inl, inr, true, none, some, List, [], ◌∷◌, ◌++◌, append-nil,
  arith, Bool-cases, Option-cases, All, Any, Member, nat_eq, list_eq, Text, Any-map, All-map,
  All-members, All-split,
}
use mathlib.Core.Path.{subst}
use web_search.Crawler.Store.{QueueRow, DelayOps, Db}
use web_search.Crawler.Queue.{crawl_queue_retry_limit}
use web_search.Crawler.Enqueue.{
  CrawlRecord, AttemptEnd, chunk_attempts, Outcome, insert_crawl_queue_batch, enqueue_chunks,
  enqueue_rows, normalize_batch_urls, enqueue_urls_for_crawl, chunked,
  crawl_queue_admission_chunk_size, is_queued, record_of,
}
use web_search.Crawler.Enqueue.Records.{
  Allows, normalize_batch_urls-All, normalize_batch_urls_complete,
}
use web_search.Crawler.Enqueue.Chunks.{flat, chunked-flat}
use web_search.Crawler.Enqueue.Growth.{
  Made, Grown, Grown-nil, Grown-append, inserted_rows-Grown, Distinct, hashes_of,
}
use web_search.Crawler.Enqueue.Counts.{enqueue_rows-as_chunks, enqueue_urls_for_crawl-as_rows}
use web_search.Core.UrlAdmission.{Policy, UrlLib}

module _ {Delay : Type 0} (ops : DelayOps Delay) (now : ℕ) (P : CrawlRecord → Type 0) where
  batch-Grown :
      (rows : List CrawlRecord) (db : Db Delay)
      → All P rows
      → Grown now P rows db.crawl_queue (insert_crawl_queue_batch ops rows now db).1.crawl_queue
  unfolding insert_crawl_queue_batch
  batch-Grown [] db h = Grown-nil now P db.crawl_queue
  batch-Grown (r ∷ rows) db h = inserted_rows-Grown now P (r ∷ rows) db.crawl_queue h

  module _ (ends : ℕ → ℕ → AttemptEnd) where
    -- Some rows are through, and all of them where the loop returns.
    record Progress (rows : List CrawlRecord) (db : Db Delay) (o : Outcome Delay) : Type 0 where
      through : List CrawlRecord
      part : Grown now P through db.crawl_queue o.db.crawl_queue
      whole : (k : ℕ) → o.added ≡ some k → through ≡ rows

    nothing_through :
        (rows : List CrawlRecord) (db : Db Delay)
        → Progress rows db (record { added = none; db = db })
    nothing_through rows db = record {
      through = [];
      part = Grown-nil now P db.crawl_queue;
      whole = λ k h. cc;
    }

    enqueue_chunks-Progress :
        (i : ℕ) (chunks : List (List CrawlRecord)) (added : ℕ) (db : Db Delay)
        → All P (flat chunks)
        → Progress (flat chunks) db (enqueue_chunks ops ends now i chunks added db)
    unfolding enqueue_chunks
    enqueue_chunks-Progress i [] added db h = record {
      through = [];
      part = Grown-nil now P db.crawl_queue;
      whole = λ k h. refl;
    }
    enqueue_chunks-Progress i (chunk ∷ chunks) added db h =
        let (here, later) = All-split P chunk (flat chunks) h in
        let gain = (insert_crawl_queue_batch ops chunk now db).0 in
        let saved = (insert_crawl_queue_batch ops chunk now db).1 in
        let tried = chunk_attempts (ends i) gain (crawl_queue_retry_limit + 1) 0 added in
        elim (Bool-cases tried.0) [
          | inl done ↦
              let rest = enqueue_chunks-Progress (i + 1) chunks tried.1 saved later in
              rw (done, enqueue_chunks)
                (record {
                  through = chunk ++ rest.through;
                  part =
                      Grown-append now P chunk rest.through db.crawl_queue saved.crawl_queue _
                        (batch-Grown chunk db here) rest.part;
                  whole = λ k e. ap (◌++◌ chunk) (rest.whole k e);
                })
          | inr failed ↦ rw (failed, enqueue_chunks) (nothing_through _ db)
        ]

    enqueue_rows-Progress :
        (rows : List CrawlRecord) (db : Db Delay)
        → All P rows
        → Progress rows db (enqueue_rows ops ends now (some rows) db)
    enqueue_rows-Progress rows db h =
        let size = max 1 crawl_queue_admission_chunk_size in
        let whole = (chunked-flat rows size (omega arith)).0 in
        subst (λ o. Progress rows db o) (sym (enqueue_rows-as_chunks ops now ends rows db))
          (subst (λ r. Progress r db (enqueue_chunks ops ends now 0 (chunked rows size) 0 db)) whole
            (enqueue_chunks-Progress 0 (chunked rows size) 0 db (subst (All P) (sym whole) h)))

module _ {Delay : Type 0} (ops : DelayOps Delay) (lib : UrlLib) (policy : Policy)
    (url_hash get_domain : Text → Text) (ends : ℕ → ℕ → AttemptEnd) (now : ℕ) where
  -- A row for a URL that the policy allows, under its normal form.
  pub record IsRowOf (urls : List Text) (q : QueueRow) : Type 0 where
    pub url_allowed : Any (λ u. Allows lib policy url_hash get_domain u q.url) urls
    pub hash : q.url_hash ≡ url_hash q.url
    pub host : q.domain ≡ get_domain q.url
    pub time : q.created_at ≡ now

  -- The queue after a call, which has returned where `returned` holds.
  pub record Enqueued (urls : List Text) (returned : Type 0) (before after : List QueueRow)
      : Type 0 where
    pub new : List QueueRow
    pub grown : after ≡ before ++ new
    pub made : All (IsRowOf urls) new
    pub distinct : Distinct (hashes_of before) → Distinct (hashes_of after)
    pub complete :
        returned
        → (u n : Text) → Member u urls
        → Allows lib policy url_hash get_domain u n
        → is_queued (url_hash n) after ≡ true

  abbrev FromUrls : List Text → CrawlRecord → Type 0
  FromUrls urls r =
      Any (λ u. Allows lib policy url_hash get_domain u r.url) urls
      × (r.h ≡ url_hash r.url)
      × (r.domain ≡ get_domain r.url)

  rows-FromUrls :
      (urls : List Text)
      → All
          (λ u.
            (n : Text)
            → Allows lib policy url_hash get_domain u n
            → FromUrls urls (record_of lib policy url_hash get_domain n))
          urls
  rows-FromUrls urls =
      All-map (λ u. Member u urls) _ urls
        (λ u m n a. (
          Any-map (λ v. u ≡ v) _ urls
              (λ v e. subst (λ x. Allows lib policy url_hash get_domain x n) e a) m,
          refl,
          refl,
        ))
        (All-members urls)

  Made-IsRowOf : (urls : List Text) (q : QueueRow) → Made now (FromUrls urls) q → IsRowOf urls q
  Made-IsRowOf urls q (r, (from, h, d), same) =
      subst (IsRowOf urls) (sym same)
        (record { url_allowed = from; hash = h; host = d; time = refl })

  Enqueued-by :
      (urls : List Text) (rows : List CrawlRecord) (db : Db Delay) (o : Outcome Delay)
      → normalize_batch_urls lib policy url_hash get_domain urls ≡ some rows
      → Progress ops now (FromUrls urls) ends rows db o
      → Enqueued urls (o.added ≢ none) db.crawl_queue o.db.crawl_queue
  Enqueued-by urls rows db o batch p = record {
    new = p.part.new;
    grown = p.part.grown;
    made = All-map _ (IsRowOf urls) p.part.new (Made-IsRowOf urls) p.part.made;
    distinct = p.part.distinct;
    complete = λ returned u n m a. elim (Option-cases o.added) [
      | inl raised ↦ absurd (returned raised)
      | inr (k, back) ↦
          normalize_batch_urls_complete lib policy url_hash get_domain
            (λ h. is_queued h o.db.crawl_queue) u n urls rows m a batch
            (subst (All (λ r. is_queued r.h o.db.crawl_queue ≡ true)) (p.whole k back)
              p.part.complete)
    ];
  }

  raised-Enqueued :
      (urls : List Text) (db : Db Delay)
      → let o = enqueue_rows ops ends now none db in
        Enqueued urls (o.added ≢ none) db.crawl_queue o.db.crawl_queue
  unfolding enqueue_rows
  raised-Enqueued urls db = record {
    new = [];
    grown = sym (append-nil db.crawl_queue);
    made = tt;
    distinct = λ d. d;
    complete = λ returned u n m a. absurd (returned refl);
  }

  -- Whether `enqueue_urls_for_crawl` returns or raises, the queue has only got rows at its end,
  -- each for a URL of the call that the policy allows, under its normal form, with its hash, its
  -- host and the time; if no two rows had the same hash before, none have after; and where the
  -- call returns, the hash of the normal form of every allowed URL is in the queue.
  pub enqueue_urls_for_crawl-Enqueued :
      (urls : List Text) (db : Db Delay)
      → let o = enqueue_urls_for_crawl ops lib policy url_hash get_domain ends now urls db in
        Enqueued urls (o.added ≢ none) db.crawl_queue o.db.crawl_queue
  enqueue_urls_for_crawl-Enqueued urls db =
      let batch = normalize_batch_urls lib policy url_hash get_domain urls in
      rw (enqueue_urls_for_crawl-as_rows ops now ends lib policy url_hash get_domain urls db)
        (elim (Option-cases batch) [
          | inl bad ↦ rw bad (raised-Enqueued urls db)
          | inr (rows, good) ↦ rw good (
              Enqueued-by urls rows db (enqueue_rows ops ends now (some rows) db) good (
                enqueue_rows-Progress ops now (FromUrls urls) ends rows db (
                  normalize_batch_urls-All lib policy url_hash get_domain (FromUrls urls) urls rows
                    (rows-FromUrls urls) good)))
        ])
