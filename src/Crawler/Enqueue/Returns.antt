-- ===== src/Crawler/Enqueue/Returns.antt =====
-- When `enqueue_urls_for_crawl` returns.
use web_search.Prelude.{
  ℕ, ◌+◌, max, ◌≡◌, sym, ◌≢◌, ◌⊎◌, inl, inr, true, none, some, List, [], ◌∷◌, arith, Option-cases,
  All, nat_eq, list_eq, Text, pair_eq,
}
use web_search.Crawler.Store.{DelayOps, Db}
use web_search.Crawler.Queue.{crawl_queue_retry_limit}
use web_search.Crawler.Enqueue.{
  CrawlRecord, AttemptEnd, AttemptEnd.committed, AttemptEnd.aborted, chunk_attempts,
  insert_crawl_queue_batch, enqueue_chunks, normalize_batch_urls, normalize_loop, add_decision,
  enqueue_urls_for_crawl, chunked, crawl_queue_admission_chunk_size,
}
use web_search.Crawler.Enqueue.Counts.{enqueue_rows-as_chunks, enqueue_urls_for_crawl-as_rows}
use web_search.Core.UrlAdmission.{Policy, UrlLib, AdmissionDecision, evaluate}

-- One of the three attempts commits, before any of them ends in an error that is not tried again.
abbrev pub Commits : (ℕ → AttemptEnd) → Type 0
Commits ends =
    (ends 0 ≡ committed)
    ⊎ ((ends 0 ≢ aborted) × (ends 1 ≡ committed))
    ⊎ ((ends 0 ≢ aborted) × (ends 1 ≢ aborted) × (ends 2 ≡ committed))

attempts_commit :
    (ends : ℕ → AttemptEnd) (gain added : ℕ)
    → Commits ends
    → (chunk_attempts ends gain (crawl_queue_retry_limit + 1) 0 added).0 ≡ true
unfolding chunk_attempts
attempts_commit ends gain added c = ground (arith, c)

module _ (lib : UrlLib) (policy : Policy) (url_hash get_domain : Text → Text) where
  -- Every URL gets a decision.
  abbrev pub Decided : List Text → Type 0
  Decided urls = All (λ u. (d : AdmissionDecision) × (evaluate lib policy u ≡ some d)) urls

  loop_returns :
      (urls : List Text) (records : List CrawlRecord)
      → Decided urls
      → normalize_loop lib policy url_hash get_domain urls records ≢ none
  unfolding normalize_loop
  loop_returns [] records h e = cc
  loop_returns (u ∷ urls) records ((d, good), h) e =
      loop_returns urls (add_decision lib policy url_hash get_domain d records) h
        (rw (good, normalize_loop) at e)

  batch_returns :
      (urls : List Text)
      → Decided urls
      → normalize_batch_urls lib policy url_hash get_domain urls ≢ none
  unfolding normalize_batch_urls
  batch_returns urls h e =
      elim (Option-cases (normalize_loop lib policy url_hash get_domain urls [])) [
        | inl bad ↦ loop_returns urls [] h bad
        | inr (out, good) ↦ ground (arith, good, e)
      ]

module _ {Delay : Type 0} (ops : DelayOps Delay) (ends : ℕ → ℕ → AttemptEnd) (now : ℕ) where
  chunks_return :
      (i : ℕ) (chunks : List (List CrawlRecord)) (added : ℕ) (db : Db Delay)
      → ((j : ℕ) → Commits (ends j))
      → (enqueue_chunks ops ends now i chunks added db).added ≢ none
  unfolding enqueue_chunks
  chunks_return i [] added db c e = cc
  chunks_return i (chunk ∷ chunks) added db c e =
      let gain = (insert_crawl_queue_batch ops chunk now db).0 in
      let saved = (insert_crawl_queue_batch ops chunk now db).1 in
      let tried = chunk_attempts (ends i) gain (crawl_queue_retry_limit + 1) 0 added in
      let done = attempts_commit (ends i) gain added (c i) in
      chunks_return (i + 1) chunks tried.1 saved c (ground (arith, done, e))

  -- `enqueue_urls_for_crawl` returns where every URL gets a decision and one of the three attempts
  -- at each chunk commits, before any of them ends in an error that is not tried again.
  pub enqueue_urls_for_crawl-returns :
      (lib : UrlLib) (policy : Policy) (url_hash get_domain : Text → Text) (urls : List Text)
      (db : Db Delay)
      → Decided lib policy url_hash get_domain urls
      → ((j : ℕ) → Commits (ends j))
      → (enqueue_urls_for_crawl ops lib policy url_hash get_domain ends now urls db).added ≢ none
  enqueue_urls_for_crawl-returns lib policy url_hash get_domain urls db h c e =
      let as_rows =
        enqueue_urls_for_crawl-as_rows ops now ends lib policy url_hash get_domain urls db in
      elim (Option-cases (normalize_batch_urls lib policy url_hash get_domain urls)) [
        | inl bad ↦ batch_returns lib policy url_hash get_domain urls h bad
        | inr (rows, good) ↦
            chunks_return 0 (chunked rows (max 1 crawl_queue_admission_chunk_size)) 0 db c
              (rw (sym (enqueue_rows-as_chunks ops now ends rows db)) (rw (as_rows, good) at e))
      ]
