-- ===== src/Crawler/Enqueue.antt =====
-- apps/crawler/src/web_search_crawler/db/crawl_queue.py, the producer's side: URLs that the
-- admission policy allows become rows of the queue, chunk by chunk, each in a transaction of its
-- own. `url_hash` (a prefix of SHA-256) and `get_domain` of packages/core/src/web_search_core/urls.py
-- are parameters. `ends i j` says how attempt `j` at chunk `i` ends.
pub mod Records
pub mod Chunks
pub mod Growth
pub mod Counts
pub mod Returns
pub mod Outcomes
use web_search.Prelude.{
  ℕ, zero, suc, ◌+◌, ◌-◌, ◌*◌, ◌/◌, ◌%◌, ◌^◌, ◌≤◌, ◌<◌, min, max, ◌≡◌, refl, sym, ap, ◌∙◌, ◌≢◌, ◌↔◌,
  ◌⊎◌, inl, inr, Bool, true, false, not, ◌&&◌, ◌||◌, Option, none, some, List, [], ◌∷◌, ◌++◌, map,
  reverse, Perm, Sublist, append-nil, append_assoc, arith, ltb, leb, nat_beq, if◌then◌else◌, ltb→lt,
  lt→ltb, leb→le, nat_beq_iff, Bool-cases, Option-cases, Bool-eq_of_iff, length, take, drop, any,
  all, keep, is_empty, length-append, length-take, take-append-drop, length-keep-le, any-append,
  keep-append, All, Any, Member, HasEq, ◌==◌, nat_eq, list_eq, list_beq, list_beq_iff, beq_refl,
  contains, contains_iff, update, occurrences, capped, occurrences-capped, capped-sublist,
  WithinQuota, take-capped-WithinQuota, sort_by, Sorted, sort_by-perm, sort_by-All, sort_by-Sorted,
  Text, codes, starts_with, ends_with, occurs_in, split, join, strip, lstrip, rstrip, is_space,
  from_last, ascii_lower, starts_with_iff, ends_with_iff, split-ne_nil, join-split, split-append,
  any-congr, any-or, any-false, keep-congr, keep-All, All-keep, All-append, any_iff, Any-map,
  All-map, All-of, beq_sym, text_leb, text_leb_total, text_leb_trans, unique, if_true, if_false,
  Tracks, Tracks-skip, Tracks-take, All-take, keep-All_of, keep_of_All, All-Member, capped-All,
  keep-All_both, All-members, some_pair, decimal, Sorted-eq_of_perm, keep-perm, text_leb_antisymm,
  text_leb_refl, sort_by-All_inv, All-split, contains-sort_by, ◌>>=◌, sort_by_of_Sorted,
  sort_by-Falling, Falling, sort_by-flag, if_cases, contains-append, contains-keep, pair_eq,
  pair_beq, pair_beq_iff, some_injective, ℤ, pos, negsuc, is_positive, is_negative, int_leb,
}
use web_search.Crawler.Store.{QueueRow, DelayOps, Db}
use web_search.Crawler.DomainPacing.{ensure_domain_state_rows}
use web_search.Crawler.Queue.{crawl_queue_retry_limit}
use web_search.Core.UrlAdmission.{
  Policy, UrlLib, AdmissionDecision, Action, Action.allow, Action.reject, evaluate,
}

abbrev pub crawl_queue_admission_chunk_size : ℕ
crawl_queue_admission_chunk_size = 100

-- The values of `records`, keyed by `h`.
pub record CrawlRecord : Type 0 where
  pub h : Text
  pub url : Text
  pub domain : Text

-- A deadlock or a serialization failure is raised by a statement or by the commit, or any other
-- error is raised, which is not tried again.
pub data AttemptEnd : Type 0 where
  statement_failed commit_failed committed aborted : AttemptEnd

-- `records.setdefault(r.h, r)`: a dict keeps the order of insertion.
unfoldable pub setdefault : CrawlRecord → List CrawlRecord → List CrawlRecord
setdefault r records = if contains r.h (map (λ x. x.h) records) then records else records ++ r ∷ []

unfoldable pub hash_before : CrawlRecord → CrawlRecord → Bool
hash_before a b = text_leb a.h b.h

module _ (lib : UrlLib) (policy : Policy) (url_hash get_domain : Text → Text) where
  abbrev pub record_of : Text → CrawlRecord
  record_of normalized_url = record {
    h = url_hash normalized_url;
    url = normalized_url;
    domain = get_domain normalized_url;
  }

  -- One round of the loop over the URLs, from the decision on.
  unfoldable pub add_decision : AdmissionDecision → List CrawlRecord → List CrawlRecord
  unfolding setdefault
  add_decision decision records = elim decision.action [
    | reject ↦ records
    | allow ↦ elim decision.normalized_url [
      | none ↦ records
      | some [] ↦ records
      | some (c ∷ cs) ↦ setdefault (record_of (c ∷ cs)) records
    ]
  ]

  -- The loop, with `records` as its variable; `none` where `evaluate` raises.
  unfoldable pub normalize_loop : List Text → List CrawlRecord → Option (List CrawlRecord)
  unfolding add_decision
  normalize_loop [] records = some records
  normalize_loop (url ∷ urls) records =
      evaluate lib policy url >>= λ decision. normalize_loop urls (add_decision decision records)

  unfoldable pub normalize_batch_urls : List Text → Option (List CrawlRecord)
  unfolding normalize_loop hash_before sort_by
  normalize_batch_urls urls =
      normalize_loop urls [] >>= λ records. some (sort_by hash_before records)

-- `for i in range(0, len(seq), size): yield seq[i : i + size]`, on fuel for the rounds
unfoldable pub chunks_from : {A : Type 0} → ℕ → ℕ → List A → List (List A)
chunks_from zero size seq = []
chunks_from (suc rounds) size [] = []
chunks_from (suc rounds) size (x ∷ xs) =
    take size (x ∷ xs) ∷ chunks_from rounds size (drop size (x ∷ xs))

unfoldable pub chunked : {A : Type 0} → List A → ℕ → List (List A)
unfolding chunks_from
chunked seq size = chunks_from (length seq) size seq

abbrev pub to_row : ℕ → CrawlRecord → QueueRow
to_row now r = record { url_hash = r.h; url = r.url; domain = r.domain; created_at = now }

abbrev pub is_queued : Text → List QueueRow → Bool
is_queued h queue = contains h (map (λ q. q.url_hash) queue)

-- The rows that `INSERT … ON CONFLICT (url_hash) DO NOTHING RETURNING` adds at the end.
unfoldable pub inserted_rows : ℕ → List CrawlRecord → List QueueRow → List QueueRow
inserted_rows now [] queue = []
inserted_rows now (r ∷ rs) queue =
    let rest = inserted_rows now rs queue in
    let more = to_row now r ∷ inserted_rows now rs (queue ++ to_row now r ∷ []) in
    if is_queued r.h queue then rest else more

-- Where the attempts at one chunk end, and `added` by then: `added += …` is done once the
-- statements are, before the commit. `gain` is what the statements add.
unfoldable pub chunk_attempts : (ends : ℕ → AttemptEnd) → ℕ → ℕ → ℕ → ℕ → Bool × ℕ
chunk_attempts ends gain zero attempt added = (false, added)
chunk_attempts ends gain (suc rounds) attempt added =
    let again = chunk_attempts ends gain rounds (attempt + 1) in
    elim (ends attempt) [
      | committed ↦ (true, added + gain)
      | statement_failed ↦
          if leb crawl_queue_retry_limit attempt then (false, added) else again added
      | commit_failed ↦
          if leb crawl_queue_retry_limit attempt
          then (false, added + gain)
          else again (added + gain)
      | aborted ↦ (false, added)
    ]

-- What a call leaves: the result, `none` where the error of a chunk is raised, and the tables.
pub record Outcome (Delay : Type 0) : Type 0 where
  pub added : Option ℕ
  pub db : Db Delay

module _ {Delay : Type 0} (ops : DelayOps Delay) where
  unfoldable pub insert_crawl_queue_batch : List CrawlRecord → ℕ → Db Delay → ℕ × Db Delay
  unfolding inserted_rows ensure_domain_state_rows
  insert_crawl_queue_batch [] now db = (0, db)
  insert_crawl_queue_batch (r ∷ rows) now db =
      let result = inserted_rows now (r ∷ rows) db.crawl_queue in
      (
        length result,
        record {
          crawl_queue = db.crawl_queue ++ result;
          domain_state =
              ensure_domain_state_rows ops now (map (λ x. x.domain) (r ∷ rows)) db.domain_state;
        },
      )

  -- The loop over the chunks, with `added` as its variable.
  unfoldable pub enqueue_chunks :
      (ends : ℕ → ℕ → AttemptEnd) → ℕ → ℕ → List (List CrawlRecord) → ℕ → Db Delay → Outcome Delay
  unfolding insert_crawl_queue_batch chunk_attempts
  enqueue_chunks ends now i [] added db = record { added = some added; db = db }
  enqueue_chunks ends now i (chunk ∷ chunks) added db =
      let (gain, saved) = insert_crawl_queue_batch chunk now db in
      let (done, count) = chunk_attempts (ends i) gain (crawl_queue_retry_limit + 1) 0 added in
      let rest = enqueue_chunks ends now (i + 1) chunks count saved in
      if done then rest else record { added = none; db = db }

  -- `enqueue_urls_for_crawl` from the rows on.
  unfoldable pub enqueue_rows :
      (ends : ℕ → ℕ → AttemptEnd) → ℕ → Option (List CrawlRecord) → Db Delay → Outcome Delay
  unfolding chunked enqueue_chunks
  enqueue_rows ends now none db = record { added = none; db = db }
  enqueue_rows ends now (some []) db = record { added = some 0; db = db }
  enqueue_rows ends now (some (r ∷ rows)) db =
      let chunk_size = max 1 crawl_queue_admission_chunk_size in
      enqueue_chunks ends now 0 (chunked (r ∷ rows) chunk_size) 0 db

  unfoldable pub enqueue_urls_for_crawl :
      (lib : UrlLib) (policy : Policy) (url_hash get_domain : Text → Text)
      (ends : ℕ → ℕ → AttemptEnd)
      → ℕ
      → List Text
      → Db Delay
      → Outcome Delay
  unfolding normalize_batch_urls enqueue_rows
  enqueue_urls_for_crawl lib policy url_hash get_domain ends now [] db = record {
    added = some 0;
    db = db;
  }
  enqueue_urls_for_crawl lib policy url_hash get_domain ends now (u ∷ urls) db =
      enqueue_rows ends now (normalize_batch_urls lib policy url_hash get_domain (u ∷ urls)) db

  -- `enqueue_url_for_crawl`: `none` where it raises.
  unfoldable pub enqueue_url_for_crawl :
      (lib : UrlLib) (policy : Policy) (url_hash get_domain : Text → Text)
      (ends : ℕ → ℕ → AttemptEnd)
      → ℕ
      → Text
      → Db Delay
      → Option Bool × Db Delay
  unfolding enqueue_urls_for_crawl
  enqueue_url_for_crawl lib policy url_hash get_domain ends now url db =
      let outcome = enqueue_urls_for_crawl lib policy url_hash get_domain ends now (url ∷ []) db in
      (outcome.added >>= λ added. some (ltb 0 added), outcome.db)
