-- ===== src/WebModel/Ledger.antt =====
-- packages/web-model/src/web_search_web_model/urls.py: `UrlLedgerRepository`, the URLs that have
-- been seen. The table `urls` has the columns of the queue of the crawler, and the same rows.
-- `ends i j` says how attempt `j` at chunk `i` ends.
pub mod Progress
pub mod Recorded
use web_search.Prelude.{
  ℕ, zero, suc, ◌+◌, ◌-◌, ◌*◌, ◌/◌, ◌%◌, ◌^◌, ◌≤◌, ◌<◌, min, max, ◌≡◌, refl, sym, ap, ◌∙◌, ◌≢◌, ◌↔◌,
  ◌⊎◌, inl, inr, Bool, true, false, not, ◌&&◌, ◌||◌, Option, none, some, List, [], ◌∷◌, ◌++◌, map,
  reverse, Perm, Sublist, append-nil, append_assoc, arith, ltb, leb, nat_beq, if◌then◌else◌, ltb→lt,
  lt→ltb, leb→le, nat_beq_iff, Bool-cases, Option-cases, Bool-eq_of_iff, length, take, drop, any,
  all, keep, is_empty, length-append, length-take, take-append-drop, length-keep-le, any-append,
  keep-append, All, Any, Member, HasEq, ◌==◌, nat_eq, list_eq, list_beq, list_beq_iff, beq_refl,
  contains, contains_iff, update, occurrences, capped, occurrences-capped, capped-sublist,
  WithinQuota, take-capped-WithinQuota, sort_by, Sorted, sort_by-perm, sort_by-All, sort_by-Sorted,
  Text, codes, starts_with, ends_with, occurs_in, split, join, strip, lstrip, rstrip, is_space,
  from_last, ascii_lower, starts_with_iff, ends_with_iff, split-ne_nil, join-split, split-append,
  any-congr, any-or, any-false, keep-congr, keep-All, All-keep, All-append, any_iff, Any-map,
  All-map, All-of, beq_sym, text_leb, text_leb_total, text_leb_trans, unique, if_true, if_false,
  Tracks, Tracks-skip, Tracks-take, All-take, keep-All_of, keep_of_All, All-Member, capped-All,
  keep-All_both, All-members, some_pair, decimal, Sorted-eq_of_perm, keep-perm, text_leb_antisymm,
  text_leb_refl, sort_by-All_inv, All-split, contains-sort_by, ◌>>=◌, sort_by_of_Sorted,
  sort_by-Falling, Falling, sort_by-flag, if_cases, contains-append, contains-keep, pair_eq,
  pair_beq, pair_beq_iff, some_injective, ℤ, pos, negsuc, is_positive, is_negative, int_leb,
}
use web_search.Crawler.Store.{QueueRow}
use web_search.Crawler.Enqueue.{
  CrawlRecord, AttemptEnd, AttemptEnd.statement_failed, AttemptEnd.commit_failed,
  AttemptEnd.committed, AttemptEnd.aborted, setdefault, hash_before, record_of, chunked,
  inserted_rows,
}
use web_search.Core.UrlAdmission.{Policy, UrlLib, AdmissionDecision, evaluate}

-- The integers of the environment, CRAWL_ENQUEUE_CHUNK_SIZE and CRAWL_ENQUEUE_RETRY_LIMIT.
pub record LedgerSettings : Type 0 where
  pub url_ledger_chunk_size : ℤ
  pub url_ledger_retry_limit : ℤ

-- `max(1, size)`
abbrev pub at_least_one : ℤ → ℕ
at_least_one (pos n) = max 1 n
at_least_one (negsuc n) = 1

-- `decision.normalized_url or url`
unfoldable pub known_url : Option Text → Text → Text
known_url none url = url
known_url (some []) url = url
known_url (some (c ∷ cs)) url = c ∷ cs

module _ (lib : UrlLib) (policy : Policy) (url_hash get_domain : Text → Text) where
  -- The loop over the URLs, with `records` as its variable; `none` where `evaluate` raises.
  unfoldable pub known_loop : List Text → List CrawlRecord → Option (List CrawlRecord)
  unfolding known_url setdefault
  known_loop [] records = some records
  known_loop ([] ∷ urls) records = known_loop urls records
  known_loop ((c ∷ cs) ∷ urls) records = evaluate lib policy (c ∷ cs) >>= λ decision.
      let known = known_url decision.normalized_url (c ∷ cs) in
      known_loop urls (setdefault (record_of lib policy url_hash get_domain known) records)

  unfoldable pub normalize_known_urls : List Text → Option (List CrawlRecord)
  unfolding known_loop hash_before sort_by
  normalize_known_urls urls = known_loop urls [] >>= λ records. some (sort_by hash_before records)

-- The result and the new rows of the statement, which `execute_values` fetches.
unfoldable pub insert_urls_batch : List CrawlRecord → ℕ → List QueueRow → ℕ × List QueueRow
unfolding inserted_rows
insert_urls_batch [] now urls = (0, urls)
insert_urls_batch (r ∷ rows) now urls =
    let result = inserted_rows now (r ∷ rows) urls in (length result, urls ++ result)

-- Whether one of the attempts at a chunk commits, and `recorded` by then: it is raised once the
-- statement is done, before the commit. `gain` is what the statement adds.
unfoldable pub record_attempts :
    (ends : ℕ → AttemptEnd) (retry_limit gain rounds attempt recorded : ℕ) → Bool × ℕ
record_attempts ends retry_limit gain zero attempt recorded = (false, recorded)
record_attempts ends retry_limit gain (suc rounds) attempt recorded =
    let again = record_attempts ends retry_limit gain rounds (attempt + 1) in
    elim (ends attempt) [
      | committed ↦ (true, recorded + gain)
      | statement_failed ↦ if leb retry_limit attempt then (false, recorded) else again recorded
      | commit_failed ↦
          if leb retry_limit attempt then (false, recorded + gain) else again (recorded + gain)
      | aborted ↦ (false, recorded)
    ]

-- What a call leaves: the result, `none` where it raises, and the table.
pub record LedgerOutcome : Type 0 where
  pub recorded : Option ℕ
  pub urls : List QueueRow

-- The loop over the chunks, with `recorded` as its variable. A negative limit leaves no attempt: the
-- loop over the attempts ends, and nothing is raised.
unfoldable pub record_chunks :
    (retry_limit : ℤ) (ends : ℕ → ℕ → AttemptEnd) (now i : ℕ)
    → List (List CrawlRecord)
    → (recorded : ℕ) → List QueueRow
    → LedgerOutcome
unfolding insert_urls_batch record_attempts
record_chunks retry_limit ends now i [] recorded urls = record {
  recorded = some recorded;
  urls = urls;
}
record_chunks (negsuc n) ends now i (chunk ∷ chunks) recorded urls =
    record_chunks (negsuc n) ends now (i + 1) chunks recorded urls
record_chunks (pos limit) ends now i (chunk ∷ chunks) recorded urls =
    let (gain, saved) = insert_urls_batch chunk now urls in
    let (done, count) = record_attempts (ends i) limit gain (limit + 1) 0 recorded in
    let rest = record_chunks (pos limit) ends now (i + 1) chunks count saved in
    if done then rest else record { recorded = none; urls = urls }

-- `record_discovered_urls` from the rows on.
unfoldable pub record_rows :
    LedgerSettings
    → (ends : ℕ → ℕ → AttemptEnd) → ℕ
    → Option (List CrawlRecord)
    → List QueueRow
    → LedgerOutcome
unfolding chunked record_chunks
record_rows settings ends now none urls = record { recorded = none; urls = urls }
record_rows settings ends now (some []) urls = record { recorded = some 0; urls = urls }
record_rows settings ends now (some (r ∷ rows)) urls =
    record_chunks settings.url_ledger_retry_limit ends now 0
      (chunked (r ∷ rows) (at_least_one settings.url_ledger_chunk_size)) 0 urls

module _ (lib : UrlLib) (policy : Policy) (url_hash get_domain : Text → Text)
    (settings : LedgerSettings) where
  unfoldable pub record_discovered_urls :
      (ends : ℕ → ℕ → AttemptEnd) → ℕ → List Text → List QueueRow → LedgerOutcome
  unfolding normalize_known_urls record_rows
  record_discovered_urls ends now [] urls = record { recorded = some 0; urls = urls }
  record_discovered_urls ends now (u ∷ us) urls =
      record_rows settings ends now (normalize_known_urls lib policy url_hash get_domain (u ∷ us))
        urls

  -- `none` where it raises.
  unfoldable pub record_discovered_url :
      (ends : ℕ → ℕ → AttemptEnd) → ℕ → Text → List QueueRow → Option Bool × List QueueRow
  unfolding record_discovered_urls
  record_discovered_url ends now url urls =
      let outcome = record_discovered_urls ends now (url ∷ []) urls in
      (outcome.recorded >>= λ recorded. some (ltb 0 recorded), outcome.urls)
