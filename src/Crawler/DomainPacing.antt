-- ===== src/Crawler/DomainPacing.antt =====
-- apps/crawler/src/web_search_crawler/db/url_domain_state.py: `DomainSchedulingStateStore`. Each
-- method is a function on the table `domain_state`; a statement of SQL is a function by clauses.
pub mod Rows
pub mod Inserts
pub mod Backoff
use web_search.Prelude.{
  ℕ, zero, suc, ◌+◌, ◌-◌, ◌*◌, ◌/◌, ◌%◌, ◌^◌, ◌≤◌, ◌<◌, min, max, ◌≡◌, refl, sym, ap, ◌∙◌, ◌≢◌, ◌↔◌,
  ◌⊎◌, inl, inr, Bool, true, false, not, ◌&&◌, ◌||◌, Option, none, some, List, [], ◌∷◌, ◌++◌, map,
  reverse, Perm, Sublist, append-nil, append_assoc, arith, ltb, leb, nat_beq, if◌then◌else◌, ltb→lt,
  lt→ltb, leb→le, nat_beq_iff, Bool-cases, Option-cases, Bool-eq_of_iff, length, take, drop, any,
  all, keep, is_empty, length-append, length-take, take-append-drop, length-keep-le, any-append,
  keep-append, All, Any, Member, HasEq, ◌==◌, nat_eq, list_eq, list_beq, list_beq_iff, beq_refl,
  contains, contains_iff, update, occurrences, capped, occurrences-capped, capped-sublist,
  WithinQuota, take-capped-WithinQuota, sort_by, Sorted, sort_by-perm, sort_by-All, sort_by-Sorted,
  Text, codes, starts_with, ends_with, occurs_in, split, join, strip, lstrip, rstrip, is_space,
  from_last, ascii_lower, starts_with_iff, ends_with_iff, split-ne_nil, join-split, split-append,
  any-congr, any-or, any-false, keep-congr, keep-All, All-keep, All-append, any_iff, Any-map,
  All-map, All-of, beq_sym, text_leb, text_leb_total, text_leb_trans, unique,
}
use web_search.Crawler.Store.{DomainRow, DomainState, DelayOps, row_of}

abbrev pub max_domain_backoff_sec : ℕ
max_domain_backoff_sec = 3600

module _ {Delay : Type 0} (ops : DelayOps Delay) where
  -- The values of a new row.
  unfoldable pub new_row : ℕ → Text → DomainRow Delay
  new_row now d = record {
    domain = d;
    next_request_at = 0;
    crawl_delay_sec = ops.default_delay;
    backoff_until = none;
    fail_streak = 0;
    updated_at = now;
  }

  -- `INSERT … ON CONFLICT (domain) DO NOTHING`, value by value
  unfoldable pub insert_rows : ℕ → List Text → List (DomainRow Delay) → List (DomainRow Delay)
  unfolding row_of new_row
  insert_rows now [] table = table
  insert_rows now (d ∷ ds) table =
      insert_rows now ds
        (elim (row_of d table) [ none ↦ table ++ new_row now d ∷ [] | some _ ↦ table ])

  -- `sorted({domain for domain in domains if domain})`
  unfoldable pub unique_domains : List Text → List Text
  unfolding sort_by
  unique_domains domains = sort_by text_leb (unique (keep (λ d. not (is_empty d)) domains))

  unfoldable pub ensure_domain_state_rows :
      ℕ → List Text → List (DomainRow Delay) → List (DomainRow Delay)
  unfolding insert_rows unique_domains
  ensure_domain_state_rows now domains table =
      let wanted = unique_domains domains in
      if is_empty wanted then table else insert_rows now wanted table

  -- `SELECT … LEFT JOIN … WHERE ds.domain IS NULL`
  unfoldable pub missing_domains : List Text → List (DomainRow Delay) → List Text
  unfolding row_of
  missing_domains domains table =
      keep (λ d. elim (row_of d table) [ none ↦ true | some _ ↦ false ]) domains

  unfoldable pub ensure_missing_domain_state_rows :
      ℕ → List Text → List (DomainRow Delay) → List (DomainRow Delay)
  unfolding ensure_domain_state_rows missing_domains
  ensure_missing_domain_state_rows now domains table =
      let wanted = unique_domains domains in
      if is_empty wanted
      then table
      else let missing = missing_domains wanted table in
        if is_empty missing then table else ensure_domain_state_rows now missing table

  -- `UPDATE domain_state SET … WHERE domain = d`
  unfoldable pub update_where :
      Text → (DomainRow Delay → DomainRow Delay) → List (DomainRow Delay) → List (DomainRow Delay)
  update_where d f [] = []
  update_where d f (s ∷ rest) = (if s.domain == d then f s else s) ∷ update_where d f rest

  -- `cur.rowcount` of that statement
  unfoldable pub rowcount : Text → List (DomainRow Delay) → ℕ
  rowcount d [] = 0
  rowcount d (s ∷ rest) = if s.domain == d then suc (rowcount d rest) else rowcount d rest

  -- `GREATEST(CEIL(crawl_delay_sec)::INTEGER, 1)`
  abbrev pub pace : DomainRow Delay → ℕ
  pace s = max (ops.ceil s.crawl_delay_sec) 1

  -- `LEAST(pace * (2 ^ LEAST(fail_streak + 1, 10)), MAX_DOMAIN_BACKOFF_SEC)`
  unfoldable pub backoff_seconds : DomainRow Delay → ℕ
  backoff_seconds s = min (pace s * 2 ^ min (s.fail_streak + 1) 10) max_domain_backoff_sec

  unfoldable pub after_success : ℕ → DomainRow Delay → DomainRow Delay
  after_success now s = record s {
    next_request_at = now + pace s;
    backoff_until = none;
    fail_streak = 0;
    updated_at = now;
  }

  unfoldable pub after_failure : ℕ → DomainRow Delay → DomainRow Delay
  unfolding backoff_seconds
  after_failure now s = record s {
    fail_streak = s.fail_streak + 1;
    backoff_until = some (now + backoff_seconds s);
    updated_at = now;
  }

  -- An update that is made again after the row was inserted, if it met none.
  unfoldable pub update_or_insert :
      ℕ
      → Text
      → (DomainRow Delay → DomainRow Delay)
      → List (DomainRow Delay)
      → List (DomainRow Delay)
  unfolding update_where rowcount ensure_missing_domain_state_rows
  update_or_insert now domain f table =
      let updated = update_where domain f table in
      if nat_beq (rowcount domain table) 0
      then update_where domain f (ensure_missing_domain_state_rows now (domain ∷ []) updated)
      else updated

  unfoldable pub record_crawl_result :
      ℕ → Text → Bool → List (DomainRow Delay) → List (DomainRow Delay)
  unfolding update_or_insert after_success after_failure
  record_crawl_result now domain is_success table =
      if is_empty domain
      then table
      else if is_success
      then update_or_insert now domain (after_success now) table
      else update_or_insert now domain (after_failure now) table

  unfoldable pub set_domain_crawl_delay :
      ℕ → Text → Delay → List (DomainRow Delay) → List (DomainRow Delay)
  unfolding update_where ensure_domain_state_rows
  set_domain_crawl_delay now domain delay table =
      if is_empty domain
      then table
      else let normalized_delay = ops.greatest delay ops.zero_delay in
        let ensured = ensure_domain_state_rows now (domain ∷ []) table in
        update_where domain
          (λ s. record s {
            crawl_delay_sec = ops.greatest s.crawl_delay_sec normalized_delay;
            updated_at = now;
          })
          ensured

unfoldable pub get_domain_state :
    {Delay : Type 0} → Text → List (DomainRow Delay) → Option (DomainState Delay)
unfolding row_of
get_domain_state domain table = elim (row_of domain table) [
  | none ↦ none
  | some row ↦ some (record {
    domain = row.domain;
    next_request_at = row.next_request_at;
    crawl_delay_sec = row.crawl_delay_sec;
    backoff_until = row.backoff_until;
    fail_streak = row.fail_streak;
  })
]
