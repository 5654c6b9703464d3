-- ===== src/Crawler/Queue.antt =====
-- apps/crawler/src/web_search_crawler/db/crawl_queue.py, the consumer's side: `CrawlQueueMixin`
-- hands out ready tasks. A transaction that fails is rolled back: the tables stay as they were.
-- `faults i` says how attempt `i` ends, `locked` which rows another transaction holds. Numbers of tasks are naturals; 0 stands for all `count <= 0`.
pub mod Choice
pub mod Pop
pub mod Exclusive
use web_search.Prelude.{
  ℕ, zero, suc, ◌+◌, ◌-◌, ◌*◌, ◌/◌, ◌%◌, ◌^◌, ◌≤◌, ◌<◌, min, max, ◌≡◌, refl, sym, ap, ◌∙◌, ◌≢◌, ◌↔◌,
  ◌⊎◌, inl, inr, Bool, true, false, not, ◌&&◌, ◌||◌, Option, none, some, List, [], ◌∷◌, ◌++◌, map,
  reverse, Perm, Sublist, append-nil, append_assoc, arith, ltb, leb, nat_beq, if◌then◌else◌, ltb→lt,
  lt→ltb, leb→le, nat_beq_iff, Bool-cases, Option-cases, Bool-eq_of_iff, length, take, drop, any,
  all, keep, is_empty, length-append, length-take, take-append-drop, length-keep-le, any-append,
  keep-append, All, Any, Member, HasEq, ◌==◌, nat_eq, list_eq, list_beq, list_beq_iff, beq_refl,
  contains, contains_iff, update, occurrences, capped, occurrences-capped, capped-sublist,
  WithinQuota, take-capped-WithinQuota, sort_by, Sorted, sort_by-perm, sort_by-All, sort_by-Sorted,
  Text, codes, starts_with, ends_with, occurs_in, split, join, strip, lstrip, rstrip, is_space,
  from_last, ascii_lower, starts_with_iff, ends_with_iff, split-ne_nil, join-split, split-append,
  any-congr, any-or, any-false, keep-congr, keep-All, All-keep, All-append, any_iff, Any-map,
  All-map, All-of, beq_sym, text_leb, text_leb_total, text_leb_trans, unique, if_true, if_false,
  Tracks, Tracks-skip, Tracks-take,
}
use web_search.Crawler.Store.{QueueRow, CrawlTask, DomainRow, DelayOps, Db, row_of}
use web_search.Crawler.DomainPacing.{record_crawl_result}

abbrev pub crawl_queue_retry_limit : ℕ
crawl_queue_retry_limit = 2

-- How an attempt ends: it commits, or it raises `DeadlockDetected` or `SerializationFailure`, or
-- any other error.
pub data PopEnd : Type 0 where
  commit conflict other_error : PopEnd

-- `for attempt in range(LIMIT + 1)`: whether an attempt commits before an error is raised. Only a
-- conflict is tried again.
unfoldable pub commits : (faults : ℕ → PopEnd) → ℕ → ℕ → Bool
commits faults zero attempt = false
commits faults (suc rounds) attempt =
    let again = commits faults rounds (attempt + 1) in
    elim (faults attempt) [
      | commit ↦ true
      | conflict ↦ if leb crawl_queue_retry_limit attempt then false else again
      | other_error ↦ false
    ]

abbrev pub coalesce : Option ℕ → ℕ
coalesce none = 0
coalesce (some n) = n

-- `ORDER BY q.created_at ASC, q.url_hash ASC`
unfoldable pub queue_before : QueueRow → QueueRow → Bool
queue_before a b =
    ltb a.created_at b.created_at
    || nat_beq a.created_at b.created_at && text_leb a.url_hash b.url_hash

-- The loop, with `selected` and `selected_per_domain` as its variables.
unfoldable pub choose_loop : ℕ → ℕ → List QueueRow → (Text → ℕ) → List QueueRow → List QueueRow
choose_loop count max_per_domain [] counts selected = selected
choose_loop count max_per_domain (row ∷ rows) counts selected =
    let taken = selected ++ row ∷ [] in
    let skip = choose_loop count max_per_domain rows counts selected in
    let more =
      choose_loop count max_per_domain rows (update counts row.domain (counts row.domain + 1))
        taken in
    if leb max_per_domain (counts row.domain)
    then skip
    else if leb count (length taken)
    then taken
    else more

unfoldable pub choose_crawl_queue_candidates : ℕ → ℕ → List QueueRow → List QueueRow
unfolding choose_loop
choose_crawl_queue_candidates count max_per_domain candidates =
    choose_loop count max_per_domain candidates (λ _. 0) []

-- `DELETE FROM crawl_queue WHERE url_hash = ANY(…)`
unfoldable pub delete_rows : List QueueRow → List QueueRow → List QueueRow
delete_rows selected queue =
    keep (λ q. not (contains q.url_hash (map (λ r. r.url_hash) selected))) queue

abbrev pub to_task : QueueRow → CrawlTask
to_task row = record { url = row.url; domain = row.domain; created_at = row.created_at }

module _ {Delay : Type 0} where
  -- The `WHERE` clause, with the `LEFT JOIN` on the domain's row.
  unfoldable pub is_ready : ℕ → List (DomainRow Delay) → QueueRow → Bool
  unfolding row_of
  is_ready now table q = elim (row_of q.domain table) [
    | none ↦ true
    | some s ↦ leb s.next_request_at now && leb (coalesce s.backoff_until) now
  ]

  unfoldable pub select_crawl_queue_candidates :
      (locked : QueueRow → Bool) → ℕ → ℕ → Db Delay → List QueueRow
  unfolding is_ready queue_before sort_by
  select_crawl_queue_candidates locked now overscan db = take overscan (
      keep (λ q. not (locked q))
        (sort_by queue_before (keep (is_ready now db.domain_state) db.crawl_queue)))

  -- The rows that one committed attempt of `pop_ready_crawl_tasks` removes.
  unfoldable pub popped_rows : (locked : QueueRow → Bool) → ℕ → ℕ → ℕ → Db Delay → List QueueRow
  unfolding select_crawl_queue_candidates choose_crawl_queue_candidates
  popped_rows locked now count max_per_domain db =
      let overscan = max (count * max_per_domain * 6) (count * 2) in
      choose_crawl_queue_candidates count max_per_domain
        (select_crawl_queue_candidates locked now overscan db)

  -- `none` where an error is raised.
  unfoldable pub pop_ready_crawl_tasks :
      (faults : ℕ → PopEnd)
      → (locked : QueueRow → Bool) → ℕ
      → ℕ
      → ℕ
      → Db Delay
      → Option (List CrawlTask × Db Delay)
  unfolding popped_rows commits delete_rows
  pop_ready_crawl_tasks faults locked now zero max_per_domain db = some ([], db)
  pop_ready_crawl_tasks faults locked now (suc count) max_per_domain db =
      let selected = popped_rows locked now (suc count) max_per_domain db in
      let rest =
        if is_empty selected then db.crawl_queue else delete_rows selected db.crawl_queue in
      if commits faults (crawl_queue_retry_limit + 1) 0
      then some (map to_task selected, record db { crawl_queue = rest })
      else none

-- `record_crawl_task_result`: `get_domain` is that of web_search_core.urls.
module _ {Delay : Type 0} (ops : DelayOps Delay) (get_domain : Text → Text) where
  unfoldable pub record_crawl_task_result : ℕ → Text → (is_done : Bool) → Db Delay → Db Delay
  unfolding record_crawl_result
  record_crawl_task_result now url is_done db = record db {
    domain_state = record_crawl_result ops now (get_domain url) is_done db.domain_state;
  }
