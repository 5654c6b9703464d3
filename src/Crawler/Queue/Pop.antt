-- ===== src/Crawler/Queue/Pop.antt =====
-- What `pop_ready_crawl_tasks` hands out.
use web_search.Prelude.{
  ℕ, zero, suc, ◌+◌, ◌*◌, ◌≤◌, ◌<◌, max, ◌≡◌, refl, sym, ap, ◌∙◌, inl, inr, Bool, true, false, not,
  none, some, List, [], ◌∷◌, map, arith, if◌then◌else◌, Bool-cases, length, take, is_empty, All,
  Member, nat_eq, list_eq, occurrences, capped, WithinQuota, take-capped-WithinQuota, sort_by-All,
  Text, All-of, if_true, if_false, All-take, keep_of_All, capped-All, keep-All_both, All-members,
  some_pair,
}
use mathlib.Core.Path.{subst₂}
use web_search.Crawler.Store.{QueueRow, CrawlTask, Db}
use web_search.Crawler.Queue.{
  PopEnd, commits, crawl_queue_retry_limit, is_ready, select_crawl_queue_candidates, delete_rows,
  to_task, queue_before, popped_rows, pop_ready_crawl_tasks,
}
use web_search.Crawler.Queue.Choice.{domain_of, choose-capped}

module _ {Delay : Type 0} (locked : QueueRow → Bool) (now : ℕ) where
  -- A row that may be handed out: one of the queue, ready and held by no one else.
  pub record IsAvailable (db : Db Delay) (q : QueueRow) : Type 0 where
    pub queued : Member q db.crawl_queue
    pub ready : is_ready now db.domain_state q ≡ true
    pub free : locked q ≡ false

  candidates-IsAvailable :
      (overscan : ℕ) (db : Db Delay)
      → All (IsAvailable db) (select_crawl_queue_candidates locked now overscan db)
  unfolding select_crawl_queue_candidates
  candidates-IsAvailable overscan db =
      let queue = db.crawl_queue in
      let ready = is_ready now db.domain_state in
      let InQueue : QueueRow → Type 0 = λ q. Member q queue × (ready q ≡ true) in
      let found =
        keep-All_both (λ q. Member q queue) InQueue ready queue (λ q m r. (m, r))
          (All-members queue) in
      All-take (IsAvailable db) overscan _ (
        keep-All_both InQueue (IsAvailable db) (λ q. not (locked q)) _
          (λ q (m, r) free. record { queued = m; ready = r; free = ground arith })
          (sort_by-All queue_before InQueue _ found))

  popped_rows-capped :
      (count max_per_domain : ℕ) (db : Db Delay)
      → 0 < count
      → popped_rows locked now count max_per_domain db
        ≡ take count (
            capped domain_of max_per_domain [] (
              select_crawl_queue_candidates locked now
                (max (count * max_per_domain * 6) (count * 2))
                db))
  unfolding popped_rows
  popped_rows-capped count max_per_domain db h = choose-capped count max_per_domain _ h

  -- Only available rows are handed out.
  pub popped_rows-IsAvailable :
      (count max_per_domain : ℕ) (db : Db Delay)
      → 0 < count
      → All (IsAvailable db) (popped_rows locked now count max_per_domain db)
  popped_rows-IsAvailable count max_per_domain db h =
      rw (popped_rows-capped count max_per_domain db h) (
        All-take (IsAvailable db) count _
          (capped-All domain_of max_per_domain (IsAvailable db) [] _ (candidates-IsAvailable _ db)))

  -- They are the oldest candidates that the quota of each domain leaves, and no more than asked.
  pub popped_rows-WithinQuota :
      (count max_per_domain : ℕ) (db : Db Delay)
      → 0 < count
      → WithinQuota domain_of max_per_domain count
          (select_crawl_queue_candidates locked now
            (max (count * max_per_domain * 6) (count * 2))
            db)
          (popped_rows locked now count max_per_domain db)
  popped_rows-WithinQuota count max_per_domain db h =
      rw (popped_rows-capped count max_per_domain db h)
        (take-capped-WithinQuota domain_of max_per_domain count _)

delete_rows-nil : (queue : List QueueRow) → delete_rows [] queue ≡ queue
unfolding delete_rows
delete_rows-nil queue = keep_of_All _ queue (All-of _ queue (λ q. refl))

delete_selected :
    (selected queue : List QueueRow)
    → (if is_empty selected then queue else delete_rows selected queue) ≡ delete_rows selected queue
delete_selected [] queue = sym (delete_rows-nil queue)
delete_selected (r ∷ rs) queue = refl

module _ {Delay : Type 0} (faults : ℕ → PopEnd) (locked : QueueRow → Bool) (now : ℕ) where
  -- What a call that returns has done: the rows handed out, and the tables it leaves.
  pub record Popped (count max_per_domain : ℕ) (db : Db Delay) (tasks : List CrawlTask)
      (after : Db Delay) : Type 0 where
    pub rows : List QueueRow
    pub handed_out : tasks ≡ map to_task rows
    pub available : All (IsAvailable locked now db) rows
    pub few : length rows ≤ count
    pub per_domain : (d : Text) → occurrences d (map domain_of rows) ≤ max_per_domain
    pub removed : after.crawl_queue ≡ delete_rows rows db.crawl_queue
    pub paced_alike : after.domain_state ≡ db.domain_state

  pop_ready_crawl_tasks-suc :
      (n max_per_domain : ℕ) (db : Db Delay)
      → commits faults (crawl_queue_retry_limit + 1) 0 ≡ true
      → pop_ready_crawl_tasks faults locked now (suc n) max_per_domain db
        ≡ some (
          map to_task (popped_rows locked now (suc n) max_per_domain db),
          record db {
            crawl_queue =
                delete_rows (popped_rows locked now (suc n) max_per_domain db) db.crawl_queue;
          },
        )
  unfolding pop_ready_crawl_tasks
  pop_ready_crawl_tasks-suc n max_per_domain db c =
      let rows = popped_rows locked now (suc n) max_per_domain db in
      if_true _ _ c
      ∙ ap (λ q. some (map to_task rows, record db { crawl_queue = q }))
          (delete_selected rows db.crawl_queue)

  pop_ready_crawl_tasks-fail :
      (n max_per_domain : ℕ) (db : Db Delay)
      → commits faults (crawl_queue_retry_limit + 1) 0 ≡ false
      → pop_ready_crawl_tasks faults locked now (suc n) max_per_domain db ≡ none
  unfolding pop_ready_crawl_tasks
  pop_ready_crawl_tasks-fail n max_per_domain db c = if_false _ _ c

  popped_by_call :
      (n max_per_domain : ℕ) (db : Db Delay)
      → Popped
          (suc n)
          max_per_domain
          db
          (map to_task (popped_rows locked now (suc n) max_per_domain db))
          (record db {
            crawl_queue =
                delete_rows (popped_rows locked now (suc n) max_per_domain db) db.crawl_queue;
          })
  popped_by_call n max_per_domain db =
      let quota = popped_rows-WithinQuota locked now (suc n) max_per_domain db (omega arith) in
      record {
        rows = popped_rows locked now (suc n) max_per_domain db;
        handed_out = refl;
        available = popped_rows-IsAvailable locked now (suc n) max_per_domain db (omega arith);
        few = quota.bounded;
        per_domain = quota.per_key;
        removed = refl;
        paced_alike = refl;
      }

  -- A call that returns has handed out rows of the queue that were ready and held by no other
  -- transaction, at most `count` and at most `max_per_domain` of a domain; exactly the rows with
  -- their hashes have left the queue, and the pacing of the domains is as it was.
  pub pop_ready_crawl_tasks-Popped :
      (count max_per_domain : ℕ) (db : Db Delay) (tasks : List CrawlTask) (after : Db Delay)
      → pop_ready_crawl_tasks faults locked now count max_per_domain db ≡ some (tasks, after)
      → Popped count max_per_domain db tasks after
  unfolding pop_ready_crawl_tasks
  pop_ready_crawl_tasks-Popped zero max_per_domain db tasks after h =
      let (same_tasks, same_db) = some_pair h in
      subst₂ (Popped zero max_per_domain db) same_tasks same_db (record {
        rows = [];
        handed_out = refl;
        available = tt;
        few = omega arith;
        per_domain = λ d. omega arith;
        removed = sym (delete_rows-nil db.crawl_queue);
        paced_alike = refl;
      })
  pop_ready_crawl_tasks-Popped (suc n) max_per_domain db tasks after h =
      elim (Bool-cases (commits faults (crawl_queue_retry_limit + 1) 0)) [
        | inl c ↦
            let (same_tasks, same_db) =
              some_pair (rw (pop_ready_crawl_tasks-suc n max_per_domain db c) at h) in
            subst₂ (Popped (suc n) max_per_domain db) same_tasks same_db
              (popped_by_call n max_per_domain db)
        | inr c ↦ let gone = rw (pop_ready_crawl_tasks-fail n max_per_domain db c) at h in cc
      ]
