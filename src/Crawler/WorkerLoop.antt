-- ===== src/Crawler/WorkerLoop.antt =====
-- apps/crawler/src/web_search_crawler/workers/tasks.py: `worker_loop`, as steps that may come in any
-- order: the parts of a round between two waits, the end of a task, what others do to the tables and
-- to the shared counter, and the end of the loop. The loop runs on one thread; while it waits for the
-- planner, tasks may end and others may write. Creating a task does not fail, seconds of
-- `time.monotonic` are natural, and a union of sets of domains is a list with the members of both.
pub mod Slots
use web_search.Prelude.{
  ℕ, zero, suc, ◌+◌, ◌-◌, ◌*◌, ◌/◌, ◌%◌, ◌^◌, ◌≤◌, ◌<◌, min, max, ◌≡◌, refl, sym, ap, ◌∙◌, ◌≢◌, ◌↔◌,
  ◌⊎◌, inl, inr, Bool, true, false, not, ◌&&◌, ◌||◌, Option, none, some, List, [], ◌∷◌, ◌++◌, map,
  reverse, Perm, Sublist, append-nil, append_assoc, arith, ltb, leb, nat_beq, if◌then◌else◌, ltb→lt,
  lt→ltb, leb→le, nat_beq_iff, Bool-cases, Option-cases, Bool-eq_of_iff, length, take, drop, any,
  all, keep, is_empty, length-append, length-take, take-append-drop, length-keep-le, any-append,
  keep-append, All, Any, Member, HasEq, ◌==◌, nat_eq, list_eq, list_beq, list_beq_iff, beq_refl,
  contains, contains_iff, update, occurrences, capped, occurrences-capped, capped-sublist,
  WithinQuota, take-capped-WithinQuota, sort_by, Sorted, sort_by-perm, sort_by-All, sort_by-Sorted,
  Text, codes, starts_with, ends_with, occurs_in, split, join, strip, lstrip, rstrip, is_space,
  from_last, ascii_lower, starts_with_iff, ends_with_iff, split-ne_nil, join-split, split-append,
  any-congr, any-or, any-false, keep-congr, keep-All, All-keep, All-append, any_iff, Any-map,
  All-map, All-of, beq_sym, text_leb, text_leb_total, text_leb_trans, unique, if_true, if_false,
  Tracks, Tracks-skip, Tracks-take, All-take, keep-All_of, keep_of_All, All-Member, capped-All,
  keep-All_both, All-members, some_pair, decimal, Sorted-eq_of_perm, keep-perm, text_leb_antisymm,
  text_leb_refl, sort_by-All_inv, All-split, contains-sort_by, ◌>>=◌, sort_by_of_Sorted,
  sort_by-Falling, Falling, sort_by-flag, if_cases, contains-append, contains-keep, pair_eq,
  pair_beq, pair_beq_iff, some_injective, ℤ, pos, negsuc, is_positive, is_negative, int_leb,
}
use web_search.Crawler.Queue.{PopEnd}
use web_search.Crawler.Store.{QueueRow, CrawlTask, Db}
use web_search.Crawler.Planner.{
  CrawlTaskPlanner, new_planner, set_denied_domains, set_temporarily_blocked_domains,
  pop_ready_urls,
}

abbrev pub robots_block_refresh_secs : ℕ
robots_block_refresh_secs = 600

-- The variables of the loop. Tasks are known by a number; `static_denylist` does not change;
-- `requested` is the number of slots for which the planner is asked, while the loop waits for it.
pub record WorkerLoop (Delay : Type 0) : Type 0 where
  pub static_denylist : List Text
  pub blocked_domains : List Text
  pub robots_block_refreshed_at : ℕ
  pub in_flight_tasks : List (ℕ × CrawlTask)
  pub active_counter : ℕ
  pub requested : Option ℕ
  pub next_task : ℕ
  pub planner : CrawlTaskPlanner
  pub db : Db Delay

-- The variables as they begin: the planner has been given the static denylist.
unfoldable pub begin_loop : {Delay : Type 0} → List Text → Db Delay → WorkerLoop Delay
unfolding set_denied_domains
begin_loop static_denylist db = record {
  static_denylist = static_denylist;
  blocked_domains = static_denylist;
  robots_block_refreshed_at = 0;
  in_flight_tasks = [];
  active_counter = 0;
  requested = none;
  next_task = 0;
  planner = set_denied_domains static_denylist new_planner;
  db = db;
}

-- `_update_counter`
unfoldable pub update_counter : {Delay : Type 0} → WorkerLoop Delay → WorkerLoop Delay
update_counter loop = record loop { active_counter = length loop.in_flight_tasks }

-- `_on_task_done`
unfoldable pub on_task_done : {Delay : Type 0} → ℕ → WorkerLoop Delay → WorkerLoop Delay
unfolding update_counter
on_task_done task loop =
    update_counter
      (record loop { in_flight_tasks = keep (λ t. not (nat_beq t.0 task)) loop.in_flight_tasks })

-- The `for` loop over the items that were handed out.
unfoldable pub create_tasks :
    {Delay : Type 0} → List CrawlTask → WorkerLoop Delay → WorkerLoop Delay
create_tasks [] loop = loop
create_tasks (item ∷ items) loop = create_tasks items (record loop {
  in_flight_tasks = loop.in_flight_tasks ++ (loop.next_task, item) ∷ [];
  next_task = loop.next_task + 1;
})

-- The periodic refresh; `dynamic` is what `get_robots_blocked_domains` answers, and `later` the time
-- after the wait for it.
unfoldable pub refresh_blocked :
    {Delay : Type 0} (now later : ℕ) → List Text → WorkerLoop Delay → WorkerLoop Delay
unfolding set_temporarily_blocked_domains
refresh_blocked now later dynamic loop =
    if ltb robots_block_refresh_secs (now - loop.robots_block_refreshed_at)
    then record loop {
      blocked_domains = loop.static_denylist ++ dynamic;
      planner = set_temporarily_blocked_domains dynamic loop.planner;
      robots_block_refreshed_at = later;
    }
    else loop

-- `finally`: every task is cancelled and awaited, and the loop no longer waits for the planner.
unfoldable pub end_loop : {Delay : Type 0} → WorkerLoop Delay → WorkerLoop Delay
unfolding update_counter
end_loop loop = update_counter (record loop { in_flight_tasks = []; requested = none })

-- What is done with the answer of the planner: `none` where it raised.
unfoldable pub dispatch :
    {Delay : Type 0}
    → Option (List CrawlTask × Db Delay)
    → WorkerLoop Delay
    → Option (WorkerLoop Delay)
unfolding create_tasks update_counter
dispatch none loop = none
dispatch (some ([], db)) loop = some (record loop { db = db })
dispatch (some (item ∷ items, db)) loop =
    some (update_counter (create_tasks (item ∷ items) (record loop { db = db })))

abbrev pub waiting_for : Option ℕ → ℕ
waiting_for none = 0
waiting_for (some slots) = slots

module _ {Delay : Type 0} (lower : Text → Text) (concurrency : ℕ) where
  -- A round up to its wait for the planner, or for the end of a task where no slot is free.
  unfoldable pub ask_planner : WorkerLoop Delay → WorkerLoop Delay
  ask_planner loop =
      let available_slots = concurrency - length loop.in_flight_tasks in
      if leb concurrency (length loop.in_flight_tasks)
      then loop
      else record loop { requested = some available_slots }

  -- A round from the answer of the planner on; `none` where it raises.
  unfoldable pub answered :
      (faults : ℕ → PopEnd) (locked : QueueRow → Bool) (time available_slots : ℕ)
      → WorkerLoop Delay
      → Option (WorkerLoop Delay)
  unfolding dispatch pop_ready_urls
  answered faults locked time available_slots loop =
      dispatch (pop_ready_urls lower faults locked time loop.planner available_slots loop.db)
        (record loop { requested = none })

  -- What the loop and its tasks may do, and whether they write the counter for certain.
  pub data LoopStep : WorkerLoop Delay → WorkerLoop Delay → (counts : Bool) → Type 0 where
    refreshes :
        {loop : WorkerLoop Delay} (now later : ℕ) (dynamic : List Text)
        → loop.requested ≡ none
        → LoopStep loop (refresh_blocked now later dynamic loop) false
    asks :
        {loop : WorkerLoop Delay} → loop.requested ≡ none → LoopStep loop (ask_planner loop) false
    answers :
        {loop after : WorkerLoop Delay} (faults : ℕ → PopEnd) (locked : QueueRow → Bool)
        (time available_slots : ℕ)
        → loop.requested ≡ some available_slots
        → answered faults locked time available_slots loop ≡ some after
        → LoopStep loop after false
    ends_task : {loop : WorkerLoop Delay} (task : ℕ) → LoopStep loop (on_task_done task loop) true
    others_write :
        {loop : WorkerLoop Delay} (db : Db Delay) → LoopStep loop (record loop { db = db }) false
    ends : {loop : WorkerLoop Delay} → LoopStep loop (end_loop loop) true

  -- `is_own` says that no one else has written the counter since the loop or a task last did.
  -- `WorkerService` resets it when it stops, also before the tasks have ended, and an older loop
  -- that is still ending has the same counter.
  pub data LoopReachable : (is_own : Bool) → WorkerLoop Delay → Type 0 where
    begins :
        (static_denylist : List Text) (db : Db Delay)
        → LoopReachable true (begin_loop static_denylist db)
    goes_on :
        {is_own counts : Bool} {loop after : WorkerLoop Delay}
        → LoopReachable is_own loop
        → LoopStep loop after counts
        → LoopReachable (is_own || counts) after
    others_count :
        {is_own : Bool} {loop : WorkerLoop Delay} (n : ℕ)
        → LoopReachable is_own loop
        → LoopReachable false (record loop { active_counter = n })

  -- The slots are not exceeded, with what the planner is asked for, the shared counter is right
  -- unless someone else wrote it, and the domains that the checks before a fetch deny are those
  -- that the planner denies.
  pub record HasSlots (is_own : Bool) (loop : WorkerLoop Delay) : Type 0 where
    pub bounded : length loop.in_flight_tasks + waiting_for loop.requested ≤ concurrency
    pub counted : is_own ≡ true → loop.active_counter ≡ length loop.in_flight_tasks
    pub denied : loop.planner.denied_domains ≡ loop.static_denylist
    pub blocked : loop.blocked_domains ≡ loop.planner.denied_domains ++ loop.planner.blocked_domains
