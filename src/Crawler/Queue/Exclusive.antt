-- ===== src/Crawler/Queue/Exclusive.antt =====
-- A task is handed out once, and not while its domain is paced.
use web_search.Prelude.{
  ℕ, ◌+◌, ◌<◌, ◌≡◌, refl, sym, ap, ◌∙◌, ◌≢◌, Bool, true, false, not, ◌&&◌, some, List, [], ◌∷◌, map,
  arith, leb, is_empty, All, nat_eq, list_eq, list_beq_iff, contains, Text, All-keep, All-map,
  if_true, keep-All_of, All-Member, pair_eq,
}
use mathlib.Core.Path.{subst, subst₂, ap₂}
use web_search.Crawler.Store.{QueueRow, CrawlTask, DomainRow, DelayOps, Db, row_of}
use web_search.Crawler.DomainPacing.{after_success, after_failure, backoff_seconds, pace}
use web_search.Crawler.DomainPacing.Rows.{present, record_crawl_result-row_of}
use web_search.Crawler.Queue.{
  PopEnd, is_ready, delete_rows, coalesce, record_crawl_task_result, to_task, pop_ready_crawl_tasks,
}
use web_search.Crawler.Queue.Pop.{Popped, pop_ready_crawl_tasks-Popped}

abbrev hash_in : List QueueRow → QueueRow → Bool
hash_in rows q = contains q.url_hash (map (λ r. r.url_hash) rows)

left_hashes :
    (rows queue : List QueueRow) → All (λ q. hash_in rows q ≡ false) (delete_rows rows queue)
unfolding delete_rows
left_hashes rows queue =
    keep-All_of _ (λ q. not (contains q.url_hash (map (λ r. r.url_hash) rows))) queue
      (λ q e. ground arith)

module _ {Delay : Type 0} {faults later_faults : ℕ → PopEnd} {locked later_locked : QueueRow → Bool}
    {now later : ℕ} where
  -- Of two calls with nothing queued between them the second takes no row with the hash of one
  -- that the first took.
  rows_exclusive :
      {count cap : ℕ} {db : Db Delay} {tasks : List CrawlTask} {after : Db Delay}
      {later_count later_cap : ℕ} {db' : Db Delay} {tasks' : List CrawlTask} {after' : Db Delay}
      (first : Popped faults locked now count cap db tasks after)
      (second : Popped later_faults later_locked later later_count later_cap db' tasks' after')
      → db'.crawl_queue ≡ after.crawl_queue
      → All (λ q. hash_in first.rows q ≡ false) second.rows
  rows_exclusive {db} {db'} first second same =
      let left =
        subst (All (λ q. hash_in first.rows q ≡ false)) (sym (same ∙ first.removed))
          (left_hashes first.rows db.crawl_queue) in
      All-map _ _ second.rows
        (λ q a. All-Member (λ q. hash_in first.rows q ≡ false) q db'.crawl_queue left a.queued)
        second.available

-- The rows of a queue have the hashes of their URLs.
abbrev pub Hashed : (url_hash : Text → Text) → List QueueRow → Type 0
Hashed url_hash rows = All (λ q. q.url_hash ≡ url_hash q.url) rows

abbrev pub task_hash : (url_hash : Text → Text) → CrawlTask → Text
task_hash url_hash t = url_hash t.url

hashes_of_tasks :
    (url_hash : Text → Text) (rows : List QueueRow)
    → Hashed url_hash rows
    → map (λ r. r.url_hash) rows ≡ map (task_hash url_hash) (map to_task rows)
hashes_of_tasks url_hash [] h = refl
hashes_of_tasks url_hash (q ∷ rows) (e, h) =
    ap₂ (λ x xs. x ∷ xs) e (hashes_of_tasks url_hash rows h)

tasks_exclusive :
    (url_hash : Text → Text) (hashes : List Text) (rows : List QueueRow)
    → Hashed url_hash rows
    → All (λ q. contains q.url_hash hashes ≡ false) rows
    → All (λ t. contains (task_hash url_hash t) hashes ≡ false) (map to_task rows)
tasks_exclusive url_hash hashes [] h k = tt
tasks_exclusive url_hash hashes (q ∷ rows) (e, h) (p, k) =
    (ap (λ x. contains x hashes) (sym e) ∙ p, tasks_exclusive url_hash hashes rows h k)

delete_rows-Hashed :
    (url_hash : Text → Text) (rows queue : List QueueRow)
    → Hashed url_hash queue
    → Hashed url_hash (delete_rows rows queue)
unfolding delete_rows
delete_rows-Hashed url_hash rows queue h = All-keep _ _ queue h

module _ {Delay : Type 0} {faults : ℕ → PopEnd} {locked : QueueRow → Bool} {now : ℕ} where
  Popped-Hashed :
      (url_hash : Text → Text) {count quota : ℕ} {db : Db Delay} {tasks : List CrawlTask}
      {after : Db Delay}
      → Hashed url_hash db.crawl_queue
      → (p : Popped faults locked now count quota db tasks after) → Hashed url_hash p.rows
  Popped-Hashed url_hash {db} hashed p =
      All-map _ _ p.rows
        (λ q a. All-Member (λ r. r.url_hash ≡ url_hash r.url) q db.crawl_queue hashed a.queued)
        p.available

-- Of two calls of `pop_ready_crawl_tasks` with nothing queued between them, whatever happens to the
-- pacing of the domains, and where the rows of the queue have the hashes of their URLs, the second
-- hands out no task whose URL has the hash of the URL of one that the first handed out.
module _ {Delay : Type 0} where
  pub pop_exclusive :
      (url_hash : Text → Text) (faults later_faults : ℕ → PopEnd)
      (locked later_locked : QueueRow → Bool) (now later count quota later_count later_quota : ℕ)
      (db db' : Db Delay) (tasks tasks' : List CrawlTask) (after after' : Db Delay)
      → Hashed url_hash db.crawl_queue
      → pop_ready_crawl_tasks faults locked now count quota db ≡ some (tasks, after)
      → db'.crawl_queue ≡ after.crawl_queue
      → pop_ready_crawl_tasks later_faults later_locked later later_count later_quota db'
        ≡ some (tasks', after')
      → All (λ t. contains (task_hash url_hash t) (map (task_hash url_hash) tasks) ≡ false) tasks'
  pop_exclusive url_hash faults later_faults locked later_locked now later count quota later_count
        later_quota db db' tasks tasks' after after' hashed call same later_call =
      let first = pop_ready_crawl_tasks-Popped faults locked now count quota db tasks after call in
      let second =
        pop_ready_crawl_tasks-Popped later_faults later_locked later later_count later_quota db'
          tasks' after' later_call in
      let left : Hashed url_hash db'.crawl_queue =
        subst (Hashed url_hash) (sym (same ∙ first.removed))
          (delete_rows-Hashed url_hash first.rows db.crawl_queue hashed) in
      let free =
        tasks_exclusive url_hash (map (λ r. r.url_hash) first.rows) second.rows
          (Popped-Hashed url_hash left second) (rows_exclusive first second same) in
      let named = hashes_of_tasks url_hash first.rows (Popped-Hashed url_hash hashed first) in
      subst₂ (λ hs ts. All (λ t. contains (task_hash url_hash t) hs ≡ false) ts)
        (named ∙ ap (map (task_hash url_hash)) (sym first.handed_out)) (sym second.handed_out) free

ready_of_row :
    {Delay : Type 0} (later : ℕ) (table : List (DomainRow Delay)) (q : QueueRow)
    (s : DomainRow Delay)
    → row_of q.domain table ≡ some s
    → is_ready later table q ≡ (leb s.next_request_at later && leb (coalesce s.backoff_until) later)
unfolding is_ready
ready_of_row later table q s h = ground (arith, h)

-- The time before which a domain is left alone after a result.
module _ {Delay : Type 0} (ops : DelayOps Delay) (get_domain : Text → Text) where
  unfoldable pub rests_until : ℕ → Bool → DomainRow Delay → ℕ
  rests_until now true s = now + pace ops s
  rests_until now false s = now + backoff_seconds ops s

  not_ready_before :
      (now later : ℕ) (url : Text) (is_done : Bool) (db : Db Delay) (q : QueueRow)
      → is_empty (get_domain url) ≡ false
      → later < rests_until now is_done (present ops now (get_domain url) db.domain_state)
      → q.domain ≡ get_domain url
      → is_ready later (record_crawl_task_result ops get_domain now url is_done db).domain_state q
        ≡ false
  unfolding record_crawl_task_result rests_until after_success after_failure
  not_ready_before now later url true db q filled early same =
      let e = get_domain url in
      let table = db.domain_state in
      let here = (list_beq_iff e q.domain).1 (sym same) in
      let row =
        record_crawl_result-row_of ops now q.domain e true table filled ∙ if_true _ _ here in
      rw (ready_of_row later _ q _ row) (ground (arith, early))
  not_ready_before now later url false db q filled early same =
      let e = get_domain url in
      let table = db.domain_state in
      let here = (list_beq_iff e q.domain).1 (sym same) in
      let row =
        record_crawl_result-row_of ops now q.domain e false table filled ∙ if_true _ _ here in
      rw (ready_of_row later _ q _ row) (ground (arith, early))

-- After the result of a crawl a domain rests: until the end of its pace after a success, of its
-- backoff after a failure, no row of the domain is handed out.
module _ {Delay : Type 0} (ops : DelayOps Delay) (get_domain : Text → Text) {faults : ℕ → PopEnd}
    {locked : QueueRow → Bool} where
  pub popped_after_result :
      (now later : ℕ) (url : Text) (is_done : Bool) (db : Db Delay) {count cap : ℕ} {db' : Db Delay}
      {tasks : List CrawlTask} {after : Db Delay}
      → is_empty (get_domain url) ≡ false
      → later
        < rests_until ops get_domain now is_done (present ops now (get_domain url) db.domain_state)
      → db'.domain_state ≡ (record_crawl_task_result ops get_domain now url is_done db).domain_state
      → (p : Popped faults locked later count cap db' tasks after)
      → All (λ q. q.domain ≢ get_domain url) p.rows
  popped_after_result now later url is_done db filled early same p =
      All-map _ _ p.rows
        (λ q a here.
          let rests =
            not_ready_before ops get_domain now later url is_done db q filled early here in
          let ready = subst (λ t. is_ready later t q ≡ true) same a.ready in cc)
        p.available
