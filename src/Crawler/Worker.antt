-- ===== src/Crawler/Worker.antt =====
-- apps/crawler/src/web_search_crawler/services/worker.py: `WorkerService` as a state machine. Tasks
-- are known by a number. A graceful `stop` waits for its task: what it does behind the wait is a
-- step of its own, and anything may happen between. `worker_loop` changes the shared counter.
use web_search.Prelude.{
  ℕ, ◌-◌, ◌≡◌, refl, sym, ap, ◌∙◌, inl, inr, Bool, true, false, not, ◌&&◌, Option, none, some,
  arith, nat_beq, if◌then◌else◌, Bool-cases, nat_eq, list_eq, if_true, if_false,
}
use mathlib.Core.Path.{subst}

pub record WorkerService : Type 0 where
  pub task : Option ℕ
  pub is_running : Bool
  pub started_at : Option ℕ
  pub active_counter : ℕ
  pub concurrency : Option ℕ

-- `WorkerService()`
abbrev pub new_service : WorkerService
new_service = record {
  task = none;
  is_running = false;
  started_at = none;
  active_counter = 0;
  concurrency = none;
}

-- `start`, with the task that is created; `none` where it raises.
unfoldable pub start : ℕ → ℕ → ℕ → WorkerService → Option WorkerService
start now new_task concurrency service =
    if service.is_running
    then none
    else some (record service {
      task = some new_task;
      is_running = true;
      started_at = some now;
      concurrency = some concurrency;
    })

-- The test at the head of `stop`: whether there is something to stop.
unfoldable pub stops : WorkerService → Bool
stops service = service.is_running && elim service.task [ none ↦ false | some t ↦ true ]

-- What `stop` does in the end. The task stays where it is.
unfoldable pub finish_stop : WorkerService → WorkerService
finish_stop service = record service {
  is_running = false;
  started_at = none;
  active_counter = 0;
  concurrency = none;
}

-- `self.task is task`
abbrev pub is_current : ℕ → WorkerService → Bool
is_current task service = elim service.task [ none ↦ false | some t ↦ nat_beq t task ]

-- `_handle_task_done`
unfoldable pub handle_task_done : ℕ → (cancelled : Bool) → WorkerService → WorkerService
handle_task_done task cancelled service =
    if not (is_current task service) then service else if cancelled then service else new_service

-- `get_uptime`
unfoldable pub get_uptime : ℕ → WorkerService → Option ℕ
get_uptime now service = elim service.started_at [ none ↦ none | some t ↦ some (now - t) ]

-- What may happen to the service.
pub data Step : WorkerService → WorkerService → Type 0 where
  starts :
      {s s' : WorkerService} (now task concurrency : ℕ)
      → start now task concurrency s ≡ some s'
      → Step s s'
  stop_ends : {s : WorkerService} → Step s (finish_stop s)
  task_ends :
      {s : WorkerService} (task : ℕ) (cancelled : Bool) → Step s (handle_task_done task cancelled s)
  loop_counts : {s : WorkerService} (n : ℕ) → Step s (record s { active_counter = n })

pub data Reachable : WorkerService → Type 0 where
  created : Reachable new_service
  then_step : {s s' : WorkerService} → Reachable s → Step s s' → Reachable s'

-- A service that runs has a task, a time and a concurrency; one that does not has no time and no
-- concurrency.
pub data IsConsistent : WorkerService → Type 0 where
  running :
      {s : WorkerService} (task now concurrency : ℕ)
      → s.is_running ≡ true
      → s.task ≡ some task
      → s.started_at ≡ some now
      → s.concurrency ≡ some concurrency
      → IsConsistent s
  stopped :
      {s : WorkerService}
      → s.is_running ≡ false
      → s.started_at ≡ none
      → s.concurrency ≡ none
      → IsConsistent s

some_value : {a b : WorkerService} → ◌≡◌ {A = Option WorkerService} (some a) (some b) → a ≡ b
some_value h = ground (arith, h)

start-IsConsistent :
    (s s' : WorkerService) (now task concurrency : ℕ)
    → start now task concurrency s ≡ some s'
    → IsConsistent s'
unfolding start
start-IsConsistent s s' now task concurrency h = elim (Bool-cases s.is_running) [
  | inl busy ↦ absurd (ground (arith, busy, h))
  | inr idle ↦
      let begun : WorkerService = record s {
        task = some task;
        is_running = true;
        started_at = some now;
        concurrency = some concurrency;
      } in
      let same : some begun ≡ some s' = sym (if_false none (some begun) idle) ∙ h in
      subst IsConsistent (some_value same) (running task now concurrency refl refl refl refl)
]

done-IsConsistent :
    (s : WorkerService) (task : ℕ) (cancelled : Bool)
    → IsConsistent s
    → IsConsistent (handle_task_done task cancelled s)
unfolding handle_task_done
done-IsConsistent s task cancelled c = elim (Bool-cases (is_current task s)) [
  | inr other ↦ subst IsConsistent (sym (if_true s _ (ap not other))) c
  | inl current ↦ subst IsConsistent (sym (if_false s _ (ap not current))) (by_end cancelled c)
]
  where
    by_end : (b : Bool) → IsConsistent s → IsConsistent (if b then s else new_service)
    by_end true c = c
    by_end false c = stopped refl refl refl

Step-IsConsistent : (s s' : WorkerService) → IsConsistent s → Step s s' → IsConsistent s'
unfolding finish_stop
Step-IsConsistent s s' c (starts now task concurrency h) =
    start-IsConsistent s s' now task concurrency h
Step-IsConsistent s s' c stop_ends = stopped refl refl refl
Step-IsConsistent s s' c (task_ends task cancelled) = done-IsConsistent s task cancelled c
Step-IsConsistent s s' (running t now k p q r u) (loop_counts n) = running t now k p q r u
Step-IsConsistent s s' (stopped p q r) (loop_counts n) = stopped p q r

-- Every service that can come about is consistent: one that runs has a task, a time and a
-- concurrency; one that does not has no time and no concurrency.
pub Reachable-IsConsistent : (s : WorkerService) → Reachable s → IsConsistent s
Reachable-IsConsistent s created = stopped refl refl refl
Reachable-IsConsistent s (then_step {s = before} r step) =
    Step-IsConsistent before s (Reachable-IsConsistent before r) step
