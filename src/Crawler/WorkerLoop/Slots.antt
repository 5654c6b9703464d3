-- ===== src/Crawler/WorkerLoop/Slots.antt =====
-- What every loop keeps to.
use web_search.Prelude.{ℕ, ◌≡◌, Bool, nat_eq, list_eq, Text, pair_eq}
use web_search.Crawler.WorkerLoop.{
  WorkerLoop, LoopStep, LoopStep.refreshes, LoopStep.asks, LoopStep.answers, LoopStep.ends_task,
  LoopStep.others_write, LoopStep.ends, LoopReachable, LoopReachable.begins, LoopReachable.goes_on,
  LoopReachable.others_count, HasSlots,
}

module _ {Delay : Type 0} (lower : Text → Text) (concurrency : ℕ) where
  abbrev Slots : Bool → WorkerLoop Delay → Type 0
  Slots own loop = HasSlots lower concurrency own loop

  -- What the tasks do not change.
  record SameSets (loop after : WorkerLoop Delay) : Type 0 where
    planner : after.planner ≡ loop.planner
    static : after.static_denylist ≡ loop.static_denylist
    blocked : after.blocked_domains ≡ loop.blocked_domains
    requested : after.requested ≡ loop.requested
