-- ===== src/Crawler/Planner/Selection.antt =====
-- Which tasks `pop_ready_urls` hands out.
use web_search.Prelude.{
  ℕ, zero, suc, ◌≡◌, refl, sym, ap, ◌∙◌, inl, inr, Bool, not, ◌&&◌, Option, some, List, [], ◌∷◌,
  arith, Option-cases, keep, is_empty, nat_eq, list_eq, Text, keep-congr, some_pair,
}
use mathlib.Core.Path.{ap₂}
use web_search.Crawler.Store.{QueueRow, CrawlTask, Db}
use web_search.Crawler.Denylist.{is_domain_denied}
use web_search.Crawler.Queue.{PopEnd, pop_ready_crawl_tasks}
use web_search.Crawler.Queue.Pop.{Popped, pop_ready_crawl_tasks-Popped}
use web_search.Crawler.Planner.{CrawlTaskPlanner, is_plannable, pop_ready_urls}

module _ (lower : Text → Text) where
  nothing_denied :
      (domain : Text) (denylist : List Text)
      → (not (is_empty denylist) && is_domain_denied lower domain denylist)
        ≡ is_domain_denied lower domain denylist
  unfolding is_domain_denied
  nothing_denied domain [] = refl
  nothing_denied domain (t ∷ l) = refl

  -- An empty set denies nothing, so that the test for emptiness changes nothing.
  is_plannable-denied :
      (planner : CrawlTaskPlanner) (t : CrawlTask)
      → is_plannable lower planner t ≡ (
          not (is_domain_denied lower t.domain planner.denied_domains)
          && not (is_domain_denied lower t.domain planner.blocked_domains))
  unfolding is_plannable
  is_plannable-denied planner t =
      ap₂ (λ a b. not a && not b) (nothing_denied t.domain planner.denied_domains)
        (nothing_denied t.domain planner.blocked_domains)

  module _ {Delay : Type 0} (faults : ℕ → PopEnd) (locked : QueueRow → Bool) (now : ℕ) where
    -- The tasks that were taken out of the queue, and those of them that are handed out.
    pub record Planned (planner : CrawlTaskPlanner) (count : ℕ) (db : Db Delay)
        (tasks : List CrawlTask) (after : Db Delay) : Type 0 where
      pub popped : List CrawlTask
      pub taken : Popped faults locked now count planner.domain_max_concurrent db popped after
      pub chosen :
          tasks
          ≡ keep
              (λ t.
                not (is_domain_denied lower t.domain planner.denied_domains)
                && not (is_domain_denied lower t.domain planner.blocked_domains))
              popped

    -- A call of `pop_ready_urls` that returns has taken tasks out of the queue as
    -- `pop_ready_crawl_tasks` does, with the planner's limit for a domain, and hands out those of
    -- them whose domain neither of its sets denies; the others are in neither place.
    pub pop_ready_urls-Planned :
        (planner : CrawlTaskPlanner) (count : ℕ) (db : Db Delay) (tasks : List CrawlTask)
        (after : Db Delay)
        → pop_ready_urls lower faults locked now planner count db ≡ some (tasks, after)
        → Planned planner count db tasks after
    unfolding pop_ready_urls
    pop_ready_urls-Planned planner zero db tasks after h =
        let (same_tasks, same_db) = some_pair h in
        record {
          popped = [];
          taken =
              pop_ready_crawl_tasks-Popped faults locked now zero planner.domain_max_concurrent db
                [] after (ap (λ d. some ([], d)) same_db);
          chosen = sym same_tasks;
        }
    pop_ready_urls-Planned planner (suc n) db tasks after h =
        let cap = planner.domain_max_concurrent in
        elim (Option-cases (pop_ready_crawl_tasks faults locked now (suc n) cap db)) [
          | inl bad ↦ absurd (ground (arith, bad, h))
          | inr ((items, left), good) ↦
              let done : ◌≡◌ {A = Option (List CrawlTask × Db Delay)}
                  (some (keep (is_plannable lower planner) items, left)) (some (tasks, after)) =
                rw (good, pop_ready_urls) at h in
              let (same_tasks, same_db) = some_pair done in
              record {
                popped = items;
                taken =
                    pop_ready_crawl_tasks-Popped faults locked now (suc n) cap db items after
                      (good ∙ ap (λ d. some (items, d)) same_db);
                chosen = sym same_tasks ∙ keep-congr _ _ items (is_plannable-denied planner);
              }
        ]
