-- ===== src/Crawler/Planner.antt =====
-- apps/crawler/src/web_search_crawler/crawl_task_planner.py: the tasks that a worker gets. The two
-- sets of domains are lists; only membership in them is read.
pub mod Selection
use web_search.Prelude.{
  ℕ, zero, suc, ◌+◌, ◌-◌, ◌*◌, ◌/◌, ◌%◌, ◌^◌, ◌≤◌, ◌<◌, min, max, ◌≡◌, refl, sym, ap, ◌∙◌, ◌≢◌, ◌↔◌,
  ◌⊎◌, inl, inr, Bool, true, false, not, ◌&&◌, ◌||◌, Option, none, some, List, [], ◌∷◌, ◌++◌, map,
  reverse, Perm, Sublist, append-nil, append_assoc, arith, ltb, leb, nat_beq, if◌then◌else◌, ltb→lt,
  lt→ltb, leb→le, nat_beq_iff, Bool-cases, Option-cases, Bool-eq_of_iff, length, take, drop, any,
  all, keep, is_empty, length-append, length-take, take-append-drop, length-keep-le, any-append,
  keep-append, All, Any, Member, HasEq, ◌==◌, nat_eq, list_eq, list_beq, list_beq_iff, beq_refl,
  contains, contains_iff, update, occurrences, capped, occurrences-capped, capped-sublist,
  WithinQuota, take-capped-WithinQuota, sort_by, Sorted, sort_by-perm, sort_by-All, sort_by-Sorted,
  Text, codes, starts_with, ends_with, occurs_in, split, join, strip, lstrip, rstrip, is_space,
  from_last, ascii_lower, starts_with_iff, ends_with_iff, split-ne_nil, join-split, split-append,
  any-congr, any-or, any-false, keep-congr, keep-All, All-keep, All-append, any_iff, Any-map,
  All-map, All-of, beq_sym, text_leb, text_leb_total, text_leb_trans, unique, if_true, if_false,
  Tracks, Tracks-skip, Tracks-take, All-take, keep-All_of, keep_of_All, All-Member, capped-All,
  keep-All_both, All-members, some_pair, decimal, Sorted-eq_of_perm, keep-perm, text_leb_antisymm,
  text_leb_refl, sort_by-All_inv, All-split,
}
use web_search.Crawler.Store.{QueueRow, CrawlTask, Db}
use web_search.Crawler.Denylist.{is_domain_denied}
use web_search.Crawler.Queue.{PopEnd, pop_ready_crawl_tasks}

-- `CrawlTaskPlanner`, with `config.domain_max_concurrent`
pub record CrawlTaskPlanner : Type 0 where
  pub domain_max_concurrent : ℕ
  pub denied_domains : List Text
  pub blocked_domains : List Text

-- `CrawlTaskPlanner(url_store)`, with the default of `CrawlTaskPlannerConfig`
abbrev pub new_planner : CrawlTaskPlanner
new_planner = record { domain_max_concurrent = 2; denied_domains = []; blocked_domains = [] }

unfoldable pub set_denied_domains : List Text → CrawlTaskPlanner → CrawlTaskPlanner
set_denied_domains domains planner = record planner { denied_domains = domains }

unfoldable pub set_temporarily_blocked_domains : List Text → CrawlTaskPlanner → CrawlTaskPlanner
set_temporarily_blocked_domains domains planner = record planner { blocked_domains = domains }

module _ (lower : Text → Text) where
  -- The condition of the comprehension.
  unfoldable pub is_plannable : CrawlTaskPlanner → CrawlTask → Bool
  unfolding is_domain_denied
  is_plannable planner item =
      let denied = planner.denied_domains in
      let blocked = planner.blocked_domains in
      not (not (is_empty denied) && is_domain_denied lower item.domain denied)
      && not (not (is_empty blocked) && is_domain_denied lower item.domain blocked)

  -- `none` where the store raises.
  unfoldable pub pop_ready_urls :
      {Delay : Type 0} (faults : ℕ → PopEnd) (locked : QueueRow → Bool)
      → ℕ
      → CrawlTaskPlanner
      → ℕ
      → Db Delay
      → Option (List CrawlTask × Db Delay)
  unfolding is_plannable pop_ready_crawl_tasks
  pop_ready_urls faults locked now planner zero db = some ([], db)
  pop_ready_urls faults locked now planner (suc count) db =
      elim (pop_ready_crawl_tasks faults locked now (suc count) planner.domain_max_concurrent db) [
        | none ↦ none
        | some (items, after) ↦ some (keep (is_plannable planner) items, after)
      ]
