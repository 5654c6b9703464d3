-- ===== src/Crawler/Denylist.antt =====
-- apps/crawler/src/web_search_crawler/core/crawl_denylist.py: the domains that are never crawled.
-- `lower` is `str.lower`. A set of domains is a list, read only by `in`.
pub mod Subdomains
use web_search.Prelude.{
  ℕ, zero, suc, ◌+◌, ◌-◌, ◌*◌, ◌/◌, ◌%◌, ◌^◌, ◌≤◌, ◌<◌, min, max, ◌≡◌, refl, sym, ap, ◌∙◌, ◌≢◌, ◌↔◌,
  ◌⊎◌, inl, inr, Bool, true, false, not, ◌&&◌, ◌||◌, Option, none, some, List, [], ◌∷◌, ◌++◌, map,
  reverse, Perm, Sublist, append-nil, append_assoc, arith, ltb, leb, nat_beq, if◌then◌else◌, ltb→lt,
  lt→ltb, leb→le, nat_beq_iff, Bool-cases, Option-cases, Bool-eq_of_iff, length, take, drop, any,
  all, keep, is_empty, length-append, length-take, take-append-drop, length-keep-le, any-append,
  keep-append, All, Any, Member, HasEq, ◌==◌, nat_eq, list_eq, list_beq, list_beq_iff, beq_refl,
  contains, contains_iff, update, occurrences, capped, occurrences-capped, capped-sublist,
  WithinQuota, take-capped-WithinQuota, sort_by, Sorted, sort_by-perm, sort_by-All, sort_by-Sorted,
  Text, codes, starts_with, ends_with, occurs_in, split, join, strip, lstrip, rstrip, is_space,
  from_last, ascii_lower, starts_with_iff, ends_with_iff, split-ne_nil, join-split, split-append,
}
use mathlib.Core.List.{tail}

-- The loop over the parents of a domain: `parts` is `parts[i:]`.
parent_denied : List Text → List Text → Bool
parent_denied denylist [] = false
parent_denied denylist (p ∷ ps) =
    contains (join b'.' (p ∷ ps)) denylist || parent_denied denylist ps

module _ (lower : Text → Text) where
  unfoldable pub is_domain_denied : Text → List Text → Bool
  unfolding parent_denied
  is_domain_denied domain denylist =
      if is_empty denylist
      then false
      else let d = lower domain in
        if contains d denylist then true else parent_denied denylist (tail (split b'.' d))
