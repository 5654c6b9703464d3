-- ===== src/Kernel/Diversify.antt =====
-- packages/kernel/src/web_search_kernel/diversify.py: the cap on results from one domain. The
-- host that `urlparse` finds in a URL is a parameter (`none` where it raises).
pub mod Quota
pub mod Domains
use web_search.Prelude.{
  ℕ, zero, suc, ◌+◌, ◌-◌, ◌*◌, ◌/◌, ◌%◌, ◌^◌, ◌≤◌, ◌<◌, min, max, ◌≡◌, refl, sym, ap, ◌∙◌, ◌≢◌, ◌↔◌,
  ◌⊎◌, inl, inr, Bool, true, false, not, ◌&&◌, ◌||◌, Option, none, some, List, [], ◌∷◌, ◌++◌, map,
  reverse, Perm, Sublist, append-nil, append_assoc, arith, ltb, leb, nat_beq, if◌then◌else◌, ltb→lt,
  lt→ltb, leb→le, nat_beq_iff, Bool-cases, Option-cases, Bool-eq_of_iff, length, take, drop, any,
  all, keep, is_empty, length-append, length-take, take-append-drop, length-keep-le, any-append,
  keep-append, All, Any, Member, HasEq, ◌==◌, nat_eq, list_eq, list_beq, list_beq_iff, beq_refl,
  contains, contains_iff, update, occurrences, capped, occurrences-capped, capped-sublist,
  WithinQuota, take-capped-WithinQuota, sort_by, Sorted, sort_by-perm, sort_by-All, sort_by-Sorted,
  Text, codes, starts_with, ends_with, occurs_in, split, join, strip, lstrip, rstrip, is_space,
  from_last, ascii_lower, starts_with_iff, ends_with_iff, split-ne_nil, join-split, split-append,
}

abbrev pub default_max_per_domain : ℕ
default_max_per_domain = 3

abbrev pub two_level_tlds : List Text
two_level_tlds =
    codes "co.jp"
    ∷ codes "ne.jp"
    ∷ codes "or.jp"
    ∷ codes "ac.jp"
    ∷ codes "go.jp"
    ∷ codes "ed.jp"
    ∷ codes "ad.jp"
    ∷ codes "co.uk"
    ∷ codes "ac.uk"
    ∷ codes "org.uk"
    ∷ codes "gov.uk"
    ∷ codes "co.kr"
    ∷ codes "or.kr"
    ∷ codes "go.kr"
    ∷ codes "com.au"
    ∷ codes "net.au"
    ∷ codes "org.au"
    ∷ codes "edu.au"
    ∷ codes "com.br"
    ∷ codes "org.br"
    ∷ codes "net.br"
    ∷ codes "com.cn"
    ∷ codes "net.cn"
    ∷ codes "org.cn"
    ∷ codes "co.in"
    ∷ codes "net.in"
    ∷ codes "org.in"
    ∷ codes "co.nz"
    ∷ codes "net.nz"
    ∷ codes "org.nz"
    ∷ codes "com.tw"
    ∷ codes "org.tw"
    ∷ codes "net.tw"
    ∷ []

-- `two_level in _TWO_LEVEL_TLDS`
unfoldable pub is_two_level_tld : Text → Bool
is_two_level_tld two_level = contains two_level two_level_tlds

-- `parts[-n:]`
unfoldable pub last_parts : ℕ → List Text → List Text
last_parts n parts = drop (length parts - n) parts

-- `_extract_domain` from the parts of the host on.
registered_from : Text → List Text → Text
registered_from host parts =
    let two_level = join b'.' (last_parts 2 parts) in
    if leb (length parts) 2
    then host
    else if is_two_level_tld two_level && leb 3 (length parts)
    then join b'.' (last_parts 3 parts)
    else two_level

unfoldable pub registered_domain : Text → Text
unfolding registered_from is_two_level_tld last_parts
registered_domain host = registered_from host (split b'.' host)

-- `hostname url` is `urlparse(url).hostname`: `none` where the call raises or gives `None`.
module _ (hostname : Text → Option Text) where
  unfoldable pub extract_domain : Text → Text
  extract_domain url = elim (hostname url) [ none ↦ [] | some host ↦ registered_domain host ]

module _ {Hit : Type 0} (domain : Hit → Text) (limit max_per_domain : ℕ) where
  -- The loop, with `domain_counts` and `result` as its variables.
  unfoldable pub diversify_loop : List Hit → (Text → ℕ) → List Hit → List Hit
  diversify_loop [] counts result = result
  diversify_loop (hit ∷ hits) counts result =
      let skip = diversify_loop hits counts result in
      let taken =
        diversify_loop hits (update counts (domain hit) (counts (domain hit) + 1))
          (result ++ hit ∷ []) in
      if leb limit (length result)
      then result
      else if leb max_per_domain (counts (domain hit))
      then skip
      else taken

  unfoldable pub diversify_hits : List Hit → List Hit
  unfolding diversify_loop
  diversify_hits hits = diversify_loop hits (λ _. 0) []
