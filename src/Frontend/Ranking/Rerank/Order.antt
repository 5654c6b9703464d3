-- ===== src/Frontend/Ranking/Rerank/Order.antt =====
-- Where `rerank_hits` puts recruiting pages, and canonical sources.
use web_search.Prelude.{
  ℕ, zero, suc, ◌+◌, ◌≤◌, ◌≡◌, refl, ap, ◌∙◌, inl, inr, Bool, true, false, not, ◌&&◌, List, [], ◌∷◌,
  ◌++◌, map, arith, Bool-cases, take, keep, All, nat_eq, list_eq, sort_by, Sorted, All-keep,
  All-map, sort_by_of_Sorted, sort_by-flag,
}
use mathlib.Core.Path.{ap₂}
use web_search.Frontend.Ranking.{other, SearchRankingPolicy}
use web_search.Frontend.Ranking.Signals.{
  SearchHit, HitLib, is_recruiting_hit, ranking_signals_for_hit,
}
use web_search.Frontend.Ranking.Rerank.{
  RankedHit, RankOrder, key_before, index_less, ranked_hit, ranked_from, reranked, rerank_hits,
}

module _ {Rank : Type 0} where
  abbrev pub is_plain : RankedHit Rank → Bool
  is_plain r = not r.signals.is_recruiting_page

  same_flag :
      (less : RankedHit Rank → RankedHit Rank → Bool) (a b : RankedHit Rank)
      → is_plain a ≡ is_plain b
      → key_before less a b ≡ not (less a b)
  unfolding key_before
  same_flag less a b h = ground (arith, h)

  other_flag :
      (less : RankedHit Rank → RankedHit Rank → Bool) (a b : RankedHit Rank)
      → (is_plain a ≡ is_plain b → ⊥)
      → key_before less a b ≡ is_plain a
  unfolding key_before
  other_flag less a b h = ground (arith, h)

  -- Recruiting pages come last, and each part is sorted by the rest of the key.
  pub by_key-flag :
      (less : RankedHit Rank → RankedHit Rank → Bool) (l : List (RankedHit Rank))
      → let within = λ (a : RankedHit Rank) (b : RankedHit Rank). not (less a b) in
        sort_by (key_before less) l
        ≡ sort_by within (keep is_plain l) ++ sort_by within (keep (λ r. not (is_plain r)) l)
  by_key-flag less l =
      sort_by-flag is_plain (key_before less) (λ a b. not (less a b)) (same_flag less)
        (other_flag less) l

keep-Sorted {ℓ} :
    {A : Type ℓ} (before : A → A → Bool) (p : A → Bool) (l : List A)
    → Sorted before l
    → Sorted before (keep p l)
keep-Sorted before p [] s = tt
keep-Sorted before p (x ∷ l) (below, s) = elim (Bool-cases (p x)) [
  | inl e ↦ rw (e, keep) (All-keep _ p l below, keep-Sorted before p l s)
  | inr e ↦ rw (e, keep) (keep-Sorted before p l s)
]

map-append {ℓ κ} :
    {A : Type ℓ} {B : Type κ} (f : A → B) (xs ys : List A) → map f (xs ++ ys) ≡ map f xs ++ map f ys
map-append f [] ys = refl
map-append f (x ∷ xs) ys = ap (◌∷◌ (f x)) (map-append f xs ys)

not-not : (b : Bool) → not (not b) ≡ b
not-not true = refl
not-not false = refl

module _ {Rank : Type 0} (lib : HitLib Rank) (order : RankOrder Rank)
    (policy : SearchRankingPolicy) where
  -- A page that the policy moves to the end.
  abbrev pub is_demoted : SearchHit Rank → Bool
  is_demoted hit = policy.demote_recruiting && is_recruiting_hit lib hit

  abbrev ranked : ℕ → List (SearchHit Rank) → List (RankedHit Rank)
  ranked i hits = ranked_from lib order policy i hits

  ranked-from :
      (i j : ℕ) (hits : List (SearchHit Rank))
      → i ≤ j
      → All (λ r. i ≤ r.original_index) (ranked j hits)
  unfolding ranked_from
  ranked-from i j [] k = tt
  ranked-from i j (h ∷ hits) k = (k, ranked-from i (j + 1) hits (omega (arith, k)))

  ranked-Sorted :
      (i : ℕ) (hits : List (SearchHit Rank))
      → Sorted (λ a b. not (index_less order a b)) (ranked i hits)
  unfolding ranked_from index_less
  ranked-Sorted i [] = tt
  ranked-Sorted i (h ∷ hits) = (
    All-map (λ r. i ≤ r.original_index) _ (ranked (i + 1) hits) (λ r k. ground (arith, k))
        (ranked-from i (i + 1) hits (omega arith)),
    ranked-Sorted (i + 1) hits,
  )

  kept_hits :
      (p : RankedHit Rank → Bool) (q : SearchHit Rank → Bool) (i : ℕ) (hits : List (SearchHit Rank))
      → ((j : ℕ) (h : SearchHit Rank) → p (ranked_hit lib order policy j h) ≡ q h)
      → map (λ r. r.hit) (keep p (ranked i hits)) ≡ keep q hits
  unfolding ranked_from
  kept_hits p q i [] e = refl
  kept_hits p q i (h ∷ hits) e = ground (arith, e i h, kept_hits p q (i + 1) hits e)

  plain_hit :
      (j : ℕ) (h : SearchHit Rank) → is_plain (ranked_hit lib order policy j h) ≡ not (is_demoted h)
  unfolding ranked_hit ranking_signals_for_hit
  plain_hit j h = refl

  -- Sorting by the index leaves the order, but for the flag.
  by_index :
      (hits : List (SearchHit Rank))
      → map (λ r. r.hit) (sort_by (key_before (index_less order)) (ranked 0 hits))
        ≡ keep (λ h. not (is_demoted h)) hits ++ keep is_demoted hits
  by_index hits =
      let l = ranked 0 hits in
      let within : RankedHit Rank → RankedHit Rank → Bool = λ a b. not (index_less order a b) in
      let stays = λ (p : RankedHit Rank → Bool).
        sort_by_of_Sorted within (keep p l) (keep-Sorted within p l (ranked-Sorted 0 hits)) in
      ap (map (λ r. r.hit)) (
        by_key-flag (index_less order) l
        ∙ ap₂ ◌++◌ (stays is_plain) (stays (λ r. not (is_plain r))))
      ∙ map-append (λ r. r.hit) (keep is_plain l) (keep (λ r. not (is_plain r)) l)
      ∙ ap₂ ◌++◌ (kept_hits is_plain (λ h. not (is_demoted h)) 0 hits plain_hit) (
          kept_hits (λ r. not (is_plain r)) is_demoted 0 hits
            (λ j h. ap not (plain_hit j h) ∙ not-not (is_demoted h)))

  reranked-other :
      (l : List (RankedHit Rank))
      → policy.query_class ≡ other
      → reranked lib order policy l ≡ sort_by (key_before (index_less order)) l
  unfolding reranked
  reranked-other l e = rw e refl

  -- Where the query belongs to no source and compares nothing, `rerank_hits` leaves the order of
  -- the hits as it is, but for the recruiting pages, which it puts at the end if the policy
  -- demotes them; and it cuts the list at the limit.
  pub rerank_hits-other :
      (limit : ℕ) (hits : List (SearchHit Rank))
      → policy.query_class ≡ other
      → rerank_hits lib order policy limit hits
        ≡ take limit (keep (λ h. not (is_demoted h)) hits ++ keep is_demoted hits)
  unfolding rerank_hits
  rerank_hits-other zero [] e = refl
  rerank_hits-other (suc n) [] e = refl
  rerank_hits-other limit (h ∷ hits) e =
      ap (λ l. take limit (map (λ r. r.hit) l)) (reranked-other (ranked 0 (h ∷ hits)) e)
      ∙ ap (take limit) (by_index (h ∷ hits))
