-- ===== src/Frontend/Ranking/Rerank/Results.antt =====
-- What every call of `rerank_hits` returns.
use web_search.Prelude.{
  ℕ, zero, suc, ◌+◌, ◌≡◌, refl, ap, Option, none, some, List, [], ◌∷◌, map, Perm, take, nat_eq,
  list_eq, sort_by, sort_by-perm,
}
use mathlib.Core.List.Perm
use mathlib.Core.Path.{subst}
use web_search.Frontend.Ranking.{
  QueryClass, navigational, reference, news, comparison, other, SearchRankingPolicy,
  ComparisonIntent,
}
use web_search.Frontend.Ranking.Signals.{SearchHit, HitLib}
use web_search.Frontend.Ranking.Rerank.{
  RankedHit, RankOrder, ranked_from, reranked, rerank_hits, key_before, comparison_less,
}
use web_search.Frontend.Ranking.Rerank.Diversity.{promote-Diverse}

module _ {Rank : Type 0} (lib : HitLib Rank) (order : RankOrder Rank)
    (policy : SearchRankingPolicy) where
  by_class :
      (l : List (RankedHit Rank)) (c : QueryClass) (i : Option ComparisonIntent)
      → policy.query_class ≡ c
      → policy.comparison_intent ≡ i
      → Perm (reranked lib order policy l) l
  unfolding reranked
  by_class l navigational i p q = rw p (sort_by-perm _ l)
  by_class l reference i p q = rw p (sort_by-perm _ l)
  by_class l news i p q = rw p (sort_by-perm _ l)
  by_class l other i p q = rw p (sort_by-perm _ l)
  by_class l comparison none p q = rw (p, q) (sort_by-perm _ l)
  by_class l comparison (some intent) p q =
      let sorted = sort_by (key_before (comparison_less order)) l in
      rw (p, q)
        (Perm.trans (promote-Diverse sorted).rearranged
          (sort_by-perm (key_before (comparison_less order)) l))

  reranked-Perm : (l : List (RankedHit Rank)) → Perm (reranked lib order policy l) l
  reranked-Perm l = by_class l policy.query_class policy.comparison_intent refl refl

  hits_of_ranked :
      (i : ℕ) (hits : List (SearchHit Rank))
      → map (λ r. r.hit) (ranked_from lib order policy i hits) ≡ hits
  unfolding ranked_from
  hits_of_ranked i [] = refl
  hits_of_ranked i (h ∷ hits) = ap (◌∷◌ h) (hits_of_ranked (i + 1) hits)

  -- `rerank_hits` returns the first `limit` hits of a rearrangement of the hits.
  pub rerank_hits-Perm :
      (limit : ℕ) (hits : List (SearchHit Rank))
      → (l : List (SearchHit Rank)) × Perm l hits
        × (rerank_hits lib order policy limit hits ≡ take limit l)
  unfolding rerank_hits
  rerank_hits-Perm zero [] = ([], Perm.rfl, refl)
  rerank_hits-Perm (suc n) [] = ([], Perm.rfl, refl)
  rerank_hits-Perm limit (h ∷ hits) =
      let ranked = ranked_from lib order policy 0 (h ∷ hits) in
      (
        map (λ r. r.hit) (reranked lib order policy ranked),
        subst (λ t. Perm (map (λ r. r.hit) (reranked lib order policy ranked)) t)
            (hits_of_ranked 0 (h ∷ hits)) (Perm.map (λ r. r.hit) (reranked-Perm ranked)),
        refl,
      )
