-- ===== src/Frontend/Ranking/Rerank/Diversity.antt =====
-- What `rerank_hits` does for a comparison: each domain once, before any comes again.
use web_search.Prelude.{
  ℕ, zero, suc, ◌≡◌, refl, sym, ap, ◌∙◌, inl, inr, Bool, true, false, not, ◌||◌, some, List, [],
  ◌∷◌, ◌++◌, map, Perm, append-nil, append_assoc, arith, if◌then◌else◌, Bool-cases, take, All,
  nat_eq, list_eq, list_beq, contains, sort_by, Sorted, Text, All-map, beq_sym,
}
use mathlib.Core.List.Perm
use mathlib.Core.List.{perm_middle}
use mathlib.Core.Path.{ap₂}
use web_search.Frontend.Ranking.{comparison, SearchRankingPolicy, ComparisonIntent}
use web_search.Frontend.Ranking.Signals.{SearchHit, HitLib}
use web_search.Frontend.Ranking.Rerank.{
  RankedHit, RankOrder, key_before, comparison_less, ranked_from, reranked, rerank_hits,
  promote_loop, promote_domain_diversity_for_comparison,
}

module _ {Rank : Type 0} where
  abbrev pub domain_of : RankedHit Rank → Text
  domain_of r = r.normalized_domain

  -- The hits whose domain is not among those seen, nor that of an earlier hit; and the others.
  firsts : List Text → List (RankedHit Rank) → List (RankedHit Rank)
  firsts seen [] = []
  firsts seen (r ∷ rs) =
      let again = firsts seen rs in
      let new = r ∷ firsts (domain_of r ∷ seen) rs in
      if contains (domain_of r) seen then again else new

  repeats : List Text → List (RankedHit Rank) → List (RankedHit Rank)
  repeats seen [] = []
  repeats seen (r ∷ rs) =
      let again = r ∷ repeats seen rs in
      let new = repeats (domain_of r ∷ seen) rs in
      if contains (domain_of r) seen then again else new

  promote_loop-parts :
      (seen : List Text) (hits fs os : List (RankedHit Rank))
      → promote_loop hits seen fs os ≡ (fs ++ firsts seen hits) ++ (os ++ repeats seen hits)
  unfolding promote_loop firsts repeats
  promote_loop-parts seen [] fs os = ap₂ ◌++◌ (sym (append-nil fs)) (sym (append-nil os))
  promote_loop-parts seen (r ∷ rs) fs os = elim (Bool-cases (contains (domain_of r) seen)) [
    | inl e ↦
        rw (e, promote_loop, firsts, repeats)
          (promote_loop-parts seen rs fs (os ++ r ∷ [])
            ∙ ap (λ t. (fs ++ firsts seen rs) ++ t) (append_assoc os (r ∷ []) (repeats seen rs)))
    | inr e ↦
        let more = domain_of r ∷ seen in
        rw (e, promote_loop, firsts, repeats)
          (promote_loop-parts more rs (fs ++ r ∷ []) os
            ∙ ap (λ t. t ++ (os ++ repeats more rs)) (append_assoc fs (r ∷ []) (firsts more rs)))
  ]

  parts-Perm :
      (seen : List Text) (hits : List (RankedHit Rank))
      → Perm (firsts seen hits ++ repeats seen hits) hits
  unfolding firsts repeats
  parts-Perm seen [] = Perm.rfl
  parts-Perm seen (r ∷ rs) = elim (Bool-cases (contains (domain_of r) seen)) [
    | inl e ↦
        rw (e, firsts, repeats)
          (Perm.trans (perm_middle (firsts seen rs) (repeats seen rs))
            (Perm.cons r (parts-Perm seen rs)))
    | inr e ↦ rw (e, firsts, repeats) (Perm.cons r (parts-Perm (domain_of r ∷ seen) rs))
  ]

  abbrev pub other_domain : RankedHit Rank → RankedHit Rank → Bool
  other_domain a b = not (list_beq (domain_of a) (domain_of b))

  firsts-new :
      (seen : List Text) (hits : List (RankedHit Rank))
      → All (λ r. contains (domain_of r) seen ≡ false) (firsts seen hits)
  unfolding firsts
  firsts-new seen [] = tt
  firsts-new seen (r ∷ rs) = elim (Bool-cases (contains (domain_of r) seen)) [
    | inl e ↦ rw (e, firsts) (firsts-new seen rs)
    | inr e ↦
        rw (e, firsts)
          (
            e,
            All-map (λ s. contains (domain_of s) (domain_of r ∷ seen) ≡ false) _
                (firsts (domain_of r ∷ seen) rs) (λ s k. ground (arith, k))
                (firsts-new (domain_of r ∷ seen) rs),
          )
  ]

  firsts-differ :
      (seen : List Text) (hits : List (RankedHit Rank)) → Sorted other_domain (firsts seen hits)
  unfolding firsts
  firsts-differ seen [] = tt
  firsts-differ seen (r ∷ rs) = elim (Bool-cases (contains (domain_of r) seen)) [
    | inl e ↦ rw (e, firsts) (firsts-differ seen rs)
    | inr e ↦
        rw (e, firsts)
          (
            All-map (λ s. contains (domain_of s) (domain_of r ∷ seen) ≡ false) _
                (firsts (domain_of r ∷ seen) rs)
                (λ s k. ground (arith, k, beq_sym {A = Text} (domain_of r) (domain_of s)))
                (firsts-new (domain_of r ∷ seen) rs),
            firsts-differ (domain_of r ∷ seen) rs,
          )
  ]

  -- A domain that is seen, or that a first hit has.
  abbrev known : List Text → List (RankedHit Rank) → RankedHit Rank → Bool
  known seen fs r = contains (domain_of r) seen || contains (domain_of r) (map domain_of fs)

  repeats-known :
      (seen : List Text) (hits : List (RankedHit Rank))
      → All (λ r. known seen (firsts seen hits) r ≡ true) (repeats seen hits)
  unfolding firsts repeats
  repeats-known seen [] = tt
  repeats-known seen (r ∷ rs) = elim (Bool-cases (contains (domain_of r) seen)) [
    | inl e ↦ rw (e, firsts, repeats) (ground (arith, e), repeats-known seen rs)
    | inr e ↦
        let more = domain_of r ∷ seen in
        rw (e, firsts, repeats)
          (All-map (λ s. known more (firsts more rs) s ≡ true) _ (repeats more rs)
            (λ s k. ground (arith, k)) (repeats-known more rs))
  ]

  -- Hits with one domain each, and behind them hits whose domains have come.
  pub record Diverse (ranked result : List (RankedHit Rank)) : Type 0 where
    pub leading : List (RankedHit Rank)
    pub following : List (RankedHit Rank)
    pub parts : result ≡ leading ++ following
    pub one_each : Sorted other_domain leading
    pub come_again : All (λ r. contains (domain_of r) (map domain_of leading) ≡ true) following
    pub rearranged : Perm result ranked

  pub promote-Diverse :
      (hits : List (RankedHit Rank)) → Diverse hits (promote_domain_diversity_for_comparison hits)
  unfolding promote_domain_diversity_for_comparison
  promote-Diverse hits = record {
    leading = firsts [] hits;
    following = repeats [] hits;
    parts = promote_loop-parts [] hits [] [];
    one_each = firsts-differ [] hits;
    come_again = repeats-known [] hits;
    rearranged = rw (promote_loop-parts [] hits [] []) (parts-Perm [] hits);
  }

module _ {Rank : Type 0} (lib : HitLib Rank) (order : RankOrder Rank)
    (policy : SearchRankingPolicy) where
  -- The hits in the order of the key of a comparison.
  abbrev pub compared : List (SearchHit Rank) → List (RankedHit Rank)
  compared hits = sort_by (key_before (comparison_less order)) (ranked_from lib order policy 0 hits)

  reranked-comparison :
      (l : List (RankedHit Rank)) (intent : ComparisonIntent)
      → policy.query_class ≡ comparison
      → policy.comparison_intent ≡ some intent
      → reranked lib order policy l
        ≡ promote_domain_diversity_for_comparison (sort_by (key_before (comparison_less order)) l)
  unfolding reranked
  reranked-comparison l intent e c = rw (e, c) refl

  -- For a comparison `rerank_hits` returns the first hits of a rearrangement of what the key of a
  -- comparison gives, in which no two of the leading hits have the same domain, and every hit
  -- behind these has the domain of one of them.
  pub rerank_hits-comparison :
      (limit : ℕ) (hits : List (SearchHit Rank)) (intent : ComparisonIntent)
      → policy.query_class ≡ comparison
      → policy.comparison_intent ≡ some intent
      → (l : List (RankedHit Rank)) × Diverse (compared hits) l
        × (rerank_hits lib order policy limit hits ≡ take limit (map (λ r. r.hit) l))
  unfolding rerank_hits ranked_from sort_by
  rerank_hits-comparison zero [] intent e c = ([], promote-Diverse [], refl)
  rerank_hits-comparison (suc n) [] intent e c = ([], promote-Diverse [], refl)
  rerank_hits-comparison limit (h ∷ hits) intent e c = (
    promote_domain_diversity_for_comparison (compared (h ∷ hits)),
    promote-Diverse (compared (h ∷ hits)),
    ap (λ l. take limit (map (λ r. r.hit) l))
        (reranked-comparison (ranked_from lib order policy 0 (h ∷ hits)) intent e c),
  )
