-- ===== src/Frontend/Ranking/Classify/Policies.antt =====
-- What holds of every policy that a query gets.
use web_search.Prelude.{
  ◌≡◌, refl, ◌⊎◌, inl, inr, Bool, true, false, Option, none, some, List, [], if◌then◌else◌,
  is_empty, Member, nat_eq, list_eq, Text,
}
use web_search.Frontend.Ranking.{
  QueryClass, comparison, other, news, reference, CanonicalSourceConfig, ComparisonIntent,
  SearchRankingPolicy, PreparedSearchQuery,
}
use web_search.Frontend.Ranking.Classify.{
  Match, normalize_query_text, unsourced_policy, sourced_policy, plain_policy, match_source,
  classify_match, classify_text, classify_query_policy,
}
use web_search.Frontend.Ranking.Classify.Matches.{pairs_of, is_match, BestOf, match_source-BestOf}

-- A policy with a source restricts as the source does, and the query starts with an alias of the
-- source; a policy without one does not restrict, and is `other` or has a comparison to make.
pub IsCoherent : List CanonicalSourceConfig → Text → SearchRankingPolicy → Type 0
IsCoherent sources query_text policy = elim policy.source [
  | none ↦
      (policy.restrict_to_source ≡ false)
      × ((policy.query_class ≡ other)
          ⊎ ((policy.query_class ≡ comparison)
              × (c : ComparisonIntent) × (policy.comparison_intent ≡ some c)))
  | some source ↦
      (policy.restrict_to_source ≡ source.restrict_to_source)
      × (alias : Text) × Member (source, alias) (pairs_of sources)
      × (is_match query_text (source, alias) ≡ true)
]

either {ℓ κ} :
    {A : Type ℓ} (P : A → Type κ) (b : Bool) (x y : A) → P x → P y → P (if b then x else y)
either P true x y p q = p
either P false x y p q = q

module _ (lower : Text → Text) (sources : List CanonicalSourceConfig) (query_text : Text) where
  unsourced-IsCoherent :
      (intent : Option ComparisonIntent) (terms : List Text) (demote : Bool)
      → IsCoherent sources query_text (unsourced_policy lower intent terms demote)
  unfolding unsourced_policy IsCoherent
  unsourced-IsCoherent none terms demote = (refl, inl refl)
  unsourced-IsCoherent (some c) terms demote = (refl, inr (refl, c, refl))

  module _ (source : CanonicalSourceConfig) (alias : Text)
      (there : Member (source, alias) (pairs_of sources))
      (matches : is_match query_text (source, alias) ≡ true) where
    sourced-IsCoherent :
        (c : QueryClass) (demote : Bool) (intent : Option ComparisonIntent)
        → IsCoherent sources query_text (sourced_policy lower c source query_text demote intent)
    unfolding sourced_policy IsCoherent
    sourced-IsCoherent c demote intent = (refl, alias, there, matches)

    match-IsCoherent :
        (demote : Bool) (intent : Option ComparisonIntent)
        → IsCoherent sources query_text (classify_match lower query_text demote intent source alias)
    unfolding classify_match
    match-IsCoherent demote intent =
        let P = IsCoherent sources query_text in
        let sourced = λ (c : QueryClass). sourced-IsCoherent c demote intent in
        either P _ _ _ (sourced source.default_class) (
          either P _ _ _ (sourced news) (
            either P _ _ _ (unsourced-IsCoherent intent _ demote)
              (either P _ _ _ (sourced source.default_class) (sourced reference))))

  -- The policy that `classify_text` makes of the best match.
  best-IsCoherent :
      (o : Option Match) (demote : Bool) (intent : Option ComparisonIntent)
      → BestOf query_text (pairs_of sources) o
      → IsCoherent sources query_text (elim o [
        | none ↦ unsourced_policy lower intent [] demote
        | some (source, alias) ↦ classify_match lower query_text demote intent source alias
      ])
  unfolding BestOf
  best-IsCoherent none demote intent h = unsourced-IsCoherent intent [] demote
  best-IsCoherent (some (source, alias)) demote intent (there, matches, longest) =
      match-IsCoherent source alias there matches demote intent

  text-IsCoherent : IsCoherent sources query_text (classify_text lower sources query_text)
  unfolding classify_text
  text-IsCoherent =
      best-IsCoherent (match_source sources query_text) _ _ (match_source-BestOf query_text sources)

  plain-IsCoherent : IsCoherent sources query_text plain_policy
  unfolding IsCoherent
  plain-IsCoherent = (refl, inl refl)

-- The text that decides, of a query that `prepare_search_query` has read.
abbrev pub asked_text : (lower : Text → Text) → Text → PreparedSearchQuery → Text
asked_text lower q search_query =
    normalize_query_text lower
      (if is_empty search_query.positive_query then q else search_query.positive_query)

-- A policy with a source restricts the search as the source says, and the query starts with an
-- alias that the source is configured with; a policy without a source does not restrict, and is
-- either `other` or a comparison with its two subjects.
pub classify_query_policy-IsCoherent :
    (lower : Text → Text) (sources : List CanonicalSourceConfig) (q : Text)
    (search_query : PreparedSearchQuery)
    → IsCoherent sources
        (asked_text lower q search_query)
        (classify_query_policy lower sources q search_query)
unfolding classify_query_policy
classify_query_policy-IsCoherent lower sources q search_query =
    let text = asked_text lower q search_query in
    let P = IsCoherent sources text in
    let plain = plain-IsCoherent lower sources text in
    either P _ _ _ plain (either P _ _ _ plain (text-IsCoherent lower sources text))
