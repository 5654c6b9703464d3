-- ===== src/Frontend/Ranking/Rerank/Scores.antt =====
-- How large the signals of a hit are.
use web_search.Prelude.{
  ℕ, ◌+◌, ◌≤◌, ◌≡◌, refl, inl, inr, Bool, false, ◌||◌, Option, none, some, List, [], ◌∷◌, arith,
  leb, Bool-cases, length, any, length-keep-le, nat_eq, list_eq, Text,
}
use web_search.Frontend.Ranking.{
  QueryClass, navigational, reference, news, comparison, other, CanonicalSourceConfig,
  ComparisonIntent, SearchRankingPolicy, query_tokens,
}
use web_search.Frontend.Ranking.Signals.{
  SearchHit, HitLib, ℤ, pos, negsuc, difference, path_or_root, term_matches_token, score_of,
  gains_of, losses_of, canonical_source_match_score, intent_match_score,
  comparison_intent_match_score, ranking_signals_for_hit,
}
use web_search.Frontend.Ranking.Rerank.{int_lt}

unfoldable pub InBounds : ℤ → Type 0
InBounds score = (int_lt score (negsuc 8) ≡ false) × (int_lt (pos 10) score ≡ false)

difference-InBounds :
    (gains losses : ℕ) → gains ≤ 10 → losses ≤ gains + 9 → InBounds (difference gains losses)
unfolding InBounds
difference-InBounds gains losses h k = elim (Bool-cases (leb losses gains)) [
  | inl e ↦ rw e (refl, ground (arith, h, e))
  | inr e ↦ rw e (ground (arith, k, e), refl)
]

gains-le :
    (titles paths subjects cue_title cue_path cue_text : Bool)
    → gains_of titles paths subjects cue_title cue_path cue_text ≤ 10
gains-le titles paths subjects cue_title cue_path cue_text = ground arith

losses-le :
    (titles paths subjects cue_title cue_path cue_text one_shallow low : Bool)
    → losses_of one_shallow titles paths cue_text low (cue_title || cue_path)
      ≤ gains_of titles paths subjects cue_title cue_path cue_text + 9
losses-le titles paths subjects cue_title cue_path cue_text one_shallow low = ground arith

score_of-InBounds :
    (titles paths subjects cue_title cue_path cue_text one_shallow low : Bool)
    → InBounds (score_of titles paths subjects cue_title cue_path cue_text one_shallow low)
unfolding score_of
score_of-InBounds titles paths subjects cue_title cue_path cue_text one_shallow low =
    difference-InBounds _ _ (gains-le titles paths subjects cue_title cue_path cue_text)
      (losses-le titles paths subjects cue_title cue_path cue_text one_shallow low)

module _ {Rank : Type 0} (lib : HitLib Rank) where
  score-InBounds :
      (hit : SearchHit Rank) (intent : ComparisonIntent)
      → InBounds (comparison_intent_match_score lib hit intent)
  unfolding comparison_intent_match_score
  score-InBounds hit (left, right) = search score_of-InBounds

  match-le :
      (hit : SearchHit Rank) (source : CanonicalSourceConfig) (c : QueryClass)
      → canonical_source_match_score lib hit source c ≤ 3
  unfolding canonical_source_match_score
  match-le hit source c = ground arith

  intent-le : (terms : List Text) (text : Text) → intent_match_score lib terms text ≤ length terms
  unfolding intent_match_score
  intent-le [] text = omega arith
  intent-le (t ∷ terms) text =
      length-keep-le
        (λ term. any (λ token. term_matches_token term token) (query_tokens lib.lower text))
        (t ∷ terms)

  comparison-InBounds :
      (hit : SearchHit Rank) (c : QueryClass) (intent : Option ComparisonIntent)
      → InBounds (elim c [
        | comparison ↦ elim intent [
          | none ↦ pos 0
          | some i ↦ comparison_intent_match_score lib hit i
        ]
        | _ ↦ pos 0
      ])
  unfolding InBounds
  comparison-InBounds hit navigational intent = (refl, refl)
  comparison-InBounds hit reference intent = (refl, refl)
  comparison-InBounds hit news intent = (refl, refl)
  comparison-InBounds hit other intent = (refl, refl)
  comparison-InBounds hit comparison none = (refl, refl)
  comparison-InBounds hit comparison (some i) = score-InBounds hit i

  canonical-le :
      (hit : SearchHit Rank) (c : QueryClass) (source : Option CanonicalSourceConfig)
      → elim source [ none ↦ 0 | some s ↦ canonical_source_match_score lib hit s c ] ≤ 3
  canonical-le hit c none = omega arith
  canonical-le hit c (some s) = match-le hit s c

  -- The signals of a hit are bounded: the match with the source by 3, the matches of title and path
  -- with the intent by the number of its terms, and the score of a comparison by -9 and 10.
  pub ranking_signals_for_hit-bounds :
      (hit : SearchHit Rank) (policy : SearchRankingPolicy)
      → let s = ranking_signals_for_hit lib hit policy in
        (s.canonical_source_match ≤ 3)
        × (s.title_intent_match ≤ length policy.intent_terms)
        × (s.path_intent_match ≤ length policy.intent_terms)
        × InBounds s.comparison_intent_match
  unfolding ranking_signals_for_hit
  ranking_signals_for_hit-bounds hit policy = (
    by_class policy.query_class,
    intent-le policy.intent_terms hit.title,
    intent-le policy.intent_terms (path_or_root (lib.urlparse hit.url).path),
    comparison-InBounds hit policy.query_class policy.comparison_intent,
  )
    where
      by_class :
          (c : QueryClass)
          → elim c [
            | other ↦ 0
            | _ ↦ elim policy.source [
              | none ↦ 0
              | some s ↦ canonical_source_match_score lib hit s policy.query_class
            ]
          ]
            ≤ 3
      by_class other = omega arith
      by_class navigational = canonical-le hit policy.query_class policy.source
      by_class reference = canonical-le hit policy.query_class policy.source
      by_class news = canonical-le hit policy.query_class policy.source
      by_class comparison = canonical-le hit policy.query_class policy.source
