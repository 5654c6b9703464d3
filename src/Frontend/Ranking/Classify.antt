-- ===== src/Frontend/Ranking/Classify.antt =====
-- `classify_query_policy` of search_ranking_policy.py, with the loops it calls.
pub mod Matches
pub mod Policies
use web_search.Prelude.{
  ℕ, zero, suc, ◌+◌, ◌-◌, ◌*◌, ◌/◌, ◌%◌, ◌^◌, ◌≤◌, ◌<◌, min, max, ◌≡◌, refl, sym, ap, ◌∙◌, ◌≢◌, ◌↔◌,
  ◌⊎◌, inl, inr, Bool, true, false, not, ◌&&◌, ◌||◌, Option, none, some, List, [], ◌∷◌, ◌++◌, map,
  reverse, Perm, Sublist, append-nil, append_assoc, arith, ltb, leb, nat_beq, if◌then◌else◌, ltb→lt,
  lt→ltb, leb→le, nat_beq_iff, Bool-cases, Option-cases, Bool-eq_of_iff, length, take, drop, any,
  all, keep, is_empty, length-append, length-take, take-append-drop, length-keep-le, any-append,
  keep-append, All, Any, Member, HasEq, ◌==◌, nat_eq, list_eq, list_beq, list_beq_iff, beq_refl,
  contains, contains_iff, update, occurrences, capped, occurrences-capped, capped-sublist,
  WithinQuota, take-capped-WithinQuota, sort_by, Sorted, sort_by-perm, sort_by-All, sort_by-Sorted,
  Text, codes, starts_with, ends_with, occurs_in, split, join, strip, lstrip, rstrip, is_space,
  from_last, ascii_lower, starts_with_iff, ends_with_iff, split-ne_nil, join-split, split-append,
  any-congr, any-or, any-false, keep-congr, keep-All, All-keep, All-append, any_iff, Any-map,
  All-map, All-of, beq_sym, text_leb, text_leb_total, text_leb_trans, unique, if_true, if_false,
  Tracks, Tracks-skip, Tracks-take, All-take, keep-All_of, keep_of_All, All-Member, capped-All,
  keep-All_both, All-members, some_pair, decimal, Sorted-eq_of_perm, keep-perm, text_leb_antisymm,
  text_leb_refl, sort_by-All_inv, All-split, contains-sort_by, ◌>>=◌,
}
use web_search.Frontend.Ranking.{
  QueryClass, navigational, reference, news, comparison, other, CanonicalSourceConfig,
  PreparedSearchQuery, ComparisonIntent, SearchRankingPolicy, navigational_suffixes,
  other_query_markers, news_query_markers, intent_stop_terms, recruiting_query_terms, runs_from,
  is_token_char, words, extract_comparison_intent, query_tokens,
}

-- `query_text == alias or query_text.startswith(f"{alias} ")`
abbrev pub matches_alias : Text → Text → Bool
matches_alias query_text alias =
    list_beq query_text alias || starts_with (alias ++ codes " ") query_text

abbrev pub Match : Type 0
Match = CanonicalSourceConfig × Text

-- One round of the inner loop, with `best_match` as its variable.
unfoldable pub better_match : Text → CanonicalSourceConfig → Text → Option Match → Option Match
better_match query_text source alias best =
    if not (matches_alias query_text alias) then best else elim best [
      | none ↦ some (source, alias)
      | some (s, a) ↦ if ltb (length a) (length alias) then some (source, alias) else some (s, a)
    ]

unfoldable pub match_aliases :
    Text → CanonicalSourceConfig → List Text → Option Match → Option Match
unfolding better_match
match_aliases query_text source [] best = best
match_aliases query_text source (alias ∷ aliases) best =
    match_aliases query_text source aliases (better_match query_text source alias best)

unfoldable pub match_sources : Text → List CanonicalSourceConfig → Option Match → Option Match
unfolding match_aliases
match_sources query_text [] best = best
match_sources query_text (source ∷ sources) best =
    match_sources query_text sources (match_aliases query_text source source.aliases best)

unfoldable pub match_source : List CanonicalSourceConfig → Text → Option Match
unfolding match_sources
match_source sources query_text = match_sources query_text sources none

abbrev first_of : List Text → List Text
first_of [] = []
first_of (t ∷ ts) = t ∷ []

-- `SearchRankingPolicy(query_class="other")`, with the defaults of the class
abbrev pub plain_policy : SearchRankingPolicy
plain_policy = record {
  query_class = other;
  source = none;
  intent_terms = [];
  demote_recruiting = true;
  restrict_to_source = false;
  comparison_intent = none;
}

module _ (lower : Text → Text) where
  abbrev pub normalize_query_text : Text → Text
  normalize_query_text query = join b' ' (query_tokens lower query)

  abbrev first_terms : List Text → List Text
  first_terms [] = []
  first_terms (alias ∷ aliases) = first_of (query_tokens lower alias) ++ first_terms aliases

  unfoldable pub source_identity_terms : CanonicalSourceConfig → List Text
  source_identity_terms source =
      let firsts = unique (first_terms source.aliases) in
      if nat_beq (length firsts) 1 then firsts else []

  unfoldable pub intent_terms_for_source_query : Text → CanonicalSourceConfig → List Text
  unfolding source_identity_terms
  intent_terms_for_source_query query_text source =
      keep
        (λ term.
          not (contains term (source_identity_terms source) || contains term intent_stop_terms))
        (query_tokens lower query_text)

  abbrev pub intent_terms_for_comparison : ComparisonIntent → List Text
  intent_terms_for_comparison (left, right) = query_tokens lower left ++ query_tokens lower right

  -- The policies of a query that keeps no source.
  unfoldable pub unsourced_policy : Option ComparisonIntent → List Text → Bool → SearchRankingPolicy
  unsourced_policy comparison_intent terms demote_recruiting = record {
    query_class = elim comparison_intent [ none ↦ other | some c ↦ comparison ];
    source = none;
    intent_terms = elim comparison_intent [ none ↦ terms | some c ↦ intent_terms_for_comparison c ];
    demote_recruiting = demote_recruiting;
    restrict_to_source = false;
    comparison_intent = comparison_intent;
  }

  -- The policies of a query that keeps its source.
  unfoldable pub sourced_policy :
      QueryClass
      → CanonicalSourceConfig
      → Text
      → Bool
      → Option ComparisonIntent
      → SearchRankingPolicy
  unfolding intent_terms_for_source_query
  sourced_policy query_class source query_text demote_recruiting comparison_intent = record {
    query_class = query_class;
    source = some source;
    intent_terms = intent_terms_for_source_query query_text source;
    demote_recruiting = demote_recruiting;
    restrict_to_source = source.restrict_to_source;
    comparison_intent = comparison_intent;
  }

  -- `classify_query_policy` for a query that names a source.
  unfoldable pub classify_match :
      Text → Bool → Option ComparisonIntent → CanonicalSourceConfig → Text → SearchRankingPolicy
  unfolding unsourced_policy sourced_policy
  classify_match query_text demote_recruiting comparison_intent source alias =
      let sourced : QueryClass → SearchRankingPolicy = λ query_class.
        sourced_policy query_class source query_text demote_recruiting comparison_intent in
      let remainder = strip (drop (length alias) query_text) in
      let remainder_terms = words remainder in
      if is_empty remainder
      then sourced source.default_class
      else if all (λ term. contains term news_query_markers) remainder_terms
          && not (is_empty source.news_paths)
      then sourced news
      else if any (λ term. contains term other_query_markers) remainder_terms
      then unsourced_policy comparison_intent (intent_terms_for_source_query query_text source)
          demote_recruiting
      else if all (λ term. contains term navigational_suffixes) remainder_terms
      then sourced source.default_class
      else sourced reference

  -- `classify_query_policy` for a text that is not empty.
  unfoldable pub classify_text : List CanonicalSourceConfig → Text → SearchRankingPolicy
  unfolding classify_match match_source extract_comparison_intent
  classify_text sources query_text =
      let demote = not (any (λ term. contains term recruiting_query_terms) (words query_text)) in
      let intent = extract_comparison_intent query_text in
      elim (match_source sources query_text) [
        | none ↦ unsourced_policy intent [] demote
        | some (source, alias) ↦ classify_match query_text demote intent source alias
      ]

  unfoldable pub classify_query_policy :
      List CanonicalSourceConfig → Text → PreparedSearchQuery → SearchRankingPolicy
  unfolding classify_text
  classify_query_policy sources q search_query =
      let asked = if is_empty search_query.positive_query then q else search_query.positive_query in
      let query_text = normalize_query_text asked in
      let filtered : Bool = elim search_query.site_filter [
        | none ↦ false
        | some f ↦ not (is_empty f)
      ] in
      if filtered
      then plain_policy
      else if is_empty query_text
      then plain_policy
      else classify_text sources query_text
