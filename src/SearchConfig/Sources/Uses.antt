-- ===== src/SearchConfig/Sources/Uses.antt =====
-- packages/search-config/src/web_search_search_config/canonical_sources.py: what the evaluation takes
-- from the loaded sources. A dict is a list of its items in their order, and a set is a list without
-- repetitions, in one of the orders that it may have.
use web_search.Prelude.{
  ◌≡◌, false, none, some, List, [], ◌∷◌, ◌++◌, if◌then◌else◌, is_empty, nat_eq, list_eq, list_beq,
  contains, sort_by, Text, unique, if_cases, pair_eq,
}
use web_search.SearchConfig.Cases.{CanonicalEvalCase, query_key, has_explicit_rule}
use web_search.SearchConfig.Evaluator.{KeywordRule, or_empty, longer_first}
use web_search.SearchConfig.Sources.{CanonicalSource}

-- `rules[key] = payload`: a key that is there keeps its place.
unfoldable pub assign : Text → KeywordRule → List (Text × KeywordRule) → List (Text × KeywordRule)
assign key payload [] = (key, payload) ∷ []
assign key payload ((k, rule) ∷ rules) =
    let later = assign key payload rules in
    if list_beq k key then (k, payload) ∷ rules else (k, rule) ∷ later

-- The payload of a case; a list that is missing is empty.
unfoldable pub payload_of : CanonicalEvalCase → KeywordRule
payload_of case = record {
  required_terms = case.required_terms;
  any_of_terms = case.any_of_terms;
  required_title_terms = case.required_title_terms;
  required_domains = case.required_domains;
  excluded_domains = case.excluded_domains;
  required_paths = case.required_paths;
  required_path_terms = case.required_path_terms;
  minimum_domain_matches =
      if is_empty case.required_domains then none else some case.minimum_domain_matches;
  max_match_rank = case.max_match_rank;
  pass_reason = or_empty case.pass_reason;
  fail_reason = or_empty case.fail_reason;
}

abbrev pub cases_of_sources : List CanonicalSource → List CanonicalEvalCase
cases_of_sources [] = []
cases_of_sources (source ∷ sources) = source.cases ++ cases_of_sources sources

module _ (lower : Text → Text) where
  unfoldable pub rules_loop :
      List (Text × KeywordRule) → List CanonicalEvalCase → List (Text × KeywordRule)
  unfolding has_explicit_rule query_key assign payload_of
  rules_loop rules [] = rules
  rules_loop rules (case ∷ cases) =
      let assigned =
        if has_explicit_rule case
        then assign (query_key lower case) (payload_of case) rules
        else rules in
      rules_loop assigned cases

  unfoldable pub canonical_eval_keyword_rules : List CanonicalSource → List (Text × KeywordRule)
  unfolding rules_loop
  canonical_eval_keyword_rules sources = rules_loop [] (cases_of_sources sources)

  unfoldable pub cases_loop : (seen : List Text) → List CanonicalEvalCase → List CanonicalEvalCase
  unfolding query_key
  cases_loop seen [] = []
  cases_loop seen (case ∷ cases) =
      let skipped = cases_loop seen cases in
      let kept = cases_loop (query_key lower case ∷ seen) cases in
      if contains (query_key lower case) seen then skipped else case ∷ kept

  unfoldable pub canonical_query_cases : List CanonicalSource → List CanonicalEvalCase
  unfolding cases_loop
  canonical_query_cases sources = cases_loop [] (cases_of_sources sources)

abbrev pub domains_of_cases : List CanonicalEvalCase → List Text
domains_of_cases [] = []
domains_of_cases (case ∷ cases) =
    case.required_domains ++ case.excluded_domains ++ domains_of_cases cases

abbrev pub all_domains : List CanonicalSource → List Text
all_domains [] = []
all_domains (source ∷ sources) =
    source.domains ++ domains_of_cases source.cases ++ all_domains sources

unfoldable pub canonical_known_domains : List CanonicalSource → List Text
canonical_known_domains sources = sort_by longer_first (unique (all_domains sources))

module _ (lower : Text → Text) where
  -- No two of the cases have one query.
  abbrev pub DistinctQueries : (seen : List Text) → List CanonicalEvalCase → Type 0
  DistinctQueries seen [] = Unit
  DistinctQueries seen (case ∷ cases) =
      (contains (query_key lower case) seen ≡ false)
      × DistinctQueries (query_key lower case ∷ seen) cases

  cases_loop-DistinctQueries :
      (seen : List Text) (cases : List CanonicalEvalCase)
      → DistinctQueries seen (cases_loop lower seen cases)
  unfolding cases_loop
  cases_loop-DistinctQueries seen [] = tt
  cases_loop-DistinctQueries seen (case ∷ cases) =
      if_cases (DistinctQueries seen) (contains (query_key lower case) seen)
        (λ e. cases_loop-DistinctQueries seen cases)
        (λ e. (e, cases_loop-DistinctQueries (query_key lower case ∷ seen) cases))

  -- The queries of the cases that are evaluated are distinct.
  pub canonical_query_cases-DistinctQueries :
      (sources : List CanonicalSource) → DistinctQueries [] (canonical_query_cases lower sources)
  unfolding canonical_query_cases
  canonical_query_cases-DistinctQueries sources =
      cases_loop-DistinctQueries [] (cases_of_sources sources)
