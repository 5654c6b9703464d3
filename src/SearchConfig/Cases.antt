-- ===== src/SearchConfig/Cases.antt =====
-- packages/search-config/src/web_search_search_config/canonical_sources.py: the cases against which
-- the search is evaluated. `lower` is `str.lower`.
use web_search.Prelude.{
  ℕ, Bool, not, ◌||◌, Option, List, is_empty, nat_eq, list_eq, Text, strip, pair_eq, ℤ,
}

pub record EvalJudgment : Type 0 where
  pub relevance : ℤ
  pub url : Option Text
  pub domain : Option Text
  pub path_prefix : Option Text
  pub title_terms : List Text

pub record CanonicalEvalCase : Type 0 where
  pub query : Text
  pub query_type : Text
  pub expected : Text
  pub notes : Text
  pub required_terms : List Text
  pub required_domains : List Text
  pub minimum_domain_matches : ℕ
  pub any_of_terms : List Text
  pub required_title_terms : List Text
  pub required_paths : List Text
  pub required_path_terms : List Text
  pub excluded_domains : List Text
  pub max_match_rank : Option ℕ
  pub pass_reason : Option Text
  pub fail_reason : Option Text
  pub judgments : List EvalJudgment

unfoldable pub query_key : (lower : Text → Text) → CanonicalEvalCase → Text
query_key lower case = lower (strip case.query)

unfoldable pub has_explicit_rule : CanonicalEvalCase → Bool
has_explicit_rule case = not (is_empty case.required_terms) || not (is_empty case.required_domains)
