-- ===== src/Tests/Evaluation.antt =====
-- The evaluation of the search at concrete inputs.
use web_search.Prelude.{
  ℕ, ◌+◌, ◌-◌, ◌*◌, ◌/◌, ◌^◌, ◌≡◌, refl, not, ◌&&◌, none, some, List, [], ◌∷◌, map, ltb, nat_beq,
  take, any, nat_eq, list_eq, list_beq, Text, codes, ascii_lower, pair_eq, pos,
}
use web_search.SearchConfig.Cases.{CanonicalEvalCase}
use web_search.SearchConfig.Evaluator.{
  ParsedUrl, EvalHit, explicit_rule, extract_domain, hit_relevance,
}
use web_search.SearchConfig.Evaluator.Metrics.{
  ScoreOps, compute_case_metrics, Agrees, compute_case_metrics-Agrees,
}
use web_search.SearchConfig.Evaluator.Verdicts.{classify_case}
use web_search.SearchConfig.Evaluator.Verdicts.Agreement.{is_full, ByDomain, classify_case-passed}
use web_search.Tests.SimpleUrls.{simple_urlsplit}

abbrev simple_parse : Text → ParsedUrl
simple_parse url = elim (simple_urlsplit url) [
  | none ↦ record { scheme = []; netloc = []; path = []; query = [] }
  | some parts ↦ record {
    scheme = parts.scheme;
    netloc = elim parts.hostname [ none ↦ [] | some h ↦ h ];
    path = parts.path;
    query = parts.query;
  }
]

abbrev case : Text → CanonicalEvalCase
case query_type = record {
  query = codes "Python";
  query_type = query_type;
  expected = codes "the `Python.org` site";
  notes = codes "Homepage";
  required_terms = [];
  required_domains = [];
  minimum_domain_matches = 1;
  any_of_terms = [];
  required_title_terms = [];
  required_paths = [];
  required_path_terms = [];
  excluded_domains = [];
  max_match_rank = none;
  pass_reason = none;
  fail_reason = none;
  judgments = [];
}

abbrev hit_for : Text → EvalHit
hit_for url = record { url = url; title = codes "Title"; snip_plain = []; snip = [] }

abbrev hits : List EvalHit
hits =
    hit_for (codes "https://docs.python.org/3")
    ∷ hit_for (codes "https://www.python.org/x")
    ∷ hit_for (codes "https://www.python.org/")
    ∷ []

abbrev home : CanonicalEvalCase
home = case (codes "navigational")

-- Natural numbers in place of floats.
abbrev scores : ScoreOps ℕ
scores = record {
  zero_score = 0;
  add = ◌+◌;
  discounted = λ r i. 100 * (2 ^ r - 1) / (i + 1);
  divide = λ a b. 100 * a / b;
  reciprocal = λ r. 100 / r;
  is_above_zero = λ n. ltb 0 n;
}

relevances_run :
    (compute_case_metrics scores ascii_lower simple_parse home hits [] []).1
    ≡ pos 0 ∷ pos 2 ∷ pos 3 ∷ []
unfolding compute_case_metrics
relevances_run = refl

compute_case_metrics-Agrees_example :
    let (metrics, relevances) =
      compute_case_metrics scores ascii_lower simple_parse home hits [] [] in
    Agrees metrics relevances
    × (relevances ≡ map (λ hit. hit_relevance ascii_lower simple_parse home hit [] []) hits)
compute_case_metrics-Agrees_example =
    compute_case_metrics-Agrees scores ascii_lower simple_parse home hits [] []

home_unruled : explicit_rule ascii_lower simple_parse home [] ≡ none
unfolding explicit_rule
home_unruled = refl

home_expected : extract_domain ascii_lower simple_parse home.expected [] ≡ some (codes "python.org")
unfolding extract_domain
home_expected = refl

abbrev home_by_domain : ByDomain ascii_lower simple_parse home [] []
home_by_domain = record {
  unjudged = refl;
  unruled = home_unruled;
  first = b'p';
  others = codes "ython.org";
  expected = home_expected;
  typed = refl;
}

verdict_runs :
    (classify_case ascii_lower simple_parse home hits 3 [] []).1
    ≡ codes "official destination is in top 3"
unfolding classify_case
verdict_runs = refl

classify_case-passed_example :
    list_beq (classify_case ascii_lower simple_parse home hits 3 [] []).0 (codes "pass") ≡ (
      not (nat_beq 3 0)
      && any is_full
          (map (λ hit. hit_relevance ascii_lower simple_parse home hit [] []) (take 3 hits)))
classify_case-passed_example =
    classify_case-passed ascii_lower simple_parse home [] [] hits 3 home_by_domain

-- A domain that only contains the expected one passes for news, and has no relevance.
news_verdict_runs :
    (classify_case ascii_lower simple_parse
      (case (codes "news"))
      (hit_for (codes "https://notpython.org.example/") ∷ [])
      1
      []
      []).0
    ≡ codes "pass"
unfolding classify_case
news_verdict_runs = refl

news_relevance_runs :
    hit_relevance ascii_lower simple_parse
      (case (codes "news"))
      (hit_for (codes "https://notpython.org.example/"))
      []
      []
    ≡ pos 0
unfolding hit_relevance
news_relevance_runs = refl
