-- ===== src/Tests/Cases.antt =====
-- The manifest of canonical sources at a concrete case.
use web_search.Prelude.{
  Text, sort_by, ◌∷◌, ascii_lower, List, length, All, ℕ, ◌≡◌, refl, true, false, none, some, [],
  arith, nat_eq, list_eq, codes, pair_eq, pos,
}
use web_search.SearchConfig.Json.{
  Json, JsonFields, get_field, get_value, JsonItems, null, number, string, array, object, item,
  no_items, field, no_fields,
}
use web_search.SearchConfig.Cases.{CanonicalEvalCase}
use web_search.SearchConfig.Manifest.{
  require_non_empty_string, validate_string_list, validate_texts, validate_lists, validate_rule,
  validate_numbers, validate_reasons, validate_judgment, validate_judgments, validate_case,
}
use web_search.SearchConfig.Manifest.Load.{load_case, load_judgments}
use web_search.SearchConfig.Manifest.Read.{Loadable}
use web_search.SearchConfig.Sources.{
  CanonicalSource, validate_cases, validate_source, validate_sources, validate_manifest,
  load_canonical_source_configs,
}
use web_search.SearchConfig.Sources.Uses.{
  canonical_eval_keyword_rules, canonical_query_cases, canonical_known_domains,
}
use web_search.SearchConfig.Sources.Cases.{FieldLoadable}
use web_search.SearchConfig.Sources.Loaded.{
  SourceIsSound, load_canonical_source_configs-SourceIsSound,
}

-- Two domains, of which both are asked for, and a row that judges one path.
abbrev text_fields : JsonFields → JsonFields
text_fields rest = field (codes "query") (string (codes " Python ")) (
    field (codes "query_type") (string (codes "reference")) (
      field (codes "expected") (string (codes "`python.org`"))
        (field (codes "notes") (string (codes "docs")) rest)))

abbrev two_domains : Json
two_domains = array (item (string (codes "python.org")) (item (string (codes "pypi.org")) no_items))

abbrev row : Json
row = object (
    field (codes "relevance") (number (pos 3))
      (field (codes "domain") (string (codes "docs.python.org")) no_fields))

abbrev with_minimum : ℕ → JsonFields
with_minimum n = text_fields (
    field (codes "required_domains") two_domains (
      field (codes "minimum_domain_matches") (number (pos n)) (
        field (codes "pass_reason") (string (codes "found")) (
          field (codes "fail_reason") (string (codes "missing"))
            (field (codes "judgments") (array (item row no_items)) no_fields)))))

both_accepted : validate_case (with_minimum 2) ≡ true
unfolding validate_case validate_texts validate_lists validate_rule validate_numbers
    validate_reasons validate_judgments validate_judgment validate_string_list
    require_non_empty_string get_field
both_accepted = refl

three_refused : validate_case (with_minimum 3) ≡ false
unfolding validate_case validate_texts validate_lists validate_rule validate_numbers
    validate_reasons validate_judgments validate_judgment validate_string_list
    require_non_empty_string get_field
three_refused = refl

abbrev loadable : Loadable (with_minimum 2)
unfolding get_field
loadable = record {
  listed = λ e. ground (arith, e);
  pass_reason = some (codes "found");
  pass_read = refl;
  fail_reason = some (codes "missing");
  fail_read = refl;
}

abbrev source : JsonFields
source = field (codes "key") (string (codes "python")) (
    field (codes "aliases") (array (item (string (codes "python")) no_items)) (
      field (codes "domains") two_domains
        (field (codes "cases") (array (item (object (with_minimum 2)) no_items)) no_fields)))

abbrev manifest_loadable : FieldLoadable (get_field (codes "cases") source)
unfolding get_field
manifest_loadable = (loadable, tt)

abbrev listed : JsonItems
listed = item (object source) no_items

abbrev manifest : JsonFields
manifest = field (codes "sources") (array listed) no_fields

manifest_accepted : validate_manifest ascii_lower manifest ≡ true
unfolding validate_manifest validate_sources validate_source validate_cases validate_case
    validate_texts validate_lists validate_rule validate_numbers validate_reasons validate_judgments
    validate_judgment validate_string_list require_non_empty_string get_field
manifest_accepted = refl

manifest_listed : get_value (codes "sources") manifest ≡ array listed
unfolding get_field
manifest_listed = refl

load_canonical_source_configs-SourceIsSound_example :
    (sources : List CanonicalSource) × ((load_canonical_source_configs ascii_lower manifest
        ≡ some sources)
      × (All SourceIsSound sources × (length sources ≡ 1)))
load_canonical_source_configs-SourceIsSound_example =
    load_canonical_source_configs-SourceIsSound ascii_lower manifest listed manifest_listed
      (manifest_loadable, tt) manifest_accepted

-- Judgments that are null are accepted, and stop the loader.
abbrev null_judgments : JsonFields
null_judgments = text_fields (field (codes "judgments") null no_fields)

null_judgments_run :
    (validate_case null_judgments ≡ true) × (load_case [] [] [] null_judgments ≡ none)
unfolding validate_case validate_texts validate_lists validate_rule validate_numbers
    validate_reasons validate_judgments validate_judgment validate_string_list
    require_non_empty_string get_field load_case load_judgments
null_judgments_run = (refl, refl)

abbrev loaded_case : Text → List Text → CanonicalEvalCase
loaded_case query required_domains = record {
  query = query;
  query_type = codes "reference";
  expected = codes "docs";
  notes = codes "docs";
  required_terms = [];
  required_domains = required_domains;
  minimum_domain_matches = 1;
  any_of_terms = [];
  required_title_terms = [];
  required_paths = [];
  required_path_terms = [];
  excluded_domains = [];
  max_match_rank = none;
  pass_reason = some (codes "found");
  fail_reason = none;
  judgments = [];
}

abbrev loaded_source : CanonicalSource
loaded_source = record {
  key = codes "python";
  aliases = codes "python" ∷ [];
  domains = codes "python.org" ∷ [];
  preferred_paths = [];
  news_paths = [];
  default_class = codes "reference";
  candidate_window = 20;
  retrieval_query = none;
  restrict_to_source = false;
  cases =
      loaded_case (codes "Python ") (codes "docs.python.org" ∷ [])
      ∷ loaded_case (codes "python") []
      ∷ [];
}

cases_run : length (canonical_query_cases ascii_lower (loaded_source ∷ [])) ≡ 1
unfolding canonical_query_cases
cases_run = refl

known_domains_run :
    canonical_known_domains (loaded_source ∷ []) ≡ codes "docs.python.org" ∷ codes "python.org" ∷ []
unfolding canonical_known_domains sort_by
known_domains_run = refl

rules_run : length (canonical_eval_keyword_rules ascii_lower (loaded_source ∷ [])) ≡ 1
unfolding canonical_eval_keyword_rules
rules_run = refl
