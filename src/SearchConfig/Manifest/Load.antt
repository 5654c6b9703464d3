-- ===== src/SearchConfig/Manifest/Load.antt =====
-- packages/search-config/src/web_search_search_config/canonical_sources.py: the loading of a case of
-- the manifest. The loader is called on what the validation has accepted; on a value whose type the
-- record does not have, and where Python raises, it gives `none`. The notes of a judgment are left
-- out.
use web_search.Prelude.{
  ℕ, true, false, not, ◌&&◌, Option, none, some, List, [], ◌∷◌, ◌++◌, map, if◌then◌else◌, is_empty,
  nat_eq, list_eq, Text, codes, occurs_in, ◌>>=◌, pair_eq, ℤ, pos, negsuc,
}
use web_search.SearchConfig.Json.{
  Json, JsonItems, JsonFields, get_field, get_value, truth, as_int, as_string, null, string, array,
  object,
}
use web_search.SearchConfig.Cases.{EvalJudgment, CanonicalEvalCase}

-- `tuple(value for value in (values or []) if value)`
unfoldable pub strings_of : JsonItems → Option (List Text)
strings_of JsonItems.no_items = some []
strings_of (JsonItems.item value rest) = do
  text ← as_string value
  texts ← strings_of rest
  some (if is_empty text then texts else text ∷ texts)

unfoldable pub tuple_of_strings : Json → Option (List Text)
tuple_of_strings null = some []
tuple_of_strings (array values) = strings_of values
tuple_of_strings _ = none

-- A text that may be null.
abbrev pub optional_text : Json → Option (Option Text)
optional_text null = some none
optional_text (string t) = some (some t)
optional_text _ = none

-- `int(value or default)`
abbrev pub number_or : ℕ → Json → Option ℕ
number_or default value = elim (truth value) [
  | false ↦ some default
  | true ↦ as_int value >>= (λ n. elim n [ pos k ↦ some k | negsuc k ↦ none ])
]

unfoldable pub load_judgment : Json → Option EvalJudgment
load_judgment (object item) = do
  relevance ← as_int (get_value (codes "relevance") item)
  url ← optional_text (get_value (codes "url") item)
  domain ← optional_text (get_value (codes "domain") item)
  path_prefix ← optional_text (get_value (codes "path_prefix") item)
  title_terms ← tuple_of_strings (get_value (codes "title_terms") item)
  some (record {
    relevance = relevance;
    url = url;
    domain = domain;
    path_prefix = path_prefix;
    title_terms = title_terms;
  })
load_judgment _ = none

unfoldable pub load_rows : JsonItems → Option (List EvalJudgment)
load_rows JsonItems.no_items = some []
load_rows (JsonItems.item row rest) = do
  judgment ← load_judgment row
  judgments ← load_rows rest
  some (judgment ∷ judgments)

-- `for row in item.get("judgments", [])`, which null stops.
unfoldable pub load_judgments : Option Json → Option (List EvalJudgment)
load_judgments none = some []
load_judgments (some (array rows)) = load_rows rows
load_judgments (some _) = none

abbrev pub derived : ℤ → Text → Option Text → EvalJudgment
derived relevance domain path_prefix = record {
  relevance = relevance;
  url = none;
  domain = some domain;
  path_prefix = path_prefix;
  title_terms = [];
}

-- Each path under each domain.
unfoldable pub derived_paths : (domains paths : List Text) → List EvalJudgment
derived_paths [] paths = []
derived_paths (domain ∷ domains) paths =
    map (λ path_prefix. derived (pos 3) domain (some path_prefix)) paths
    ++ derived_paths domains paths

unfoldable pub derive_case_judgments :
    (query_type : Text) (source_domains source_preferred_paths source_news_paths : List Text)
    → List EvalJudgment
derive_case_judgments query_type source_domains source_preferred_paths source_news_paths =
    let preferred_paths =
      if occurs_in (codes "news") query_type && not (is_empty source_news_paths)
      then source_news_paths
      else source_preferred_paths in
    if is_empty preferred_paths
    then map (λ domain. derived (pos 3) domain none) source_domains
    else derived_paths source_domains preferred_paths
      ++ map (λ domain. derived (pos 2) domain none) source_domains

-- `int(item[key]) if item.get(key) is not None else None`
abbrev pub optional_number : Json → Option (Option ℕ)
optional_number null = some none
optional_number value = as_int value >>= (λ n. elim n [ pos k ↦ some (some k) | negsuc k ↦ none ])

unfoldable pub load_case :
    (source_domains source_preferred_paths source_news_paths : List Text)
    → JsonFields
    → Option CanonicalEvalCase
load_case source_domains source_preferred_paths source_news_paths item = do
  configured_judgments ← load_judgments (get_field (codes "judgments") item)
  query ← as_string (get_value (codes "query") item)
  query_type ← as_string (get_value (codes "query_type") item)
  expected ← as_string (get_value (codes "expected") item)
  notes ← as_string (get_value (codes "notes") item)
  required_terms ← tuple_of_strings (get_value (codes "required_terms") item)
  required_domains ← tuple_of_strings (get_value (codes "required_domains") item)
  minimum ← number_or 1 (get_value (codes "minimum_domain_matches") item)
  any_of_terms ← tuple_of_strings (get_value (codes "any_of_terms") item)
  required_title_terms ← tuple_of_strings (get_value (codes "required_title_terms") item)
  required_paths ← tuple_of_strings (get_value (codes "required_paths") item)
  required_path_terms ← tuple_of_strings (get_value (codes "required_path_terms") item)
  excluded_domains ← tuple_of_strings (get_value (codes "excluded_domains") item)
  max_match_rank ← optional_number (get_value (codes "max_match_rank") item)
  pass_reason ← optional_text (get_value (codes "pass_reason") item)
  fail_reason ← optional_text (get_value (codes "fail_reason") item)
  some (record {
    query = query;
    query_type = query_type;
    expected = expected;
    notes = notes;
    required_terms = required_terms;
    required_domains = required_domains;
    minimum_domain_matches = minimum;
    any_of_terms = any_of_terms;
    required_title_terms = required_title_terms;
    required_paths = required_paths;
    required_path_terms = required_path_terms;
    excluded_domains = excluded_domains;
    max_match_rank = max_match_rank;
    pass_reason = pass_reason;
    fail_reason = fail_reason;
    judgments =
        if is_empty configured_judgments
        then derive_case_judgments query_type source_domains source_preferred_paths
            source_news_paths
        else configured_judgments;
  })
