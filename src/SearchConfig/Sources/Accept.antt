-- ===== src/SearchConfig/Sources/Accept.antt =====
-- The parts of the validation of a source, and the reading of its fields.
use web_search.Prelude.{
  ℕ, ◌≡◌, refl, true, false, ◌&&◌, Option, none, some, List, arith, is_empty, nat_eq, list_eq,
  contains, Text, codes, pair_eq,
}
use web_search.SearchConfig.Json.{Json, JsonFields, get_field, get_value, truth, as_string}
use web_search.SearchConfig.Cases.{CanonicalEvalCase}
use web_search.SearchConfig.Manifest.{
  has_string, string_or_null, validate_string_list, positive_or_null,
}
use web_search.SearchConfig.Manifest.Load.{tuple_of_strings, number_or, optional_text}
use web_search.SearchConfig.Manifest.Fields.{Strings, both}
use web_search.SearchConfig.Manifest.Read.{given}
use web_search.SearchConfig.Sources.{
  query_classes, class_of, is_class, some_cases, validate_source, cases_of, load_source,
}

pub given_of :
    (value : Json) (texts : List Text)
    → Strings value texts
    → truth value ≡ true
    → (given texts ≡ true) × (is_empty texts ≡ false)
given_of value texts read h =
    let same = read.same_truth in (ground (arith, same, h), ground (arith, same, h))

-- The parts of the validation of a source.
pub record Accepted (lower : Text → Text) (item : JsonFields) : Type 0 where
  pub key : has_string (codes "key") item ≡ true
  pub aliases : validate_string_list (get_value (codes "aliases") item) ≡ true
  pub domains : validate_string_list (get_value (codes "domains") item) ≡ true
  pub paths : validate_string_list (get_value (codes "preferred_paths") item) ≡ true
  pub news : validate_string_list (get_value (codes "news_paths") item) ≡ true
  pub some_alias : truth (get_value (codes "aliases") item) ≡ true
  pub some_domain : truth (get_value (codes "domains") item) ≡ true
  pub class : is_class (class_of item) ≡ true
  pub window : positive_or_null (get_value (codes "candidate_window") item) ≡ true
  pub retrieval : string_or_null (codes "retrieval_query") item ≡ true
  pub cases : some_cases lower (get_value (codes "cases") item) ≡ true

pub validate_source-Accepted :
    (lower : Text → Text) (item : JsonFields)
    → validate_source lower item ≡ true
    → Accepted lower item
unfolding validate_source
validate_source-Accepted lower item h =
    let whole : (has_string (codes "key") item
          && validate_string_list (get_value (codes "aliases") item)
          && validate_string_list (get_value (codes "domains") item)
          && validate_string_list (get_value (codes "preferred_paths") item)
          && validate_string_list (get_value (codes "news_paths") item)
          && truth (get_value (codes "aliases") item)
          && truth (get_value (codes "domains") item)
          && is_class (class_of item)
          && positive_or_null (get_value (codes "candidate_window") item)
          && string_or_null (codes "retrieval_query") item
          && some_cases lower (get_value (codes "cases") item))
        ≡ true =
      h in
    let (k10, h11) = both whole in
    let (k9, h10) = both k10 in
    let (k8, h9) = both k9 in
    let (k7, h8) = both k8 in
    let (k6, h7) = both k7 in
    let (k5, h6) = both k6 in
    let (k4, h5) = both k5 in
    let (k3, h4) = both k4 in
    let (k2, h3) = both k3 in
    let (h1, h2) = both k2 in
    record {
      key = h1;
      aliases = h2;
      domains = h3;
      paths = h4;
      news = h5;
      some_alias = h6;
      some_domain = h7;
      class = h8;
      window = h9;
      retrieval = h10;
      cases = h11;
    }

pub class_of-known :
    (class : Option Text)
    → is_class class ≡ true
    → (t : Text) × ((class ≡ some t) × (contains t query_classes ≡ true))
class_of-known none h = ground (arith, h)
class_of-known (some t) h = (t, (refl, h))

-- What a source gives whose fields can be read.
pub load_source-reads :
    (item : JsonFields) {domains paths news aliases : List Text} {cases : List CanonicalEvalCase}
    {key class : Text} {window : ℕ} {retrieval : Option Text}
    → tuple_of_strings (get_value (codes "domains") item) ≡ some domains
    → tuple_of_strings (get_value (codes "preferred_paths") item) ≡ some paths
    → tuple_of_strings (get_value (codes "news_paths") item) ≡ some news
    → cases_of domains paths news (get_field (codes "cases") item) ≡ some cases
    → as_string (get_value (codes "key") item) ≡ some key
    → tuple_of_strings (get_value (codes "aliases") item) ≡ some aliases
    → class_of item ≡ some class
    → number_or 20 (get_value (codes "candidate_window") item) ≡ some window
    → optional_text (get_value (codes "retrieval_query") item) ≡ some retrieval
    → load_source item
      ≡ some (record {
        key = key;
        aliases = aliases;
        domains = domains;
        preferred_paths = paths;
        news_paths = news;
        default_class = class;
        candidate_window = window;
        retrieval_query = retrieval;
        restrict_to_source = truth (get_value (codes "restrict_to_source") item);
        cases = cases;
      })
unfolding load_source
load_source-reads item e1 e2 e3 e4 e5 e6 e7 e8 e9 = rw (e1, e2, e3, e4, e5, e6, e7, e8, e9) refl
