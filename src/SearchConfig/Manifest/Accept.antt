-- ===== src/SearchConfig/Manifest/Accept.antt =====
-- The parts of the validation of a case of the manifest.
use web_search.Prelude.{◌≡◌, Bool, true, not, ◌&&◌, ◌||◌, nat_eq, list_eq, Text, codes, pair_eq}
use web_search.SearchConfig.Json.{JsonFields, get_value, is_null, truth}
use web_search.SearchConfig.Manifest.{
  has_string, asks, validate_texts, validate_lists, validate_rule, validate_numbers,
  validate_reasons, validate_judgments, validate_case, positive_or_null, exceeds, json_length,
}
use web_search.SearchConfig.Manifest.Fields.{both}

-- The parts of a validation.
pub record Accepted (item : JsonFields) : Type 0 where
  pub texts : validate_texts item ≡ true
  pub lists : validate_lists item ≡ true
  pub rule : validate_rule item ≡ true
  pub numbers : validate_numbers item ≡ true
  pub reasons : validate_reasons item ≡ true
  pub judgments : validate_judgments (get_value (codes "judgments") item) ≡ true

pub validate_case-Accepted : (item : JsonFields) → validate_case item ≡ true → Accepted item
unfolding validate_case
validate_case-Accepted item h =
    let (k5, h6) =
      both
        {a = validate_texts item
          && validate_lists item
          && validate_rule item
          && validate_numbers item
          && validate_reasons item}
        {b = validate_judgments (get_value (codes "judgments") item)} h in
    let (k4, h5) = both k5 in
    let (k3, h4) = both k4 in
    let (k2, h3) = both k3 in
    let (h1, h2) = both k2 in
    record { texts = h1; lists = h2; rule = h3; numbers = h4; reasons = h5; judgments = h6 }

all_three : {a b c : Bool} → (a && b && c) ≡ true → (a ≡ true) × ((b ≡ true) × (c ≡ true))
all_three h = let (k, h3) = both h in let (h1, h2) = both k in (h1, (h2, h3))

pub texts_accepted :
    (item : JsonFields)
    → validate_texts item ≡ true
    → (has_string (codes "query") item ≡ true)
      × ((has_string (codes "query_type") item ≡ true)
          × ((has_string (codes "expected") item ≡ true)
              × (has_string (codes "notes") item ≡ true)))
unfolding validate_texts
texts_accepted item h =
    let (k, h4) =
      both
        {a = has_string (codes "query") item
          && has_string (codes "query_type") item
          && has_string (codes "expected") item}
        {b = has_string (codes "notes") item} h in
    let (h1, (h2, h3)) = all_three k in (h1, (h2, (h3, h4)))

pub rule_accepted :
    (item : JsonFields)
    → validate_rule item ≡ true
    → let value = λ (key : Text). truth (get_value key item) in
      (not (value (codes "required_terms") && value (codes "required_domains")) ≡ true)
      × ((not (value (codes "any_of_terms") && not (value (codes "required_terms"))) ≡ true)
          × (not (
                (value (codes "required_title_terms")
                  || value (codes "required_paths")
                  || value (codes "required_path_terms")
                  || value (codes "excluded_domains"))
                && not (asks item))
              ≡ true))
unfolding validate_rule
rule_accepted item h = all_three h

pub numbers_accepted :
    (item : JsonFields)
    → validate_numbers item ≡ true
    → let minimum = get_value (codes "minimum_domain_matches") item in
      let required = get_value (codes "required_domains") item in
      (positive_or_null minimum ≡ true)
      × ((not (truth required && not (is_null minimum) && exceeds minimum (json_length required))
            ≡ true)
          × (positive_or_null (get_value (codes "max_match_rank") item) ≡ true))
unfolding validate_numbers
numbers_accepted item h = all_three h
