-- ===== src/SearchConfig/Manifest.antt =====
-- packages/search-config/src/web_search_search_config/canonical_sources.py: the validation of a case
-- of the manifest. A validation that raises `ValueError` is `false`; its messages are left out.
pub mod Accept
pub mod Fields
pub mod Load
pub mod Read
pub mod Rows
pub mod Rules
pub mod WellFormed
use web_search.Prelude.{
  ℕ, zero, suc, ◌+◌, ◌-◌, ◌*◌, ◌/◌, ◌%◌, ◌^◌, ◌≤◌, ◌<◌, min, max, ◌≡◌, refl, sym, ap, ◌∙◌, ◌≢◌, ◌↔◌,
  ◌⊎◌, inl, inr, Bool, true, false, not, ◌&&◌, ◌||◌, Option, none, some, List, [], ◌∷◌, ◌++◌, map,
  reverse, Perm, Sublist, append-nil, append_assoc, arith, ltb, leb, nat_beq, if◌then◌else◌, ltb→lt,
  lt→ltb, leb→le, nat_beq_iff, Bool-cases, Option-cases, Bool-eq_of_iff, length, take, drop, any,
  all, keep, is_empty, length-append, length-take, take-append-drop, length-keep-le, any-append,
  keep-append, All, Any, Member, HasEq, ◌==◌, nat_eq, list_eq, list_beq, list_beq_iff, beq_refl,
  contains, contains_iff, update, occurrences, capped, occurrences-capped, capped-sublist,
  WithinQuota, take-capped-WithinQuota, sort_by, Sorted, sort_by-perm, sort_by-All, sort_by-Sorted,
  Text, codes, starts_with, ends_with, occurs_in, split, join, strip, lstrip, rstrip, is_space,
  from_last, ascii_lower, starts_with_iff, ends_with_iff, split-ne_nil, join-split, split-append,
  any-congr, any-or, any-false, keep-congr, keep-All, All-keep, All-append, any_iff, Any-map,
  All-map, All-of, beq_sym, text_leb, text_leb_total, text_leb_trans, unique, if_true, if_false,
  Tracks, Tracks-skip, Tracks-take, All-take, keep-All_of, keep_of_All, All-Member, capped-All,
  keep-All_both, All-members, some_pair, decimal, Sorted-eq_of_perm, keep-perm, text_leb_antisymm,
  text_leb_refl, sort_by-All_inv, All-split, contains-sort_by, ◌>>=◌, sort_by_of_Sorted,
  sort_by-Falling, Falling, sort_by-flag, if_cases, contains-append, contains-keep, pair_eq,
  pair_beq, pair_beq_iff, some_injective, ℤ, pos, negsuc, is_positive, is_negative, int_leb,
}
use web_search.SearchConfig.Json.{
  Json, JsonItems, JsonFields, items_of, get_field, get_value, is_null, truth, as_int, as_string,
  as_list, as_object, null, boolean, number, real, string, array, object,
}
use web_search.SearchConfig.Cases.{EvalJudgment, CanonicalEvalCase}

unfoldable pub require_non_empty_string : Json → Option Text
require_non_empty_string (string t) = if is_empty (strip t) then none else some (strip t)
require_non_empty_string _ = none

abbrev pub is_some {ℓ} : {A : Type ℓ} → Option A → Bool
is_some none = false
is_some (some a) = true

-- `_require_non_empty_string(item.get(key), …)` returns.
abbrev pub has_string : Text → JsonFields → Bool
has_string key item = is_some (require_non_empty_string (get_value key item))

abbrev pub strings_only : JsonItems → Bool
strings_only JsonItems.no_items = true
strings_only (JsonItems.item value rest) =
    is_some (require_non_empty_string value) && strings_only rest

unfoldable pub validate_string_list : Json → Bool
validate_string_list null = true
validate_string_list (array values) = strings_only values
validate_string_list _ = false

abbrev pub list_keys : List Text
list_keys =
    codes "required_terms"
    ∷ codes "required_domains"
    ∷ codes "any_of_terms"
    ∷ codes "required_title_terms"
    ∷ codes "required_paths"
    ∷ codes "required_path_terms"
    ∷ codes "excluded_domains"
    ∷ []

-- An integer that is at least one, or null.
abbrev pub positive_or_null : Json → Bool
positive_or_null null = true
positive_or_null value = elim (as_int value) [ none ↦ false | some n ↦ is_positive n ]

-- `len(values)`
abbrev pub json_length : Json → ℕ
json_length (array values) = length (items_of values)
json_length _ = 0

-- `value > n`, for a value that is an integer.
abbrev pub exceeds : Json → ℕ → Bool
exceeds value n = elim (as_int value) [ none ↦ false | some z ↦ not (int_leb z (pos n)) ]

-- The texts of a case, and its lists.
unfoldable pub validate_texts : JsonFields → Bool
validate_texts item =
    has_string (codes "query") item
    && has_string (codes "query_type") item
    && has_string (codes "expected") item
    && has_string (codes "notes") item

unfoldable pub validate_lists : JsonFields → Bool
validate_lists item = all (λ key. validate_string_list (get_value key item)) list_keys

-- `required_terms or required_domains`
abbrev pub asks : JsonFields → Bool
asks item =
    truth (get_value (codes "required_terms") item)
    || truth (get_value (codes "required_domains") item)

-- The lists agree with each other.
unfoldable pub validate_rule : JsonFields → Bool
validate_rule item =
    not (
      truth (get_value (codes "required_terms") item)
      && truth (get_value (codes "required_domains") item))
    && not (
        truth (get_value (codes "any_of_terms") item)
        && not (truth (get_value (codes "required_terms") item)))
    && not (
        (truth (get_value (codes "required_title_terms") item)
          || truth (get_value (codes "required_paths") item)
          || truth (get_value (codes "required_path_terms") item)
          || truth (get_value (codes "excluded_domains") item))
        && not (asks item))

unfoldable pub validate_numbers : JsonFields → Bool
validate_numbers item =
    let minimum = get_value (codes "minimum_domain_matches") item in
    let domains = get_value (codes "required_domains") item in
    positive_or_null minimum
    && not (truth domains && not (is_null minimum) && exceeds minimum (json_length domains))
    && positive_or_null (get_value (codes "max_match_rank") item)

unfoldable pub validate_reasons : JsonFields → Bool
validate_reasons item =
    not (asks item)
    || has_string (codes "pass_reason") item && has_string (codes "fail_reason") item

abbrev pub string_or_null : Text → JsonFields → Bool
string_or_null key item = is_null (get_value key item) || has_string key item

-- `isinstance(relevance, int)` and from -1 to 3.
abbrev pub is_relevance : Json → Bool
is_relevance value = elim (as_int value) [
  | none ↦ false
  | some r ↦ int_leb (negsuc 0) r && int_leb r (pos 3)
]

unfoldable pub validate_judgment : Json → Bool
validate_judgment (object judgment) =
    is_relevance (get_value (codes "relevance") judgment)
    && string_or_null (codes "url") judgment
    && string_or_null (codes "domain") judgment
    && string_or_null (codes "path_prefix") judgment
    && validate_string_list (get_value (codes "title_terms") judgment)
    && (truth (get_value (codes "url") judgment)
        || truth (get_value (codes "domain") judgment)
        || truth (get_value (codes "path_prefix") judgment)
        || truth (get_value (codes "title_terms") judgment))
validate_judgment _ = false

unfoldable pub validate_judgments : Json → Bool
validate_judgments null = true
validate_judgments (array judgments) = all validate_judgment (items_of judgments)
validate_judgments _ = false

unfoldable pub validate_case : JsonFields → Bool
validate_case item =
    validate_texts item
    && validate_lists item
    && validate_rule item
    && validate_numbers item
    && validate_reasons item
    && validate_judgments (get_value (codes "judgments") item)
