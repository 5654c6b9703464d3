-- ===== src/SearchConfig/Sources.antt =====
-- packages/search-config/src/web_search_search_config/canonical_sources.py: the sources of the
-- manifest, their validation and their loading, as of the cases in Manifest. `lower` is `str.lower`.
-- The messages of `ValueError` are left out.
pub mod Accept
pub mod Cases
pub mod Loaded
pub mod Uses
use web_search.Prelude.{
  ℕ, zero, suc, ◌+◌, ◌-◌, ◌*◌, ◌/◌, ◌%◌, ◌^◌, ◌≤◌, ◌<◌, min, max, ◌≡◌, refl, sym, ap, ◌∙◌, ◌≢◌, ◌↔◌,
  ◌⊎◌, inl, inr, Bool, true, false, not, ◌&&◌, ◌||◌, Option, none, some, List, [], ◌∷◌, ◌++◌, map,
  reverse, Perm, Sublist, append-nil, append_assoc, arith, ltb, leb, nat_beq, if◌then◌else◌, ltb→lt,
  lt→ltb, leb→le, nat_beq_iff, Bool-cases, Option-cases, Bool-eq_of_iff, length, take, drop, any,
  all, keep, is_empty, length-append, length-take, take-append-drop, length-keep-le, any-append,
  keep-append, All, Any, Member, HasEq, ◌==◌, nat_eq, list_eq, list_beq, list_beq_iff, beq_refl,
  contains, contains_iff, update, occurrences, capped, occurrences-capped, capped-sublist,
  WithinQuota, take-capped-WithinQuota, sort_by, Sorted, sort_by-perm, sort_by-All, sort_by-Sorted,
  Text, codes, starts_with, ends_with, occurs_in, split, join, strip, lstrip, rstrip, is_space,
  from_last, ascii_lower, starts_with_iff, ends_with_iff, split-ne_nil, join-split, split-append,
  any-congr, any-or, any-false, keep-congr, keep-All, All-keep, All-append, any_iff, Any-map,
  All-map, All-of, beq_sym, text_leb, text_leb_total, text_leb_trans, unique, if_true, if_false,
  Tracks, Tracks-skip, Tracks-take, All-take, keep-All_of, keep_of_All, All-Member, capped-All,
  keep-All_both, All-members, some_pair, decimal, Sorted-eq_of_perm, keep-perm, text_leb_antisymm,
  text_leb_refl, sort_by-All_inv, All-split, contains-sort_by, ◌>>=◌, sort_by_of_Sorted,
  sort_by-Falling, Falling, sort_by-flag, if_cases, contains-append, contains-keep, pair_eq,
  pair_beq, pair_beq_iff, some_injective, ℤ, pos, negsuc, is_positive, is_negative, int_leb,
}
use web_search.SearchConfig.Json.{
  Json, JsonItems, JsonFields, items_of, get_field, get_value, is_null, truth, as_string, string,
  array, object,
}
use web_search.SearchConfig.Cases.{CanonicalEvalCase}
use web_search.SearchConfig.Manifest.{
  has_string, string_or_null, require_non_empty_string, validate_string_list, positive_or_null,
  validate_case,
}
use web_search.SearchConfig.Manifest.Load.{tuple_of_strings, number_or, optional_text, load_case}

-- `CanonicalSourceConfig`
pub record CanonicalSource : Type 0 where
  pub key : Text
  pub aliases : List Text
  pub domains : List Text
  pub preferred_paths : List Text
  pub news_paths : List Text
  pub default_class : Text
  pub candidate_window : ℕ
  pub retrieval_query : Option Text
  pub restrict_to_source : Bool
  pub cases : List CanonicalEvalCase

abbrev pub query_classes : List Text
query_classes =
    codes "navigational"
    ∷ codes "reference"
    ∷ codes "news"
    ∷ codes "comparison"
    ∷ codes "other"
    ∷ []

-- `item.get("default_class", "reference")`
abbrev pub class_of : JsonFields → Option Text
class_of item = elim (get_field (codes "default_class") item) [
  | none ↦ some (codes "reference")
  | some value ↦ as_string value
]

abbrev pub is_class : Option Text → Bool
is_class none = false
is_class (some t) = contains t query_classes

-- `item[key].strip()`, of a text.
abbrev pub stripped : Text → JsonFields → Text
stripped key item = elim (as_string (get_value key item)) [ none ↦ [] | some t ↦ strip t ]

-- The loop over the cases, whose queries differ but for case and outer blanks.
unfoldable pub validate_cases : (lower : Text → Text) (seen_queries : List Text) → JsonItems → Bool
validate_cases lower seen_queries JsonItems.no_items = true
validate_cases lower seen_queries (JsonItems.item (object case) rest) =
    let query_key = lower (stripped (codes "query") case) in
    validate_case case
    && not (contains query_key seen_queries)
    && validate_cases lower (query_key ∷ seen_queries) rest
validate_cases lower seen_queries (JsonItems.item value rest) = false

abbrev pub some_cases : (lower : Text → Text) → Json → Bool
some_cases lower (array (JsonItems.item case rest)) =
    validate_cases lower [] (JsonItems.item case rest)
some_cases lower value = false

unfoldable pub validate_source : (lower : Text → Text) → JsonFields → Bool
validate_source lower item =
    has_string (codes "key") item
    && validate_string_list (get_value (codes "aliases") item)
    && validate_string_list (get_value (codes "domains") item)
    && validate_string_list (get_value (codes "preferred_paths") item)
    && validate_string_list (get_value (codes "news_paths") item)
    && truth (get_value (codes "aliases") item)
    && truth (get_value (codes "domains") item)
    && is_class (class_of item)
    && positive_or_null (get_value (codes "candidate_window") item)
    && string_or_null (codes "retrieval_query") item
    && some_cases lower (get_value (codes "cases") item)

-- The loop over the sources, whose keys differ but for outer blanks.
unfoldable pub validate_sources : (lower : Text → Text) (seen_keys : List Text) → JsonItems → Bool
validate_sources lower seen_keys JsonItems.no_items = true
validate_sources lower seen_keys (JsonItems.item (object source) rest) =
    let source_key = stripped (codes "key") source in
    has_string (codes "key") source
    && not (contains source_key seen_keys)
    && validate_source lower source
    && validate_sources lower (source_key ∷ seen_keys) rest
validate_sources lower seen_keys (JsonItems.item value rest) = false

abbrev pub some_sources : (lower : Text → Text) → Json → Bool
some_sources lower (array sources) =
    not (is_empty (items_of sources)) && validate_sources lower [] sources
some_sources lower value = false

unfoldable pub validate_manifest : (lower : Text → Text) → JsonFields → Bool
validate_manifest lower raw = some_sources lower (get_value (codes "sources") raw)

unfoldable pub load_cases :
    (domains preferred_paths news_paths : List Text) → JsonItems → Option (List CanonicalEvalCase)
load_cases domains preferred_paths news_paths JsonItems.no_items = some []
load_cases domains preferred_paths news_paths (JsonItems.item (object item) rest) = do
  case ← load_case domains preferred_paths news_paths item
  cases ← load_cases domains preferred_paths news_paths rest
  some (case ∷ cases)
load_cases domains preferred_paths news_paths (JsonItems.item value rest) = none

-- `for case in item.get("cases", [])`
abbrev pub cases_of :
    (domains preferred_paths news_paths : List Text) → Option Json → Option (List CanonicalEvalCase)
cases_of domains preferred_paths news_paths none = some []
cases_of domains preferred_paths news_paths (some (array cases)) =
    load_cases domains preferred_paths news_paths cases
cases_of domains preferred_paths news_paths (some value) = none

-- The body of the loop of `load_canonical_source_configs`.
unfoldable pub load_source : JsonFields → Option CanonicalSource
load_source item = do
  domains ← tuple_of_strings (get_value (codes "domains") item)
  preferred_paths ← tuple_of_strings (get_value (codes "preferred_paths") item)
  news_paths ← tuple_of_strings (get_value (codes "news_paths") item)
  cases ← cases_of domains preferred_paths news_paths (get_field (codes "cases") item)
  key ← as_string (get_value (codes "key") item)
  aliases ← tuple_of_strings (get_value (codes "aliases") item)
  default_class ← class_of item
  candidate_window ← number_or 20 (get_value (codes "candidate_window") item)
  retrieval_query ← optional_text (get_value (codes "retrieval_query") item)
  some (record {
    key = key;
    aliases = aliases;
    domains = domains;
    preferred_paths = preferred_paths;
    news_paths = news_paths;
    default_class = default_class;
    candidate_window = candidate_window;
    retrieval_query = retrieval_query;
    restrict_to_source = truth (get_value (codes "restrict_to_source") item);
    cases = cases;
  })

unfoldable pub load_sources : JsonItems → Option (List CanonicalSource)
load_sources JsonItems.no_items = some []
load_sources (JsonItems.item (object item) rest) = do
  config ← load_source item
  configs ← load_sources rest
  some (config ∷ configs)
load_sources (JsonItems.item value rest) = none

-- `for item in raw.get("sources", [])`, of a manifest that has sources.
abbrev pub sources_of : Json → Option (List CanonicalSource)
sources_of (array sources) = load_sources sources
sources_of value = none

-- Nothing is loaded from a manifest that is not valid.
unfoldable pub load_canonical_source_configs :
    (lower : Text → Text) → JsonFields → Option (List CanonicalSource)
load_canonical_source_configs lower raw =
    if validate_manifest lower raw then sources_of (get_value (codes "sources") raw) else none
