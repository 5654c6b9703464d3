-- ===== src/SearchConfig/Manifest/Fields.antt =====
-- The fields that the validation of the manifest accepts, and what the loader reads from them.
use web_search.Prelude.{
  ℕ, zero, suc, ◌≤◌, ◌≡◌, refl, ap, inl, inr, Bool, true, false, not, ◌&&◌, ◌||◌, Option, none,
  some, List, [], ◌∷◌, arith, Bool-cases, length, is_empty, All, nat_eq, list_eq, Text, strip,
  pair_eq, pos, negsuc,
}
use web_search.SearchConfig.Json.{
  Json, JsonItems, items_of, is_null, truth, null, boolean, number, real, string, array, object,
}
use web_search.SearchConfig.Manifest.{
  require_non_empty_string, is_some, strings_only, validate_string_list, positive_or_null,
  json_length, exceeds,
}
use web_search.SearchConfig.Manifest.Load.{
  strings_of, tuple_of_strings, optional_text, number_or, optional_number,
}

-- `not value.strip()` is false.
abbrev pub NonBlank : Text → Type 0
NonBlank t = is_empty (strip t) ≡ false

abbrev pub MayBe {ℓ} : {A : Type ℓ} → (A → Type 0) → Option A → Type 0
MayBe P none = Unit
MayBe P (some a) = P a

pub both : {a b : Bool} → (a && b) ≡ true → (a ≡ true) × (b ≡ true)
both {a = true} h = (refl, h)
both {a = false} h = ground (arith, h)

pub NonBlank-not_empty : (t : Text) → NonBlank t → is_empty t ≡ false
NonBlank-not_empty [] blank = blank
NonBlank-not_empty (c ∷ t) h = refl

pub require-string :
    (value : Json)
    → is_some (require_non_empty_string value) ≡ true
    → (t : Text) × ((value ≡ string t) × NonBlank t)
unfolding require_non_empty_string
require-string null h = ground (arith, h)
require-string (boolean b) h = ground (arith, h)
require-string (number n) h = ground (arith, h)
require-string (real z) h = ground (arith, h)
require-string (array xs) h = ground (arith, h)
require-string (object o) h = ground (arith, h)
require-string (string t) h = elim (Bool-cases (is_empty (strip t))) [
  | inl e ↦ ground (arith, h, e)
  | inr e ↦ (t, (refl, e))
]

-- The texts that are read from a list that the validation accepts.
pub record Strings (value : Json) (texts : List Text) : Type 0 where
  pub loaded : tuple_of_strings value ≡ some texts
  pub non_blank : All NonBlank texts
  pub same_truth : truth value ≡ not (is_empty texts)
  pub same_length : json_length value ≡ length texts

pub strings_of-texts :
    (values : JsonItems)
    → strings_only values ≡ true
    → (texts : List Text) × ((strings_of values ≡ some texts)
        × (All NonBlank texts × (length (items_of values) ≡ length texts)))
unfolding strings_of
strings_of-texts JsonItems.no_items h = ([], (refl, (tt, refl)))
strings_of-texts (JsonItems.item value rest) h =
    let first : is_some (require_non_empty_string value) ≡ true = ground (arith, h) in
    let others : strings_only rest ≡ true = ground (arith, h) in
    let (t, (is_t, filled)) = require-string value first in
    let (texts, (loaded, (all_filled, counted))) = strings_of-texts rest others in
    (
      t ∷ texts,
      (rw (is_t, loaded, NonBlank-not_empty t filled) refl, ((filled, all_filled), ap suc counted)),
    )

filled_truth : (n : ℕ) (texts : List Text) → suc n ≡ length texts → true ≡ not (is_empty texts)
filled_truth n [] h = ground (arith, h)
filled_truth n (t ∷ texts) h = refl

pub validate-Strings :
    (value : Json) → validate_string_list value ≡ true → (texts : List Text) × Strings value texts
unfolding validate_string_list tuple_of_strings strings_of
validate-Strings null h =
    ([], record { loaded = refl; non_blank = tt; same_truth = refl; same_length = refl })
validate-Strings (boolean b) h = ground (arith, h)
validate-Strings (number n) h = ground (arith, h)
validate-Strings (real z) h = ground (arith, h)
validate-Strings (string t) h = ground (arith, h)
validate-Strings (object o) h = ground (arith, h)
validate-Strings (array JsonItems.no_items) h =
    ([], record { loaded = refl; non_blank = tt; same_truth = refl; same_length = refl })
validate-Strings (array (JsonItems.item value rest)) h =
    let (texts, (loaded, (filled, counted))) = strings_of-texts (JsonItems.item value rest) h in
    (
      texts,
      record {
        loaded = loaded;
        non_blank = filled;
        same_truth = filled_truth (length (items_of rest)) texts counted;
        same_length = counted;
      },
    )

-- The number that is read from an integer that is at least one, or from null.
pub number_or-bounds :
    (value : Json)
    → positive_or_null value ≡ true
    → (k : ℕ) × ((number_or 1 value ≡ some k)
        × ((1 ≤ k) × ((n : ℕ) → 1 ≤ n → (not (is_null value) && exceeds value n) ≡ false → k ≤ n)))
number_or-bounds null h = (1, (refl, (omega arith, λ n few fine. few)))
number_or-bounds (boolean true) h = (1, (refl, (omega arith, λ n few fine. few)))
number_or-bounds (boolean false) h = ground (arith, h)
number_or-bounds (number (pos zero)) h = ground (arith, h)
number_or-bounds (number (pos (suc k))) h =
    (suc k, (refl, (omega arith, λ n few fine. ground (arith, fine))))
number_or-bounds (number (negsuc k)) h = ground (arith, h)
number_or-bounds (real z) h = ground (arith, h)
number_or-bounds (string t) h = ground (arith, h)
number_or-bounds (array xs) h = ground (arith, h)
number_or-bounds (object o) h = ground (arith, h)

pub optional_number-positive :
    (value : Json)
    → positive_or_null value ≡ true
    → (rank : Option ℕ) × ((optional_number value ≡ some rank) × MayBe (λ r. 1 ≤ r) rank)
optional_number-positive null h = (none, (refl, tt))
optional_number-positive (boolean true) h = (some 1, (refl, omega arith))
optional_number-positive (boolean false) h = ground (arith, h)
optional_number-positive (number (pos zero)) h = ground (arith, h)
optional_number-positive (number (pos (suc k))) h = (some (suc k), (refl, omega arith))
optional_number-positive (number (negsuc k)) h = ground (arith, h)
optional_number-positive (real z) h = ground (arith, h)
optional_number-positive (string t) h = ground (arith, h)
optional_number-positive (array xs) h = ground (arith, h)
optional_number-positive (object o) h = ground (arith, h)

null_value : (value : Json) → is_null value ≡ true → value ≡ null
null_value null h = refl
null_value (boolean b) h = ground (arith, h)
null_value (number n) h = ground (arith, h)
null_value (real z) h = ground (arith, h)
null_value (string t) h = ground (arith, h)
null_value (array xs) h = ground (arith, h)
null_value (object o) h = ground (arith, h)

-- A text that is null, or that the validation accepts.
pub optional_text-filled :
    (value : Json)
    → (is_null value || is_some (require_non_empty_string value)) ≡ true
    → (text : Option Text) × ((optional_text value ≡ some text)
        × (MayBe NonBlank text × (truth value ≡ is_some text)))
optional_text-filled value h = elim (Bool-cases (is_some (require_non_empty_string value))) [
  | inl there ↦
      let (t, (is_t, filled)) = require-string value there in
      (some t, (rw (is_t) refl, (filled, rw (is_t, NonBlank-not_empty t filled) refl)))
  | inr missing ↦
      let is_null_value : is_null value ≡ true = ground (arith, h, missing) in
      (none, rw (null_value value is_null_value) (refl, (tt, refl)))
]

pub number_or-at_least :
    (default : ℕ) (value : Json)
    → 1 ≤ default
    → positive_or_null value ≡ true
    → (k : ℕ) × ((number_or default value ≡ some k) × (1 ≤ k))
number_or-at_least default null few h = (default, (refl, few))
number_or-at_least default (boolean true) few h = (1, (refl, omega arith))
number_or-at_least default (boolean false) few h = ground (arith, h)
number_or-at_least default (number (pos zero)) few h = ground (arith, h)
number_or-at_least default (number (pos (suc k))) few h = (suc k, (refl, omega arith))
number_or-at_least default (number (negsuc k)) few h = ground (arith, h)
number_or-at_least default (real z) few h = ground (arith, h)
number_or-at_least default (string t) few h = ground (arith, h)
number_or-at_least default (array xs) few h = ground (arith, h)
number_or-at_least default (object o) few h = ground (arith, h)
