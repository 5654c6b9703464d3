-- ===== src/SearchConfig/Manifest/Rules.antt =====
-- The rules of a case of the manifest: what the validation says of the fields holds of the texts.
use web_search.Prelude.{
  ℕ, ◌≤◌, ◌≡◌, sym, ap, ◌∙◌, true, false, not, ◌&&◌, ◌||◌, List, [], ◌∷◌, arith, length, nat_eq,
  list_eq, Text, codes, pair_eq,
}
use web_search.SearchConfig.Json.{Json, JsonFields, is_null, truth}
use web_search.SearchConfig.Manifest.{has_string, exceeds, json_length}
use web_search.SearchConfig.Manifest.Fields.{Strings, both}
use web_search.SearchConfig.Manifest.Read.{Reason, given, Loadable, optional_text-Reason}

pub one_rule_of :
    (terms required : Json) (ts ds : List Text)
    → Strings terms ts
    → Strings required ds
    → not (truth terms && truth required) ≡ true
    → (given ts && given ds) ≡ false
one_rule_of terms required ts ds t d h =
    let same_terms = t.same_truth in
    let same_domains = d.same_truth in ground (arith, h, same_terms, same_domains)

pub any_of_of :
    (any_of terms : Json) (os ts : List Text)
    → Strings any_of os
    → Strings terms ts
    → not (truth any_of && not (truth terms)) ≡ true
    → (given os && not (given ts)) ≡ false
any_of_of any_of terms os ts o t h =
    let same_any = o.same_truth in
    let same_terms = t.same_truth in ground (arith, h, same_any, same_terms)

pub filters_of :
    (titles in_paths path_terms excluded terms required : Json) (is ps ls es ts ds : List Text)
    → Strings titles is
    → Strings in_paths ps
    → Strings path_terms ls
    → Strings excluded es
    → Strings terms ts
    → Strings required ds
    → not (
        (truth titles || truth in_paths || truth path_terms || truth excluded)
        && not (truth terms || truth required))
      ≡ true
    → ((given is || given ps || given ls || given es) && not (given ts || given ds)) ≡ false
filters_of titles in_paths path_terms excluded terms required is ps ls es ts ds i p l e t d h =
    let e1 = i.same_truth in
    let e2 = p.same_truth in
    let e3 = l.same_truth in
    let e4 = e.same_truth in
    let e5 = t.same_truth in let e6 = d.same_truth in ground (arith, h, e1, e2, e3, e4, e5, e6)

-- The minimum of domains is within the domains that are asked for.
pub reachable_of :
    (required minimum : Json) (ds : List Text) (k : ℕ)
    → Strings required ds
    → ((n : ℕ) → 1 ≤ n → (not (is_null minimum) && exceeds minimum n) ≡ false → k ≤ n)
    → not (truth required && not (is_null minimum) && exceeds minimum (json_length required)) ≡ true
    → given ds ≡ true
    → k ≤ length ds
reachable_of required minimum (d ∷ ds) k read bound h filled =
    let same = read.same_truth in
    let counted = read.same_length in
    let fine : (not (is_null minimum) && exceeds minimum (json_length required)) ≡ false =
      ground (arith, h, same) in
    bound (length (d ∷ ds)) (omega arith)
      (ap (λ n. not (is_null minimum) && exceeds minimum n) (sym counted) ∙ fine)
reachable_of required minimum [] k read bound h filled = ground (arith, filled)

pub reasons_of :
    (item : JsonFields) (terms required : Json) (ts ds : List Text) (loadable : Loadable item)
    → Strings terms ts
    → Strings required ds
    → (not (truth terms || truth required)
        || has_string (codes "pass_reason") item && has_string (codes "fail_reason") item)
      ≡ true
    → (given ts || given ds) ≡ true
    → Reason loadable.pass_reason × Reason loadable.fail_reason
reasons_of item terms required ts ds loadable t d h asked =
    let same_terms = t.same_truth in
    let same_domains = d.same_truth in
    let named : (has_string (codes "pass_reason") item && has_string (codes "fail_reason") item)
        ≡ true =
      ground (arith, h, same_terms, same_domains, asked) in
    let (passes, fails) = both named in
    (
      optional_text-Reason (codes "pass_reason") item loadable.pass_reason loadable.pass_read
          passes,
      optional_text-Reason (codes "fail_reason") item loadable.fail_reason loadable.fail_read fails,
    )
