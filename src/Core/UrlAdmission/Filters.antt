-- ===== src/Core/UrlAdmission/Filters.antt =====
-- The filters of `URLAdmissionPolicy` that come before the rules of the domains.
use web_search.Prelude.{
  ◌≡◌, refl, ◌↔◌, ◌⊎◌, inl, inr, Bool, true, false, Option, none, some, List, [], ◌∷◌, ◌++◌, arith,
  nat_beq, Bool-cases, Option-cases, any, Any, nat_eq, list_eq, list_beq, list_beq_iff, contains,
  Text, occurs_in, rstrip, from_last, starts_with_iff, any_iff, Any-map, pair_eq, some_injective,
}
use mathlib.Core.Path.{subst}
use web_search.Core.UrlAdmission.{Policy, under_prefix, meets, filtered}

-- A path is a prefix itself, or goes on behind it and a slash; slashes at the end of the prefix do
-- not count then.
abbrev pub IsUnder : Text → Text → Type 0
IsUnder path prefix =
    (path ≡ prefix) ⊎ ((rest : Text) × (path ≡ (rstrip (nat_beq b'/') prefix ++ b'/' ∷ []) ++ rest))

-- The path has none of the rejected extensions, is under none of the rejected prefixes and has none
-- of the rejected parts, and no parameter of the query is rejected.
pub record PassesFilters (policy : Policy) (path : Text) (keys : List Text) : Type 0 where
  pub extension :
      (e : Text) → from_last b'.' path ≡ some e → contains e policy.reject_extensions ≡ false
  pub prefixes : ¬ Any (IsUnder path) policy.reject_path_prefixes
  pub parts : ¬ Any (λ token. occurs_in token path ≡ true) policy.reject_path_contains
  pub params : ¬ Any (λ key. contains key policy.reject_query_params ≡ true) keys

under_prefix_iff : (path prefix : Text) → (under_prefix path prefix ≡ true) ↔ IsUnder path prefix
unfolding under_prefix
under_prefix_iff path prefix =
    let start = rstrip (nat_beq b'/') prefix ++ b'/' ∷ [] in
    let (same, equal) = list_beq_iff path prefix in
    let (found, begins) = starts_with_iff start path in
    (
      λ h. elim (Bool-cases (list_beq path prefix)) [
        | inl e ↦ inl (same e)
        | inr e ↦ inr (found (ground (arith, h, e)))
      ],
      λ h. elim h [
        | inl e ↦ let t = equal e in ground (arith, t)
        | inr r ↦ let t = begins r in ground (arith, t)
      ],
    )

not_any {ℓ} :
    {A : Type ℓ} (p : A → Bool) (Q : A → Type 0) (xs : List A)
    → ((x : A) → (p x ≡ true) ↔ Q x)
    → (any p xs ≡ false) ↔ (¬ Any Q xs)
not_any p Q xs same =
    let (sound, complete) = any_iff p xs in
    (
      λ h found.
          let t = complete (Any-map Q (λ x. p x ≡ true) xs (λ x. (same x).1) found) in
          ground (arith, h, t),
      λ h. elim (Bool-cases (any p xs)) [
        | inr e ↦ e
        | inl e ↦ absurd (h (Any-map (λ x. p x ≡ true) Q xs (λ x. (same x).0) (sound e)))
      ],
    )

-- The test on the extension, by itself.
abbrev rejected_extension : Policy → Option Text → Bool
rejected_extension policy none = false
rejected_extension policy (some extension) = contains extension policy.reject_extensions

extension_iff :
    (policy : Policy) (found : Option Text)
    → (rejected_extension policy found ≡ false)
      ↔ ((e : Text) → found ≡ some e → contains e policy.reject_extensions ≡ false)
extension_iff policy none = (λ h e there. absurd (ground (arith, there)), λ h. refl)
extension_iff policy (some x) = (
  λ h e there. subst (λ t. contains t policy.reject_extensions ≡ false) (some_injective there) h,
  λ h. h x refl,
)

filtered-tests :
    (policy : Policy) (path : Text) (keys : List Text)
    → (filtered policy path keys ≡ none) ↔ (
        (rejected_extension policy (from_last b'.' path) ≡ false)
        × (any (under_prefix path) policy.reject_path_prefixes ≡ false)
        × (any (λ token. occurs_in token path) policy.reject_path_contains ≡ false)
        × (any (λ key. contains key policy.reject_query_params) keys ≡ false))
unfolding filtered meets
filtered-tests policy path keys = elim (Option-cases (from_last b'.' path)) [
  | inl e ↦ rw (e, filtered) (ground arith)
  | inr found ↦ let (x, e) = found in rw (e, filtered) (ground arith)
]

-- A URL is filtered by no filter exactly when it passes each of them.
pub filtered-PassesFilters :
    (policy : Policy) (path : Text) (keys : List Text)
    → (filtered policy path keys ≡ none) ↔ PassesFilters policy path keys
filtered-PassesFilters policy path keys =
    let (tests, filter) = filtered-tests policy path keys in
    let (e, e') = extension_iff policy (from_last b'.' path) in
    let (p, p') =
      not_any (under_prefix path) (IsUnder path) policy.reject_path_prefixes
        (under_prefix_iff path) in
    let (t, t') =
      not_any (λ token. occurs_in token path) (λ token. occurs_in token path ≡ true)
        policy.reject_path_contains (λ token. (λ h. h, λ h. h)) in
    let (k, k') =
      not_any (λ key. contains key policy.reject_query_params)
        (λ key. contains key policy.reject_query_params ≡ true) keys (λ key. (λ h. h, λ h. h)) in
    (
      λ h.
          let (a, b, c, d) = tests h in
          record { extension = e a; prefixes = p b; parts = t c; params = k d },
      λ h. filter (e' h.extension, p' h.prefixes, t' h.parts, k' h.params),
    )
