-- ===== src/Crawler/Denylist/Subdomains.antt =====
-- The parents that the loop tries are the suffixes behind a dot.
use web_search.Prelude.{
  ℕ, ◌≡◌, refl, sym, ap, ◌∙◌, ◌↔◌, ◌⊎◌, inl, inr, Bool, true, false, ◌||◌, List, [], ◌∷◌, ◌++◌,
  arith, nat_beq, nat_beq_iff, Bool-cases, any, Any, nat_eq, list_eq, list_beq, list_beq_iff,
  contains, Text, ends_with, split, join, ends_with_iff, split-ne_nil, join-split, any-congr,
  any-or, any-false, any_iff, Any-map, beq_sym,
}
use mathlib.Core.List.{tail}
use mathlib.Core.Path.{◌≡⟨◌⟩◌, ◌∎}
use web_search.Crawler.Denylist.{parent_denied, is_domain_denied}

-- A domain is covered by an entry that it equals or lies below.
abbrev pub covered : Text → Text → Bool
covered d entry = list_beq d entry || ends_with (b'.' ∷ entry) d

abbrev pub IsCovered : Text → Text → Type 0
IsCovered d entry = (d ≡ entry) ⊎ ((r : Text) × (d ≡ r ++ (b'.' ∷ entry)))

covered_iff : (d entry : Text) → (covered d entry ≡ true) ↔ IsCovered d entry
covered_iff d entry = (to, from)
  where
    to : covered d entry ≡ true → IsCovered d entry
    to h = elim (Bool-cases (list_beq d entry)) [
      | inl same ↦ inl ((list_beq_iff d entry).0 same)
      | inr other ↦ inr ((ends_with_iff (b'.' ∷ entry) d).0 (ground arith))
    ]

    from : IsCovered d entry → covered d entry ≡ true
    from (inl same) = ground (arith, (list_beq_iff d entry).1 same)
    from (inr below) = ground (arith, (ends_with_iff (b'.' ∷ entry) d).1 below)

contains-any : (s : Text) (l : List Text) → contains s l ≡ any (λ t. list_beq s t) l
contains-any s [] = refl
contains-any s (t ∷ l) = ground (arith, contains-any s l)

tail-split :
    (c : ℕ) (s : Text) → nat_beq c b'.' ≡ false → tail (split b'.' (c ∷ s)) ≡ tail (split b'.' s)
tail-split c s h = let (p, ps, e) = split-ne_nil b'.' s in rw (h, e, split)

-- Of a text that begins with a dot, the suffixes behind a dot are the rest and those of the rest.
dot-any :
    (denylist : List Text) (s : Text)
    → any (λ t. ends_with (b'.' ∷ t) (b'.' ∷ s)) denylist
      ≡ (contains s denylist || any (λ t. ends_with (b'.' ∷ t) s) denylist)
dot-any [] s = refl
dot-any (t ∷ l) s = ground (arith, beq_sym {A = Text} t s, dot-any l s)

parent_denied-split :
    (denylist : List Text) (s : Text)
    → parent_denied denylist (split b'.' s)
      ≡ (contains s denylist || parent_denied denylist (tail (split b'.' s)))
unfolding parent_denied
parent_denied-split denylist s =
    let (p, ps, e) = split-ne_nil b'.' s in
    let whole : join b'.' (p ∷ ps) ≡ s = rw (← e) (join-split b'.' s) in
    rw e (ap (λ t. contains t denylist || parent_denied denylist ps) whole)

-- The loop succeeds exactly when an entry stands behind some dot of the domain.
parent_denied-any :
    (denylist : List Text) (d : Text)
    → parent_denied denylist (tail (split b'.' d)) ≡ any (λ t. ends_with (b'.' ∷ t) d) denylist
unfolding parent_denied
parent_denied-any denylist [] = sym (any-false denylist)
parent_denied-any denylist (c ∷ s) = elim (Bool-cases (nat_beq c b'.')) [
  | inl dot ↦
      let c_dot : c ≡ b'.' = (nat_beq_iff c b'.').0 dot in
      let head : tail (split b'.' (c ∷ s)) ≡ split b'.' s = rw (dot, split) in
      parent_denied denylist (tail (split b'.' (c ∷ s)))
      ≡⟨ ap (parent_denied denylist) head ⟩ parent_denied denylist (split b'.' s)
      ≡⟨ parent_denied-split denylist s ⟩
        (contains s denylist || parent_denied denylist (tail (split b'.' s)))
      ≡⟨ ap (λ b. contains s denylist || b) (parent_denied-any denylist s) ⟩
        (contains s denylist || any (λ t. ends_with (b'.' ∷ t) s) denylist)
      ≡⟨ sym (dot-any denylist s) ⟩ any (λ t. ends_with (b'.' ∷ t) (b'.' ∷ s)) denylist
      ≡⟨ ap (λ k. any (λ t. ends_with (b'.' ∷ t) (k ∷ s)) denylist) (sym c_dot) ⟩
        any (λ t. ends_with (b'.' ∷ t) (c ∷ s)) denylist ∎
  | inr other ↦ rw (tail-split c s other) (
      parent_denied-any denylist s
      ∙ any-congr _ _ denylist (λ t. ground (arith, other, nat_beq_iff c b'.')))
]

module _ (lower : Text → Text) where
  -- A domain is denied exactly when some entry covers it in lower case.
  pub is_domain_denied-any :
      (domain : Text) (denylist : List Text)
      → is_domain_denied lower domain denylist ≡ any (covered (lower domain)) denylist
  unfolding is_domain_denied
  is_domain_denied-any domain [] = refl
  is_domain_denied-any domain (t ∷ l) =
      let d = lower domain in
      ground (
        arith,
        parent_denied-any (t ∷ l) d,
        contains-any d (t ∷ l),
        any-or (list_beq d) (λ e. ends_with (b'.' ∷ e) d) (t ∷ l),
      )

  -- `is_domain_denied` accepts a domain exactly when, in lower case, it is an entry of the
  -- denylist or ends with a dot and an entry.
  pub is_domain_denied_iff :
      (domain : Text) (denylist : List Text)
      → (is_domain_denied lower domain denylist ≡ true) ↔ Any (IsCovered (lower domain)) denylist
  is_domain_denied_iff domain denylist =
      let (to, from) = any_iff (covered (lower domain)) denylist in
      rw (is_domain_denied-any domain denylist) (
        λ h. Any-map _ _ denylist (λ e. (covered_iff (lower domain) e).0) (to h),
        λ h. from (Any-map _ _ denylist (λ e. (covered_iff (lower domain) e).1) h),
      )
