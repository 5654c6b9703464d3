-- ===== src/Prelude/SortKeys.antt =====
-- What sorting does by a number or a flag that the test looks at first.
use Prim.Native.Nat.{ℕ, ◌≤◌}
use mathlib.Core.Path.{◌≡◌, refl, ap, ◌∙◌}
use mathlib.Core.Bool.{Bool, true, false, not}
use mathlib.Core.Logic.{inl, inr}
use mathlib.Core.List.{List, [], ◌∷◌, ◌++◌}
use native.Mathlib.Omega.{arith}
use web_search.Prelude.Tests.{Bool-cases}
use web_search.Prelude.Lists.{All, keep, keep-All, keep-All_of}
use web_search.Prelude.Sort.{insert_by, insert_by-All, sort_by, sort_by-All, Sorted}

module _ {ℓ} {A : Type ℓ} (before : A → A → Bool) where
  insert_by-first :
      (x : A) (l : List A) → All (λ y. before x y ≡ true) l → insert_by before x l ≡ x ∷ l
  unfolding insert_by
  insert_by-first x [] h = refl
  insert_by-first x (y ∷ l) (e, h) = rw e refl

  -- A list that is in order stays as it is.
  pub sort_by_of_Sorted : (l : List A) → Sorted before l → sort_by before l ≡ l
  unfolding sort_by
  sort_by_of_Sorted [] s = refl
  sort_by_of_Sorted (x ∷ l) (below, s) =
      ap (insert_by before x) (sort_by_of_Sorted l s) ∙ insert_by-first x l below

-- Scores that never rise along a list.
module _ {ℓ} {A : Type ℓ} (score : A → ℕ) where
  abbrev Below : ℕ → List A → Type 0
  Below n l = All (λ y. score y ≤ n) l

  abbrev pub Falling : List A → Type 0
  Falling [] = Unit
  Falling (x ∷ l) = Below (score x) l × Falling l

  Below-mono : (m n : ℕ) (l : List A) → m ≤ n → Below m l → Below n l
  Below-mono m n [] k h = tt
  Below-mono m n (y ∷ l) k (p, h) = (omega (arith, k, p), Below-mono m n l k h)

-- Sorting by a number, the greatest first, where the test decides by it as far as it goes.
module _ {ℓ} {A : Type ℓ} (before : A → A → Bool) (score : A → ℕ)
    (yes_by : (x y : A) → before x y ≡ true → score y ≤ score x)
    (no_by : (x y : A) → before x y ≡ false → score x ≤ score y) where
  insert_by-Falling : (x : A) (l : List A) → Falling score l → Falling score (insert_by before x l)
  unfolding insert_by
  insert_by-Falling x [] f = (tt, tt)
  insert_by-Falling x (y ∷ l) (below, f) = elim (Bool-cases (before x y)) [
    | inl e ↦
        let k = yes_by x y e in
        rw (e, insert_by) ((k, Below-mono score (score y) (score x) l k below), (below, f))
    | inr e ↦
        rw (e, insert_by)
          (
            insert_by-All before (λ z. score z ≤ score y) x l (no_by x y e) below,
            insert_by-Falling x l f,
          )
  ]

  pub sort_by-Falling : (l : List A) → Falling score (sort_by before l)
  unfolding sort_by
  sort_by-Falling [] = tt
  sort_by-Falling (x ∷ l) = insert_by-Falling x (sort_by before l) (sort_by-Falling l)

-- Sorting by a flag first, and behind it by another test.
module _ {ℓ} {A : Type ℓ} (flag : A → Bool) (before within : A → A → Bool)
    (same : (x y : A) → flag x ≡ flag y → before x y ≡ within x y)
    (differ : (x y : A) → (flag x ≡ flag y → ⊥) → before x y ≡ flag x) where
  insert_by-flagged :
      (x : A) (up down : List A)
      → All (λ y. flag y ≡ true) up
      → All (λ y. flag y ≡ false) down
      → flag x ≡ true
      → insert_by before x (up ++ down) ≡ insert_by within x up ++ down
  unfolding insert_by
  insert_by-flagged x [] [] u d f = refl
  insert_by-flagged x [] (y ∷ down) u (e, d) f = ground (arith, differ x y, e, f)
  insert_by-flagged x (y ∷ up) down (e, u) d f =
      ground (arith, same x y, e, f, insert_by-flagged x up down u d f)

  insert_by-plain :
      (x : A) (up down : List A)
      → All (λ y. flag y ≡ true) up
      → All (λ y. flag y ≡ false) down
      → flag x ≡ false
      → insert_by before x (up ++ down) ≡ up ++ insert_by within x down
  unfolding insert_by
  insert_by-plain x [] [] u d f = refl
  insert_by-plain x [] (y ∷ down) u (e, d) f =
      ground (arith, same x y, e, f, insert_by-plain x [] down u d f)
  insert_by-plain x (y ∷ up) down (e, u) d f =
      ground (arith, differ x y, e, f, insert_by-plain x up down u d f)

  -- The flagged items come first, and each part is sorted by the other test.
  pub sort_by-flag :
      (l : List A)
      → sort_by before l
        ≡ sort_by within (keep flag l) ++ sort_by within (keep (λ x. not (flag x)) l)
  unfolding sort_by
  sort_by-flag [] = refl
  sort_by-flag (x ∷ l) =
      let up = sort_by-All within (λ y. flag y ≡ true) (keep flag l) (keep-All flag l) in
      let down =
        sort_by-All within (λ y. flag y ≡ false) (keep (λ x. not (flag x)) l)
          (keep-All_of (λ y. flag y ≡ false) (λ x. not (flag x)) l (λ y e. ground arith)) in
      elim (Bool-cases (flag x)) [
        | inl e ↦ rw (e, keep, sort_by, sort_by-flag l) (insert_by-flagged x _ _ up down e)
        | inr e ↦ rw (e, keep, sort_by, sort_by-flag l) (insert_by-plain x _ _ up down e)
      ]
