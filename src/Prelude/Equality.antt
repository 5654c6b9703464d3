-- ===== src/Prelude/Equality.antt =====
-- `==` and `in` for every type that has an equality test.
use Prim.Native.Nat.{ℕ}
use mathlib.Core.Path.{◌≡◌, refl, sym, ap}
use mathlib.Core.Logic.{◌↔◌, inl, inr}
use mathlib.Core.Bool.{Bool, true, false, ◌&&◌, ◌||◌}
use mathlib.Core.List.{List, [], ◌∷◌, ◌++◌}
use native.Mathlib.Omega.{arith}
use web_search.Prelude.Tests.{nat_beq, nat_beq_iff, Bool-eq_of_iff, Bool-cases}
use web_search.Prelude.Lists.{Member, keep}

-- The equality test of a type, and that it decides equality.
pub record HasEq {ℓ} (Value : Type ℓ) : Type ℓ where
  pub equals : Value → Value → Bool
  pub equals_iff : (x y : Value) → (equals x y ≡ true) ↔ (x ≡ y)

instance abbrev pub nat_eq : HasEq ℕ
nat_eq = record { equals = nat_beq; equals_iff = nat_beq_iff }

abbrev pub ◌==◌ {ℓ} : {Value : Type ℓ} ⦃test : HasEq Value⦄ → Value → Value → Bool
◌==◌ ⦃test⦄ x y = test.equals x y

infix 50 ◌==◌
module _ {ℓ} {A : Type ℓ} ⦃e : HasEq A⦄ where
  abbrev pub list_beq : List A → List A → Bool
  list_beq [] [] = true
  list_beq [] (y ∷ ys) = false
  list_beq (x ∷ xs) [] = false
  list_beq (x ∷ xs) (y ∷ ys) = e.equals x y && list_beq xs ys

  list_beq_refl : (xs : List A) → list_beq xs xs ≡ true
  list_beq_refl [] = refl
  list_beq_refl (x ∷ xs) = ground (arith, (e.equals_iff x x).1 refl, list_beq_refl xs)

  list_beq_sound : (xs ys : List A) → list_beq xs ys ≡ true → xs ≡ ys
  list_beq_sound [] [] h = refl
  list_beq_sound [] (y ∷ ys) h = ground arith
  list_beq_sound (x ∷ xs) [] h = ground arith
  list_beq_sound (x ∷ xs) (y ∷ ys) h = ground (arith, (e.equals_iff x y).0, list_beq_sound xs ys)

  pub list_beq_iff : (xs ys : List A) → (list_beq xs ys ≡ true) ↔ (xs ≡ ys)
  list_beq_iff xs ys = (list_beq_sound xs ys, λ p. rw p (list_beq_refl ys))

  pub beq_refl : (a : A) → e.equals a a ≡ true
  beq_refl a = (e.equals_iff a a).1 refl

  -- `a in l`
  abbrev pub contains : A → List A → Bool
  contains a [] = false
  contains a (x ∷ xs) = e.equals a x || contains a xs

module _ {A : Type 0} ⦃e : HasEq A⦄ where
  contains_sound : (a : A) (xs : List A) → contains a xs ≡ true → Member a xs
  contains_sound a [] h = ground arith
  contains_sound a (x ∷ xs) h = ground (arith, (e.equals_iff a x).0, contains_sound a xs)

  contains_complete : (a : A) (xs : List A) → Member a xs → contains a xs ≡ true
  contains_complete a [] m = absurd m
  contains_complete a (x ∷ xs) (inl p) = ground (arith, (e.equals_iff a x).1)
  contains_complete a (x ∷ xs) (inr m) = ground (arith, contains_complete a xs m)

  pub contains_iff : (a : A) (xs : List A) → (contains a xs ≡ true) ↔ Member a xs
  contains_iff a xs = (contains_sound a xs, contains_complete a xs)

instance abbrev pub list_eq {ℓ} : {A : Type ℓ} ⦃e : HasEq A⦄ → HasEq (List A)
list_eq = record { equals = list_beq; equals_iff = list_beq_iff }

module _ {ℓ} {A : Type ℓ} ⦃e : HasEq A⦄ where
  pub beq_sym : (a b : A) → e.equals a b ≡ e.equals b a
  beq_sym a b = Bool-eq_of_iff (e.equals a b) (e.equals b a) (
    λ h. (e.equals_iff b a).1 (sym ((e.equals_iff a b).0 h)),
    λ h. (e.equals_iff a b).1 (sym ((e.equals_iff b a).0 h)),
  )

module _ {ℓ} {A : Type ℓ} ⦃e : HasEq A⦄ where
  pub contains-append :
      (a : A) (xs ys : List A) → contains a (xs ++ ys) ≡ (contains a xs || contains a ys)
  contains-append a [] ys = refl
  contains-append a (x ∷ xs) ys = ground (arith, contains-append a xs ys)

  -- `a in [x for x in l if p(x)]`
  pub contains-keep :
      (p : A → Bool) (a : A) (xs : List A) → contains a (keep p xs) ≡ (p a && contains a xs)
  contains-keep p a [] = ground arith
  contains-keep p a (x ∷ xs) = elim (Bool-cases (e.equals a x)) [
    | inl same ↦
        let moved : p a ≡ p x = ap p ((e.equals_iff a x).0 same) in
        ground (arith, moved, same, contains-keep p a xs)
    | inr other ↦ ground (arith, other, contains-keep p a xs)
  ]

module _ {ℓ κ} {A : Type ℓ} {B : Type κ} ⦃d : HasEq A⦄ ⦃e : HasEq B⦄ where
  abbrev pub pair_beq : A × B → A × B → Bool
  pair_beq (a, b) (a', b') = d.equals a a' && e.equals b b'

  pub pair_beq_iff : (p q : A × B) → (pair_beq p q ≡ true) ↔ (p ≡ q)
  pair_beq_iff (a, b) (a', b') = ground (arith, d.equals_iff a a', e.equals_iff b b')

instance abbrev pub pair_eq {ℓ κ} :
    {A : Type ℓ} {B : Type κ} ⦃d : HasEq A⦄ ⦃e : HasEq B⦄ → HasEq (A × B)
pair_eq = record { equals = pair_beq; equals_iff = pair_beq_iff }
