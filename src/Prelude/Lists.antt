-- ===== src/Prelude/Lists.antt =====
-- Lists measured by native numbers, tests over lists, and predicates by recursion.
use Prim.Native.Nat.{ℕ, zero, suc, ◌+◌, ◌≤◌, min}
use mathlib.Core.Path.{◌≡◌, refl, sym, ap, subst}
use mathlib.Core.Logic.{◌⊎◌, ◌↔◌, inl, inr}
use mathlib.Core.Bool.{Bool, true, false, ◌&&◌, ◌||◌}
use mathlib.Core.List.{List, [], ◌∷◌, ◌++◌}
use native.Mathlib.Omega.{arith}
use web_search.Prelude.Tests.{Bool-cases}

module _ {ℓ} {A : Type ℓ} where
  abbrev pub length : List A → ℕ
  length [] = 0
  length (x ∷ xs) = suc (length xs)

  -- `l[:n]`
  abbrev pub take : ℕ → List A → List A
  take zero xs = []
  take (suc n) [] = []
  take (suc n) (x ∷ xs) = x ∷ take n xs

  -- `l[n:]`
  abbrev pub drop : ℕ → List A → List A
  drop zero xs = xs
  drop (suc n) [] = []
  drop (suc n) (x ∷ xs) = drop n xs

  abbrev pub any : (A → Bool) → List A → Bool
  any p [] = false
  any p (x ∷ xs) = p x || any p xs

  abbrev pub all : (A → Bool) → List A → Bool
  all p [] = true
  all p (x ∷ xs) = p x && all p xs

  -- `[x for x in l if p(x)]`
  abbrev pub keep : (A → Bool) → List A → List A
  keep p [] = []
  keep p (x ∷ xs) = let rest = keep p xs in elim (p x) [ true ↦ x ∷ rest | false ↦ rest ]

  abbrev pub is_empty : List A → Bool
  is_empty [] = true
  is_empty (x ∷ xs) = false

  pub length-append : (xs ys : List A) → length (xs ++ ys) ≡ length xs + length ys
  length-append [] ys = omega arith
  length-append (x ∷ xs) ys = omega (arith, length-append xs ys)

  pub length-take : (n : ℕ) (xs : List A) → length (take n xs) ≡ min n (length xs)
  length-take zero xs = omega arith
  length-take (suc n) [] = omega arith
  length-take (suc n) (x ∷ xs) = omega (arith, length-take n xs)

  pub take-append-drop : (n : ℕ) (xs : List A) → take n xs ++ drop n xs ≡ xs
  take-append-drop zero xs = refl
  take-append-drop (suc n) [] = refl
  take-append-drop (suc n) (x ∷ xs) = ap (◌∷◌ x) (take-append-drop n xs)

  pub length-keep-le : (p : A → Bool) (xs : List A) → length (keep p xs) ≤ length xs
  length-keep-le p [] = omega arith
  length-keep-le p (x ∷ xs) = ground (arith, length-keep-le p xs)

  pub any-append : (p : A → Bool) (xs ys : List A) → any p (xs ++ ys) ≡ (any p xs || any p ys)
  any-append p [] ys = refl
  any-append p (x ∷ xs) ys = ground (arith, any-append p xs ys)

  pub keep-append : (p : A → Bool) (xs ys : List A) → keep p (xs ++ ys) ≡ keep p xs ++ keep p ys
  keep-append p [] ys = refl
  keep-append p (x ∷ xs) ys = ground (arith, keep-append p xs ys)

module _ {ℓ κ} {A : Type ℓ} (P : A → Type κ) where
  abbrev pub All : List A → Type κ
  All [] = Unit
  All (x ∷ xs) = P x × All xs

-- "Some member", with the witness kept.
module _ {ℓ} {A : Type ℓ} (P : A → Type 0) where
  abbrev pub Any : List A → Type 0
  Any [] = ⊥
  Any (x ∷ xs) = P x ⊎ Any xs

abbrev pub Member : {A : Type 0} → A → List A → Type 0
Member a = Any (λ x. a ≡ x)

module _ {ℓ} {A : Type ℓ} where
  pub any-congr : (p q : A → Bool) (xs : List A) → ((x : A) → p x ≡ q x) → any p xs ≡ any q xs
  any-congr p q [] h = refl
  any-congr p q (x ∷ xs) h = ground (arith, h x, any-congr p q xs h)

  pub any-or : (p q : A → Bool) (xs : List A) → any (λ x. p x || q x) xs ≡ (any p xs || any q xs)
  any-or p q [] = refl
  any-or p q (x ∷ xs) = ground (arith, any-or p q xs)

  pub any-false : (xs : List A) → any (λ _. false) xs ≡ false
  any-false [] = refl
  any-false (x ∷ xs) = any-false xs

  pub keep-congr : (p q : A → Bool) (xs : List A) → ((x : A) → p x ≡ q x) → keep p xs ≡ keep q xs
  keep-congr p q [] h = refl
  keep-congr p q (x ∷ xs) h = ground (arith, h x, keep-congr p q xs h)

  -- What passes the test is left, and what passed another before it still does.
  pub keep-All : (p : A → Bool) (xs : List A) → All (λ x. p x ≡ true) (keep p xs)
  keep-All p [] = tt
  keep-All p (x ∷ xs) = elim (Bool-cases (p x)) [
    | inl e ↦ rw (e, keep) (e, keep-All p xs)
    | inr e ↦ rw (e, keep) (keep-All p xs)
  ]

  pub All-keep {κ} : (P : A → Type κ) (p : A → Bool) (xs : List A) → All P xs → All P (keep p xs)
  All-keep P p [] h = tt
  All-keep P p (x ∷ xs) (q, h) = elim (Bool-cases (p x)) [
    | inl e ↦ rw (e, keep) (q, All-keep P p xs h)
    | inr e ↦ rw (e, keep) (All-keep P p xs h)
  ]

  pub All-append {κ} : (P : A → Type κ) (xs ys : List A) → All P xs → All P ys → All P (xs ++ ys)
  All-append P [] ys h k = k
  All-append P (x ∷ xs) ys (p, h) k = (p, All-append P xs ys h k)

  pub All-split {κ} : (P : A → Type κ) (xs ys : List A) → All P (xs ++ ys) → All P xs × All P ys
  All-split P [] ys h = (tt, h)
  All-split P (x ∷ xs) ys (p, h) = let (k, l) = All-split P xs ys h in ((p, k), l)

  pub any_iff : (p : A → Bool) (xs : List A) → (any p xs ≡ true) ↔ Any (λ x. p x ≡ true) xs
  any_iff p xs = (sound xs, complete xs)
    where
      sound : (xs : List A) → any p xs ≡ true → Any (λ x. p x ≡ true) xs
      sound [] h = ground arith
      sound (x ∷ xs) h = ground (arith, sound xs)

      complete : (xs : List A) → Any (λ x. p x ≡ true) xs → any p xs ≡ true
      complete [] h = absurd h
      complete (x ∷ xs) (inl h) = ground arith
      complete (x ∷ xs) (inr h) = ground (arith, complete xs h)

  pub Any-map : (P Q : A → Type 0) (xs : List A) → ((x : A) → P x → Q x) → Any P xs → Any Q xs
  Any-map P Q [] f h = absurd h
  Any-map P Q (x ∷ xs) f (inl h) = inl (f x h)
  Any-map P Q (x ∷ xs) f (inr h) = inr (Any-map P Q xs f h)

  pub All-map {κ λ'} :
      (P : A → Type κ) (Q : A → Type λ') (xs : List A) → ((x : A) → P x → Q x) → All P xs → All Q xs
  All-map P Q [] f h = tt
  All-map P Q (x ∷ xs) f (p, h) = (f x p, All-map P Q xs f h)

  pub All-of {κ} : (P : A → Type κ) (xs : List A) → ((x : A) → P x) → All P xs
  All-of P [] f = tt
  All-of P (x ∷ xs) f = (f x, All-of P xs f)

  pub All-take {κ} : (P : A → Type κ) (n : ℕ) (xs : List A) → All P xs → All P (take n xs)
  All-take P zero xs h = tt
  All-take P (suc n) [] h = tt
  All-take P (suc n) (x ∷ xs) (p, h) = (p, All-take P n xs h)

  -- What holds of the items that pass holds of what is kept.
  pub keep-All_of {κ} :
      (P : A → Type κ) (p : A → Bool) (xs : List A)
      → ((x : A) → p x ≡ true → P x)
      → All P (keep p xs)
  keep-All_of P p xs f = All-map (λ x. p x ≡ true) P (keep p xs) f (keep-All p xs)

  pub keep_of_All : (p : A → Bool) (xs : List A) → All (λ x. p x ≡ true) xs → keep p xs ≡ xs
  keep_of_All p [] h = refl
  keep_of_All p (x ∷ xs) (e, h) = ground (arith, keep_of_All p xs h)

pub All-Member {κ} :
    {B : Type 0} (P : B → Type κ) (x : B) (xs : List B) → All P xs → Member x xs → P x
All-Member P x [] h m = absurd m
All-Member P x (y ∷ xs) (p, h) (inl e) = subst P (sym e) p
All-Member P x (y ∷ xs) (p, h) (inr m) = All-Member P x xs h m

module _ {ℓ κ λ'} {A : Type ℓ} (P : A → Type κ) (Q : A → Type λ') (p : A → Bool) where
  -- What holds of the members that pass holds of all that is kept.
  pub keep-All_both :
      (xs : List A) → ((x : A) → P x → p x ≡ true → Q x) → All P xs → All Q (keep p xs)
  keep-All_both [] f h = tt
  keep-All_both (x ∷ xs) f (q, h) = elim (Bool-cases (p x)) [
    | inl e ↦ rw (e, keep) (f x q e, keep-All_both xs f h)
    | inr e ↦ rw (e, keep) (keep-All_both xs f h)
  ]

pub All-members : {A : Type 0} (xs : List A) → All (λ x. Member x xs) xs
All-members [] = tt
All-members (x ∷ xs) = (
  inl refl,
  All-map (λ y. Member y xs) (λ y. Member y (x ∷ xs)) xs (λ y m. inr m) (All-members xs),
)
