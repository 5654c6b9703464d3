-- ===== src/Prelude/Sort.antt =====
-- Python's `sorted`: stable, by a test that says whether one item may stand before another.
use mathlib.Core.Path.{◌≡◌, refl, sym, ap, ◌∙◌, subst, ap₂}
use mathlib.Core.Logic.Or
use mathlib.Core.Bool.{Bool, true, false, ◌||◌}
use mathlib.Core.Logic.{inl, inr}
use mathlib.Core.List.{List, [], ◌∷◌, Perm, filter, Mem, not-mem-nil, mem-cons, mem-cons_self}
use mathlib.Core.List.Perm
use native.Mathlib.Omega.{arith}
use web_search.Prelude.Tests.{Bool-cases, if◌then◌else◌}
use web_search.Prelude.Lists.{All, keep}
use web_search.Prelude.Equality.{HasEq, contains}

module _ {ℓ} {A : Type ℓ} (before : A → A → Bool) where
  unfoldable pub insert_by : A → List A → List A
  insert_by x [] = x ∷ []
  insert_by x (y ∷ ys) = if before x y then x ∷ y ∷ ys else y ∷ insert_by x ys

  unfoldable pub sort_by : List A → List A
  unfolding insert_by
  sort_by [] = []
  sort_by (x ∷ xs) = insert_by x (sort_by xs)

  -- Every item may stand before every later one.
  abbrev pub Sorted : List A → Type 0
  Sorted [] = Unit
  Sorted (x ∷ xs) = All (λ y. before x y ≡ true) xs × Sorted xs

  insert_by-perm : (x : A) (l : List A) → Perm (insert_by x l) (x ∷ l)
  unfolding insert_by
  insert_by-perm x [] = Perm.rfl
  insert_by-perm x (y ∷ ys) = elim (Bool-cases (before x y)) [
    | inl p ↦ rw (p, insert_by) Perm.rfl
    | inr p ↦ rw (p, insert_by) (Perm.trans (Perm.cons y (insert_by-perm x ys)) (Perm.swap x y ys))
  ]

  -- Sorting rearranges its input.
  pub sort_by-perm : (l : List A) → Perm (sort_by l) l
  unfolding sort_by
  sort_by-perm [] = Perm.rfl
  sort_by-perm (x ∷ xs) = Perm.trans (insert_by-perm x (sort_by xs)) (Perm.cons x (sort_by-perm xs))

  pub insert_by-All {κ} :
      (P : A → Type κ) (x : A) (l : List A) → P x → All P l → All P (insert_by x l)
  unfolding insert_by
  insert_by-All P x [] p h = (p, tt)
  insert_by-All P x (y ∷ ys) p (q, h) = elim (Bool-cases (before x y)) [
    | inl e ↦ rw (e, insert_by) (p, (q, h))
    | inr e ↦ rw (e, insert_by) (q, insert_by-All P x ys p h)
  ]

  -- What holds of every item holds after sorting.
  pub sort_by-All {κ} : (P : A → Type κ) (l : List A) → All P l → All P (sort_by l)
  unfolding sort_by
  sort_by-All P [] h = tt
  sort_by-All P (x ∷ xs) (p, h) = insert_by-All P x (sort_by xs) p (sort_by-All P xs h)

  insert_by-All_inv {κ} :
      (P : A → Type κ) (x : A) (l : List A) → All P (insert_by x l) → P x × All P l
  unfolding insert_by
  insert_by-All_inv P x [] h = h
  insert_by-All_inv P x (y ∷ ys) h = elim (Bool-cases (before x y)) [
    | inl e ↦ rw (e, insert_by) at h
    | inr e ↦
        let (q, rest) : P y × All P (insert_by x ys) = rw (e, insert_by) at h in
        let (p, k) = insert_by-All_inv P x ys rest in (p, (q, k))
  ]

  -- What holds of every item after sorting held before.
  pub sort_by-All_inv {κ} : (P : A → Type κ) (l : List A) → All P (sort_by l) → All P l
  unfolding sort_by
  sort_by-All_inv P [] h = tt
  sort_by-All_inv P (x ∷ xs) h =
      let (p, k) = insert_by-All_inv P x (sort_by xs) h in (p, sort_by-All_inv P xs k)

  module _ (total : (x y : A) → before x y ≡ false → before y x ≡ true)
      (trans : (x y z : A) → before x y ≡ true → before y z ≡ true → before x z ≡ true) where
    All-trans :
        (x y : A) (l : List A)
        → before x y ≡ true
        → All (λ z. before y z ≡ true) l
        → All (λ z. before x z ≡ true) l
    All-trans x y [] p h = tt
    All-trans x y (z ∷ l) p (q, h) = (trans x y z p q, All-trans x y l p h)

    insert_by-Sorted : (x : A) (l : List A) → Sorted l → Sorted (insert_by x l)
    unfolding insert_by
    insert_by-Sorted x [] s = (tt, tt)
    insert_by-Sorted x (y ∷ ys) (below, s) = elim (Bool-cases (before x y)) [
      | inl e ↦ rw (e, insert_by) ((e, All-trans x y ys e below), (below, s))
      | inr e ↦
          rw (e, insert_by)
            (
              insert_by-All (λ z. before y z ≡ true) x ys (total x y e) below,
              insert_by-Sorted x ys s,
            )
    ]

    -- The result is in order, for a total and transitive test.
    pub sort_by-Sorted : (l : List A) → Sorted (sort_by l)
    unfolding sort_by
    sort_by-Sorted [] = tt
    sort_by-Sorted (x ∷ xs) = insert_by-Sorted x (sort_by xs) (sort_by-Sorted xs)

module _ {ℓ} {A : Type ℓ} (before : A → A → Bool) where
  test_prop : (x y : A) → IsProp (before x y ≡ true)
  test_prop x y = hlevel

  -- What holds of every item holds of each member, for a proposition.
  All-mem :
      (P : A → Type 0) → ((x : A) → IsProp (P x)) → (l : List A) → All P l → (x : A) → Mem x l → P x
  All-mem P prop [] h x m = absurd (not-mem-nil m)
  All-mem P prop (y ∷ l) (p, h) x m =
      Or.elim (prop x) (mem-cons.0 m) (λ e. subst P (sym e) p) (All-mem P prop l h x)

  module _ (refl_test : (x : A) → before x x ≡ true)
      (antisymm : (x y : A) → before x y ≡ true → before y x ≡ true → x ≡ y) where
    -- The first of an ordered list stands before every member of a rearrangement.
    first_before :
        (a b : A) (l r : List A) → Sorted before (a ∷ l) → Perm (a ∷ l) (b ∷ r) → before a b ≡ true
    first_before a b l r (below, s) moved =
        let b_in : Mem b (a ∷ l) = (Perm.mem_iff moved).1 mem-cons_self in
        All-mem (λ y. before a y ≡ true) (test_prop a) (a ∷ l) (refl_test a, below) b b_in

    same_first :
        (a b : A) (l r : List A)
        → Sorted before (a ∷ l)
        → Sorted before (b ∷ r)
        → Perm (a ∷ l) (b ∷ r)
        → (a ≡ b) × Perm l r
    same_first a b l r sorted_l sorted_r moved =
        let same =
          antisymm a b (first_before a b l r sorted_l moved)
            (first_before b a r l sorted_r (Perm.symm moved)) in
        let put_back : Perm (b ∷ r) (a ∷ r) = Perm.cons' (sym same) Perm.rfl in
        (same, Perm.cons_inv (Perm.trans moved put_back))

    -- A list has only one ordered rearrangement.
    pub Sorted-eq_of_perm : (l r : List A) → Sorted before l → Sorted before r → Perm l r → l ≡ r
    Sorted-eq_of_perm [] r sorted_l sorted_r moved = Perm.nil-eq moved
    Sorted-eq_of_perm (a ∷ l) [] sorted_l sorted_r moved = Perm.eq-nil moved
    Sorted-eq_of_perm (a ∷ l) (b ∷ r) sorted_l sorted_r moved =
        let (same, rest) = same_first a b l r sorted_l sorted_r moved in
        ap₂ ◌∷◌ same (Sorted-eq_of_perm l r sorted_l.1 sorted_r.1 rest)

is_true? : (b : Bool) → Dec (b ≡ true)
is_true? true = yes refl
is_true? false = no (λ e. cc)

module _ {ℓ} {A : Type ℓ} (p : A → Bool) where
  keep-filter : (l : List A) → keep p l ≡ filter (λ x. is_true? (p x)) l
  unfolding is_true?
  keep-filter [] = refl
  keep-filter (x ∷ l) = ground (arith, keep-filter l)

  -- Keeping commutes with rearranging.
  pub keep-perm : {l r : List A} → Perm l r → Perm (keep p l) (keep p r)
  keep-perm {l} {r} h = rw (keep-filter l, keep-filter r) (Perm.filter (λ x. is_true? (p x)) h)

module _ {ℓ} {A : Type ℓ} ⦃e : HasEq A⦄ (before : A → A → Bool) where
  contains-insert_by :
      (a x : A) (l : List A) → contains a (insert_by before x l) ≡ (e.equals a x || contains a l)
  unfolding insert_by
  contains-insert_by a x [] = refl
  contains-insert_by a x (y ∷ l) = ground (arith, contains-insert_by a x l)

  -- Sorting keeps the members.
  pub contains-sort_by : (a : A) (l : List A) → contains a (sort_by before l) ≡ contains a l
  unfolding sort_by
  contains-sort_by a [] = refl
  contains-sort_by a (x ∷ l) =
      contains-insert_by a x (sort_by before l) ∙ ap (λ b. e.equals a x || b) (contains-sort_by a l)
