-- ===== src/Prelude/Quota.antt =====
-- The independent description of a quota: of a list keep each item that has fewer than `cap`
-- earlier items with its key. The loops that count as they go are compared with it.
use Prim.Native.Nat.{ℕ, zero, suc, ◌-◌, ◌≤◌, ◌+◌, min}
use mathlib.Core.Path.{◌≡◌}
use mathlib.Core.Logic.{inl, inr}
use mathlib.Core.List.{List, [], ◌∷◌, map, Sublist, nil-sublist}
use mathlib.Core.List.Sublist
use native.Mathlib.Omega.{arith}
use web_search.Prelude.Tests.{ltb, Bool-cases, if◌then◌else◌}
use web_search.Prelude.Lists.{All, length, take, length-take}
use web_search.Prelude.Equality.{HasEq}

module _ {K : Type 0} ⦃e : HasEq K⦄ where
  -- A counter per key, `d[k] = v` for a dictionary of counts.
  abbrev pub update : (K → ℕ) → K → ℕ → K → ℕ
  update counts k v j = if e.equals k j then v else counts j

  abbrev pub occurrences : K → List K → ℕ
  occurrences k [] = 0
  occurrences k (j ∷ ks) = if e.equals j k then suc (occurrences k ks) else occurrences k ks

  -- The counts that a loop holds are those of the accepted items: all earlier ones, up to the cap.
  abbrev pub Tracks : ℕ → (K → ℕ) → List K → Type 0
  Tracks cap counts earlier = (k : K) → counts k ≡ min cap (occurrences k earlier)

  pub Tracks-skip :
      (cap : ℕ) (counts : K → ℕ) (earlier : List K) (j : K)
      → Tracks cap counts earlier
      → cap ≤ counts j
      → Tracks cap counts (j ∷ earlier)
  Tracks-skip cap counts earlier j t full k = ground (arith, t k, t j, e.equals_iff j k)

  pub Tracks-take :
      (cap : ℕ) (counts : K → ℕ) (earlier : List K) (j : K)
      → Tracks cap counts earlier
      → counts j + 1 ≤ cap
      → Tracks cap (update counts j (counts j + 1)) (j ∷ earlier)
  Tracks-take cap counts earlier j t room k = ground (arith, t k, t j, e.equals_iff j k)

  module _ {A : Type 0} (key : A → K) (cap : ℕ) where
    unfoldable pub capped : List K → List A → List A
    capped earlier [] = []
    capped earlier (x ∷ xs) =
        let rest = capped (key x ∷ earlier) xs in
        if ltb (occurrences (key x) earlier) cap then x ∷ rest else rest

    -- Of one key at most `cap` items are left, those before the list included.
    pub occurrences-capped :
        (k : K) (earlier : List K) (xs : List A)
        → occurrences k (map key (capped earlier xs)) ≤ cap - occurrences k earlier
    unfolding capped
    occurrences-capped k earlier [] = omega arith
    occurrences-capped k earlier (x ∷ xs) =
        ground (arith, occurrences-capped k (key x ∷ earlier) xs, e.equals_iff (key x) k)

    pub capped-sublist : (earlier : List K) (xs : List A) → Sublist (capped earlier xs) xs
    unfolding capped
    capped-sublist earlier [] = nil-sublist []
    capped-sublist earlier (x ∷ xs) =
        let rest = capped-sublist (key x ∷ earlier) xs in
        elim (Bool-cases (ltb (occurrences (key x) earlier) cap)) [
          | inl p ↦ rw (p, capped) (Sublist.cons-cons x rest)
          | inr p ↦ rw (p, capped) (Sublist.cons x rest)
        ]

    pub capped-All {κ} :
        (P : A → Type κ) (earlier : List K) (xs : List A) → All P xs → All P (capped earlier xs)
    unfolding capped
    capped-All P earlier [] h = tt
    capped-All P earlier (x ∷ xs) (p, h) =
        let rest = capped-All P (key x ∷ earlier) xs h in
        elim (Bool-cases (ltb (occurrences (key x) earlier) cap)) [
          | inl e ↦ rw (e, capped) (p, rest)
          | inr e ↦ rw (e, capped) rest
        ]

    -- Where fewer than `cap` items have each key, nothing is dropped.
    pub length-capped-le : (earlier : List K) (xs : List A) → length (capped earlier xs) ≤ length xs
    unfolding capped
    length-capped-le earlier [] = omega arith
    length-capped-le earlier (x ∷ xs) = ground (arith, length-capped-le (key x ∷ earlier) xs)

    pub occurrences-take-le :
        (n : ℕ) (k : K) (xs : List A)
        → occurrences k (map key (take n xs)) ≤ occurrences k (map key xs)
    occurrences-take-le zero k xs = omega arith
    occurrences-take-le (suc n) k [] = omega arith
    occurrences-take-le (suc n) k (x ∷ xs) = ground (arith, occurrences-take-le n k xs)

pub take-sublist {ℓ} : {A : Type ℓ} (n : ℕ) (xs : List A) → Sublist (take n xs) xs
take-sublist zero xs = nil-sublist xs
take-sublist (suc n) [] = nil-sublist []
take-sublist (suc n) (x ∷ xs) = Sublist.cons-cons x (take-sublist n xs)

module _ {A K : Type 0} ⦃e : HasEq K⦄ (key : A → K) where
  -- A list whose keys respect a quota, as long as a page and in the order of the input.
  pub record WithinQuota (cap limit : ℕ) (input output : List A) : Type 0 where
    pub per_key : (k : K) → occurrences k (map key output) ≤ cap
    pub bounded : length output ≤ limit
    pub in_order : Sublist output input

  pub take-capped-WithinQuota :
      (cap limit : ℕ) (xs : List A) → WithinQuota cap limit xs (take limit (capped key cap [] xs))
  take-capped-WithinQuota cap limit xs = record {
    per_key = λ k. omega (
      arith,
      occurrences-take-le key cap limit k (capped key cap [] xs),
      occurrences-capped key cap k [] xs,
    );
    bounded = omega (arith, length-take limit (capped key cap [] xs));
    in_order =
        Sublist.trans (take-sublist limit (capped key cap [] xs)) (capped-sublist key cap [] xs);
  }
