-- ===== src/Crawler/Enqueue/Chunks.antt =====
-- The chunks of a batch.
use web_search.Prelude.{
  ℕ, zero, suc, ◌≤◌, ◌<◌, ◌≡◌, refl, ap, ◌∙◌, List, [], ◌∷◌, ◌++◌, arith, length, take, drop,
  length-take, take-append-drop, All, nat_eq, list_eq,
}
use web_search.Crawler.Enqueue.{chunks_from, chunked}

module _ {A : Type 0} where
  abbrev pub flat : List (List A) → List A
  flat [] = []
  flat (xs ∷ xss) = xs ++ flat xss

  length-drop-lt : (n : ℕ) (x : A) (xs : List A) → 0 < n → length (drop n (x ∷ xs)) ≤ length xs
  length-drop-lt zero x xs h = omega (arith, h)
  length-drop-lt (suc zero) x xs h = omega arith
  length-drop-lt (suc (suc n)) x [] h = omega arith
  length-drop-lt (suc (suc n)) x (y ∷ xs) h =
      let k = length-drop-lt (suc n) y xs (omega arith) in omega (arith, k)

  chunks_from-flat :
      (rounds size : ℕ) (xs : List A)
      → 0 < size
      → length xs ≤ rounds
      → flat (chunks_from rounds size xs) ≡ xs
  unfolding chunks_from
  chunks_from-flat zero size [] h k = refl
  chunks_from-flat zero size (x ∷ xs) h k = absurd (ground (arith, k))
  chunks_from-flat (suc rounds) size [] h k = refl
  chunks_from-flat (suc rounds) size (x ∷ xs) h k =
      let rest = length-drop-lt size x xs h in
      ap (◌++◌ (take size (x ∷ xs)))
        (chunks_from-flat rounds size (drop size (x ∷ xs)) h (omega (arith, rest, k)))
      ∙ take-append-drop size (x ∷ xs)

  chunks_from-short :
      (rounds size : ℕ) (xs : List A)
      → 0 < size
      → All (λ c. (0 < length c) × (length c ≤ size)) (chunks_from rounds size xs)
  unfolding chunks_from
  chunks_from-short zero size xs h = tt
  chunks_from-short (suc rounds) size [] h = tt
  chunks_from-short (suc rounds) zero (x ∷ xs) h = absurd (omega (arith, h))
  chunks_from-short (suc rounds) (suc n) (x ∷ xs) h = (
    (omega arith, omega (arith, length-take n xs)),
    chunks_from-short rounds (suc n) (drop n xs) h,
  )

  -- The chunks are the batch, cut into pieces that are not empty and no longer than `size`,
  -- for a `size` that is not 0.
  pub chunked-flat :
      (xs : List A) (size : ℕ)
      → 0 < size
      → (flat (chunked xs size) ≡ xs)
        × All (λ c. (0 < length c) × (length c ≤ size)) (chunked xs size)
  unfolding chunked
  chunked-flat xs size h = (
    chunks_from-flat (length xs) size xs h (omega arith),
    chunks_from-short (length xs) size xs h,
  )
