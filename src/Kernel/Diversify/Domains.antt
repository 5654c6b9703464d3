-- ===== src/Kernel/Diversify/Domains.antt =====
-- Grouping by the registered domain.
use web_search.Prelude.{
  ℕ, suc, ◌-◌, ◌≤◌, ◌≡◌, ap, ◌≢◌, ◌⊎◌, inl, inr, false, List, [], ◌∷◌, ◌++◌, arith, leb, Bool-cases,
  length, drop, All, nat_eq, list_eq, Text, split, join, join-split, split-append,
}
use web_search.Kernel.Diversify.{registered_domain, registered_from, is_two_level_tld, last_parts}

last_parts-cons :
    (n : ℕ) (p : Text) (ps : List Text) → n ≤ length ps → last_parts n (p ∷ ps) ≡ last_parts n ps
unfolding last_parts
last_parts-cons n p ps h = ap (λ k. drop k (p ∷ ps)) step
  where
    step : suc (length ps) - n ≡ suc (length ps - n)
    step = omega arith

-- Of three parts or more, a further part in front changes nothing.
registered_from-cons :
    (host host' p : Text) (ps : List Text)
    → 3 ≤ length ps
    → registered_from host (p ∷ ps) ≡ registered_from host' ps
unfolding registered_from
registered_from-cons host host' p ps h =
    ground (arith, last_parts-cons 2 p ps (omega arith), last_parts-cons 3 p ps h)

-- Two parts that are no two-level suffix stand for the host whatever is in front.
registered_from_two :
    (host host' p : Text) (ps : List Text)
    → length ps ≡ 2
    → join b'.' ps ≡ host
    → is_two_level_tld host ≡ false
    → registered_from host' (p ∷ ps) ≡ registered_from host ps
unfolding registered_from last_parts
registered_from_two host host' p (q ∷ r ∷ []) h whole plain = ground (arith, whole, plain)
registered_from_two host host' p [] h whole plain = absurd (omega arith)
registered_from_two host host' p (q ∷ []) h whole plain = absurd (omega arith)
registered_from_two host host' p (q ∷ r ∷ s ∷ ps) h whole plain = absurd (omega arith)

-- A host one label below another of three or more labels, or of two that are no two-level
-- suffix, is grouped with it.
registered_domain-subdomain :
    (label host : Text)
    → All (λ c. c ≢ b'.') label
    → 2 ≤ length (split b'.' host)
    → (3 ≤ length (split b'.' host)) ⊎ (is_two_level_tld host ≡ false)
    → registered_domain (label ++ (b'.' ∷ host)) ≡ registered_domain host
unfolding registered_domain
registered_domain-subdomain label host plain two parts =
    rw (split-append b'.' label host plain) (go parts)
  where
    ps : List Text
    ps = split b'.' host

    whole : Text
    whole = label ++ (b'.' ∷ host)

    go :
        (3 ≤ length ps) ⊎ (is_two_level_tld host ≡ false)
        → registered_from whole (label ∷ ps) ≡ registered_from host ps
    go (inl three) = registered_from-cons whole host label ps three
    go (inr other) = elim (Bool-cases (leb 3 (length ps))) [
      | inl three ↦ registered_from-cons whole host label ps (ground arith)
      | inr less ↦
          registered_from_two host whole label ps (ground arith) (join-split b'.' host) other
    ]
