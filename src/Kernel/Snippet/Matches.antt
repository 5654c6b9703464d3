-- ===== src/Kernel/Snippet/Matches.antt =====
-- When the pattern of the terms matches, and what it splits a text into.
use web_search.Prelude.{
  ℕ, ◌+◌, ◌-◌, ◌≡◌, refl, sym, ap, ◌∙◌, inl, inr, Bool, true, false, not, Option, none, some, List,
  [], ◌∷◌, ◌++◌, append_assoc, arith, leb, Option-cases, any, is_empty, All, nat_eq, list_eq, Text,
  any-or, if_cases, pair_eq,
}
use web_search.Kernel.Snippet.{
  Reading, Reading.outside, Reading.inside, stands_here, match_length, search_term, match_starts,
  split_parts,
}

-- The parts, one behind the other.
abbrev pub joined : List Text → Text
joined [] = []
joined (part ∷ parts) = part ++ joined parts

abbrev read_before : Reading → Text
read_before (outside part) = part
read_before (inside part left) = part

is_there : {A : Type 0} → Option A → Bool
is_there none = false
is_there (some a) = true

module _ (same : ℕ → ℕ → Bool) where
  match_length-any :
      (terms : List Text) (text : Text)
      → is_there (match_length same terms text) ≡ any (λ t. stands_here same t text) terms
  unfolding match_length is_there
  match_length-any [] text = refl
  match_length-any (t ∷ terms) text = ground (arith, match_length-any terms text)

  nowhere :
      (terms : List Text)
      → All (λ t. is_empty t ≡ false) terms
      → any (λ t. search_term same t []) terms ≡ false
  unfolding search_term stands_here
  nowhere [] h = refl
  nowhere ([] ∷ terms) (e, h) = absurd (ground (arith, e))
  nowhere ((c ∷ cs) ∷ terms) (e, h) = nowhere terms h

  -- The pattern has a match exactly where one of the terms is found.
  pub match_starts-any :
      (terms : List Text) (pos : ℕ) (text : Text)
      → All (λ t. is_empty t ≡ false) terms
      → is_empty (match_starts same terms pos 0 text)
        ≡ not (any (λ t. search_term same t text) terms)
  unfolding match_starts search_term is_there
  match_starts-any terms pos [] h = ap not (sym (nowhere terms h))
  match_starts-any terms pos (c ∷ text) h =
      let here = match_length-any terms (c ∷ text) in
      let both = any-or (λ t. stands_here same t (c ∷ text)) (λ t. search_term same t text) terms in
      let later = match_starts-any terms (pos + 1) text h in
      elim (Option-cases (match_length same terms (c ∷ text))) [
        | inl e ↦
            let no_here : any (λ t. stands_here same t (c ∷ text)) terms ≡ false =
              rw e at (sym here) in
            rw (e, is_empty) (ground (arith, both, later, no_here))
        | inr (n, e) ↦
            let yes_here : any (λ t. stands_here same t (c ∷ text)) terms ≡ true =
              rw e at (sym here) in
            rw (e, is_empty) (ground (arith, both, yes_here))
      ]

  -- The parts of a text make it up.
  pub split_parts-joined :
      (terms : List Text) (reading : Reading) (text : Text)
      → joined (split_parts same terms reading text) ≡ read_before reading ++ text
  unfolding split_parts
  split_parts-joined terms (outside part) [] = refl
  split_parts-joined terms (inside part left) [] = refl
  split_parts-joined terms (inside part left) (c ∷ text) =
      let ended = split_parts-joined terms (outside []) text in
      let longer = split_parts-joined terms (inside (part ++ c ∷ []) (left - 1)) text in
      let moved = append_assoc part (c ∷ []) text in
      if_cases (λ parts. joined parts ≡ part ++ c ∷ text) (leb left 1)
        (λ e. ap (λ r. (part ++ c ∷ []) ++ r) ended ∙ moved) (λ e. longer ∙ moved)
  split_parts-joined terms (outside part) (c ∷ text) =
      let ended = split_parts-joined terms (outside []) text in
      let longer = split_parts-joined terms (outside (part ++ c ∷ [])) text in
      let moved = append_assoc part (c ∷ []) text in
      elim (Option-cases (match_length same terms (c ∷ text))) [
        | inl e ↦ rw (e, joined) (longer ∙ moved)
        | inr (n, e) ↦
            rw (e, joined)
              (if_cases (λ parts. joined parts ≡ part ++ c ∷ text) (leb n 1)
                (λ short. ap (λ r. part ++ c ∷ r) ended)
                (λ long.
                  ap (λ r. part ++ r) (split_parts-joined terms (inside (c ∷ []) (n - 1)) text)))
      ]
