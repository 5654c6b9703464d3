-- ===== src/Frontend/Ranking/Classify/Matches.antt =====
-- Which source a query names.
use web_search.Prelude.{
  ◌≡◌, refl, sym, ap, ◌∙◌, inl, inr, Bool, true, false, not, ◌||◌, Option, none, some, List, [],
  ◌∷◌, ◌++◌, append-nil, append_assoc, arith, ltb, leb, if◌then◌else◌, Bool-cases, length, All,
  Member, nat_eq, list_eq, Text, All-append, All-map,
}
use mathlib.Core.Path.{subst}
use web_search.Frontend.Ranking.{CanonicalSourceConfig}
use web_search.Frontend.Ranking.Classify.{
  matches_alias, Match, better_match, match_aliases, match_sources, match_source,
}

-- The aliases of the configured sources, each with its source, in their order.
abbrev pub pairs_of_source : CanonicalSourceConfig → List Text → List Match
pairs_of_source source [] = []
pairs_of_source source (a ∷ aliases) = (source, a) ∷ pairs_of_source source aliases

abbrev pub pairs_of : List CanonicalSourceConfig → List Match
pairs_of [] = []
pairs_of (source ∷ sources) = pairs_of_source source source.aliases ++ pairs_of sources

abbrev pub is_match : Text → Match → Bool
is_match query_text p = matches_alias query_text p.1

-- A pair does not match, or its alias is no longer than that of another.
abbrev pub no_longer : Text → Match → Match → Bool
no_longer query_text best p = not (is_match query_text p) || leb (length p.1) (length best.1)

-- The best of some pairs: one that matches, and whose alias is the longest of those that do; or
-- none, where none matches.
unfoldable pub BestOf : Text → List Match → Option Match → Type 0
BestOf query_text pairs none = All (λ p. is_match query_text p ≡ false) pairs
BestOf query_text pairs (some m) =
    Member m pairs
    × (is_match query_text m ≡ true)
    × All (λ p. no_longer query_text m p ≡ true) pairs

module _ (query_text : Text) where
  fold_matches : List Match → Option Match → Option Match
  fold_matches [] best = best
  fold_matches (p ∷ ps) best = fold_matches ps (better_match query_text p.0 p.1 best)

  fold_matches-append :
      (ps qs : List Match) (best : Option Match)
      → fold_matches (ps ++ qs) best ≡ fold_matches qs (fold_matches ps best)
  unfolding fold_matches
  fold_matches-append [] qs best = refl
  fold_matches-append (p ∷ ps) qs best = fold_matches-append ps qs _

  aliases_fold :
      (source : CanonicalSourceConfig) (aliases : List Text) (best : Option Match)
      → match_aliases query_text source aliases best
        ≡ fold_matches (pairs_of_source source aliases) best
  unfolding match_aliases fold_matches
  aliases_fold source [] best = refl
  aliases_fold source (a ∷ aliases) best = aliases_fold source aliases _

  sources_fold :
      (sources : List CanonicalSourceConfig) (best : Option Match)
      → match_sources query_text sources best ≡ fold_matches (pairs_of sources) best
  unfolding match_sources fold_matches
  sources_fold [] best = refl
  sources_fold (s ∷ sources) best =
      ap (match_sources query_text sources) (aliases_fold s s.aliases best)
      ∙ sources_fold sources _
      ∙ sym (fold_matches-append (pairs_of_source s s.aliases) (pairs_of sources) best)

  Member-snoc : (m p : Match) (ps : List Match) → Member m ps → Member m (ps ++ p ∷ [])
  Member-snoc m p [] h = absurd h
  Member-snoc m p (q ∷ ps) (inl e) = inl e
  Member-snoc m p (q ∷ ps) (inr h) = inr (Member-snoc m p ps h)

  Member-last : (p : Match) (ps : List Match) → Member p (ps ++ p ∷ [])
  Member-last p [] = inl refl
  Member-last p (q ∷ ps) = inr (Member-last p ps)

  pass_over :
      (seen : List Match) (p : Match) (best : Option Match)
      → is_match query_text p ≡ false
      → BestOf query_text seen best
      → BestOf query_text (seen ++ p ∷ []) best
  unfolding BestOf
  pass_over seen p none e h =
      All-append (λ q. is_match query_text q ≡ false) seen (p ∷ []) h (e, tt)
  pass_over seen p (some m) e (there, matches, longest) = (
    Member-snoc m p seen there,
    matches,
    All-append (λ q. no_longer query_text m q ≡ true) seen (p ∷ []) longest (ground (arith, e), tt),
  )

  -- A pair that matches becomes the best where it is longer than those before.
  becomes_best :
      (seen : List Match) (p : Match)
      → is_match query_text p ≡ true
      → All (λ q. no_longer query_text p q ≡ true) seen
      → BestOf query_text (seen ++ p ∷ []) (some p)
  unfolding BestOf
  becomes_best seen p e h = (
    Member-last p seen,
    e,
    All-append (λ q. no_longer query_text p q ≡ true) seen (p ∷ []) h (ground arith, tt),
  )

  stays_best :
      (seen : List Match) (p m : Match)
      → ltb (length m.1) (length p.1) ≡ false
      → BestOf query_text seen (some m)
      → BestOf query_text (seen ++ p ∷ []) (some m)
  unfolding BestOf
  stays_best seen p m e (there, matches, longest) = (
    Member-snoc m p seen there,
    matches,
    All-append (λ q. no_longer query_text m q ≡ true) seen (p ∷ []) longest (ground (arith, e), tt),
  )

  matched-BestOf :
      (seen : List Match) (p : Match) (best : Option Match)
      → is_match query_text p ≡ true
      → BestOf query_text seen best
      → BestOf query_text (seen ++ p ∷ []) (elim best [
        | none ↦ some p
        | some m ↦ if ltb (length m.1) (length p.1) then some p else some m
      ])
  unfolding BestOf
  matched-BestOf seen p none e h = becomes_best seen p e (
      All-map (λ q. is_match query_text q ≡ false) (λ q. no_longer query_text p q ≡ true) seen
        (λ q f. ground (arith, f)) h)
  matched-BestOf seen p (some m) e (there, matches, longest) =
      elim (Bool-cases (ltb (length m.1) (length p.1))) [
        | inl longer ↦ rw longer (
            becomes_best seen p e (
              All-map (λ q. no_longer query_text m q ≡ true) (λ q. no_longer query_text p q ≡ true)
                seen (λ q f. ground (arith, f, longer)) longest))
        | inr shorter ↦ rw shorter (stays_best seen p m shorter (there, matches, longest))
      ]

  better-BestOf :
      (seen : List Match) (p : Match) (best : Option Match)
      → BestOf query_text seen best
      → BestOf query_text (seen ++ p ∷ []) (better_match query_text p.0 p.1 best)
  unfolding better_match
  better-BestOf seen p best h = elim (Bool-cases (is_match query_text p)) [
    | inr e ↦ rw (e, better_match) (pass_over seen p best e h)
    | inl e ↦ rw (e, better_match) (matched-BestOf seen p best e h)
  ]

  fold-BestOf :
      (seen ps : List Match) (best : Option Match)
      → BestOf query_text seen best
      → BestOf query_text (seen ++ ps) (fold_matches ps best)
  unfolding fold_matches
  fold-BestOf seen [] best h = rw (append-nil seen) h
  fold-BestOf seen (p ∷ ps) best h =
      subst (λ l. BestOf query_text l (fold_matches ps (better_match query_text p.0 p.1 best)))
        (append_assoc seen (p ∷ []) ps)
        (fold-BestOf (seen ++ p ∷ []) ps _ (better-BestOf seen p best h))

  -- `match_source` gives a source that is configured with an alias of it that the query starts
  -- with, as a word, and no alias of any source that does so is longer; it gives none exactly
  -- where there is no such alias.
  pub match_source-BestOf :
      (sources : List CanonicalSourceConfig)
      → BestOf query_text (pairs_of sources) (match_source sources query_text)
  unfolding match_source BestOf
  match_source-BestOf sources =
      rw (sources_fold sources none) (fold-BestOf [] (pairs_of sources) none tt)
