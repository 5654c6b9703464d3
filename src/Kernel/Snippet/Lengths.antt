-- ===== src/Kernel/Snippet/Lengths.antt =====
-- How long a snippet is.
use web_search.Prelude.{
  ℕ, zero, suc, ◌+◌, ◌-◌, ◌/◌, ◌≤◌, ◌<◌, min, max, ◌≡◌, refl, ap, ◌∙◌, inl, inr, Bool, true, false,
  not, Option, none, some, List, [], ◌∷◌, ◌++◌, reverse, arith, ltb, if◌then◌else◌, Option-cases,
  length, take, drop, keep, is_empty, length-append, length-take, nat_eq, list_eq, Text, codes,
  strip, lstrip, is_space, if_cases, pair_eq,
}
use mathlib.Core.List.{reverse-cons}
use web_search.Kernel.Snippet.{
  Snippet, slice, is_boundary, is_blank, first_index, last_index, snap_to_boundary, find_from,
  snap_end, match_starts, best_loop, cut_start, cut_between, cut_window, cut_snippet,
  window_snippet, generate_snippet,
}

first_index-lt : (p : ℕ → Bool) (s : Text) (i : ℕ) → first_index p s ≡ some i → i < length s
unfolding first_index
first_index-lt p [] i e = absurd (ground (arith, e))
first_index-lt p (c ∷ s) i e = elim (Option-cases (first_index p s)) [
  | inl bad ↦ ground (arith, bad, e)
  | inr (j, good) ↦ ground (arith, good, e, first_index-lt p s j good)
]

length-drop : {A : Type 0} (n : ℕ) (xs : List A) → length (drop n xs) ≡ length xs - n
length-drop zero xs = omega arith
length-drop (suc n) [] = omega arith
length-drop (suc n) (x ∷ xs) = omega (arith, length-drop n xs)

length-slice-le : (lo hi : ℕ) (text : Text) → length (slice lo hi text) ≤ hi - lo
length-slice-le lo hi text = omega (arith, length-drop lo (take hi text), length-take hi text)

length-lstrip-le : (p : ℕ → Bool) (s : Text) → length (lstrip p s) ≤ length s
length-lstrip-le p [] = omega arith
length-lstrip-le p (c ∷ s) = ground (arith, length-lstrip-le p s)

length-reverse : (s : Text) → length (reverse s) ≡ length s
length-reverse [] = refl
length-reverse (c ∷ s) =
    ap length (reverse-cons c s)
    ∙ omega (arith, length-append (reverse s) (c ∷ []), length-reverse s)

length-strip-le : (s : Text) → length (strip s) ≤ length s
length-strip-le s =
    let t = lstrip is_space s in
    omega (
      arith,
      length-lstrip-le is_space s,
      length-reverse t,
      length-lstrip-le is_space (reverse t),
      length-reverse (lstrip is_space (reverse t)),
    )

-- A value of an option that is found, or the one that stands in for it.
option_cases {κ} :
    (P : ℕ → Type κ) (o : Option ℕ) (f : ℕ → ℕ) (d : ℕ)
    → ((i : ℕ) → o ≡ some i → P (f i))
    → (o ≡ none → P d)
    → P (elim o [ some i ↦ f i | none ↦ d ])
option_cases P none f d good bad = bad refl
option_cases P (some i) f d good bad = good i refl

snap_to_boundary-ge : (text : Text) (pos : ℕ) → pos - 30 ≤ snap_to_boundary text pos
unfolding snap_to_boundary
snap_to_boundary-ge text pos =
    let region = slice (pos - 30) (min (length text) (pos + 30)) text in
    option_cases (λ n. pos - 30 ≤ n) (first_index is_boundary region) _ _ (λ i e. omega arith)
      (λ e.
        option_cases (λ n. pos - 30 ≤ n) (last_index is_blank region) _ _ (λ i f. omega arith)
          (λ f. omega arith))

snap_end-le : (text : Text) (start end : ℕ) → snap_end text start end ≤ end + 30
unfolding snap_end
snap_end-le text start end =
    let lo = max start (end - 30) in
    let hi = min (length text) (end + 30) in
    let from = find_from text end in
    let P = λ (n : ℕ). n ≤ end + 30 in
    option_cases P (first_index is_boundary (slice lo hi text)) _ _
      (λ i e.
        let k = first_index-lt is_boundary (slice lo hi text) i e in
        omega (arith, k, length-slice-le lo hi text))
      (λ e.
        option_cases P (first_index is_blank (slice from (end + 20) text)) _ _
          (λ i f.
            let k = first_index-lt is_blank (slice from (end + 20) text) i f in
            omega (arith, k, length-slice-le from (end + 20) text))
          (λ f. omega arith))

module _ (same : ℕ → ℕ → Bool) where
  length-cut_start-le :
      (text : Text) (window_size : ℕ) → length (cut_start same text window_size) ≤ window_size + 3
  unfolding cut_start
  length-cut_start-le text window_size =
      let cut : length (take window_size text ++ codes "...") ≤ window_size + 3 = omega (
        arith,
        length-append (take window_size text) (codes "..."),
        length-take window_size text,
      ) in
      let whole : ltb window_size (length text) ≡ false → length text ≤ window_size + 3 =
        λ e. ground (arith, e) in
      if_cases (λ (t : Text). length t ≤ window_size + 3) (ltb window_size (length text)) (λ e. cut)
        whole

  length-cut_between-le :
      (text : Text) (start end n : ℕ)
      → end ≤ start + n
      → length (cut_between same text start end) ≤ n + 6
  unfolding cut_between
  length-cut_between-le text start end n h =
      let middle = strip (slice start end text) in
      let P = λ (t : Text). length t ≤ n + 3 in
      let short : length middle ≤ n =
        omega (arith, length-strip-le (slice start end text), length-slice-le start end text, h) in
      let with_dots : P (codes "..." ++ middle) = omega (arith, short) in
      let without : P middle = omega (arith, short) in
      let before = if ltb 0 start then codes "..." ++ middle else middle in
      let begun : P before = if_cases P (ltb 0 start) (λ e. with_dots) (λ e. without) in
      let more : length (before ++ codes "...") ≤ n + 6 =
        omega (arith, begun, length-append before (codes "...")) in
      let all_there : length before ≤ n + 6 = omega (arith, begun) in
      if_cases (λ (t : Text). length t ≤ n + 6) (ltb end (length text)) (λ e. more) (λ e. all_there)

  length-cut_window-le :
      (text : Text) (terms : List Text) (window_size first : ℕ) (matches : List ℕ)
      → length (cut_window same text terms window_size first matches) ≤ window_size + 66
  unfolding cut_window
  length-cut_window-le text terms window_size first matches =
      let best = best_loop same text terms (window_size / 2) (first ∷ matches) first 0 in
      let end = min (length text) (best + window_size) in
      let snippet_start = if ltb 0 best then snap_to_boundary text best else best in
      let snapped : best - 30 ≤ snap_to_boundary text best = snap_to_boundary-ge text best in
      let unsnapped : best - 30 ≤ best = omega arith in
      let from : best - 30 ≤ snippet_start =
        if_cases (λ n. best - 30 ≤ n) (ltb 0 best) (λ e. snapped) (λ e. unsnapped) in
      let moved : snap_end text snippet_start end ≤ best + window_size + 30 =
        omega (arith, snap_end-le text snippet_start end) in
      let unmoved : end ≤ best + window_size + 30 = omega arith in
      let snippet_end = if ltb end (length text) then snap_end text snippet_start end else end in
      let to : snippet_end ≤ best + window_size + 30 =
        if_cases (λ n. n ≤ best + window_size + 30) (ltb end (length text)) (λ e. moved)
          (λ e. unmoved) in
      let near : snippet_end ≤ snippet_start + (window_size + 60) = omega (arith, from, to) in
      let short = length-cut_between-le text snippet_start snippet_end (window_size + 60) near in
      omega (arith, short)

  -- The snippet for the places where the matches begin.
  at_starts : Text → List Text → ℕ → Bool → List ℕ → Snippet
  at_starts text terms window_size highlight [] = cut_snippet same text window_size
  at_starts text terms window_size highlight (first ∷ matches) =
      window_snippet same text terms window_size highlight first matches

  starts-le :
      (text : Text) (terms : List Text) (window_size : ℕ) (highlight : Bool) (starts : List ℕ)
      → length (at_starts text terms window_size highlight starts).plain_text ≤ window_size + 66
  unfolding window_snippet at_starts
  starts-le text terms window_size highlight [] =
      omega (arith, length-cut_start-le text window_size)
  starts-le text terms window_size true (first ∷ matches) =
      length-cut_window-le text terms window_size first matches
  starts-le text terms window_size false (first ∷ matches) =
      length-cut_window-le text terms window_size first matches

  -- The plain snippet of `generate_snippet` has at most 66 characters more than the window asks
  -- for.
  pub length-generate_snippet-le :
      (text : Text) (terms : List Text) (window_size : ℕ) (highlight : Bool)
      → length (generate_snippet same text terms window_size highlight).plain_text
        ≤ window_size + 66
  unfolding generate_snippet at_starts
  length-generate_snippet-le [] terms window_size highlight = omega arith
  length-generate_snippet-le (c ∷ text) terms window_size highlight =
      let kept = keep (λ t. not (is_empty (strip t))) terms in
      let cut : length (cut_start same (c ∷ text) window_size) ≤ window_size + 66 =
        omega (arith, length-cut_start-le (c ∷ text) window_size) in
      if_cases (λ (s : Snippet). length s.plain_text ≤ window_size + 66) (is_empty kept) (λ e. cut)
        (λ e.
          starts-le (c ∷ text) kept window_size highlight (match_starts same kept 0 0 (c ∷ text)))
