-- ===== src/Kernel/Snippet.antt =====
-- packages/kernel/src/web_search_kernel/snippet.py: the excerpt of a text around the terms of a
-- query. `same` says which characters `re.IGNORECASE` takes for equal. The pattern of a list of
-- escaped terms matches, at a place, the first of them that stands there.
pub mod Matches
pub mod Marks
pub mod Lengths
use web_search.Prelude.{
  ℕ, zero, suc, ◌+◌, ◌-◌, ◌*◌, ◌/◌, ◌%◌, ◌^◌, ◌≤◌, ◌<◌, min, max, ◌≡◌, refl, sym, ap, ◌∙◌, ◌≢◌, ◌↔◌,
  ◌⊎◌, inl, inr, Bool, true, false, not, ◌&&◌, ◌||◌, Option, none, some, List, [], ◌∷◌, ◌++◌, map,
  reverse, Perm, Sublist, append-nil, append_assoc, arith, ltb, leb, nat_beq, if◌then◌else◌, ltb→lt,
  lt→ltb, leb→le, nat_beq_iff, Bool-cases, Option-cases, Bool-eq_of_iff, length, take, drop, any,
  all, keep, is_empty, length-append, length-take, take-append-drop, length-keep-le, any-append,
  keep-append, All, Any, Member, HasEq, ◌==◌, nat_eq, list_eq, list_beq, list_beq_iff, beq_refl,
  contains, contains_iff, update, occurrences, capped, occurrences-capped, capped-sublist,
  WithinQuota, take-capped-WithinQuota, sort_by, Sorted, sort_by-perm, sort_by-All, sort_by-Sorted,
  Text, codes, starts_with, ends_with, occurs_in, split, join, strip, lstrip, rstrip, is_space,
  from_last, ascii_lower, starts_with_iff, ends_with_iff, split-ne_nil, join-split, split-append,
  any-congr, any-or, any-false, keep-congr, keep-All, All-keep, All-append, any_iff, Any-map,
  All-map, All-of, beq_sym, text_leb, text_leb_total, text_leb_trans, unique, if_true, if_false,
  Tracks, Tracks-skip, Tracks-take, All-take, keep-All_of, keep_of_All, All-Member, capped-All,
  keep-All_both, All-members, some_pair, decimal, Sorted-eq_of_perm, keep-perm, text_leb_antisymm,
  text_leb_refl, sort_by-All_inv, All-split, contains-sort_by, ◌>>=◌, sort_by_of_Sorted,
  sort_by-Falling, Falling, sort_by-flag, if_cases, contains-append, contains-keep, pair_eq,
  pair_beq, pair_beq_iff, some_injective,
}

pub record Snippet : Type 0 where
  pub text : Text
  pub plain_text : Text

-- The pattern for the end of a sentence, and the space.
abbrev pub is_boundary : ℕ → Bool
is_boundary c = nat_beq c 12290 || nat_beq c 65281 || nat_beq c 65311 || nat_beq c 10

abbrev pub is_blank : ℕ → Bool
is_blank c = nat_beq c b' '

-- `text[lo:hi]`
abbrev pub slice : ℕ → ℕ → Text → Text
slice lo hi text = drop lo (take hi text)

-- Where the first character of a kind stands.
unfoldable pub first_index : (ℕ → Bool) → Text → Option ℕ
first_index p [] = none
first_index p (c ∷ s) =
    let rest = first_index p s in if p c then some 0 else rest >>= λ i. some (i + 1)

-- Where the last one stands.
unfoldable pub last_index : (ℕ → Bool) → Text → Option ℕ
last_index p [] = none
last_index p (c ∷ s) = elim (last_index p s) [
  | some i ↦ some (i + 1)
  | none ↦ if p c then some 0 else none
]

-- `_snap_to_boundary`, with the default of `search_range`
unfoldable pub snap_to_boundary : Text → ℕ → ℕ
unfolding first_index last_index
snap_to_boundary text pos =
    let lo = pos - 30 in
    let hi = min (length text) (pos + 30) in
    elim (first_index is_boundary (slice lo hi text)) [
      | some i ↦ lo + (i + 1)
      | none ↦ elim (last_index is_blank (slice lo hi text)) [ some i ↦ lo + i + 1 | none ↦ pos ]
    ]

-- The first index of `text.find(" ", snippet_end - 20, …)`: a negative one counts from the end.
unfoldable pub find_from : Text → ℕ → ℕ
find_from text snippet_end =
    if leb 20 snippet_end then snippet_end - 20 else length text - (20 - snippet_end)

-- The end of the snippet, where the text goes on behind it.
unfoldable pub snap_end : Text → (snippet_start snippet_end : ℕ) → ℕ
unfolding first_index find_from
snap_end text snippet_start snippet_end =
    let lo = max snippet_start (snippet_end - 30) in
    let hi = min (length text) (snippet_end + 30) in
    let from = find_from text snippet_end in
    elim (first_index is_boundary (slice lo hi text)) [
      | some i ↦ lo + (i + 1)
      | none ↦ elim (first_index is_blank (slice from (snippet_end + 20) text)) [
        | some i ↦ from + i
        | none ↦ snippet_end
      ]
    ]

-- `html.escape`
unfoldable pub escape_char : ℕ → Text
escape_char c =
    if nat_beq c b'&'
    then codes "&amp;"
    else if nat_beq c b'<'
    then codes "&lt;"
    else if nat_beq c b'>'
    then codes "&gt;"
    else if nat_beq c b'"'
    then codes "&quot;"
    else if nat_beq c b'\''
    then codes "&#x27;"
    else c ∷ []

unfoldable pub escape : Text → Text
unfolding escape_char
escape [] = []
escape (c ∷ s) = escape_char c ++ escape s

-- The parts, joined, with every other one marked.
unfoldable pub mark_parts : (is_match : Bool) → List Text → Text
unfolding escape
mark_parts is_match [] = []
mark_parts is_match (part ∷ parts) =
    let rest = mark_parts (not is_match) parts in
    if is_match
    then codes "<mark>" ++ (escape part ++ (codes "</mark>" ++ rest))
    else escape part ++ rest

-- Where a reader of the text stands: in a plain part, or in a match with so many characters to go.
pub data Reading : Type 0 where
  outside : Text → Reading
  inside : Text → ℕ → Reading

module _ (same : ℕ → ℕ → Bool) where
  unfoldable pub stands_here : Text → Text → Bool
  stands_here [] text = true
  stands_here (t ∷ term) [] = false
  stands_here (t ∷ term) (c ∷ text) = same t c && stands_here term text

  -- How long the match of the pattern is that begins here.
  unfoldable pub match_length : List Text → Text → Option ℕ
  unfolding stands_here
  match_length [] text = none
  match_length (term ∷ terms) text =
      let rest = match_length terms text in
      if stands_here term text then some (length term) else rest

  -- `re.search(term, text)`
  unfoldable pub search_term : Text → Text → Bool
  unfolding stands_here
  search_term term [] = stands_here term []
  search_term term (c ∷ text) = stands_here term (c ∷ text) || search_term term text

  -- `pattern.finditer(text)`: where the matches begin; `busy` characters belong to the last one.
  unfoldable pub match_starts : List Text → (pos busy : ℕ) → Text → List ℕ
  unfolding match_length
  match_starts terms pos busy [] = []
  match_starts terms pos (suc busy) (c ∷ text) = match_starts terms (pos + 1) busy text
  match_starts terms pos zero (c ∷ text) =
      let from = λ (busy : ℕ). match_starts terms (pos + 1) busy text in
      elim (match_length terms (c ∷ text)) [ none ↦ from 0 | some n ↦ pos ∷ from (n - 1) ]

  -- `pattern.split(text)`: a part that does not match, a match, and so on in turn.
  unfoldable pub split_parts : List Text → Reading → Text → List Text
  unfolding match_length
  split_parts terms (outside part) [] = part ∷ []
  split_parts terms (inside part left) [] = part ∷ [] ∷ []
  split_parts terms (inside part left) (c ∷ text) =
      let ended = split_parts terms (outside []) text in
      let longer = split_parts terms (inside (part ++ c ∷ []) (left - 1)) text in
      if leb left 1 then (part ++ c ∷ []) ∷ ended else longer
  split_parts terms (outside part) (c ∷ text) =
      let longer = split_parts terms (outside (part ++ c ∷ [])) text in
      let ended = split_parts terms (outside []) text in
      let begun = λ (left : ℕ). split_parts terms (inside (c ∷ []) left) text in
      elim (match_length terms (c ∷ text)) [
        | none ↦ longer
        | some n ↦ if leb n 1 then part ∷ (c ∷ []) ∷ ended else part ∷ begun (n - 1)
      ]

  -- `sum(1 for t in escaped_terms if re.search(t, window_text, re.IGNORECASE))`
  unfoldable pub distinct_terms : List Text → Text → ℕ
  unfolding search_term
  distinct_terms terms window = length (keep (λ t. search_term t window) terms)

  -- The loop over the matches, with `best_start` and `best_score` as its variables.
  unfoldable pub best_loop : Text → List Text → (half_window : ℕ) → List ℕ → ℕ → ℕ → ℕ
  unfolding distinct_terms
  best_loop text terms half_window [] best_start best_score = best_start
  best_loop text terms half_window (center ∷ matches) best_start best_score =
      let w_start = center - half_window in
      let w_end = min (length text) (center + half_window) in
      let distinct = distinct_terms terms (slice w_start w_end text) in
      let better = best_loop text terms half_window matches w_start distinct in
      let same_best = best_loop text terms half_window matches best_start best_score in
      if ltb best_score distinct then better else same_best

  -- `text[:window_size] + "..." if len(text) > window_size else text`
  unfoldable pub cut_start : Text → ℕ → Text
  cut_start text window_size =
      if ltb window_size (length text) then take window_size text ++ codes "..." else text

  -- The snippet between two places, with the signs that something is left out.
  unfoldable pub cut_between : Text → (snippet_start snippet_end : ℕ) → Text
  cut_between text snippet_start snippet_end =
      let middle = strip (slice snippet_start snippet_end text) in
      let before = if ltb 0 snippet_start then codes "..." ++ middle else middle in
      if ltb snippet_end (length text) then before ++ codes "..." else before

  -- The window around the first matches, moved to the bounds of sentences or words.
  unfoldable pub cut_window : Text → List Text → ℕ → (first : ℕ) → List ℕ → Text
  unfolding best_loop snap_to_boundary snap_end cut_between
  cut_window text terms window_size first matches =
      let best = best_loop text terms (window_size / 2) (first ∷ matches) first 0 in
      let end = min (length text) (best + window_size) in
      let snippet_start = if ltb 0 best then snap_to_boundary text best else best in
      let snippet_end = if ltb end (length text) then snap_end text snippet_start end else end in
      cut_between text snippet_start snippet_end

  abbrev pub cut_snippet : Text → ℕ → Snippet
  cut_snippet text window_size =
      let plain = cut_start text window_size in record { text = plain; plain_text = plain }

  -- From the first match on.
  unfoldable pub window_snippet :
      Text → List Text → (window_size : ℕ) → (highlight : Bool) → (first : ℕ) → List ℕ → Snippet
  unfolding cut_window split_parts mark_parts
  window_snippet text terms window_size highlight first matches =
      let plain = cut_window text terms window_size first matches in
      if highlight
      then record {
        text = mark_parts false (split_parts terms (outside []) plain);
        plain_text = plain;
      }
      else record { text = plain; plain_text = plain }

  unfoldable pub generate_snippet :
      Text → List Text → (window_size : ℕ) → (highlight : Bool) → Snippet
  unfolding cut_start match_starts window_snippet
  generate_snippet [] terms window_size highlight = record { text = []; plain_text = [] }
  generate_snippet (c ∷ text) terms window_size highlight =
      let escaped_terms = keep (λ t. not (is_empty (strip t))) terms in
      let cut = cut_snippet (c ∷ text) window_size in
      if is_empty escaped_terms then cut else elim (match_starts escaped_terms 0 0 (c ∷ text)) [
        | [] ↦ cut
        | first ∷ matches ↦
            window_snippet (c ∷ text) escaped_terms window_size highlight first matches
      ]
