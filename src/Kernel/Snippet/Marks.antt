-- ===== src/Kernel/Snippet/Marks.antt =====
-- What a browser shows of a marked snippet.
use web_search.Prelude.{
  ℕ, ◌≡◌, refl, sym, ap, ◌∙◌, Bool, true, false, not, List, [], ◌∷◌, ◌++◌, append_assoc, arith,
  nat_beq, if◌then◌else◌, nat_beq_iff, any, keep, is_empty, nat_eq, list_eq, list_beq, Text, codes,
  strip, keep-All_of, if_cases, pair_eq,
}
use web_search.Kernel.Snippet.Matches.{joined, match_starts-any, split_parts-joined}
use web_search.Kernel.Snippet.{
  Snippet, Reading.outside, search_term, match_starts, split_parts, escape_char, escape, mark_parts,
  generate_snippet, cut_snippet, window_snippet,
}

-- Where the browser reads: in text, in a tag, or in the name of a character.
pub data Reader : Type 0 where
  in_text in_tag : Reader
  in_name : Text → Reader

-- The characters with the names that `html.escape` writes.
abbrev pub named : Text → Text
named name =
    if list_beq name (codes "amp")
    then b'&' ∷ []
    else if list_beq name (codes "lt")
    then b'<' ∷ []
    else if list_beq name (codes "gt")
    then b'>' ∷ []
    else if list_beq name (codes "quot")
    then b'"' ∷ []
    else if list_beq name (codes "#x27")
    then b'\'' ∷ []
    else []

-- What is shown of a text: tags are not, and a name stands for its character.
unfoldable pub shown_from : Reader → Text → Text
shown_from reader [] = []
shown_from in_tag (c ∷ s) = elim (nat_beq c b'>') [
  | true ↦ shown_from in_text s
  | false ↦ shown_from in_tag s
]
shown_from (in_name name) (c ∷ s) = elim (nat_beq c b';') [
  | true ↦ named name ++ shown_from in_text s
  | false ↦ shown_from (in_name (name ++ c ∷ [])) s
]
shown_from in_text (c ∷ s) = elim (nat_beq c b'<') [
  | true ↦ shown_from in_tag s
  | false ↦ elim (nat_beq c b'&') [
    | true ↦ shown_from (in_name []) s
    | false ↦ c ∷ shown_from in_text s
  ]
]

unfoldable pub shown : Text → Text
unfolding shown_from
shown text = shown_from in_text text

escape_char-shown : (c : ℕ) (rest : Text) → shown (escape_char c ++ rest) ≡ c ∷ shown rest
unfolding shown escape_char shown_from
escape_char-shown c rest =
    let P = λ (x : Text). shown (x ++ rest) ≡ c ∷ shown rest in
    let is =
      λ (d : ℕ) (e : nat_beq c d ≡ true). ap (λ x. x ∷ shown rest) (sym ((nat_beq_iff c d).0 e)) in
    if_cases P (nat_beq c b'&') (is b'&') (λ amp. if_cases P (nat_beq c b'<') (is b'<') (λ lt.
      if_cases P (nat_beq c b'>') (is b'>') (λ gt. if_cases P (nat_beq c b'"') (is b'"') (λ quot.
        if_cases P (nat_beq c b'\'') (is b'\'')
          (λ apos. rw (lt, shown, shown_from) (rw (amp) refl))))))

escape-shown : (s rest : Text) → shown (escape s ++ rest) ≡ s ++ shown rest
unfolding escape
escape-shown [] rest = refl
escape-shown (c ∷ s) rest =
    ap shown (append_assoc (escape_char c) (escape s) rest)
    ∙ escape_char-shown c (escape s ++ rest)
    ∙ ap (◌∷◌ c) (escape-shown s rest)

open_mark : (rest : Text) → shown (codes "<mark>" ++ rest) ≡ shown rest
unfolding shown shown_from
open_mark rest = refl

close_mark : (rest : Text) → shown (codes "</mark>" ++ rest) ≡ shown rest
unfolding shown shown_from
close_mark rest = refl

mark_parts-shown :
    (is_match : Bool) (parts : List Text) → shown (mark_parts is_match parts) ≡ joined parts
unfolding mark_parts shown shown_from
mark_parts-shown is_match [] = refl
mark_parts-shown true (part ∷ parts) =
    let rest = mark_parts false parts in
    open_mark (escape part ++ (codes "</mark>" ++ rest))
    ∙ escape-shown part (codes "</mark>" ++ rest)
    ∙ ap (λ r. part ++ r) (close_mark rest ∙ mark_parts-shown false parts)
mark_parts-shown false (part ∷ parts) =
    escape-shown part (mark_parts true parts) ∙ ap (λ r. part ++ r) (mark_parts-shown true parts)

-- The terms that are not blank.
abbrev pub escaped_terms : List Text → List Text
escaped_terms terms = keep (λ t. not (is_empty (strip t))) terms

filled : (t : Text) → not (is_empty (strip t)) ≡ true → is_empty t ≡ false
filled [] h = absurd (ground (arith, h))
filled (c ∷ t) h = refl

module _ (same : ℕ → ℕ → Bool) where
  -- Whether a term is found in the text.
  unfoldable pub is_found : List Text → Text → Bool
  is_found terms text = any (λ t. search_term same t text) (escaped_terms terms)

  -- What is shown of a snippet with marks is the plain snippet, where it is marked; where it is
  -- not, its text is the plain one as it is.
  pub record IsShown (found : Bool) (snippet : Snippet) : Type 0 where
    pub marked : found ≡ true → shown snippet.text ≡ snippet.plain_text
    pub unmarked : found ≡ false → snippet.text ≡ snippet.plain_text

  highlighted :
      (terms : List Text) (plain : Text)
      → shown (mark_parts false (split_parts same terms (outside []) plain)) ≡ plain
  highlighted terms plain =
      mark_parts-shown false (split_parts same terms (outside []) plain)
      ∙ split_parts-joined same terms (outside []) plain

  window_at :
      (text : Text) (terms : List Text) (window_size : ℕ) (starts : List ℕ) (found : Bool)
      → is_empty starts ≡ not found
      → IsShown found (elim starts [
        | [] ↦ cut_snippet same text window_size
        | first ∷ matches ↦ window_snippet same text terms window_size true first matches
      ])
  unfolding window_snippet
  window_at text terms window_size [] found e = record {
    marked = λ f. absurd (ground (arith, e, f));
    unmarked = λ f. refl;
  }
  window_at text terms window_size (first ∷ matches) found e = record {
    marked = λ f. highlighted terms _;
    unmarked = λ f. absurd (ground (arith, e, f));
  }

  -- With highlighting, and where a term that is not blank is found in the text, what a browser
  -- shows of the snippet's text, without its tags and with the characters that it names, is the
  -- plain snippet; where none is found the text is the plain snippet itself, so that what a
  -- browser shows of it may be something else.
  pub generate_snippet-IsShown :
      (text : Text) (terms : List Text) (window_size : ℕ)
      → IsShown (is_found terms text) (generate_snippet same text terms window_size true)
  unfolding generate_snippet is_found shown shown_from
  generate_snippet-IsShown [] terms window_size = record {
    marked = λ f. refl;
    unmarked = λ f. refl;
  }
  generate_snippet-IsShown (c ∷ text) terms window_size =
      let kept = escaped_terms terms in
      let P = IsShown (is_found terms (c ∷ text)) in
      if_cases P (is_empty kept)
        (λ e. record { marked = λ f. absurd (none_found kept e f); unmarked = λ f. refl })
        (λ e. window_at (c ∷ text) kept window_size (match_starts same kept 0 0 (c ∷ text)) _ (
          match_starts-any same kept 0 (c ∷ text)
            (keep-All_of (λ t. is_empty t ≡ false) (λ t. not (is_empty (strip t))) terms filled)))
    where
      none_found :
          (ts : List Text)
          → is_empty ts ≡ true
          → any (λ t. search_term same t (c ∷ text)) ts ≡ true
          → ⊥
      none_found [] e f = ground (arith, f)
      none_found (t ∷ ts) e f = ground (arith, e)
