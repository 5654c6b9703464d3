-- ===== src/Prelude/Strings.antt =====
-- Texts as lists of code points, and the methods of Python's `str` that the program calls.
use Prim.Native.Nat.{ℕ, zero, suc, ◌%◌, ◌/◌, ◌+◌}
use Prim.Native.Char.{code}
use Prim.Native.String.{String}
use mathlib.Core.Path.{◌≡◌, refl, sym, ap, ◌∙◌}
use mathlib.Core.Logic.{◌≢◌, ◌↔◌, inl, inr}
use mathlib.Core.Bool.{Bool, true, false, ◌&&◌, ◌||◌}
use mathlib.Core.Option.{Option, none, some}
use mathlib.Core.List.{List, [], ◌∷◌, ◌++◌, map, reverse}
use native.Mathlib.Omega.{arith}
use web_search.Prelude.Tests.{leb, nat_beq, nat_beq_iff, Bool-cases, if◌then◌else◌, ltb}
use web_search.Prelude.Lists.{is_empty, All}
use web_search.Prelude.Equality.{list_beq, list_beq_iff, beq_refl, nat_eq, list_eq, contains}

abbrev pub Text : Type 0
Text = List ℕ

-- The code points of a literal.
abbrev pub codes : String → Text
codes String.[] = []
codes (String.◌∷◌ c s) = code c ∷ codes s

-- `s.startswith(p)`
abbrev pub starts_with : Text → Text → Bool
starts_with [] s = true
starts_with (c ∷ p) [] = false
starts_with (c ∷ p) (d ∷ s) = nat_beq c d && starts_with p s

-- `s.endswith(p)`
abbrev pub ends_with : Text → Text → Bool
ends_with p [] = is_empty p
ends_with p (d ∷ s) = list_beq p (d ∷ s) || ends_with p s

-- `p in s`
abbrev pub occurs_in : Text → Text → Bool
occurs_in p [] = is_empty p
occurs_in p (d ∷ s) = starts_with p (d ∷ s) || occurs_in p s

abbrev prepend : ℕ → List Text → List Text
prepend c [] = (c ∷ []) ∷ []
prepend c (p ∷ ps) = (c ∷ p) ∷ ps

-- `s.split(sep)` for a separator of one character
abbrev pub split : ℕ → Text → List Text
split sep [] = [] ∷ []
split sep (c ∷ s) =
    let rest = split sep s in elim (nat_beq c sep) [ true ↦ [] ∷ rest | false ↦ prepend c rest ]

-- `sep.join(parts)` for a separator of one character
abbrev pub join : ℕ → List Text → Text
join sep [] = []
join sep (p ∷ []) = p
join sep (p ∷ q ∷ ps) = p ++ (sep ∷ join sep (q ∷ ps))

-- `str.isspace` of one character
abbrev pub is_space : ℕ → Bool
is_space c =
    leb 9 c && leb c 13
    || leb 28 c && leb c 32
    || nat_beq c 0x85
    || nat_beq c 0xa0
    || nat_beq c 0x1680
    || leb 0x2000 c && leb c 0x200a
    || leb 0x2028 c && leb c 0x2029
    || nat_beq c 0x202f
    || nat_beq c 0x205f
    || nat_beq c 0x3000

abbrev pub lstrip : (ℕ → Bool) → Text → Text
lstrip p [] = []
lstrip p (c ∷ s) = let rest = lstrip p s in elim (p c) [ true ↦ rest | false ↦ c ∷ s ]

-- `s.rstrip(…)` by a test on characters
abbrev pub rstrip : (ℕ → Bool) → Text → Text
rstrip p s = reverse (lstrip p (reverse s))

-- `s.strip()`
abbrev pub strip : Text → Text
strip s = rstrip is_space (lstrip is_space s)

-- The suffix of a text from the last occurrence of a character: `s[s.rfind(c):]`, if any.
abbrev pub from_last : ℕ → Text → Option Text
from_last c [] = none
from_last c (d ∷ s) = elim (from_last c s) [
  | some t ↦ some t
  | none ↦ if nat_beq d c then some (d ∷ s) else none
]

-- `str.lower` on ASCII text
abbrev pub ascii_lower : Text → Text
ascii_lower = map (λ c. if leb b'A' c && leb c b'Z' then c + 32 else c)

pub starts_with_iff : (p s : Text) → (starts_with p s ≡ true) ↔ ((r : Text) × (s ≡ p ++ r))
starts_with_iff p s = (sound p s, λ (r, e). rw e (complete p r))
  where
    sound : (p s : Text) → starts_with p s ≡ true → (r : Text) × (s ≡ p ++ r)
    sound [] s h = (s, refl)
    sound (c ∷ p) [] h = ground arith
    sound (c ∷ p) (d ∷ s) h = let (r, e) = sound p s (ground arith) in (r, ground arith)

    complete : (p r : Text) → starts_with p (p ++ r) ≡ true
    complete [] r = refl
    complete (c ∷ p) r = ground (arith, complete p r)

ends_with_sound : (p s : Text) → ends_with p s ≡ true → (r : Text) × (s ≡ r ++ p)
ends_with_sound [] [] h = ([], refl)
ends_with_sound (c ∷ p) [] h = ground arith
ends_with_sound p (d ∷ s) h = elim (Bool-cases (list_beq p (d ∷ s))) [
  | inl e ↦ ([], sym ((list_beq_iff p (d ∷ s)).0 e))
  | inr e ↦ let (r, same) = ends_with_sound p s (ground arith) in (d ∷ r, ap (◌∷◌ d) same)
]

ends_with_complete : (p r : Text) → ends_with p (r ++ p) ≡ true
ends_with_complete [] [] = refl
ends_with_complete (c ∷ p) [] = ground (arith, beq_refl {A = Text} (c ∷ p))
ends_with_complete p (d ∷ r) = ground (arith, ends_with_complete p r)

-- `endswith` finds exactly the suffixes.
pub ends_with_iff : (p s : Text) → (ends_with p s ≡ true) ↔ ((r : Text) × (s ≡ r ++ p))
ends_with_iff p s = (ends_with_sound p s, λ (r, e). rw e (ends_with_complete p r))

pub split-ne_nil : (sep : ℕ) (s : Text) → (p : Text) × (ps : List Text) × (split sep s ≡ p ∷ ps)
split-ne_nil sep [] = ([], [], refl)
split-ne_nil sep (c ∷ s) =
    let (p, ps, e) = split-ne_nil sep s in
    elim (Bool-cases (nat_beq c sep)) [
      | inl t ↦ ([], split sep s, rw (t, split))
      | inr t ↦ (c ∷ p, ps, rw (t, e, split))
    ]

join-prepend :
    (sep c : ℕ) (p : Text) (ps : List Text) → join sep (prepend c (p ∷ ps)) ≡ c ∷ join sep (p ∷ ps)
join-prepend sep c p [] = refl
join-prepend sep c p (q ∷ ps) = refl

-- Joining what `split` gives is the text itself.
pub join-split : (sep : ℕ) (s : Text) → join sep (split sep s) ≡ s
join-split sep [] = refl
join-split sep (c ∷ s) =
    let (p, ps, e) = split-ne_nil sep s in
    let whole : join sep (p ∷ ps) ≡ s = rw (← e) (join-split sep s) in
    elim (Bool-cases (nat_beq c sep)) [
      | inl t ↦ ground (arith, nat_beq_iff c sep, ap (◌∷◌ sep) whole)
      | inr t ↦ rw (t, e, split) (join-prepend sep c p ps ∙ ap (◌∷◌ c) whole)
    ]

-- A part without the separator, put in front.
pub split-append :
    (sep : ℕ) (p s : Text) → All (λ c. c ≢ sep) p → split sep (p ++ (sep ∷ s)) ≡ p ∷ split sep s
split-append sep [] s h = ground arith
split-append sep (c ∷ p) s (ne, h) = ground (arith, nat_beq_iff c sep, split-append sep p s h)

-- `s <= t` on texts: by code points.
abbrev pub text_leb : Text → Text → Bool
text_leb [] t = true
text_leb (c ∷ s) [] = false
text_leb (c ∷ s) (d ∷ t) = ltb c d || nat_beq c d && text_leb s t

pub text_leb_total : (s t : Text) → text_leb s t ≡ false → text_leb t s ≡ true
text_leb_total [] t h = ground arith
text_leb_total (c ∷ s) [] h = refl
text_leb_total (c ∷ s) (d ∷ t) h = ground (arith, text_leb_total s t)

pub text_leb_trans :
    (s t u : Text) → text_leb s t ≡ true → text_leb t u ≡ true → text_leb s u ≡ true
text_leb_trans [] t u h k = refl
text_leb_trans (c ∷ s) [] u h k = ground arith
text_leb_trans (c ∷ s) (d ∷ t) [] h k = ground arith
text_leb_trans (c ∷ s) (d ∷ t) (e ∷ u) h k = ground (arith, text_leb_trans s t u)

-- The members of a list without repetition, `set(l)`.
abbrev pub unique : List Text → List Text
unique [] = []
unique (s ∷ l) = let rest = unique l in elim (contains s l) [ true ↦ rest | false ↦ s ∷ rest ]

-- `str(n)` for a natural number.
decimal_from : ℕ → ℕ → Text → Text
decimal_from zero n acc = acc
decimal_from (suc fuel) n acc =
    let digit = (b'0' + n % 10) ∷ acc in
    let more = decimal_from fuel (n / 10) digit in if ltb n 10 then digit else more

unfoldable pub decimal : ℕ → Text
unfolding decimal_from
decimal n = decimal_from (n + 1) n []

pub text_leb_refl : (s : Text) → text_leb s s ≡ true
text_leb_refl [] = refl
text_leb_refl (c ∷ s) = ground (arith, text_leb_refl s)

pub text_leb_antisymm : (s t : Text) → text_leb s t ≡ true → text_leb t s ≡ true → s ≡ t
text_leb_antisymm [] [] h k = refl
text_leb_antisymm [] (d ∷ t) h k = ground arith
text_leb_antisymm (c ∷ s) [] h k = ground arith
text_leb_antisymm (c ∷ s) (d ∷ t) h k = ground (arith, text_leb_antisymm s t)
