-- ===== src/Frontend/Ranking.antt =====
-- apps/frontend/src/web_search_frontend/services/search_ranking_policy.py: which policy a query
-- gets. `lower` is `str.lower`; the configured sources, read from a file by
-- packages/search-config, are a parameter. Of `PreparedSearchQuery` the fields that are read.
pub mod Classify
pub mod Terms
pub mod Signals
pub mod Windows
pub mod Rerank
use web_search.Prelude.{
  ℕ, zero, suc, ◌+◌, ◌-◌, ◌*◌, ◌/◌, ◌%◌, ◌^◌, ◌≤◌, ◌<◌, min, max, ◌≡◌, refl, sym, ap, ◌∙◌, ◌≢◌, ◌↔◌,
  ◌⊎◌, inl, inr, Bool, true, false, not, ◌&&◌, ◌||◌, Option, none, some, List, [], ◌∷◌, ◌++◌, map,
  reverse, Perm, Sublist, append-nil, append_assoc, arith, ltb, leb, nat_beq, if◌then◌else◌, ltb→lt,
  lt→ltb, leb→le, nat_beq_iff, Bool-cases, Option-cases, Bool-eq_of_iff, length, take, drop, any,
  all, keep, is_empty, length-append, length-take, take-append-drop, length-keep-le, any-append,
  keep-append, All, Any, Member, HasEq, ◌==◌, nat_eq, list_eq, list_beq, list_beq_iff, beq_refl,
  contains, contains_iff, update, occurrences, capped, occurrences-capped, capped-sublist,
  WithinQuota, take-capped-WithinQuota, sort_by, Sorted, sort_by-perm, sort_by-All, sort_by-Sorted,
  Text, codes, starts_with, ends_with, occurs_in, split, join, strip, lstrip, rstrip, is_space,
  from_last, ascii_lower, starts_with_iff, ends_with_iff, split-ne_nil, join-split, split-append,
  any-congr, any-or, any-false, keep-congr, keep-All, All-keep, All-append, any_iff, Any-map,
  All-map, All-of, beq_sym, text_leb, text_leb_total, text_leb_trans, unique, if_true, if_false,
  Tracks, Tracks-skip, Tracks-take, All-take, keep-All_of, keep_of_All, All-Member, capped-All,
  keep-All_both, All-members, some_pair, decimal, Sorted-eq_of_perm, keep-perm, text_leb_antisymm,
  text_leb_refl, sort_by-All_inv, All-split, contains-sort_by, ◌>>=◌,
}

pub data QueryClass : Type 0 where
  navigational reference news comparison other : QueryClass

-- What is read of `CanonicalSourceConfig`
-- (packages/search-config/src/web_search_search_config/canonical_sources.py).
pub record CanonicalSourceConfig : Type 0 where
  pub aliases : List Text
  pub domains : List Text
  pub preferred_paths : List Text
  pub news_paths : List Text
  pub default_class : QueryClass
  pub candidate_window : ℕ
  pub restrict_to_source : Bool

pub record PreparedSearchQuery : Type 0 where
  pub site_filter : Option Text
  pub positive_query : Text

-- `ComparisonIntent.subjects`
abbrev pub ComparisonIntent : Type 0
ComparisonIntent = Text × Text

pub record SearchRankingPolicy : Type 0 where
  pub query_class : QueryClass
  pub source : Option CanonicalSourceConfig
  pub intent_terms : List Text
  pub demote_recruiting : Bool
  pub restrict_to_source : Bool
  pub comparison_intent : Option ComparisonIntent

abbrev pub navigational_suffixes : List Text
navigational_suffixes =
    codes "api" ∷ codes "docs" ∷ codes "documentation" ∷ codes "homepage" ∷ codes "official" ∷ []

abbrev pub other_query_markers : List Text
other_query_markers =
    codes "compare" ∷ codes "comparison" ∷ codes "how" ∷ codes "vs" ∷ codes "what" ∷ []

abbrev pub news_query_markers : List Text
news_query_markers = codes "news" ∷ []

abbrev pub intent_stop_terms : List Text
intent_stop_terms =
    codes "doc" ∷ codes "docs" ∷ codes "documentation" ∷ codes "homepage" ∷ codes "official" ∷ []

abbrev pub recruiting_query_terms : List Text
recruiting_query_terms =
    codes "job"
    ∷ codes "jobs"
    ∷ codes "career"
    ∷ codes "careers"
    ∷ codes "hiring"
    ∷ codes "recruiting"
    ∷ codes "recruitment"
    ∷ []

abbrev flush : Text → List Text → List Text
flush [] rest = rest
flush (c ∷ run) rest = (c ∷ run) ∷ rest

-- The longest runs of characters that pass a test; `run` is the one that is being read.
abbrev pub runs_from : (ℕ → Bool) → Text → Text → List Text
runs_from p run [] = flush run []
runs_from p run (c ∷ s) =
    let longer = runs_from p (run ++ c ∷ []) s in
    let rest = runs_from p [] s in if p c then longer else flush run rest

-- `[a-z0-9]`
abbrev pub is_token_char : ℕ → Bool
is_token_char c = leb b'a' c && leb c b'z' || leb b'0' c && leb c b'9'

-- `s.split()`
abbrev pub words : Text → List Text
words s = runs_from (λ c. not (is_space c)) [] s

-- `\s+` at the start: what is behind it.
abbrev pub behind_space : Text → Option Text
behind_space [] = none
behind_space (c ∷ s) = if is_space c then some (lstrip is_space s) else none

-- A word at the start: what is behind it.
abbrev pub behind_word : Text → Text → Option Text
behind_word w s = if starts_with w s then some (drop (length w) s) else none

-- `\s+(?:vs|versus)\s+` at the start: what is behind it.
abbrev pub behind_versus : Text → Option Text
behind_versus s = elim (behind_space s) [
  | none ↦ none
  | some word ↦ elim (behind_word (codes "vs") word >>= behind_space) [
    | some right ↦ some right
    | none ↦ behind_word (codes "versus") word >>= behind_space
  ]
]

-- `_COMPARISON_SPLIT_RE.split(text, maxsplit=1)`, where it finds a place to split.
unfoldable pub split_comparison : Text → Option (Text × Text)
split_comparison [] = none
split_comparison (c ∷ s) =
    let rest = split_comparison s in
    elim (behind_versus (c ∷ s)) [
      | some right ↦ some ([], right)
      | none ↦ elim rest [ none ↦ none | some (left, right) ↦ some (c ∷ left, right) ]
    ]

unfoldable pub extract_comparison_intent : Text → Option ComparisonIntent
unfolding split_comparison
extract_comparison_intent query_text = elim (split_comparison query_text) [
  | none ↦ none
  | some (first, second) ↦
      let left = strip first in
      let right = strip second in
      if is_empty left || is_empty right || list_beq left right then none else some (left, right)
]

-- `_query_tokens`
abbrev pub query_tokens : (lower : Text → Text) → Text → List Text
query_tokens lower query = runs_from is_token_char [] (lower query)
