-- ===== src/Frontend/Ranking/Signals.antt =====
-- `ranking_signals_for_hit` of search_ranking_policy.py. `urlparse` and the word characters of `re`
-- are parameters; `Rank` stands for the floats.
use web_search.Prelude.{
  ℕ, suc, ◌+◌, ◌-◌, Bool, true, false, not, ◌&&◌, ◌||◌, Option, none, some, List, [], ◌∷◌, ◌++◌,
  leb, nat_beq, if◌then◌else◌, length, drop, any, keep, is_empty, nat_eq, list_eq, list_beq,
  contains, Text, codes, starts_with, ends_with, occurs_in, split,
}
use web_search.Frontend.Ranking.Terms.{
  rootish_paths, comparison_low_signal_path_terms, comparison_low_signal_title_terms,
  recruiting_host_terms, recruiting_path_terms, recruiting_title_terms,
}
use web_search.Frontend.Ranking.{
  QueryClass, news, comparison, other, CanonicalSourceConfig, ComparisonIntent, SearchRankingPolicy,
  query_tokens,
}

-- `SearchHit` of packages/kernel/src/web_search_kernel/searcher.py
pub record SearchHit (Rank : Type 0) : Type 0 where
  pub url : Text
  pub title : Text
  pub content : Text
  pub score : Rank
  pub page_rank : Option Rank
  pub domain_rank : Option Rank

-- What is read of the result of `urlparse`.
pub record ParsedUrl : Type 0 where
  pub netloc : Text
  pub path : Text

-- Integers, for the score of a comparison.
pub data ℤ : Type 0 where
  pos : ℕ → ℤ
  negsuc : ℕ → ℤ

-- `gains - losses`
abbrev pub difference : ℕ → ℕ → ℤ
difference gains losses =
    if leb losses gains then pos (gains - losses) else negsuc (losses - gains - 1)

pub record RankingSignals (Rank : Type 0) : Type 0 where
  pub page_rank : Rank
  pub domain_rank : Rank
  pub canonical_source_match : ℕ
  pub title_intent_match : ℕ
  pub path_intent_match : ℕ
  pub comparison_intent_match : ℤ
  pub is_recruiting_page : Bool

-- The library code that a signal rests on.
pub record HitLib (Rank : Type 0) : Type 0 where
  pub lower : Text → Text
  pub urlparse : Text → ParsedUrl
  pub word_char : ℕ → Bool
  pub zero_rank : Rank

-- `path or "/"`
abbrev pub path_or_root : Text → Text
path_or_root [] = codes "/"
path_or_root (c ∷ p) = c ∷ p

abbrev pub domain_matches : List Text → Text → Bool
domain_matches candidate_domains host =
    any (λ domain. list_beq host domain || list_beq host (codes "www." ++ domain)) candidate_domains

abbrev pub normalize_host : Text → Text
normalize_host host = if starts_with (codes "www.") host then drop 4 host else host

abbrev pub term_matches_token : Text → Text → Bool
term_matches_token term token =
    list_beq token term || starts_with term token || starts_with token term

unfoldable pub is_shallow_root_like_path : Text → Bool
is_shallow_root_like_path path =
    if contains path rootish_paths
    then true
    else leb (length (keep (λ segment. not (is_empty segment)) (split b'/' path))) 1

-- How many of the tests pass.
abbrev pub count_true : List Bool → ℕ
count_true [] = 0
count_true (b ∷ bs) = let rest = count_true bs in if b then suc rest else rest

abbrev pub gains_of : (titles paths subjects cue_title cue_path cue_text : Bool) → ℕ
gains_of titles paths subjects cue_title cue_path cue_text =
    (if titles then 6 else if paths then 5 else if subjects then 4 else 0)
    + (if cue_title || cue_path then 4 else if cue_text then 3 else 0)

abbrev pub losses_of : (one_shallow titles paths cue_text low cue_near : Bool) → ℕ
losses_of one_shallow titles paths cue_text low cue_near =
    (if one_shallow then 4 else 0)
    + (if not titles && not paths && cue_text then 2 else 0)
    + (if low then 3 else 0)
    + (if low && not cue_near then 2 else 0)

-- The score, from the tests that it looks at.
unfoldable pub score_of :
    (titles paths subjects cue_title cue_path cue_text one_shallow low : Bool) → ℤ
score_of titles paths subjects cue_title cue_path cue_text one_shallow low =
    difference (gains_of titles paths subjects cue_title cue_path cue_text)
      (losses_of one_shallow titles paths cue_text low (cue_title || cue_path))

module _ {Rank : Type 0} (lib : HitLib Rank) where
  open lib use {lower, urlparse, word_char}

  unfoldable pub canonical_source_match_score :
      SearchHit Rank → CanonicalSourceConfig → QueryClass → ℕ
  canonical_source_match_score hit source query_class =
      let parsed = urlparse hit.url in
      let host = lower parsed.netloc in
      let path = path_or_root parsed.path in
      let preferred_paths : List Text = elim query_class [
        | news ↦ source.news_paths
        | _ ↦ source.preferred_paths
      ] in
      if not (domain_matches source.domains host)
      then 0
      else if any (list_beq path) preferred_paths
      then 3
      else if any
          (λ prefix.
            if list_beq prefix (codes "/")
            then contains path ([] ∷ codes "/" ∷ [])
            else starts_with prefix path)
          preferred_paths
      then 2
      else 1

  unfoldable pub is_recruiting_hit : SearchHit Rank → Bool
  is_recruiting_hit hit =
      let parsed = urlparse hit.url in
      let host = lower parsed.netloc in
      let path = path_or_root (lower parsed.path) in
      let title = lower hit.title in
      if any (λ domain. list_beq host domain || ends_with (b'.' ∷ domain) host)
        recruiting_host_terms
      then true
      else if any (λ term. occurs_in term path) recruiting_path_terms
      then true
      else any (λ term. occurs_in term title) recruiting_title_terms

  unfoldable pub intent_match_score : List Text → Text → ℕ
  intent_match_score terms text =
      if is_empty terms
      then 0
      else let tokens = query_tokens lower text in
        length (keep (λ term. any (λ token. term_matches_token term token) tokens) terms)

  -- `\b` behind a letter, and behind a dot.
  abbrev word_stops : Text → Bool
  word_stops [] = true
  word_stops (c ∷ s) = not (word_char c)

  abbrev word_begins : Text → Bool
  word_begins [] = false
  word_begins (c ∷ s) = word_char c

  abbrev cue_here : Text → Bool
  cue_here s =
      starts_with (codes "vs.") s && word_begins (drop 3 s)
      || starts_with (codes "vs") s && word_stops (drop 2 s)
      || starts_with (codes "versus") s && word_stops (drop 6 s)
      || starts_with (codes "compare") s && word_stops (drop 7 s)
      || starts_with (codes "comparison") s && word_stops (drop 10 s)

  -- `_COMPARISON_CUE_RE.search(s)`, behind a word character where `inside` holds.
  unfoldable pub has_cue : Bool → Text → Bool
  has_cue inside [] = false
  has_cue inside (c ∷ s) = not inside && cue_here (c ∷ s) || has_cue (word_char c) s

  abbrev pub comparison_text : SearchHit Rank → Text
  comparison_text hit = lower (hit.title ++ (codes " " ++ (hit.url ++ (codes " " ++ hit.content))))

  unfoldable pub comparison_intent_match_score : SearchHit Rank → ComparisonIntent → ℤ
  unfolding has_cue is_shallow_root_like_path score_of
  comparison_intent_match_score hit (left, right) =
      let text = comparison_text hit in
      let title = lower hit.title in
      let path = lower (path_or_root (urlparse hit.url).path) in
      let titles = occurs_in left title && occurs_in right title in
      let paths = occurs_in left path && occurs_in right path in
      let subjects = occurs_in left text && occurs_in right text in
      let cue_in_text = has_cue false text in
      let cue_in_title = has_cue false title in
      let cue_in_path = has_cue false path in
      let low_signal =
        any (λ term. occurs_in term title) comparison_low_signal_title_terms
        || any (λ term. occurs_in term path) comparison_low_signal_path_terms in
      let one_shallow =
        nat_beq (count_true (occurs_in left text ∷ occurs_in right text ∷ [])) 1
        && is_shallow_root_like_path path in
      score_of titles paths subjects cue_in_title cue_in_path cue_in_text one_shallow low_signal

  unfoldable pub ranking_signals_for_hit :
      SearchHit Rank → SearchRankingPolicy → RankingSignals Rank
  unfolding canonical_source_match_score intent_match_score comparison_intent_match_score
      is_recruiting_hit
  ranking_signals_for_hit hit policy = record {
    page_rank = elim hit.page_rank [ none ↦ lib.zero_rank | some r ↦ r ];
    domain_rank = elim hit.domain_rank [ none ↦ lib.zero_rank | some r ↦ r ];
    canonical_source_match = elim policy.query_class [
      | other ↦ 0
      | _ ↦ elim policy.source [
        | none ↦ 0
        | some source ↦ canonical_source_match_score hit source policy.query_class
      ]
    ];
    title_intent_match = intent_match_score policy.intent_terms hit.title;
    path_intent_match =
        intent_match_score policy.intent_terms (path_or_root (urlparse hit.url).path);
    comparison_intent_match = elim policy.query_class [
      | comparison ↦ elim policy.comparison_intent [
        | none ↦ pos 0
        | some intent ↦ comparison_intent_match_score hit intent
      ]
      | _ ↦ pos 0
    ];
    is_recruiting_page = policy.demote_recruiting && is_recruiting_hit hit;
  }
