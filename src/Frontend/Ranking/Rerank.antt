-- ===== src/Frontend/Ranking/Rerank.antt =====
-- `rerank_hits` of search_ranking_policy.py. Keys are compared as tuples: `rank_eq` and `rank_lt`
-- stand for `==` and `<` on the floats. `sorted(…, reverse=True)` is stable.
pub mod Order
pub mod Scores
pub mod Results
pub mod Diversity
pub mod Sources
use web_search.Prelude.{
  ℕ, zero, suc, ◌+◌, ◌-◌, ◌*◌, ◌/◌, ◌%◌, ◌^◌, ◌≤◌, ◌<◌, min, max, ◌≡◌, refl, sym, ap, ◌∙◌, ◌≢◌, ◌↔◌,
  ◌⊎◌, inl, inr, Bool, true, false, not, ◌&&◌, ◌||◌, Option, none, some, List, [], ◌∷◌, ◌++◌, map,
  reverse, Perm, Sublist, append-nil, append_assoc, arith, ltb, leb, nat_beq, if◌then◌else◌, ltb→lt,
  lt→ltb, leb→le, nat_beq_iff, Bool-cases, Option-cases, Bool-eq_of_iff, length, take, drop, any,
  all, keep, is_empty, length-append, length-take, take-append-drop, length-keep-le, any-append,
  keep-append, All, Any, Member, HasEq, ◌==◌, nat_eq, list_eq, list_beq, list_beq_iff, beq_refl,
  contains, contains_iff, update, occurrences, capped, occurrences-capped, capped-sublist,
  WithinQuota, take-capped-WithinQuota, sort_by, Sorted, sort_by-perm, sort_by-All, sort_by-Sorted,
  Text, codes, starts_with, ends_with, occurs_in, split, join, strip, lstrip, rstrip, is_space,
  from_last, ascii_lower, starts_with_iff, ends_with_iff, split-ne_nil, join-split, split-append,
  any-congr, any-or, any-false, keep-congr, keep-All, All-keep, All-append, any_iff, Any-map,
  All-map, All-of, beq_sym, text_leb, text_leb_total, text_leb_trans, unique, if_true, if_false,
  Tracks, Tracks-skip, Tracks-take, All-take, keep-All_of, keep_of_All, All-Member, capped-All,
  keep-All_both, All-members, some_pair, decimal, Sorted-eq_of_perm, keep-perm, text_leb_antisymm,
  text_leb_refl, sort_by-All_inv, All-split, contains-sort_by, ◌>>=◌,
}
use web_search.Frontend.Ranking.{
  QueryClass, navigational, reference, news, comparison, other, SearchRankingPolicy,
}
use web_search.Frontend.Ranking.Signals.{
  SearchHit, RankingSignals, HitLib, ℤ, pos, negsuc, normalize_host, ranking_signals_for_hit,
}

pub record RankedHit (Rank : Type 0) : Type 0 where
  pub hit : SearchHit Rank
  pub signals : RankingSignals Rank
  pub original_index : ℕ
  pub normalized_domain : Text

pub record RankOrder (Rank : Type 0) : Type 0 where
  pub rank_eq : Rank → Rank → Bool
  pub rank_lt : Rank → Rank → Bool

abbrev pub int_eq : ℤ → ℤ → Bool
int_eq (pos m) (pos n) = nat_beq m n
int_eq (pos m) (negsuc n) = false
int_eq (negsuc m) (pos n) = false
int_eq (negsuc m) (negsuc n) = nat_beq m n

abbrev pub int_lt : ℤ → ℤ → Bool
int_lt (pos m) (pos n) = ltb m n
int_lt (pos m) (negsuc n) = false
int_lt (negsuc m) (pos n) = true
int_lt (negsuc m) (negsuc n) = ltb n m

-- Tuples are compared by their first components, and by the rest where these are equal.
abbrev pub tuple_less : (first_equal first_less rest_less : Bool) → Bool
tuple_less first_equal first_less rest_less = if first_equal then rest_less else first_less

abbrev pub bool_eq : Bool → Bool → Bool
bool_eq true b = b
bool_eq false b = not b

module _ {Rank : Type 0} (order : RankOrder Rank) where
  -- The components that the first two keys share behind their second one.
  abbrev pub shared_less : RankedHit Rank → RankedHit Rank → Bool
  shared_less a b =
      let s = a.signals in
      let t = b.signals in
      tuple_less (nat_beq s.title_intent_match t.title_intent_match)
        (ltb s.title_intent_match t.title_intent_match)
        (tuple_less (nat_beq s.path_intent_match t.path_intent_match)
          (ltb s.path_intent_match t.path_intent_match)
          (tuple_less (order.rank_eq s.page_rank t.page_rank)
            (order.rank_lt s.page_rank t.page_rank)
            (tuple_less (order.rank_eq s.domain_rank t.domain_rank)
              (order.rank_lt s.domain_rank t.domain_rank) (ltb b.original_index a.original_index))))

  -- `key(a) < key(b)` behind `not is_recruiting_page`, in the three calls of `sorted`.
  unfoldable pub comparison_less : RankedHit Rank → RankedHit Rank → Bool
  comparison_less a b =
      let s = a.signals in
      let t = b.signals in
      tuple_less (int_eq s.comparison_intent_match t.comparison_intent_match)
        (int_lt s.comparison_intent_match t.comparison_intent_match) (shared_less a b)

  unfoldable pub source_less : RankedHit Rank → RankedHit Rank → Bool
  source_less a b =
      let s = a.signals in
      let t = b.signals in
      tuple_less (nat_beq s.canonical_source_match t.canonical_source_match)
        (ltb s.canonical_source_match t.canonical_source_match) (shared_less a b)

  unfoldable pub index_less : RankedHit Rank → RankedHit Rank → Bool
  index_less a b = ltb b.original_index a.original_index

-- Whether `a` may stand before `b` behind it: `not key(a) < key(b)`.
unfoldable pub key_before :
    {Rank : Type 0} (less : RankedHit Rank → RankedHit Rank → Bool)
    → RankedHit Rank
    → RankedHit Rank
    → Bool
key_before less a b =
    let x = not a.signals.is_recruiting_page in
    let y = not b.signals.is_recruiting_page in
    not (tuple_less (bool_eq x y) (not x && y) (less a b))

-- The loop, with `seen_domains` and the two lists as its variables.
unfoldable pub promote_loop :
    {Rank : Type 0}
    → List (RankedHit Rank)
    → (seen : List Text) → (firsts others : List (RankedHit Rank)) → List (RankedHit Rank)
promote_loop [] seen firsts others = firsts ++ others
promote_loop (hit ∷ hits) seen firsts others =
    let again = promote_loop hits seen firsts (others ++ hit ∷ []) in
    let new = promote_loop hits (hit.normalized_domain ∷ seen) (firsts ++ hit ∷ []) others in
    if contains hit.normalized_domain seen then again else new

unfoldable pub promote_domain_diversity_for_comparison :
    {Rank : Type 0} → List (RankedHit Rank) → List (RankedHit Rank)
unfolding promote_loop
promote_domain_diversity_for_comparison hits = promote_loop hits [] [] []

module _ {Rank : Type 0} (lib : HitLib Rank) (order : RankOrder Rank) where
  -- `_RankedHit(…)` for a hit and its index
  unfoldable pub ranked_hit : SearchRankingPolicy → ℕ → SearchHit Rank → RankedHit Rank
  ranked_hit policy index hit = record {
    hit = hit;
    signals = ranking_signals_for_hit lib hit policy;
    original_index = index;
    normalized_domain = normalize_host (lib.lower (lib.urlparse hit.url).netloc);
  }

  -- The comprehension over `enumerate(hits)`, from an index on.
  unfoldable pub ranked_from :
      SearchRankingPolicy → ℕ → List (SearchHit Rank) → List (RankedHit Rank)
  unfolding ranked_hit
  ranked_from policy index [] = []
  ranked_from policy index (hit ∷ hits) =
      ranked_hit policy index hit ∷ ranked_from policy (index + 1) hits

  -- `rerank_hits` of the ranked hits, up to the limit.
  unfoldable pub reranked : SearchRankingPolicy → List (RankedHit Rank) → List (RankedHit Rank)
  unfolding sort_by key_before comparison_less source_less index_less
      promote_domain_diversity_for_comparison
  reranked policy ranked =
      let by_source = sort_by (key_before (source_less order)) ranked in
      let by_index = sort_by (key_before (index_less order)) ranked in
      elim policy.query_class [
        | comparison ↦ elim policy.comparison_intent [
          | some intent ↦
              promote_domain_diversity_for_comparison
                (sort_by (key_before (comparison_less order)) ranked)
          | none ↦ by_index
        ]
        | navigational ↦ by_source
        | reference ↦ by_source
        | news ↦ by_source
        | other ↦ by_index
      ]

  -- `limit` is not negative.
  unfoldable pub rerank_hits :
      SearchRankingPolicy → ℕ → List (SearchHit Rank) → List (SearchHit Rank)
  unfolding reranked ranked_from
  rerank_hits policy limit [] = []
  rerank_hits policy limit (hit ∷ hits) =
      take limit (map (λ r. r.hit) (reranked policy (ranked_from policy 0 (hit ∷ hits))))
