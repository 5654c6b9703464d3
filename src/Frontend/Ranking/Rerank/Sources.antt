-- ===== src/Frontend/Ranking/Rerank/Sources.antt =====
-- Where `rerank_hits` puts the pages of the source that a query names.
use web_search.Prelude.{
  ℕ, zero, suc, ◌≤◌, ◌≡◌, refl, ap, ◌⊎◌, inl, inr, Bool, true, false, not, List, [], ◌∷◌, ◌++◌, map,
  Perm, arith, take, keep, All, nat_eq, list_eq, sort_by, sort_by-perm, sort_by-All, keep-All,
  keep-All_of, sort_by-Falling, Falling,
}
use web_search.Frontend.Ranking.{QueryClass, navigational, reference, news, SearchRankingPolicy}
use web_search.Frontend.Ranking.Signals.{SearchHit, HitLib}
use web_search.Frontend.Ranking.Rerank.{
  RankedHit, RankOrder, key_before, source_less, ranked_from, reranked, rerank_hits,
}
use web_search.Frontend.Ranking.Rerank.Order.{is_plain, by_key-flag}

abbrev pub match_of : {Rank : Type 0} → RankedHit Rank → ℕ
match_of r = r.signals.canonical_source_match

-- A query that names a source: it is navigational, for reference or for news.
abbrev pub NamesSource : QueryClass → Type 0
NamesSource c = (c ≡ navigational) ⊎ (c ≡ reference) ⊎ (c ≡ news)

module _ {Rank : Type 0} (order : RankOrder Rank) where
  before_by_match :
      (a b : RankedHit Rank) → not (source_less order a b) ≡ true → match_of b ≤ match_of a
  unfolding source_less
  before_by_match a b h = ground arith

  behind_by_match :
      (a b : RankedHit Rank) → not (source_less order a b) ≡ false → match_of a ≤ match_of b
  unfolding source_less
  behind_by_match a b h = ground arith

  -- Pages that are no recruiting pages, then the others, each with the better matches first.
  pub record InSourceOrder (ranked result : List (RankedHit Rank)) : Type 0 where
    pub plain : List (RankedHit Rank)
    pub recruiting : List (RankedHit Rank)
    pub parts : result ≡ plain ++ recruiting
    pub all_plain : All (λ r. is_plain r ≡ true) plain
    pub all_recruiting : All (λ r. is_plain r ≡ false) recruiting
    pub plain_falling : Falling match_of plain
    pub recruiting_falling : Falling match_of recruiting
    pub rearranged : Perm result ranked

  by_source-InSourceOrder :
      (l : List (RankedHit Rank)) → InSourceOrder l (sort_by (key_before (source_less order)) l)
  by_source-InSourceOrder l =
      let within : RankedHit Rank → RankedHit Rank → Bool = λ a b. not (source_less order a b) in
      record {
        plain = sort_by within (keep is_plain l);
        recruiting = sort_by within (keep (λ r. not (is_plain r)) l);
        parts = by_key-flag (source_less order) l;
        all_plain = sort_by-All within (λ r. is_plain r ≡ true) _ (keep-All is_plain l);
        all_recruiting =
            sort_by-All within (λ r. is_plain r ≡ false) _
              (keep-All_of (λ r. is_plain r ≡ false) (λ r. not (is_plain r)) l
                (λ r e. ground arith));
        plain_falling = sort_by-Falling within match_of before_by_match behind_by_match _;
        recruiting_falling = sort_by-Falling within match_of before_by_match behind_by_match _;
        rearranged = sort_by-perm (key_before (source_less order)) l;
      }

module _ {Rank : Type 0} (lib : HitLib Rank) (order : RankOrder Rank)
    (policy : SearchRankingPolicy) where
  reranked-source :
      (l : List (RankedHit Rank))
      → NamesSource policy.query_class
      → reranked lib order policy l ≡ sort_by (key_before (source_less order)) l
  unfolding reranked
  reranked-source l (inl e) = rw e refl
  reranked-source l (inr (inl e)) = rw e refl
  reranked-source l (inr (inr e)) = rw e refl

  -- Where the query names a source, `rerank_hits` returns the first hits of a rearrangement in
  -- which pages that are not demoted for recruiting come first, and in which, among these and
  -- among the others, no page stands behind one that matches the source less.
  pub rerank_hits-source :
      (limit : ℕ) (hits : List (SearchHit Rank))
      → NamesSource policy.query_class
      → (l : List (RankedHit Rank)) × InSourceOrder order (ranked_from lib order policy 0 hits) l
        × (rerank_hits lib order policy limit hits ≡ take limit (map (λ r. r.hit) l))
  unfolding rerank_hits ranked_from sort_by
  rerank_hits-source zero [] e = ([], by_source-InSourceOrder order [], refl)
  rerank_hits-source (suc n) [] e = ([], by_source-InSourceOrder order [], refl)
  rerank_hits-source limit (h ∷ hits) e =
      let ranked = ranked_from lib order policy 0 (h ∷ hits) in
      (
        sort_by (key_before (source_less order)) ranked,
        by_source-InSourceOrder order ranked,
        ap (λ l. take limit (map (λ r. r.hit) l)) (reranked-source ranked e),
      )
