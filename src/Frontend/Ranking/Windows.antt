-- ===== src/Frontend/Ranking/Windows.antt =====
-- How many candidates search_ranking_policy.py asks for, and at which paths.
use web_search.Prelude.{
  ℕ, ◌≤◌, min, max, Bool, not, Option, none, some, List, [], arith, nat_beq, if◌then◌else◌, nat_eq,
  list_eq, Text,
}
use web_search.Frontend.Ranking.{
  QueryClass, navigational, reference, news, comparison, other, CanonicalSourceConfig,
  SearchRankingPolicy,
}

-- The window of a policy whose query is no comparison, with its source if it is not `other`.
abbrev source_window : ℕ → QueryClass → Option CanonicalSourceConfig → Bool → ℕ → ℕ
source_window k query_class none demote_recruiting candidate_limit =
    if demote_recruiting then min candidate_limit (max k 20) else k
source_window k query_class (some source) demote_recruiting candidate_limit =
    let window = max k source.candidate_window in
    elim query_class [
      | navigational ↦ min candidate_limit (max window 100)
      | news ↦ min candidate_limit (max window 100)
      | _ ↦ min candidate_limit (max window 20)
    ]

unfoldable pub candidate_window_size :
    (k page : ℕ) → SearchRankingPolicy → (candidate_limit : ℕ) → ℕ
candidate_window_size k page policy candidate_limit =
    if not (nat_beq page 1) then k else elim policy.query_class [
      | comparison ↦ min candidate_limit (max k 100)
      | other ↦ source_window k other none policy.demote_recruiting candidate_limit
      | c ↦ source_window k c policy.source policy.demote_recruiting candidate_limit
    ]

unfoldable pub canonical_paths_for_policy : SearchRankingPolicy → List Text
canonical_paths_for_policy policy = elim policy.source [
  | none ↦ []
  | some source ↦ elim policy.query_class [ news ↦ source.news_paths | _ ↦ source.preferred_paths ]
]

source_window-bounds :
    (k : ℕ) (c : QueryClass) (source : Option CanonicalSourceConfig) (demote : Bool) (limit : ℕ)
    → k ≤ limit
    → (k ≤ source_window k c source demote limit) × (source_window k c source demote limit ≤ limit)
source_window-bounds k c none demote limit h = ground (arith, h)
source_window-bounds k navigational (some source) demote limit h = ground (arith, h)
source_window-bounds k reference (some source) demote limit h = ground (arith, h)
source_window-bounds k news (some source) demote limit h = ground (arith, h)
source_window-bounds k comparison (some source) demote limit h = ground (arith, h)
source_window-bounds k other (some source) demote limit h = ground (arith, h)

-- If the limit allows the page that is asked for, the candidates are at least that many and no
-- more than the limit.
candidate_window_size-bounds :
    (k page : ℕ) (policy : SearchRankingPolicy) (limit : ℕ)
    → k ≤ limit
    → (k ≤ candidate_window_size k page policy limit)
      × (candidate_window_size k page policy limit ≤ limit)
unfolding candidate_window_size
candidate_window_size-bounds k page policy limit h = ground (
  arith,
  h,
  source_window-bounds k navigational policy.source policy.demote_recruiting limit h,
  source_window-bounds k reference policy.source policy.demote_recruiting limit h,
  source_window-bounds k news policy.source policy.demote_recruiting limit h,
  source_window-bounds k other none policy.demote_recruiting limit h,
)
