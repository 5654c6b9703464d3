-- ===== src/Tests/Frontend.antt =====
-- apps/frontend at concrete inputs.
use web_search.Prelude.{
  ℕ, ◌≤◌, ◌≡◌, refl, inl, inr, true, not, ◌&&◌, none, some, List, [], ◌∷◌, ◌++◌, map, Perm, ltb,
  leb, nat_beq, take, drop, keep, nat_eq, list_eq, Text, codes, ascii_lower,
}
use web_search.Frontend.Ranking.{
  reference, comparison, CanonicalSourceConfig, PreparedSearchQuery, SearchRankingPolicy,
  extract_comparison_intent,
}
use web_search.Frontend.Ranking.Classify.{match_source, classify_query_policy, plain_policy}
use web_search.Frontend.Ranking.Classify.Matches.{BestOf, pairs_of, match_source-BestOf}
use web_search.Frontend.Ranking.Classify.Policies.{
  IsCoherent, asked_text, classify_query_policy-IsCoherent,
}
use web_search.Frontend.Ranking.Signals.{
  SearchHit, HitLib, ParsedUrl, ranking_signals_for_hit, comparison_intent_match_score, pos,
}
use web_search.Frontend.Ranking.Rerank.{RankedHit, RankOrder, ranked_from, rerank_hits}
use web_search.Frontend.Ranking.Rerank.Order.{is_demoted, rerank_hits-other}
use web_search.Frontend.Ranking.Rerank.Sources.{InSourceOrder, rerank_hits-source}
use web_search.Frontend.Ranking.Rerank.Diversity.{Diverse, compared, rerank_hits-comparison}
use web_search.Frontend.Ranking.Rerank.Results.{rerank_hits-Perm}
use web_search.Frontend.Ranking.Rerank.Scores.{InBounds, ranking_signals_for_hit-bounds}
use web_search.Tests.SimpleUrls.{partition, break_at}

abbrev python : CanonicalSourceConfig
python = record {
  aliases = codes "python" ∷ codes "python docs" ∷ [];
  domains = codes "python.org" ∷ [];
  preferred_paths = codes "/3/" ∷ [];
  news_paths = [];
  default_class = reference;
  candidate_window = 20;
  restrict_to_source = true;
}

abbrev asked : Text → PreparedSearchQuery
asked text = record { site_filter = none; positive_query = text }

match_runs :
    match_source (python ∷ []) (codes "python docs list") ≡ some (python, codes "python docs")
unfolding match_source
match_runs = refl

match_source-BestOf_example :
    BestOf
      (codes "python docs list")
      (pairs_of (python ∷ []))
      (match_source (python ∷ []) (codes "python docs list"))
match_source-BestOf_example = match_source-BestOf (codes "python docs list") (python ∷ [])

versus_runs : extract_comparison_intent (codes "rust  vs go") ≡ some (codes "rust", codes "go")
unfolding extract_comparison_intent
versus_runs = refl

classify_runs :
    (classify_query_policy ascii_lower
      (python ∷ [])
      []
      (asked (codes "Python docs, API!"))).query_class
    ≡ reference
unfolding classify_query_policy
classify_runs = refl

classify_query_policy-IsCoherent_example :
    IsCoherent
      (python ∷ [])
      (asked_text ascii_lower [] (asked (codes "Python vs Go")))
      (classify_query_policy ascii_lower (python ∷ []) [] (asked (codes "Python vs Go")))
classify_query_policy-IsCoherent_example =
    classify_query_policy-IsCoherent ascii_lower (python ∷ []) [] (asked (codes "Python vs Go"))

abbrev docs_policy : SearchRankingPolicy
docs_policy = record {
  query_class = reference;
  source = some python;
  intent_terms = codes "list" ∷ [];
  demote_recruiting = true;
  restrict_to_source = true;
  comparison_intent = none;
}

-- Ranks are natural numbers, and URLs have no query.
abbrev split_page : Text → ParsedUrl
split_page url =
    let (scheme, rest) = partition b':' url in
    let (netloc, path) = break_at b'/' (drop 2 rest) in record { netloc = netloc; path = path }

abbrev lib : HitLib ℕ
lib = record {
  lower = ascii_lower;
  urlparse = split_page;
  word_char = λ c. leb b'a' c && leb c b'z';
  zero_rank = 0;
}

abbrev naturals : RankOrder ℕ
naturals = record { rank_eq = nat_beq; rank_lt = ltb }

abbrev page : Text → Text → SearchHit ℕ
page url title = record {
  url = url;
  title = title;
  content = [];
  score = 0;
  page_rank = none;
  domain_rank = none;
}

abbrev jobs : SearchHit ℕ
jobs = page (codes "http://a.com/jobs/1") (codes "Work")

abbrev lists : SearchHit ℕ
lists = page (codes "http://python.org/3/list") (codes "Lists")

abbrev blog : SearchHit ℕ
blog = page (codes "http://b.com/x/y") (codes "Rust vs Go")

abbrev again : SearchHit ℕ
again = page (codes "http://www.b.com/z/y") (codes "Rust and Go")

abbrev hits : List (SearchHit ℕ)
hits = jobs ∷ blog ∷ again ∷ lists ∷ []

other_runs : rerank_hits lib naturals plain_policy 3 hits ≡ blog ∷ again ∷ lists ∷ []
unfolding rerank_hits ranking_signals_for_hit
other_runs = refl

rerank_hits-other_example :
    rerank_hits lib naturals plain_policy 4 hits
    ≡ take 4 (
        keep (λ h. not (is_demoted lib naturals plain_policy h)) hits
        ++ keep (is_demoted lib naturals plain_policy) hits)
rerank_hits-other_example = rerank_hits-other lib naturals plain_policy 4 hits refl

source_runs : rerank_hits lib naturals docs_policy 2 hits ≡ lists ∷ blog ∷ []
unfolding rerank_hits ranking_signals_for_hit
source_runs = refl

rerank_hits-source_example :
    (l : List (RankedHit ℕ)) × InSourceOrder naturals
      (ranked_from lib naturals docs_policy 0 hits)
      l
    × (rerank_hits lib naturals docs_policy 2 hits ≡ take 2 (map (λ r. r.hit) l))
rerank_hits-source_example = rerank_hits-source lib naturals docs_policy 2 hits (inr (inl refl))

abbrev versus_policy : SearchRankingPolicy
versus_policy = record docs_policy {
  query_class = comparison;
  source = none;
  comparison_intent = some (codes "rust", codes "go");
}

score_runs : comparison_intent_match_score lib blog (codes "rust", codes "go") ≡ pos 10
unfolding comparison_intent_match_score
score_runs = refl

versus_runs_hits : rerank_hits lib naturals versus_policy 3 hits ≡ blog ∷ lists ∷ jobs ∷ []
unfolding rerank_hits ranking_signals_for_hit
versus_runs_hits = refl

rerank_hits-comparison_example :
    (l : List (RankedHit ℕ)) × Diverse (compared lib naturals versus_policy hits) l
    × (rerank_hits lib naturals versus_policy 4 hits ≡ take 4 (map (λ r. r.hit) l))
rerank_hits-comparison_example =
    rerank_hits-comparison lib naturals versus_policy 4 hits (codes "rust", codes "go") refl refl

rerank_hits-Perm_example :
    (l : List (SearchHit ℕ)) × Perm l hits
    × (rerank_hits lib naturals versus_policy 3 hits ≡ take 3 l)
rerank_hits-Perm_example = rerank_hits-Perm lib naturals versus_policy 3 hits

ranking_signals_for_hit-bounds_example :
    let s = ranking_signals_for_hit lib blog versus_policy in
    (s.canonical_source_match ≤ 3)
    × (s.title_intent_match ≤ 1)
    × (s.path_intent_match ≤ 1)
    × InBounds s.comparison_intent_match
ranking_signals_for_hit-bounds_example = ranking_signals_for_hit-bounds lib blog versus_policy
