-- ===== src/SearchConfig/Evaluator/Metrics.antt =====
-- packages/search-config/src/web_search_search_config/evaluator.py: the metrics of a case.
use web_search.Prelude.{
  ℕ, zero, suc, ◌+◌, ◌≡◌, refl, ap, inl, inr, Bool, true, false, not, ◌&&◌, Option, none, some,
  List, [], ◌∷◌, ◌++◌, map, arith, leb, nat_beq, if◌then◌else◌, Bool-cases, length, take, any, keep,
  is_empty, nat_eq, list_eq, sort_by, Text, pair_eq, ℤ, pos, negsuc, is_positive, is_negative,
  int_leb,
}
use web_search.SearchConfig.Cases.{EvalJudgment, CanonicalEvalCase}
use web_search.SearchConfig.Evaluator.{ParsedUrl, EvalHit, KeywordRule, or_empty, hit_relevance}

-- What is used of floats: `discounted r i` is `(2**r - 1) / log2(i + 1)`.
pub record ScoreOps (Score : Type 0) : Type 0 where
  pub zero_score : Score
  pub add : Score → Score → Score
  pub discounted : ℕ → ℕ → Score
  pub divide : Score → Score → Score
  pub reciprocal : ℕ → Score
  pub is_above_zero : Score → Bool

pub record CaseMetrics (Score : Type 0) : Type 0 where
  pub hit_at_1 : Bool
  pub hit_at_3 : Bool
  pub bad_at_3 : Bool
  pub mrr : Score
  pub ndcg_at_3 : Score
  pub ndcg_at_10 : Score
  pub first_relevant_rank : Option ℕ

-- The number of the first relevant hit, counted from `index`.
unfoldable pub first_rank : ℕ → List ℤ → Option ℕ
first_rank index [] = none
first_rank index (r ∷ relevances) =
    let rest = first_rank (index + 1) relevances in if is_positive r then some index else rest

-- A judgment for one URL, and nothing else.
unfoldable pub is_exact_url : EvalJudgment → Bool
is_exact_url judgment =
    not (is_empty (or_empty judgment.url))
    && is_empty (or_empty judgment.domain)
    && is_empty (or_empty judgment.path_prefix)
    && is_empty judgment.title_terms

unfoldable pub ideal_relevances : List EvalJudgment → List ℤ → List ℤ
unfolding is_exact_url sort_by
ideal_relevances judgments relevances =
    let exact = keep is_exact_url judgments in
    let greater_first = λ (a b : ℤ). int_leb b a in
    if not (is_empty exact) && nat_beq (length exact) (length judgments)
    then sort_by greater_first (map (λ j. j.relevance) exact)
    else sort_by greater_first relevances

module _ {Score : Type 0} (ops : ScoreOps Score) where
  -- The loop of `_dcg`, with `total` as its variable.
  unfoldable pub dcg_loop : ℕ → List ℤ → Score → Score
  dcg_loop index [] total = total
  dcg_loop index (pos zero ∷ relevances) total = dcg_loop (index + 1) relevances total
  dcg_loop index (negsuc n ∷ relevances) total = dcg_loop (index + 1) relevances total
  dcg_loop index (pos (suc n) ∷ relevances) total =
      dcg_loop (index + 1) relevances (ops.add total (ops.discounted (suc n) index))

  unfoldable pub dcg : List ℤ → ℕ → Score
  unfolding dcg_loop
  dcg relevances k = dcg_loop 1 (take k relevances) ops.zero_score

  unfoldable pub ndcg : List ℤ → (ideal : List ℤ) → ℕ → Score
  unfolding dcg
  ndcg relevances ideal k =
      let idcg = dcg ideal k in
      if ops.is_above_zero idcg then ops.divide (dcg relevances k) idcg else ops.zero_score

  unfoldable pub metrics_of : List EvalJudgment → List ℤ → CaseMetrics Score
  unfolding first_rank ideal_relevances ndcg
  metrics_of judgments relevances =
      let first_relevant_rank = first_rank 1 relevances in
      let ideal = ideal_relevances judgments relevances in
      record {
        hit_at_1 = any is_positive (take 1 relevances);
        hit_at_3 = any is_positive (take 3 relevances);
        bad_at_3 = any is_negative (take 3 relevances);
        mrr = elim first_relevant_rank [ none ↦ ops.zero_score | some rank ↦ ops.reciprocal rank ];
        ndcg_at_3 = ndcg relevances ideal 3;
        ndcg_at_10 = ndcg relevances ideal 10;
        first_relevant_rank = first_relevant_rank;
      }

  unfoldable pub compute_case_metrics :
      (lower : Text → Text) (urlparse : Text → ParsedUrl)
      → CanonicalEvalCase
      → List EvalHit
      → List (Text × KeywordRule)
      → (known_domains : List Text) → CaseMetrics Score × List ℤ
  unfolding hit_relevance metrics_of
  compute_case_metrics lower urlparse case hits keyword_rules known_domains =
      let relevances =
        map (λ hit. hit_relevance lower urlparse case hit keyword_rules known_domains) hits in
      (metrics_of case.judgments relevances, relevances)

-- Whether a rank is there and no greater than a number.
abbrev pub rank_within : ℕ → Option ℕ → Bool
rank_within n none = false
rank_within n (some rank) = leb rank n

-- The first relevant hit has a rank, behind `index` others: those before it are not relevant.
pub record IsFirst (index : ℕ) (relevances : List ℤ) (rank : ℕ) : Type 0 where
  pub before : List ℤ
  pub first : ℤ
  pub after : List ℤ
  pub parts : relevances ≡ before ++ first ∷ after
  pub counted : rank ≡ index + length before + 1
  pub relevant : is_positive first ≡ true
  pub not_before : any is_positive before ≡ false

first_rank-within :
    (index n : ℕ) (relevances : List ℤ)
    → any is_positive (take n relevances)
      ≡ rank_within (index + n) (first_rank (index + 1) relevances)
unfolding first_rank
first_rank-within index zero [] = refl
first_rank-within index (suc n) [] = refl
first_rank-within index zero (r ∷ relevances) =
    let rest = first_rank-within (index + 1) 0 relevances in ground (arith, rest)
first_rank-within index (suc n) (r ∷ relevances) =
    let rest = first_rank-within (index + 1) n relevances in ground (arith, rest)

first_rank-IsFirst :
    (index rank : ℕ) (relevances : List ℤ)
    → first_rank (index + 1) relevances ≡ some rank
    → IsFirst index relevances rank
unfolding first_rank
first_rank-IsFirst index rank [] e = absurd (ground (arith, e))
first_rank-IsFirst index rank (r ∷ relevances) e = elim (Bool-cases (is_positive r)) [
  | inl here ↦ record {
    before = [];
    first = r;
    after = relevances;
    parts = refl;
    counted = ground (arith, here, e);
    relevant = here;
    not_before = refl;
  }
  | inr later ↦
      let next : first_rank (index + 1 + 1) relevances ≡ some rank = ground (arith, later, e) in
      let rest = first_rank-IsFirst (index + 1) rank relevances next in
      record {
        before = r ∷ rest.before;
        first = rest.first;
        after = rest.after;
        parts = ap (◌∷◌ r) rest.parts;
        counted = omega (arith, rest.counted);
        relevant = rest.relevant;
        not_before = ground (arith, later, rest.not_before);
      }
]

-- The metrics of ranks agree with each other and with the relevances.
pub record Agrees {Score : Type 0} (metrics : CaseMetrics Score) (relevances : List ℤ)
    : Type 0 where
  pub first_hit : metrics.hit_at_1 ≡ rank_within 1 metrics.first_relevant_rank
  pub first_hits : metrics.hit_at_3 ≡ rank_within 3 metrics.first_relevant_rank
  pub ranked : (rank : ℕ) → metrics.first_relevant_rank ≡ some rank → IsFirst 0 relevances rank
  pub unranked : metrics.first_relevant_rank ≡ none → any is_positive relevances ≡ false

none_relevant :
    (index : ℕ) (relevances : List ℤ)
    → first_rank index relevances ≡ none
    → any is_positive relevances ≡ false
unfolding first_rank
none_relevant index [] e = refl
none_relevant index (r ∷ relevances) e = ground (arith, e, none_relevant (index + 1) relevances)

-- `compute_case_metrics` gives the relevances of all hits in their order; its first relevant rank
-- is that of the first relevant hit, counted from 1, and is missing where no hit is relevant; and
-- it reports a hit at 1 or at 3 exactly where that rank is there and at most 1 or 3.
pub compute_case_metrics-Agrees :
    {Score : Type 0} (ops : ScoreOps Score) (lower : Text → Text) (urlparse : Text → ParsedUrl)
    (case : CanonicalEvalCase) (hits : List EvalHit) (keyword_rules : List (Text × KeywordRule))
    (known_domains : List Text)
    → let (metrics, relevances) =
        compute_case_metrics ops lower urlparse case hits keyword_rules known_domains in
      Agrees metrics relevances
      × (relevances
          ≡ map (λ hit. hit_relevance lower urlparse case hit keyword_rules known_domains) hits)
unfolding compute_case_metrics metrics_of
compute_case_metrics-Agrees ops lower urlparse case hits keyword_rules known_domains =
    let relevances =
      map (λ hit. hit_relevance lower urlparse case hit keyword_rules known_domains) hits in
    (
      record {
        first_hit = first_rank-within 0 1 relevances;
        first_hits = first_rank-within 0 3 relevances;
        ranked = λ rank e. first_rank-IsFirst 0 rank relevances e;
        unranked = λ e. none_relevant 1 relevances e;
      },
      refl,
    )
