-- ===== src/SearchConfig/Evaluator/Verdicts/Agreement.antt =====
-- The verdict on a case and the relevances of its hits.
use web_search.Prelude.{
  ℕ, ◌≡◌, refl, ap, ◌∙◌, inl, inr, Bool, true, false, not, ◌&&◌, ◌||◌, none, some, List, [], ◌∷◌,
  map, arith, nat_beq, Bool-cases, take, any, nat_eq, list_eq, list_beq, Text, codes, occurs_in,
  any-congr, any-false, pair_eq, ℤ, pos, negsuc, is_positive, is_negative,
}
use web_search.SearchConfig.Cases.{CanonicalEvalCase}
use web_search.SearchConfig.Evaluator.{
  ParsedUrl, EvalHit, KeywordRule, domain_matches, extract_domain, normalize_url_domain,
  matched_judgments, explicit_rule, expected_relevance, relevance_by_domain, hit_relevance,
}
use web_search.SearchConfig.Evaluator.Verdicts.{
  is_destination, verdict_for_domain, verdict_by_type, or_verdict, classify_case,
}

-- The full relevance is 3.
abbrev pub is_full : ℤ → Bool
is_full (pos n) = nat_beq n 3
is_full (negsuc n) = false

any-map {ℓ κ} :
    {A : Type ℓ} {B : Type κ} (p : B → Bool) (f : A → B) (xs : List A)
    → any p (map f xs) ≡ any (λ x. p (f x)) xs
any-map p f [] = refl
any-map p f (x ∷ xs) = ground (arith, any-map p f xs)

module _ (lower : Text → Text) (urlparse : Text → ParsedUrl) (case : CanonicalEvalCase)
    (keyword_rules : List (Text × KeywordRule)) (known_domains : List Text) where
  abbrev relevance : EvalHit → ℤ
  relevance hit = hit_relevance lower urlparse case hit keyword_rules known_domains

  -- A case that is judged by the domain that it expects: navigational, or for a reference.
  pub record ByDomain : Type 0 where
    pub unjudged : case.judgments ≡ []
    pub unruled : explicit_rule lower urlparse case keyword_rules ≡ none
    pub first : ℕ
    pub others : Text
    pub expected : extract_domain lower urlparse case.expected known_domains ≡ some (first ∷ others)
    pub typed :
        (list_beq case.query_type (codes "navigational")
          || occurs_in (codes "reference") case.query_type)
        ≡ true

  no_judgments :
      (test : ℤ → Bool) (hit : EvalHit)
      → ByDomain
      → matched_judgments lower urlparse test case.judgments hit ≡ []
  unfolding matched_judgments
  no_judgments test hit d = ap (λ js. matched_judgments lower urlparse test js hit) d.unjudged

  relevance_at :
      (hit : EvalHit) (d : ByDomain)
      → relevance hit ≡ expected_relevance lower urlparse case hit (d.first ∷ d.others)
  unfolding hit_relevance relevance_by_domain
  relevance_at hit d =
      rw (no_judgments is_negative hit d, hit_relevance)
        (rw (d.unruled) (rw (no_judgments is_positive hit d) (rw (d.expected) refl)))

  full_nav :
      (hit : EvalHit) (domain : Text)
      → list_beq case.query_type (codes "navigational") ≡ true
      → is_full (expected_relevance lower urlparse case hit domain)
        ≡ is_destination lower urlparse case domain hit
  unfolding expected_relevance is_destination
  full_nav hit domain nav = ground (arith, nav)

  full_ref :
      (hit : EvalHit) (domain : Text)
      → list_beq case.query_type (codes "navigational") ≡ false
      → occurs_in (codes "reference") case.query_type ≡ true
      → is_full (expected_relevance lower urlparse case hit domain)
        ≡ domain_matches domain (normalize_url_domain lower urlparse hit.url) true
  unfolding expected_relevance
  full_ref hit domain other ref = ground (arith, other, ref)

  never_bad :
      (hit : EvalHit) (domain : Text)
      → is_negative (expected_relevance lower urlparse case hit domain) ≡ false
  unfolding expected_relevance
  never_bad hit domain = ground arith

  abbrev passed : Text × Text → Bool
  passed verdict = list_beq verdict.0 (codes "pass")

  verdict-passed :
      (top : List EvalHit) (domain : Text)
      → (list_beq case.query_type (codes "navigational")
          || occurs_in (codes "reference") case.query_type)
        ≡ true
      → passed (verdict_for_domain lower urlparse case top domain)
        ≡ any (λ hit. is_full (expected_relevance lower urlparse case hit domain)) top
  unfolding verdict_for_domain
  verdict-passed top domain typed =
      elim (Bool-cases (list_beq case.query_type (codes "navigational"))) [
        | inl nav ↦
            let same =
              any-congr (λ hit. is_full (expected_relevance lower urlparse case hit domain))
                (is_destination lower urlparse case domain) top (λ hit. full_nav hit domain nav) in
            ground (arith, nav, same)
        | inr other ↦
            let ref : occurs_in (codes "reference") case.query_type ≡ true =
              ground (arith, typed, other) in
            let same =
              any-congr (λ hit. is_full (expected_relevance lower urlparse case hit domain))
                (λ hit. domain_matches domain (normalize_url_domain lower urlparse hit.url) true)
                top (λ hit. full_ref hit domain other ref) in
            let mapped =
              any-map (λ d. domain_matches domain d true)
                (λ (hit : EvalHit). normalize_url_domain lower urlparse hit.url) top in
            ground (arith, other, ref, same, mapped)
      ]

  -- A case without rules and judgments, which is navigational or for a reference and expects a
  -- domain, passes in `classify_case` exactly where the search has results and one of the first
  -- three hits has the full relevance, 3, in `hit_relevance`.
  pub classify_case-passed :
      (hits : List EvalHit) (total : ℕ)
      → ByDomain
      → list_beq
          (classify_case lower urlparse case hits total keyword_rules known_domains).0
          (codes "pass")
        ≡ (not (nat_beq total 0) && any is_full (map relevance (take 3 hits)))
  unfolding classify_case or_verdict verdict_by_type
  classify_case-passed hits total d =
      let top = take 3 hits in
      let domain = d.first ∷ d.others in
      let bad =
        any-map is_negative relevance top
        ∙ any-congr (λ hit. is_negative (relevance hit)) (λ _. false) top
            (λ hit. ap is_negative (relevance_at hit d) ∙ never_bad hit domain)
        ∙ any-false top in
      let full =
        any-map is_full relevance top
        ∙ any-congr (λ hit. is_full (relevance hit))
            (λ hit. is_full (expected_relevance lower urlparse case hit domain)) top
            (λ hit. ap is_full (relevance_at hit d)) in
      let verdict = verdict-passed top domain d.typed in
      rw (d.unruled, classify_case) (rw (d.expected) (ground (arith, bad, full, verdict)))
