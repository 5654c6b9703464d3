-- ===== src/SearchConfig/Evaluator/Verdicts.antt =====
-- packages/search-config/src/web_search_search_config/evaluator.py: whether a case passes.
pub mod Agreement
use web_search.Prelude.{
  ℕ, zero, suc, ◌+◌, ◌-◌, ◌*◌, ◌/◌, ◌%◌, ◌^◌, ◌≤◌, ◌<◌, min, max, ◌≡◌, refl, sym, ap, ◌∙◌, ◌≢◌, ◌↔◌,
  ◌⊎◌, inl, inr, Bool, true, false, not, ◌&&◌, ◌||◌, Option, none, some, List, [], ◌∷◌, ◌++◌, map,
  reverse, Perm, Sublist, append-nil, append_assoc, arith, ltb, leb, nat_beq, if◌then◌else◌, ltb→lt,
  lt→ltb, leb→le, nat_beq_iff, Bool-cases, Option-cases, Bool-eq_of_iff, length, take, drop, any,
  all, keep, is_empty, length-append, length-take, take-append-drop, length-keep-le, any-append,
  keep-append, All, Any, Member, HasEq, ◌==◌, nat_eq, list_eq, list_beq, list_beq_iff, beq_refl,
  contains, contains_iff, update, occurrences, capped, occurrences-capped, capped-sublist,
  WithinQuota, take-capped-WithinQuota, sort_by, Sorted, sort_by-perm, sort_by-All, sort_by-Sorted,
  Text, codes, starts_with, ends_with, occurs_in, split, join, strip, lstrip, rstrip, is_space,
  from_last, ascii_lower, starts_with_iff, ends_with_iff, split-ne_nil, join-split, split-append,
  any-congr, any-or, any-false, keep-congr, keep-All, All-keep, All-append, any_iff, Any-map,
  All-map, All-of, beq_sym, text_leb, text_leb_total, text_leb_trans, unique, if_true, if_false,
  Tracks, Tracks-skip, Tracks-take, All-take, keep-All_of, keep_of_All, All-Member, capped-All,
  keep-All_both, All-members, some_pair, decimal, Sorted-eq_of_perm, keep-perm, text_leb_antisymm,
  text_leb_refl, sort_by-All_inv, All-split, contains-sort_by, ◌>>=◌, sort_by_of_Sorted,
  sort_by-Falling, Falling, sort_by-flag, if_cases, contains-append, contains-keep, pair_eq,
  pair_beq, pair_beq_iff, some_injective, ℤ, pos, negsuc, is_positive, is_negative, int_leb,
}
use web_search.SearchConfig.Cases.{CanonicalEvalCase}
use web_search.SearchConfig.Evaluator.{
  ParsedUrl, EvalHit, KeywordRule, or_number, domain_matches, extract_domain, normalize_url_domain,
  normalize_url_path, hit_matches_rule, explicit_rule, expects_homepage, is_homepage, any_domain,
  hit_relevance,
}

abbrev pub passes : Text → Text × Text
passes observation = (codes "pass", observation)

abbrev pub fails : Text → Text × Text
fails observation = (codes "fail", observation)

module _ (lower : Text → Text) (urlparse : Text → ParsedUrl) where
  -- The rule of the first test, and of the second.
  abbrev pub domain_rule : KeywordRule → KeywordRule
  domain_rule rule = record rule { required_terms = []; any_of_terms = [] }

  abbrev pub term_rule : KeywordRule → KeywordRule
  term_rule rule = record rule { required_domains = []; excluded_domains = [] }

  -- What a rule says of the hits, or `none` where it asks for neither domains nor terms.
  unfoldable pub rule_verdict : KeywordRule → List EvalHit → Option (Text × Text)
  unfolding hit_matches_rule
  rule_verdict rule hits =
      let rule_hits = take (or_number rule.max_match_rank 3) hits in
      let matching =
        keep (λ hit. hit_matches_rule lower urlparse hit (domain_rule rule)) rule_hits in
      if not (is_empty rule.required_domains)
      then some (
          if leb (or_number rule.minimum_domain_matches 1) (length matching)
          then passes rule.pass_reason
          else fails rule.fail_reason)
      else if not (is_empty rule.required_terms)
      then some (
          if any (λ hit. hit_matches_rule lower urlparse hit (term_rule rule)) rule_hits
          then passes rule.pass_reason
          else fails rule.fail_reason)
      else none

  -- The loop over the first hits of a navigational case.
  unfoldable pub is_destination : CanonicalEvalCase → (expected_domain : Text) → EvalHit → Bool
  unfolding domain_matches
  is_destination case expected_domain hit =
      domain_matches expected_domain (normalize_url_domain lower urlparse hit.url)
        (not (expects_homepage lower urlparse case))
      && not (
          expects_homepage lower urlparse case
          && not (is_homepage lower urlparse (normalize_url_path lower urlparse hit.url)))

  -- The verdict by the type of a case, for an expected domain that is not empty.
  unfoldable pub verdict_for_domain : CanonicalEvalCase → List EvalHit → Text → Text × Text
  unfolding is_destination domain_matches
  verdict_for_domain case top expected_domain =
      let domains = map (λ hit. normalize_url_domain lower urlparse hit.url) top in
      if list_beq case.query_type (codes "navigational")
      then (if any (is_destination case expected_domain) top
          then passes (codes "official destination is in top 3")
          else fails (codes "official destination missing from top 3"))
      else if occurs_in (codes "reference") case.query_type
      then (if any (λ domain. domain_matches expected_domain domain true) domains
          then passes (codes "canonical docs are in top 3")
          else fails (codes "canonical docs missing from top 3"))
      else if list_beq case.query_type (codes "news")
      then (if any (λ domain. occurs_in expected_domain domain) domains
          then passes (codes "expected source is in top 3")
          else fails (codes "expected source missing from top 3"))
      else if contains case.query_type
          (codes "overview" ∷ codes "troubleshooting" ∷ codes "comparison" ∷ codes "news" ∷ [])
      then fails (codes "no automatic pass rule matched")
      else fails (codes "unsupported query type")

  unfoldable pub verdict_without_domain : CanonicalEvalCase → Text × Text
  verdict_without_domain case =
      if list_beq case.query_type (codes "navigational")
        || occurs_in (codes "reference") case.query_type
      then fails (codes "no expected domain parsed")
      else if contains case.query_type
          (codes "overview" ∷ codes "troubleshooting" ∷ codes "comparison" ∷ codes "news" ∷ [])
      then fails (codes "no automatic pass rule matched")
      else fails (codes "unsupported query type")

  unfoldable pub verdict_by_type : CanonicalEvalCase → List EvalHit → Option Text → Text × Text
  unfolding verdict_for_domain verdict_without_domain
  verdict_by_type case top none = verdict_without_domain case
  verdict_by_type case top (some []) = verdict_without_domain case
  verdict_by_type case top (some (c ∷ cs)) = verdict_for_domain case top (c ∷ cs)

  -- What follows where no rule decides.
  unfoldable pub or_verdict : Option (Text × Text) → Text × Text → Text × Text
  or_verdict none verdict = verdict
  or_verdict (some decided) verdict = decided

  unfoldable pub classify_case :
      CanonicalEvalCase
      → List EvalHit
      → (total : ℕ) → List (Text × KeywordRule)
      → (known_domains : List Text) → Text × Text
  unfolding hit_relevance explicit_rule rule_verdict verdict_by_type extract_domain or_verdict
  classify_case case hits total keyword_rules known_domains =
      let top = take 3 hits in
      let expected_domain = extract_domain lower urlparse case.expected known_domains in
      let top_relevances =
        map (λ hit. hit_relevance lower urlparse case hit keyword_rules known_domains) top in
      let by_type = verdict_by_type case top expected_domain in
      let by_rule =
        explicit_rule lower urlparse case keyword_rules >>= λ rule. rule_verdict rule hits in
      if nat_beq total 0
      then fails (codes "0 hits")
      else if any is_negative top_relevances
      then fails (codes "explicitly bad result in top 3")
      else or_verdict by_rule by_type
