-- ===== src/SearchConfig/Evaluator.antt =====
-- packages/search-config/src/web_search_search_config/evaluator.py: how well the hits of a query
-- are what a case expects. `urlparse` and `lower` are parameters; a field of a hit that is missing
-- is empty. Floats are left abstract (`ScoreOps`).
pub mod Metrics
pub mod Verdicts
use web_search.Prelude.{
  ℕ, zero, suc, ◌+◌, ◌-◌, ◌*◌, ◌/◌, ◌%◌, ◌^◌, ◌≤◌, ◌<◌, min, max, ◌≡◌, refl, sym, ap, ◌∙◌, ◌≢◌, ◌↔◌,
  ◌⊎◌, inl, inr, Bool, true, false, not, ◌&&◌, ◌||◌, Option, none, some, List, [], ◌∷◌, ◌++◌, map,
  reverse, Perm, Sublist, append-nil, append_assoc, arith, ltb, leb, nat_beq, if◌then◌else◌, ltb→lt,
  lt→ltb, leb→le, nat_beq_iff, Bool-cases, Option-cases, Bool-eq_of_iff, length, take, drop, any,
  all, keep, is_empty, length-append, length-take, take-append-drop, length-keep-le, any-append,
  keep-append, All, Any, Member, HasEq, ◌==◌, nat_eq, list_eq, list_beq, list_beq_iff, beq_refl,
  contains, contains_iff, update, occurrences, capped, occurrences-capped, capped-sublist,
  WithinQuota, take-capped-WithinQuota, sort_by, Sorted, sort_by-perm, sort_by-All, sort_by-Sorted,
  Text, codes, starts_with, ends_with, occurs_in, split, join, strip, lstrip, rstrip, is_space,
  from_last, ascii_lower, starts_with_iff, ends_with_iff, split-ne_nil, join-split, split-append,
  any-congr, any-or, any-false, keep-congr, keep-All, All-keep, All-append, any_iff, Any-map,
  All-map, All-of, beq_sym, text_leb, text_leb_total, text_leb_trans, unique, if_true, if_false,
  Tracks, Tracks-skip, Tracks-take, All-take, keep-All_of, keep_of_All, All-Member, capped-All,
  keep-All_both, All-members, some_pair, decimal, Sorted-eq_of_perm, keep-perm, text_leb_antisymm,
  text_leb_refl, sort_by-All_inv, All-split, contains-sort_by, ◌>>=◌, sort_by_of_Sorted,
  sort_by-Falling, Falling, sort_by-flag, if_cases, contains-append, contains-keep, pair_eq,
  pair_beq, pair_beq_iff, some_injective, ℤ, pos, negsuc, is_positive, is_negative, int_leb,
}
use web_search.SearchConfig.Cases.{EvalJudgment, CanonicalEvalCase, query_key, has_explicit_rule}

-- What is read of the result of `urlparse`.
pub record ParsedUrl : Type 0 where
  pub scheme : Text
  pub netloc : Text
  pub path : Text
  pub query : Text

pub record EvalHit : Type 0 where
  pub url : Text
  pub title : Text
  pub snip_plain : Text
  pub snip : Text

-- A rule for a query, which is not the empty dict; a list that is missing is empty.
pub record KeywordRule : Type 0 where
  pub required_terms : List Text
  pub any_of_terms : List Text
  pub required_title_terms : List Text
  pub required_domains : List Text
  pub excluded_domains : List Text
  pub required_paths : List Text
  pub required_path_terms : List Text
  pub minimum_domain_matches : Option ℕ
  pub max_match_rank : Option ℕ
  pub pass_reason : Text
  pub fail_reason : Text

-- The text before the next backtick, if there is one.
unfoldable pub until_tick : Text → Option Text
until_tick [] = none
until_tick (c ∷ s) =
    let rest = until_tick s in if nat_beq c b'`' then some [] else rest >>= λ t. some (c ∷ t)

-- The first match of the pattern for a text between backticks that is not empty.
unfoldable pub ticked : Text → Option Text
unfolding until_tick
ticked [] = none
ticked (c ∷ s) =
    let rest = ticked s in
    if nat_beq c b'`'
    then elim (until_tick s) [ none ↦ rest | some [] ↦ rest | some (d ∷ ds) ↦ some (d ∷ ds) ]
    else rest

-- The first domain that occurs.
unfoldable pub first_within : Text → List Text → Option Text
first_within text [] = none
first_within text (domain ∷ domains) =
    let rest = first_within text domains in if occurs_in domain text then some domain else rest

abbrev pub longer_first : Text → Text → Bool
longer_first a b = leb (length b) (length a)

-- `rule.get(…) or default`
abbrev pub or_number : Option ℕ → ℕ → ℕ
or_number none default = default
or_number (some n) default = if nat_beq n 0 then default else n

abbrev pub or_empty : Option Text → Text
or_empty none = []
or_empty (some t) = t

unfoldable pub domain_matches :
    (expected_domain actual_domain : Text) → (allow_subdomain : Bool) → Bool
domain_matches expected_domain actual_domain allow_subdomain =
    list_beq actual_domain expected_domain
    || list_beq actual_domain (codes "www." ++ expected_domain)
    || allow_subdomain && ends_with (b'.' ∷ expected_domain) actual_domain

-- The least of some numbers, and the greatest, from a first one on.
unfoldable pub least : ℤ → List ℤ → ℤ
least n [] = n
least n (k ∷ ks) = if int_leb n k then least n ks else least k ks

unfoldable pub greatest : ℤ → List ℤ → ℤ
greatest n [] = n
greatest n (k ∷ ks) = if int_leb k n then greatest n ks else greatest k ks

-- The rule under a key of a dictionary.
unfoldable pub rule_under : Text → List (Text × KeywordRule) → Option KeywordRule
rule_under key [] = none
rule_under key ((k, rule) ∷ rules) =
    let rest = rule_under key rules in if list_beq k key then some rule else rest

module _ (lower : Text → Text) (urlparse : Text → ParsedUrl) where
  unfoldable pub extract_domain : Text → (known_domains : List Text) → Option Text
  unfolding ticked first_within sort_by
  extract_domain text known_domains = elim (ticked text) [
    | some domain ↦ some (lower domain)
    | none ↦ first_within (lower text) (sort_by longer_first known_domains)
  ]

  abbrev pub normalize_url_domain : Text → Text
  normalize_url_domain url = let parsed = urlparse url in lower parsed.netloc

  abbrev pub normalize_url_path : Text → Text
  normalize_url_path url =
      let parsed = urlparse url in elim parsed.path [ [] ↦ codes "/" | c ∷ cs ↦ c ∷ cs ]

  unfoldable pub normalize_exact_url : Text → Text
  normalize_exact_url url =
      let parsed = urlparse url in
      let query = if is_empty parsed.query then [] else b'?' ∷ parsed.query in
      lower parsed.scheme ++ codes "://" ++ lower parsed.netloc ++ normalize_url_path url ++ query

  abbrev pub hit_text : EvalHit → Text
  hit_text hit = lower (join b' ' (hit.title ∷ hit.url ∷ hit.snip_plain ∷ hit.snip ∷ []))

  abbrev pub hit_title : EvalHit → Text
  hit_title hit = lower hit.title

  -- `any(domain_matches(d, domain, allow_subdomain=True) for d in domains)`
  abbrev pub any_domain : List Text → Text → Bool
  any_domain domains domain = any (λ d. domain_matches d domain true) domains

  unfoldable pub hit_matches_rule : EvalHit → KeywordRule → Bool
  unfolding domain_matches
  hit_matches_rule hit rule =
      let text = hit_text hit in
      let title = hit_title hit in
      let domain = normalize_url_domain hit.url in
      let path = normalize_url_path hit.url in
      if not (is_empty rule.required_domains) && not (any_domain rule.required_domains domain)
      then false
      else if not (is_empty rule.excluded_domains) && any_domain rule.excluded_domains domain
      then false
      else if not (is_empty rule.required_paths) && not (contains path rule.required_paths)
      then false
      else if not (is_empty rule.required_path_terms)
          && not (any (λ term. occurs_in term path) rule.required_path_terms)
      then false
      else if not (is_empty rule.required_title_terms)
          && not (all (λ term. occurs_in term title) rule.required_title_terms)
      then false
      else if not (is_empty rule.required_terms)
          && not (all (λ term. occurs_in term text) rule.required_terms)
      then false
      else not (
          not (is_empty rule.any_of_terms)
          && not (any (λ term. occurs_in term text) rule.any_of_terms))

  unfoldable pub judgment_matches_hit : EvalJudgment → EvalHit → Bool
  unfolding domain_matches normalize_exact_url
  judgment_matches_hit judgment hit =
      let normalized_url = if is_empty hit.url then [] else normalize_exact_url hit.url in
      let judged_url = or_empty judgment.url in
      let judged_domain = or_empty judgment.domain in
      let prefix = or_empty judgment.path_prefix in
      if not (is_empty judged_url) && not (list_beq normalized_url (normalize_exact_url judged_url))
      then false
      else if not (is_empty judged_domain)
          && not (domain_matches (lower judged_domain) (normalize_url_domain hit.url) true)
      then false
      else if not (is_empty prefix) && not (starts_with prefix (normalize_url_path hit.url))
      then false
      else not (
          not (is_empty judgment.title_terms)
          && not (all (λ term. occurs_in term (hit_title hit)) judgment.title_terms))

  unfoldable pub explicit_rule : CanonicalEvalCase → List (Text × KeywordRule) → Option KeywordRule
  unfolding query_key has_explicit_rule rule_under
  explicit_rule case keyword_rules =
      if has_explicit_rule case
      then some (record {
        required_terms = case.required_terms;
        any_of_terms = case.any_of_terms;
        required_title_terms = case.required_title_terms;
        required_domains = case.required_domains;
        excluded_domains = case.excluded_domains;
        required_paths = case.required_paths;
        required_path_terms = case.required_path_terms;
        minimum_domain_matches = some case.minimum_domain_matches;
        max_match_rank = case.max_match_rank;
        pass_reason = or_empty case.pass_reason;
        fail_reason = or_empty case.fail_reason;
      })
      else rule_under (query_key lower case) keyword_rules

  -- The relevances of the judgments that pass a test and match the hit.
  unfoldable pub matched_judgments : (ℤ → Bool) → List EvalJudgment → EvalHit → List ℤ
  unfolding judgment_matches_hit
  matched_judgments test judgments hit =
      map (λ j. j.relevance) (keep (λ j. test j.relevance && judgment_matches_hit j hit) judgments)

  abbrev pub expects_homepage : CanonicalEvalCase → Bool
  expects_homepage case = occurs_in (codes "homepage") (lower case.notes)

  -- `path in {"", "/"}`
  abbrev pub is_homepage : Text → Bool
  is_homepage path = list_beq path [] || list_beq path (codes "/")

  -- The relevance by the domain that a case expects.
  unfoldable pub expected_relevance : CanonicalEvalCase → EvalHit → (expected_domain : Text) → ℤ
  unfolding domain_matches
  expected_relevance case hit expected_domain =
      let domain = normalize_url_domain hit.url in
      let path = normalize_url_path hit.url in
      if list_beq case.query_type (codes "navigational")
      then if not (domain_matches expected_domain domain (not (expects_homepage case)))
        then pos 0
        else if expects_homepage case && not (is_homepage path)
        then pos 2
        else pos 3
      else if occurs_in (codes "reference") case.query_type
          && domain_matches expected_domain domain true
      then pos 3
      else if list_beq case.query_type (codes "news") && domain_matches expected_domain domain true
      then pos 3
      else pos 0

  -- `if not expected_domain: return 0`
  unfoldable pub relevance_by_domain : CanonicalEvalCase → EvalHit → Option Text → ℤ
  unfolding expected_relevance
  relevance_by_domain case hit none = pos 0
  relevance_by_domain case hit (some []) = pos 0
  relevance_by_domain case hit (some (c ∷ cs)) = expected_relevance case hit (c ∷ cs)

  unfoldable pub hit_relevance :
      CanonicalEvalCase → EvalHit → List (Text × KeywordRule) → (known_domains : List Text) → ℤ
  unfolding matched_judgments explicit_rule hit_matches_rule relevance_by_domain extract_domain
      least greatest
  hit_relevance case hit keyword_rules known_domains =
      elim (matched_judgments is_negative case.judgments hit) [
        | n ∷ ns ↦ least n ns
        | [] ↦ elim (explicit_rule case keyword_rules) [
          | some rule ↦ if hit_matches_rule hit rule then pos 3 else pos 0
          | none ↦ elim (matched_judgments is_positive case.judgments hit) [
            | n ∷ ns ↦ greatest n ns
            | [] ↦ relevance_by_domain case hit (extract_domain case.expected known_domains)
          ]
        ]
      ]
