-- ===== src/Core/UrlAdmission/Decisions.antt =====
-- When `evaluate` allows a URL, and what it says of one that it rejects.
use web_search.Prelude.{
  ◌≡◌, refl, sym, ap, ◌∙◌, ◌↔◌, ◌⊎◌, inl, inr, true, false, Option, none, some, List, [], ◌∷◌,
  arith, Option-cases, any, is_empty, All, nat_eq, list_eq, Text, occurs_in, ◌>>=◌,
}
use mathlib.Core.Path.{subst}
use web_search.Core.UrlAdmission.Filters.{PassesFilters, filtered-PassesFilters}
use web_search.Core.UrlAdmission.{
  UrlLib, SplitUrl, Policy, DomainAdmissionRule, AdmissionDecision, allow, ReasonCode, under_prefix,
  matches_domain_rule, meets, rule_verdict, evaluate_rules, filtered, normalize_url, decide,
  evaluate, evaluate_normalized, host_of, path_of, query_keys,
}

-- A rule of a domain speaks against a URL: it covers the host, and the path is outside what it
-- allows or inside what it rejects, or the query has a parameter that it rejects.
pub record Objects (host lowered_path : Text) (query_keys : List Text) (rule : DomainAdmissionRule)
    : Type 0 where
  pub covers : matches_domain_rule host rule ≡ true
  pub against :
      ((is_empty rule.allow_path_prefixes ≡ false)
        × (any (under_prefix lowered_path) rule.allow_path_prefixes ≡ false))
      ⊎ (any (under_prefix lowered_path) rule.reject_path_prefixes ≡ true)
      ⊎ (any (λ token. occurs_in token lowered_path) rule.reject_path_contains ≡ true)
      ⊎ (meets query_keys rule.reject_query_params ≡ true)

pub rule_verdict-Objects :
    (host path : Text) (keys : List Text) (rule : DomainAdmissionRule) (reason : ReasonCode)
    → rule_verdict host path keys rule ≡ some reason
    → Objects host path keys rule
unfolding rule_verdict
rule_verdict-Objects host path keys rule reason h = ground arith

Objects-rule_verdict :
    (host path : Text) (keys : List Text) (rule : DomainAdmissionRule)
    → rule_verdict host path keys rule ≡ none
    → ¬ Objects host path keys rule
unfolding rule_verdict
Objects-rule_verdict host path keys rule h o = ground arith

-- A URL passes: it passes the filters and no rule objects.
pub record Passes (lib : UrlLib) (policy : Policy) (parsed : SplitUrl) : Type 0 where
  pub unfiltered : PassesFilters policy (path_of lib parsed) (query_keys lib parsed)
  pub no_objection :
      All
        (λ rule. ¬ Objects (host_of lib parsed) (path_of lib parsed) (query_keys lib parsed) rule)
        policy.domain_rules

evaluate_rules-allow :
    (n host path : Text) (keys : List Text) (rules : List DomainAdmissionRule)
    → (evaluate_rules n host path keys rules).action ≡ allow
    → All (λ rule. ¬ Objects host path keys rule) rules
unfolding evaluate_rules
evaluate_rules-allow n host path keys [] h = tt
evaluate_rules-allow n host path keys (rule ∷ rules) h =
    elim (Option-cases (rule_verdict host path keys rule)) [
      | inl passed ↦ (
        Objects-rule_verdict host path keys rule passed,
        evaluate_rules-allow n host path keys rules (rw (passed, evaluate_rules) at h),
      )
      | inr (reason, failed) ↦ absurd (ground (arith, failed))
    ]

allow-evaluate_rules :
    (n host path : Text) (keys : List Text) (rules : List DomainAdmissionRule)
    → All (λ rule. ¬ Objects host path keys rule) rules
    → (evaluate_rules n host path keys rules).action ≡ allow
unfolding evaluate_rules
allow-evaluate_rules n host path keys [] h = refl
allow-evaluate_rules n host path keys (rule ∷ rules) (fine, h) =
    elim (Option-cases (rule_verdict host path keys rule)) [
      | inl passed ↦ rw (passed, evaluate_rules) (allow-evaluate_rules n host path keys rules h)
      | inr (reason, failed) ↦
          absurd (fine (rule_verdict-Objects host path keys rule reason failed))
    ]

module _ (lib : UrlLib) (policy : Policy) where
  decide_iff :
      (n : Text) (parsed : SplitUrl)
      → ((decide lib policy n parsed).action ≡ allow) ↔ Passes lib policy parsed
  unfolding decide
  decide_iff n parsed =
      elim (Option-cases (filtered policy (path_of lib parsed) (query_keys lib parsed))) [
        | inl passed ↦ (
          λ h. record {
            unfiltered = (filtered-PassesFilters policy _ _).0 passed;
            no_objection =
                evaluate_rules-allow n _ _ _ policy.domain_rules (rw (passed, decide) at h);
          },
          λ p.
              rw (passed, decide) (allow-evaluate_rules n _ _ _ policy.domain_rules p.no_objection),
        )
        | inr (reason, failed) ↦ (
          λ h. absurd (ground (arith, failed)),
          λ p.
              let u = (filtered-PassesFilters policy _ _).1 p.unfiltered in
              absurd (ground (arith, failed, u)),
        )
      ]

  -- What it takes to be allowed: a normal form that can be parsed, and passes.
  pub record IsAdmitted (url : Text) : Type 0 where
    pub normalized : Text
    pub parsed : SplitUrl
    pub normal : normalize_url lib policy url ≡ some normalized
    pub split_again : lib.urlsplit normalized ≡ some parsed
    pub passes : Passes lib policy parsed

  bind_some {ℓ κ} :
      {A : Type ℓ} {B : Type κ} (o : Option A) (f : A → B) {b : B}
      → (o >>= λ a. some (f a)) ≡ some b
      → (a : A) × (o ≡ some a) × (f a ≡ b)
  bind_some none f h = ground arith
  bind_some (some a) f h = (a, refl, ground arith)

  allowed_normalized :
      (url : Text) (o : Option Text) (d : AdmissionDecision)
      → normalize_url lib policy url ≡ o
      → evaluate_normalized lib policy o ≡ some d
      → (d.action ≡ allow) ↔ IsAdmitted url
  unfolding evaluate_normalized
  allowed_normalized url none d normal h =
      (λ a. absurd (ground (arith, h)), λ p. let q = p.normal in absurd (ground (arith, normal, q)))
  allowed_normalized url (some n) d normal h =
      let (parsed, split_again, same) = bind_some (lib.urlsplit n) (decide lib policy n) h in
      let (to, from) = decide_iff n parsed in
      (
        λ a. record {
          normalized = n;
          parsed = parsed;
          normal = normal;
          split_again = split_again;
          passes = to (ap (λ e. e.action) same ∙ a);
        },
        λ p.
            let normal' = p.normal in
            let split' = p.split_again in
            let names : n ≡ p.normalized = ground (arith, normal, normal') in
            let parts : p.parsed ≡ parsed = cc (names, split_again, split') in
            ap (λ e. e.action) (sym same) ∙ from (subst (Passes lib policy) parts p.passes),
      )

  -- A URL is allowed exactly when it has a normal form whose extension is not rejected, whose path
  -- is under none of the rejected prefixes and has none of the rejected parts, whose query has no
  -- rejected parameter, and to which no rule that covers its host objects.
  pub evaluate-allow_iff :
      (url : Text) (d : AdmissionDecision)
      → evaluate lib policy url ≡ some d
      → (d.action ≡ allow) ↔ IsAdmitted url
  evaluate-allow_iff url d h =
      allowed_normalized url (normalize_url lib policy url) d refl (unfold evaluate in h)
