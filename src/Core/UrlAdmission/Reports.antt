-- ===== src/Core/UrlAdmission/Reports.antt =====
-- What a decision says besides allowing and rejecting, and how long a known URL can be.
use web_search.Prelude.{
  ◌≤◌, ◌≡◌, refl, ◌⊎◌, inl, inr, Option, none, some, List, [], ◌∷◌, arith, Option-cases, length,
  Any, nat_eq, list_eq, Text,
}
use mathlib.Core.Path.{subst}
use web_search.Core.UrlAdmission.{
  UrlLib, SplitUrl, Policy, DomainAdmissionRule, AdmissionDecision, allow, reject, ReasonCode,
  invalid_url, rule_verdict, evaluate_rules, filtered, first_domain, normalize_url, normalize_parts,
  decide, evaluate, evaluate_normalized, host_of, path_of, query_keys, max_url_length,
}
use web_search.Core.UrlAdmission.Decisions.{Objects, rule_verdict-Objects}

-- A decision names a reason exactly where it rejects, and a scope only where the first objecting
-- rule of a domain decided.
pub record IsCoherent (policy : Policy) (host path : Text) (keys : List Text) (n : Text)
    (d : AdmissionDecision) : Type 0 where
  pub names_url : d.normalized_url ≡ some n
  pub allowed : d.action ≡ allow → (d.reason_code ≡ none) × (d.scope_key ≡ none)
  pub rejected : d.action ≡ reject → (r : ReasonCode) × (d.reason_code ≡ some r)
  pub scoped :
      (s : Text)
      → d.scope_key ≡ some s
      → Any (λ rule. Objects host path keys rule × (first_domain rule ≡ some s)) policy.domain_rules

module _ (n host path : Text) (keys : List Text) where
  evaluate_rules-shape :
      (rules : List DomainAdmissionRule)
      → let d = evaluate_rules n host path keys rules in
        (d.normalized_url ≡ some n)
        × (d.action ≡ allow → (d.reason_code ≡ none) × (d.scope_key ≡ none))
        × (d.action ≡ reject → (r : ReasonCode) × (d.reason_code ≡ some r))
  unfolding evaluate_rules
  evaluate_rules-shape [] = (refl, λ h. (refl, refl), λ h. absurd (ground arith))
  evaluate_rules-shape (rule ∷ rules) = elim (Option-cases (rule_verdict host path keys rule)) [
    | inl passed ↦ rw (passed, evaluate_rules) (evaluate_rules-shape rules)
    | inr (reason, failed) ↦
        rw (failed, evaluate_rules) (refl, λ h. absurd (ground arith), λ h. (reason, refl))
  ]

  evaluate_rules-scope :
      (rules : List DomainAdmissionRule) (s : Text)
      → (evaluate_rules n host path keys rules).scope_key ≡ some s
      → Any (λ rule. Objects host path keys rule × (first_domain rule ≡ some s)) rules
  unfolding evaluate_rules
  evaluate_rules-scope [] s h = ground arith
  evaluate_rules-scope (rule ∷ rules) s h = elim (Option-cases (rule_verdict host path keys rule)) [
    | inl passed ↦ inr (evaluate_rules-scope rules s (rw (passed, evaluate_rules) at h))
    | inr (reason, failed) ↦
        inl
          (rule_verdict-Objects host path keys rule reason failed, rw (failed, evaluate_rules) at h)
  ]

module _ (lib : UrlLib) (policy : Policy) where
  abbrev pub Coherent : Text → SplitUrl → AdmissionDecision → Type 0
  Coherent n parsed d =
      IsCoherent policy (host_of lib parsed) (path_of lib parsed) (query_keys lib parsed) n d

  decide-IsCoherent :
      (n : Text) (parsed : SplitUrl) → Coherent n parsed (decide lib policy n parsed)
  unfolding decide
  decide-IsCoherent n parsed =
      let host = host_of lib parsed in
      let path = path_of lib parsed in
      let keys = query_keys lib parsed in
      let (url, allowed, rejected) = evaluate_rules-shape n host path keys policy.domain_rules in
      elim (Option-cases (filtered policy path keys)) [
        | inl passed ↦
            rw (passed, decide)
              (record {
                names_url = url;
                allowed = allowed;
                rejected = rejected;
                scoped = evaluate_rules-scope n host path keys policy.domain_rules;
              })
        | inr (reason, failed) ↦
            rw (failed, decide)
              (record {
                names_url = refl;
                allowed = λ h. absurd (ground arith);
                rejected = λ h. (reason, refl);
                scoped = λ s h. absurd (ground arith);
              })
      ]

  normalize_parts-length :
      (parts : SplitUrl) (n : Text)
      → normalize_parts lib policy parts ≡ some n
      → length n ≤ max_url_length
  unfolding normalize_parts
  normalize_parts-length parts n h = ground arith

  -- The normal form of a URL is never longer than the limit.
  normalize_url-length :
      (url n : Text) → normalize_url lib policy url ≡ some n → length n ≤ max_url_length
  unfolding normalize_url
  normalize_url-length url n h = elim (Option-cases (lib.urlsplit url)) [
    | inl bad ↦ absurd (ground (arith, bad))
    | inr (parts, good) ↦ normalize_parts-length parts n (ground (arith, good))
  ]

  -- A decision on a URL that has a normal form.
  pub record IsReported (url : Text) (d : AdmissionDecision) : Type 0 where
    pub n : Text
    pub parsed : SplitUrl
    pub normal : normalize_url lib policy url ≡ some n
    pub split_again : lib.urlsplit n ≡ some parsed
    pub coherent : Coherent n parsed d

  reports_from :
      (url : Text) (o : Option Text) (d : AdmissionDecision)
      → normalize_url lib policy url ≡ o
      → evaluate_normalized lib policy o ≡ some d
      → ((normalize_url lib policy url ≡ none)
          × (d.action ≡ reject)
          × (d.reason_code ≡ some invalid_url))
        ⊎ IsReported url d
  unfolding evaluate_normalized
  reports_from url none d normal h = inl (normal, ground (arith, h), ground (arith, h))
  reports_from url (some n) d normal h = elim (Option-cases (lib.urlsplit n)) [
    | inl bad ↦ absurd (ground (arith, bad))
    | inr (parsed, good) ↦
        let same : decide lib policy n parsed ≡ d = ground (arith, good, h) in
        inr (record {
          n = n;
          parsed = parsed;
          normal = normal;
          split_again = good;
          coherent = subst (Coherent n parsed) same (decide-IsCoherent n parsed);
        })
  ]

  -- A decision is a rejection for `invalid_url` where the URL has no normal form. Else it names
  -- the normal form, it has a reason exactly where it rejects, and its scope, if any, is the first
  -- domain of a rule that covers the host and objects.
  pub evaluate-reports :
      (url : Text) (d : AdmissionDecision)
      → evaluate lib policy url ≡ some d
      → ((normalize_url lib policy url ≡ none)
          × (d.action ≡ reject)
          × (d.reason_code ≡ some invalid_url))
        ⊎ IsReported url d
  evaluate-reports url d h =
      reports_from url (normalize_url lib policy url) d refl (unfold evaluate in h)
