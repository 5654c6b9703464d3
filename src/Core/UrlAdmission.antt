-- ===== src/Core/UrlAdmission.antt =====
-- packages/core/src/web_search_core/url_admission.py: which URLs are crawled, and under which
-- spelling they are known. The parser and printer of URLs and `str.lower`, whose tables are no
-- part of the repository, are the record `UrlLib`; an uncaught `ValueError` is `none`.
pub mod Decisions
pub mod Filters
pub mod Reports
pub mod Query
use web_search.Prelude.{
  ℕ, zero, suc, ◌+◌, ◌-◌, ◌*◌, ◌/◌, ◌%◌, ◌^◌, ◌≤◌, ◌<◌, min, max, ◌≡◌, refl, sym, ap, ◌∙◌, ◌≢◌, ◌↔◌,
  ◌⊎◌, inl, inr, Bool, true, false, not, ◌&&◌, ◌||◌, Option, none, some, List, [], ◌∷◌, ◌++◌, map,
  reverse, Perm, Sublist, append-nil, append_assoc, arith, ltb, leb, nat_beq, if◌then◌else◌, ltb→lt,
  lt→ltb, leb→le, nat_beq_iff, Bool-cases, Option-cases, Bool-eq_of_iff, length, take, drop, any,
  all, keep, is_empty, length-append, length-take, take-append-drop, length-keep-le, any-append,
  keep-append, All, Any, Member, HasEq, ◌==◌, nat_eq, list_eq, list_beq, list_beq_iff, beq_refl,
  contains, contains_iff, update, occurrences, capped, occurrences-capped, capped-sublist,
  WithinQuota, take-capped-WithinQuota, sort_by, Sorted, sort_by-perm, sort_by-All, sort_by-Sorted,
  Text, codes, starts_with, ends_with, occurs_in, split, join, strip, lstrip, rstrip, is_space,
  from_last, ascii_lower, starts_with_iff, ends_with_iff, split-ne_nil, join-split, split-append,
  any-congr, any-or, any-false, keep-congr, keep-All, All-keep, All-append, any_iff, Any-map,
  All-map, All-of, beq_sym, text_leb, text_leb_total, text_leb_trans, unique, if_true, if_false,
  Tracks, Tracks-skip, Tracks-take, All-take, keep-All_of, keep_of_All, All-Member, capped-All,
  keep-All_both, All-members, some_pair, decimal, Sorted-eq_of_perm, keep-perm, text_leb_antisymm,
  text_leb_refl, sort_by-All_inv, All-split, contains-sort_by, ◌>>=◌,
}

abbrev pub max_url_length : ℕ
max_url_length = 2083

-- What is read of the result of `urlsplit`; `port` is `none` where reading it raises.
pub record SplitUrl : Type 0 where
  pub scheme : Text
  pub hostname : Option Text
  pub port : Option (Option ℕ)
  pub path : Text
  pub query : Text

-- `urlencode` is total here: a text has no lone surrogates.
pub record UrlLib : Type 0 where
  pub lower : Text → Text
  pub urlsplit : Text → Option SplitUrl
  pub parse_qsl : Text → List (Text × Text)
  pub urlencode : List (Text × Text) → Text
  pub urlunsplit : (scheme netloc path query : Text) → Text

pub record DomainAdmissionRule : Type 0 where
  pub domains : List Text
  pub allow_path_prefixes : List Text
  pub reject_path_prefixes : List Text
  pub reject_path_contains : List Text
  pub reject_query_params : List Text

pub data Action : Type 0 where
  allow reject : Action

pub data ReasonCode : Type 0 where
  invalid_url filtered_extension filtered_path_prefix filtered_path_contains filtered_query_param :
      ReasonCode
  domain_scope_denied domain_path_prefix_denied domain_path_contains_denied
        domain_query_param_denied :
      ReasonCode

pub record AdmissionDecision : Type 0 where
  pub action : Action
  pub normalized_url : Option Text
  pub reason_code : Option ReasonCode
  pub scope_key : Option Text

-- The attributes of `URLAdmissionPolicy`.
pub record Policy : Type 0 where
  pub drop_query_params : List Text
  pub reject_extensions : List Text
  pub reject_path_prefixes : List Text
  pub reject_path_contains : List Text
  pub reject_query_params : List Text
  pub domain_rules : List DomainAdmissionRule

-- `path == prefix or path.startswith(prefix.rstrip("/") + "/")`
unfoldable pub under_prefix : Text → Text → Bool
under_prefix path prefix =
    list_beq path prefix || starts_with (rstrip (nat_beq b'/') prefix ++ b'/' ∷ []) path

-- `host == domain or host.endswith(f".{domain}")`, for some domain of the rule
unfoldable pub matches_domain_rule : Text → DomainAdmissionRule → Bool
matches_domain_rule host rule =
    any (λ domain. list_beq host domain || ends_with (b'.' ∷ domain) host) rule.domains

-- `query_keys & params`
unfoldable pub meets : List Text → List Text → Bool
meets query_keys params = any (λ key. contains key params) query_keys

-- What one round of the loop over `domain_rules` returns, if it returns.
unfoldable pub rule_verdict :
    (host lowered_path : Text) (query_keys : List Text) → DomainAdmissionRule → Option ReasonCode
unfolding under_prefix matches_domain_rule meets
rule_verdict host lowered_path query_keys rule =
    if not (matches_domain_rule host rule)
    then none
    else if not (is_empty rule.allow_path_prefixes)
        && not (any (under_prefix lowered_path) rule.allow_path_prefixes)
    then some domain_scope_denied
    else if any (under_prefix lowered_path) rule.reject_path_prefixes
    then some domain_path_prefix_denied
    else if any (λ token. occurs_in token lowered_path) rule.reject_path_contains
    then some domain_path_contains_denied
    else if meets query_keys rule.reject_query_params
    then some domain_query_param_denied
    else none

abbrev pub first_domain : DomainAdmissionRule → Option Text
first_domain rule = elim rule.domains [ [] ↦ none | d ∷ _ ↦ some d ]

unfoldable pub evaluate_rules :
    (normalized host lowered_path : Text) (query_keys : List Text)
    → List DomainAdmissionRule
    → AdmissionDecision
unfolding rule_verdict
evaluate_rules normalized host lowered_path query_keys [] = record {
  action = allow;
  normalized_url = some normalized;
  reason_code = none;
  scope_key = none;
}
evaluate_rules normalized host lowered_path query_keys (rule ∷ rules) =
    elim (rule_verdict host lowered_path query_keys rule) [
      | none ↦ evaluate_rules normalized host lowered_path query_keys rules
      | some reason ↦ record {
        action = reject;
        normalized_url = some normalized;
        reason_code = some reason;
        scope_key = first_domain rule;
      }
    ]

-- The four filters that come before the rules of the domains.
unfoldable pub filtered :
    Policy → (lowered_path : Text) (query_keys : List Text) → Option ReasonCode
unfolding under_prefix meets
filtered policy lowered_path query_keys =
    if elim (from_last b'.' lowered_path) [
      | none ↦ false
      | some extension ↦ contains extension policy.reject_extensions
    ]
    then some filtered_extension
    else if any (under_prefix lowered_path) policy.reject_path_prefixes
    then some filtered_path_prefix
    else if any (λ token. occurs_in token lowered_path) policy.reject_path_contains
    then some filtered_path_contains
    else if meets query_keys policy.reject_query_params
    then some filtered_query_param
    else none

-- `sorted(…, key=lambda item: (item[0], item[1]))`: pairs are compared as tuples.
unfoldable pub pair_before : Text × Text → Text × Text → Bool
pair_before a b = not (text_leb b.0 a.0) || list_beq a.0 b.0 && text_leb a.1 b.1

abbrev pub default_port : Text → Option ℕ
default_port scheme =
    if list_beq scheme (codes "http")
    then some 80
    else if list_beq scheme (codes "https")
    then some 443
    else none

-- `port and _DEFAULT_PORTS.get(scheme) != port`
unfoldable pub shown_port : Text → Option ℕ → Option ℕ
shown_port scheme none = none
shown_port scheme (some port) = if nat_beq port 0 then none else elim (default_port scheme) [
  | none ↦ some port
  | some usual ↦ if nat_beq usual port then none else some port
]

module _ (lib : UrlLib) where
  open lib use {lower, urlsplit, parse_qsl, urlencode, urlunsplit}

  -- `URLAdmissionPolicy.__init__`
  unfoldable pub new_policy : Policy → Policy
  new_policy given = record {
    drop_query_params = map lower given.drop_query_params;
    reject_extensions = map lower given.reject_extensions;
    reject_path_prefixes = map lower given.reject_path_prefixes;
    reject_path_contains = map lower given.reject_path_contains;
    reject_query_params = map lower given.reject_query_params;
    domain_rules = given.domain_rules;
  }

  unfoldable pub kept_query_pairs : List Text → Text → List (Text × Text)
  unfolding pair_before sort_by
  kept_query_pairs dropped query =
      sort_by pair_before (keep (λ pair. not (contains (lower pair.0) dropped)) (parse_qsl query))

  -- `(parts.hostname or "").lower()`
  abbrev pub host_of : SplitUrl → Text
  host_of parts = lower (elim parts.hostname [ none ↦ [] | some h ↦ h ])

  unfoldable pub build_url : Policy → (scheme host : Text) → SplitUrl → Option ℕ → Text
  unfolding shown_port kept_query_pairs decimal
  build_url policy scheme host parts port =
      let netloc : Text = elim (shown_port scheme port) [
        | none ↦ host
        | some p ↦ host ++ (b':' ∷ decimal p)
      ] in
      urlunsplit scheme netloc parts.path
        (urlencode (kept_query_pairs policy.drop_query_params parts.query))

  unfoldable pub normalize_parts : Policy → SplitUrl → Option Text
  unfolding build_url
  normalize_parts policy parts =
      let scheme = lower parts.scheme in
      let host = host_of parts in
      if not (list_beq scheme (codes "http") || list_beq scheme (codes "https"))
      then none
      else if is_empty host
      then none
      else do
        port ← parts.port
        let normalized = build_url policy scheme host parts port
        if ltb max_url_length (length normalized) then none else some normalized

  unfoldable pub normalize_url : Policy → Text → Option Text
  unfolding normalize_parts
  normalize_url policy url = if is_empty url then none else urlsplit url >>= normalize_parts policy

  -- `(parsed.path or "/").lower()`
  abbrev pub path_of : SplitUrl → Text
  path_of parsed = lower (elim parsed.path [ [] ↦ codes "/" | c ∷ p ↦ c ∷ p ])

  abbrev pub query_keys : SplitUrl → List Text
  query_keys parsed = map (λ pair. lower pair.0) (parse_qsl parsed.query)

  -- What `evaluate` does with the normal form.
  unfoldable pub decide : Policy → Text → SplitUrl → AdmissionDecision
  unfolding evaluate_rules filtered
  decide policy normalized parsed =
      let keys = query_keys parsed in
      elim (filtered policy (path_of parsed) keys) [
        | some reason ↦ record {
          action = reject;
          normalized_url = some normalized;
          reason_code = some reason;
          scope_key = none;
        }
        | none ↦
            evaluate_rules normalized (host_of parsed) (path_of parsed) keys policy.domain_rules
      ]

  abbrev pub invalid : AdmissionDecision
  invalid = record {
    action = reject;
    normalized_url = none;
    reason_code = some invalid_url;
    scope_key = none;
  }

  -- `evaluate` from the normal form on.
  evaluate_normalized : Policy → Option Text → Option AdmissionDecision
  evaluate_normalized policy none = some invalid
  evaluate_normalized policy (some normalized) =
      urlsplit normalized >>= λ parsed. some (decide policy normalized parsed)

  unfoldable pub evaluate : Policy → Text → Option AdmissionDecision
  unfolding normalize_url decide evaluate_normalized
  evaluate policy url = evaluate_normalized policy (normalize_url policy url)
