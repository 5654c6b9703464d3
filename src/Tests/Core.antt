-- ===== src/Tests/Core.antt =====
-- packages/core at concrete inputs.
use web_search.Prelude.{
  ℕ, ◌≡◌, refl, ◌↔◌, ◌⊎◌, none, some, List, [], ◌∷◌, ltb, if◌then◌else◌, nat_eq, list_eq, Text,
  codes,
}
use mathlib.Core.List.Perm
use web_search.Core.UrlAdmission.{
  Policy, DomainAdmissionRule, AdmissionDecision, allow, reject, invalid_url, evaluate,
  normalize_url, kept_query_pairs, domain_scope_denied,
}
use web_search.Core.UrlAdmission.Decisions.{IsAdmitted, evaluate-allow_iff}
use web_search.Core.UrlAdmission.Reports.{IsReported, evaluate-reports}
use web_search.Core.UrlAdmission.Query.{kept_query_pairs-perm}
use web_search.Core.Retry.{Call, returned, retryable, value, execute, Execution, execute-Execution}
use web_search.Tests.SimpleUrls.{simple_urls}

abbrev docs_rule : DomainAdmissionRule
docs_rule = record {
  domains = codes "github.com" ∷ [];
  allow_path_prefixes = codes "/docs" ∷ [];
  reject_path_prefixes = [];
  reject_path_contains = [];
  reject_query_params = [];
}

abbrev policy : Policy
policy = record {
  drop_query_params = codes "utm_source" ∷ [];
  reject_extensions = codes ".png" ∷ [];
  reject_path_prefixes = codes "/login" ∷ [];
  reject_path_contains = [];
  reject_query_params = codes "sid" ∷ [];
  domain_rules = docs_rule ∷ [];
}

abbrev denied : AdmissionDecision
denied = record {
  action = reject;
  normalized_url = some (codes "https://api.github.com/x");
  reason_code = some domain_scope_denied;
  scope_key = some (codes "github.com");
}

denied_runs : evaluate simple_urls policy (codes "HTTPS://api.GitHub.com:443/x") ≡ some denied
unfolding evaluate
denied_runs = refl

evaluate-allow_iff_example :
    (denied.action ≡ allow) ↔ IsAdmitted simple_urls policy (codes "HTTPS://api.GitHub.com:443/x")
evaluate-allow_iff_example =
    evaluate-allow_iff simple_urls policy (codes "HTTPS://api.GitHub.com:443/x") denied denied_runs

normal_runs :
    normalize_url simple_urls policy (codes "http://a.com:80/p?z=1&utm_source=x&b=2")
    ≡ some (codes "http://a.com/p?b=2&z=1")
unfolding normalize_url
normal_runs = refl

abbrev dropped : List Text
dropped = codes "utm_source" ∷ []

kept_query_pairs-perm_example :
    kept_query_pairs simple_urls dropped (codes "z=1&b=2")
    ≡ kept_query_pairs simple_urls dropped (codes "b=2&z=1")
kept_query_pairs-perm_example =
    kept_query_pairs-perm simple_urls dropped (codes "z=1&b=2") (codes "b=2&z=1")
      (Perm.swap (codes "b", codes "2") (codes "z", codes "1") [])

evaluate-reports_example :
    ((normalize_url simple_urls policy (codes "HTTPS://api.GitHub.com:443/x") ≡ none)
      × (denied.action ≡ reject)
      × (denied.reason_code ≡ some invalid_url))
    ⊎ IsReported simple_urls policy (codes "HTTPS://api.GitHub.com:443/x") denied
evaluate-reports_example =
    evaluate-reports simple_urls policy (codes "HTTPS://api.GitHub.com:443/x") denied denied_runs

-- The function fails twice before it returns.
abbrev third_time : ℕ → Call ℕ ℕ
third_time i = if ltb i 2 then retryable i else returned i

execute_runs : execute 3 third_time ≡ value 2
unfolding execute
execute_runs = refl

execute-Execution_example : Execution third_time 3 (execute 3 third_time)
execute-Execution_example = execute-Execution 3 third_time
