-- ===== src/Tests/Kernel.antt =====
-- packages/kernel at concrete inputs.
use web_search.Prelude.{
  ℕ, ◌≡◌, refl, false, List, [], ◌∷◌, take, nat_eq, list_eq, capped, WithinQuota, Text, codes,
}
use web_search.Kernel.Diversify.{diversify_hits, registered_domain, is_two_level_tld}
use web_search.Kernel.Diversify.Quota.{diversify_hits-capped, diversify_hits-WithinQuota}

abbrev domain : ℕ × ℕ → Text
domain hit = hit.0 ∷ []

abbrev hits : List (ℕ × ℕ)
hits = (1, 10) ∷ (1, 11) ∷ (2, 12) ∷ (1, 13) ∷ (3, 14) ∷ []

diversify_hits-capped_example : diversify_hits domain 3 2 hits ≡ take 3 (capped domain 2 [] hits)
diversify_hits-capped_example = diversify_hits-capped domain 3 2 hits

diversify_hits-WithinQuota_example : WithinQuota domain 2 3 hits (diversify_hits domain 3 2 hits)
diversify_hits-WithinQuota_example = diversify_hits-WithinQuota domain 3 2 hits

diversify_runs : diversify_hits domain 4 2 hits ≡ (1, 10) ∷ (1, 11) ∷ (2, 12) ∷ (3, 14) ∷ []
unfolding diversify_hits
diversify_runs = refl

registered_runs : registered_domain (codes "b.hatena.ne.jp") ≡ codes "hatena.ne.jp"
unfolding registered_domain
registered_runs = refl

github_plain : is_two_level_tld (codes "github.com") ≡ false
unfolding is_two_level_tld
github_plain = refl
