-- ===== src/Crawler/DomainPacing/Backoff.antt =====
-- How long a domain is left alone after failures.
use web_search.Prelude.{
  ℕ, zero, suc, ◌+◌, ◌*◌, ◌^◌, ◌≤◌, ◌<◌, min, ◌≡◌, sym, ap, ◌∙◌, arith, nat_eq, list_eq,
}
use native.Mathlib.Nat.{pow-le-pow_right, pow-suc}
use web_search.Crawler.Store.{DomainRow, DelayOps}
use web_search.Crawler.DomainPacing.{pace, backoff_seconds}

module _ {Delay : Type 0} (ops : DelayOps Delay) where
  product_two : (p a : ℕ) → 0 < p → 2 ≤ a → 2 ≤ p * a
  product_two zero a h k = elim h [ ]
  product_two (suc p) a h k = grind arith

  doubled : (p n : ℕ) → min (p * 2 ^ suc n) 3600 ≡ min (2 * min (p * 2 ^ n) 3600) 3600
  doubled p n =
      let power = pow-suc 2 n in
      let same : p * 2 ^ suc n ≡ 2 * (p * 2 ^ n) = grind (arith, power) in omega (arith, same)

  -- A failure keeps a domain away for at least two seconds and at most an hour: for twice its pace
  -- after the first failure, for twice as long after each further one, and for no longer from the
  -- tenth on; an hour is the most in each case.
  pub backoff_seconds_doubles :
      (s : DomainRow Delay)
      → let next = record s { fail_streak = s.fail_streak + 1 } in
        (2 ≤ backoff_seconds ops s)
        × (backoff_seconds ops s ≤ 3600)
        × (s.fail_streak ≡ 0 → backoff_seconds ops s ≡ min (2 * pace ops s) 3600)
        × (s.fail_streak < 9 → backoff_seconds ops next ≡ min (2 * backoff_seconds ops s) 3600)
        × (9 ≤ s.fail_streak → backoff_seconds ops next ≡ backoff_seconds ops s)
  unfolding backoff_seconds
  backoff_seconds_doubles s =
      let power =
        pow-le-pow_right {n = 2} (omega arith) {i = 1} {j = min (s.fail_streak + 1) 10}
          (omega arith) in
      let product = product_two (pace ops s) (2 ^ min (s.fail_streak + 1) 10) (omega arith) power in
      (
        omega arith,
        omega arith,
        λ none. ap (λ e. min (pace ops s * 2 ^ min (e + 1) 10) 3600) none ∙ omega arith,
        λ few.
            let here : min (s.fail_streak + 1) 10 ≡ s.fail_streak + 1 = omega arith in
            let there : min (s.fail_streak + 1 + 1) 10 ≡ suc (s.fail_streak + 1) = omega arith in
            ap (λ e. min (pace ops s * 2 ^ e) 3600) there
            ∙ doubled (pace ops s) (s.fail_streak + 1)
            ∙ ap (λ e. min (2 * min (pace ops s * 2 ^ e) 3600) 3600) (sym here),
        λ many.
            let exponents : min (s.fail_streak + 1 + 1) 10 ≡ min (s.fail_streak + 1) 10 =
              omega arith in
            ap (λ e. min (pace ops s * 2 ^ e) 3600) exponents,
      )
