-- ===== src/Core/Retry.antt =====
-- packages/core/src/web_search_core/retry.py: `RetryPolicy.execute` and `is_exhausted`. `fn i` says
-- how call `i` of the function ends; the waits between the calls, which are floats with a random
-- part, are left out.
use web_search.Prelude.{
  ℕ, zero, suc, ◌+◌, ◌<◌, ◌≡◌, refl, sym, ◌⊎◌, inl, inr, Bool, true, false, Option, none, some,
  arith, leb, if◌then◌else◌, nat_eq, list_eq,
}
use mathlib.Core.Path.{subst}

pub data Call (T E : Type 0) : Type 0 where
  returned : T → Call T E
  retryable : E → Call T E
  fatal : E → Call T E

-- `nothing_to_raise` is `raise None`, which raises a `TypeError`.
pub data Executed (T E : Type 0) : Type 0 where
  value : T → Executed T E
  raised : E → Executed T E
  nothing_to_raise : Executed T E

unfoldable pub is_exhausted : (max_attempts retry_count : ℕ) → Bool
is_exhausted max_attempts retry_count = leb max_attempts retry_count

module _ {T E : Type 0} where
  abbrev pub raise_last : Option E → Executed T E
  raise_last none = nothing_to_raise
  raise_last (some e) = raised e

  -- `for attempt in range(max_attempts)`, with `last_exc` as its variable.
  unfoldable pub execute_loop :
      (ℕ → Call T E) → (max_attempts rounds attempt : ℕ) → Option E → Executed T E
  execute_loop fn max_attempts zero attempt last_exc = raise_last last_exc
  execute_loop fn max_attempts (suc rounds) attempt last_exc =
      let again = execute_loop fn max_attempts rounds (attempt + 1) in
      elim (fn attempt) [
        | returned t ↦ value t
        | fatal e ↦ raised e
        | retryable e ↦ if leb max_attempts (attempt + 1) then raised e else again (some e)
      ]

  unfoldable pub execute : (max_attempts : ℕ) → (ℕ → Call T E) → Executed T E
  unfolding execute_loop
  execute max_attempts fn = execute_loop fn max_attempts max_attempts 0 none

  -- The calls before `n` have all failed in a way that is tried again.
  abbrev pub Retried : (ℕ → Call T E) → ℕ → Type 0
  Retried fn zero = Unit
  Retried fn (suc n) = Retried fn n × (e : E) × (fn n ≡ retryable e)

  -- How an execution has come to its end.
  pub data Execution (fn : ℕ → Call T E) (max_attempts : ℕ) : Executed T E → Type 0 where
    succeeds :
        (n : ℕ) (t : T)
        → n < max_attempts
        → Retried fn n
        → fn n ≡ returned t
        → Execution fn max_attempts (value t)
    fails :
        (n : ℕ) (e : E)
        → n < max_attempts
        → Retried fn n
        → fn n ≡ fatal e
        → Execution fn max_attempts (raised e)
    gives_up :
        (n : ℕ) (e : E)
        → max_attempts ≡ n + 1
        → Retried fn n
        → fn n ≡ retryable e
        → Execution fn max_attempts (raised e)
    has_no_attempt : max_attempts ≡ 0 → Execution fn max_attempts nothing_to_raise

  call_cases :
      (c : Call T E)
      → ((t : T) × (c ≡ returned t)) ⊎ ((e : E) × (c ≡ fatal e)) ⊎ ((e : E) × (c ≡ retryable e))
  call_cases (returned t) = inl (t, refl)
  call_cases (fatal e) = inr (inl (e, refl))
  call_cases (retryable e) = inr (inr (e, refl))

  -- One more call that is tried again.
  once_more :
      (fn : ℕ → Call T E) (n : ℕ) (e : E) → Retried fn n → fn n ≡ retryable e → Retried fn (n + 1)
  once_more fn n e r c = let next : suc n ≡ n + 1 = omega arith in subst (Retried fn) next (r, e, c)

  again_is :
      (fn : ℕ → Call T E) (max_attempts rounds attempt : ℕ) (last_exc : Option E) (e : E)
      → fn attempt ≡ retryable e
      → leb max_attempts (attempt + 1) ≡ false
      → execute_loop fn max_attempts (suc (suc rounds)) attempt last_exc
        ≡ execute_loop fn max_attempts (suc rounds) (attempt + 1) (some e)
  unfolding execute_loop
  again_is fn max_attempts rounds attempt last_exc e c more = ground (arith, c, more)

  execute_loop-Execution :
      (fn : ℕ → Call T E) (max_attempts rounds attempt : ℕ) (last_exc : Option E)
      → attempt + suc rounds ≡ max_attempts
      → Retried fn attempt
      → Execution fn max_attempts (execute_loop fn max_attempts (suc rounds) attempt last_exc)
  unfolding execute_loop
  execute_loop-Execution fn max_attempts zero attempt last_exc h r =
      elim (call_cases (fn attempt)) [
        | inl (t, c) ↦ rw (c, execute_loop) (succeeds attempt t (omega (arith, h)) r c)
        | inr (inl (e, c)) ↦ rw (c, execute_loop) (fails attempt e (omega (arith, h)) r c)
        | inr (inr (e, c)) ↦
            let last : leb max_attempts (attempt + 1) ≡ true = ground (arith, h) in
            rw (c, last, execute_loop) (gives_up attempt e (omega (arith, h)) r c)
      ]
  execute_loop-Execution fn max_attempts (suc rounds) attempt last_exc h r =
      elim (call_cases (fn attempt)) [
        | inl (t, c) ↦ rw (c, execute_loop) (succeeds attempt t (omega (arith, h)) r c)
        | inr (inl (e, c)) ↦ rw (c, execute_loop) (fails attempt e (omega (arith, h)) r c)
        | inr (inr (e, c)) ↦
            let more : leb max_attempts (attempt + 1) ≡ false = ground (arith, h) in
            let rest =
              execute_loop-Execution fn max_attempts rounds (attempt + 1) (some e)
                (omega (arith, h)) (once_more fn attempt e r c) in
            subst (Execution fn max_attempts)
              (sym (again_is fn max_attempts rounds attempt last_exc e c more)) rest
      ]

  -- `execute` returns the value of the first call that is not to be tried again, or raises its
  -- error, where that call is among the first `max_attempts`; otherwise it raises the error of the
  -- last of these calls, or has nothing to raise where there is none.
  pub execute-Execution :
      (max_attempts : ℕ) (fn : ℕ → Call T E) → Execution fn max_attempts (execute max_attempts fn)
  unfolding execute
  execute-Execution zero fn = has_no_attempt refl
  execute-Execution (suc n) fn = execute_loop-Execution fn (suc n) n 0 none (omega arith) tt
