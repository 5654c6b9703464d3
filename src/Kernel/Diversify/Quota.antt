-- ===== src/Kernel/Diversify/Quota.antt =====
-- What `diversify_hits` returns, against the quota of Prelude/Quota.antt.
use web_search.Prelude.{
  ℕ, zero, suc, ◌+◌, ◌≡◌, sym, inl, inr, List, [], ◌∷◌, ◌++◌, append-nil, append_assoc, arith, leb,
  Bool-cases, length, take, length-append, nat_eq, list_eq, update, capped, WithinQuota,
  take-capped-WithinQuota, Text, Tracks, Tracks-skip, Tracks-take,
}
use web_search.Kernel.Diversify.{diversify_loop, diversify_hits}

module _ {Hit : Type 0} (domain : Hit → Text) (limit cap : ℕ) where
  diversify_loop-capped :
      (hits : List Hit) (counts : Text → ℕ) (result : List Hit) (earlier : List Text) (room : ℕ)
      → Tracks cap counts earlier
      → limit ≡ length result + room
      → diversify_loop domain limit cap hits counts result
        ≡ result ++ take room (capped domain cap earlier hits)
  unfolding diversify_loop capped
  diversify_loop-capped [] counts result earlier zero t fits = sym (append-nil result)
  diversify_loop-capped [] counts result earlier (suc room) t fits = sym (append-nil result)
  diversify_loop-capped (hit ∷ hits) counts result earlier zero t fits =
      ground (arith, append-nil result)
  diversify_loop-capped (hit ∷ hits) counts result earlier (suc room) t fits =
      let j = domain hit in
      let skip = diversify_loop-capped hits counts result (j ∷ earlier) (suc room) in
      let taken =
        diversify_loop-capped hits (update counts j (counts j + 1)) (result ++ hit ∷ [])
          (j ∷ earlier) room in
      elim (Bool-cases (leb cap (counts j))) [
        | inl over ↦
            ground (arith, over, t j, skip (Tracks-skip cap counts earlier j t (ground arith)) fits)
        | inr under ↦ ground (
          arith,
          under,
          t j,
          length-append result (hit ∷ []),
          append_assoc result (hit ∷ []) (take room (capped domain cap (j ∷ earlier) hits)),
          taken (Tracks-take cap counts earlier j t (ground arith))
              (omega (arith, length-append result (hit ∷ []))),
        )
      ]

  -- `diversify_hits` returns the first `limit` of those hits that have fewer than
  -- `max_per_domain` earlier hits of their domain in the input.
  pub diversify_hits-capped :
      (hits : List Hit)
      → diversify_hits domain limit cap hits ≡ take limit (capped domain cap [] hits)
  unfolding diversify_hits
  diversify_hits-capped hits =
      diversify_loop-capped hits (λ _. 0) [] [] limit (λ k. omega arith) (omega arith)

  -- At most `limit` hits are returned, at most `max_per_domain` of any domain, in input order.
  pub diversify_hits-WithinQuota :
      (hits : List Hit) → WithinQuota domain cap limit hits (diversify_hits domain limit cap hits)
  diversify_hits-WithinQuota hits =
      rw (diversify_hits-capped hits) (take-capped-WithinQuota domain cap limit hits)
