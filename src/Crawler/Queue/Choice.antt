-- ===== src/Crawler/Queue/Choice.antt =====
-- What `_choose_crawl_queue_candidates` chooses, against the quota of Prelude/Quota.antt.
use web_search.Prelude.{
  ℕ, zero, suc, ◌+◌, ◌-◌, ◌<◌, min, ◌≡◌, sym, inl, inr, false, List, [], ◌∷◌, ◌++◌, append-nil,
  append_assoc, arith, leb, Bool-cases, length, take, length-append, nat_eq, list_eq, update,
  occurrences, capped, Text, Tracks, Tracks-skip, Tracks-take,
}
use web_search.Crawler.Store.{QueueRow}
use web_search.Crawler.Queue.{choose_loop, choose_crawl_queue_candidates}

abbrev pub domain_of : QueueRow → Text
domain_of row = row.domain

module _ (count cap : ℕ) where
  -- The round that takes a row: it stops where the row is the last that fits.
  choose_more :
      (row : QueueRow) (rows : List QueueRow) (counts : Text → ℕ) (selected : List QueueRow)
      (earlier : List Text) (room : ℕ)
      → leb cap (counts row.domain) ≡ false
      → counts row.domain ≡ min cap (occurrences row.domain earlier)
      → count ≡ length selected + suc room
      → (count ≡ length (selected ++ row ∷ []) + suc (room - 1)
          → choose_loop count cap rows
              (update counts row.domain (counts row.domain + 1))
              (selected ++ row ∷ [])
            ≡ (selected ++ row ∷ [])
              ++ take (suc (room - 1)) (capped domain_of cap (row.domain ∷ earlier) rows))
      → choose_loop count cap (row ∷ rows) counts selected
        ≡ selected ++ take (suc room) (capped domain_of cap earlier (row ∷ rows))
  unfolding choose_loop capped
  choose_more row rows counts selected earlier zero under tj fits ih =
      ground (arith, length-append selected (row ∷ []))
  choose_more row rows counts selected earlier (suc room) under tj fits ih =
      let one_more = length-append selected (row ∷ []) in
      let rest = take (suc room) (capped domain_of cap (row.domain ∷ earlier) rows) in
      let same : suc (suc room - 1) ≡ suc room = omega arith in
      let step = rw same at (ih (omega (arith, one_more))) in
      ground (arith, one_more, step, append_assoc selected (row ∷ []) rest)

  choose_loop-capped :
      (rows : List QueueRow) (counts : Text → ℕ) (selected : List QueueRow) (earlier : List Text)
      (room : ℕ)
      → Tracks cap counts earlier
      → count ≡ length selected + suc room
      → choose_loop count cap rows counts selected
        ≡ selected ++ take (suc room) (capped domain_of cap earlier rows)
  unfolding choose_loop capped
  choose_loop-capped [] counts selected earlier room t fits = sym (append-nil selected)
  choose_loop-capped (row ∷ rows) counts selected earlier room t fits =
      let j = row.domain in
      let skip = choose_loop-capped rows counts selected (j ∷ earlier) room in
      elim (Bool-cases (leb cap (counts j))) [
        | inl over ↦
            ground (arith, over, t j, skip (Tracks-skip cap counts earlier j t (ground arith)) fits)
        | inr under ↦
            let tracked = Tracks-take cap counts earlier j t (ground arith) in
            choose_more row rows counts selected earlier room under (t j) fits (
              choose_loop-capped rows (update counts j (counts j + 1)) (selected ++ row ∷ [])
                (j ∷ earlier) (room - 1) tracked)
      ]

-- The loop chooses the first `count` of the candidates that have fewer than `max_per_domain`
-- earlier candidates of their domain.
pub choose-capped :
    (count cap : ℕ) (rows : List QueueRow)
    → 0 < count
    → choose_crawl_queue_candidates count cap rows ≡ take count (capped domain_of cap [] rows)
unfolding choose_crawl_queue_candidates
choose-capped zero cap rows h = absurd (omega arith)
choose-capped (suc n) cap rows h =
    choose_loop-capped (suc n) cap rows (λ _. 0) [] [] n (λ k. omega arith) (omega arith)
