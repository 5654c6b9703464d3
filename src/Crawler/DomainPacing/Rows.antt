-- ===== src/Crawler/DomainPacing/Rows.antt =====
-- What the statements on `domain_state` do to the row of each domain.
use web_search.Prelude.{
  ℕ, ◌≡◌, refl, ap, ◌∙◌, inl, inr, Bool, true, false, none, some, List, [], ◌∷◌, ◌++◌, arith,
  nat_beq, if◌then◌else◌, Option-cases, is_empty, nat_eq, list_eq, list_beq, list_beq_iff, Text,
  if_true, if_false,
}
use web_search.Crawler.Store.{DomainRow, DelayOps, row_of}
use web_search.Crawler.DomainPacing.{
  new_row, ensure_missing_domain_state_rows, update_where, rowcount, update_or_insert,
  record_crawl_result, after_success, after_failure,
}

module _ {Delay : Type 0} (ops : DelayOps Delay) where
  abbrev KeepsDomain : (DomainRow Delay → DomainRow Delay) → Type 0
  KeepsDomain f = (s : DomainRow Delay) → (f s).domain ≡ s.domain

  row_of-domain :
      (d : Text) (t : List (DomainRow Delay)) (s : DomainRow Delay)
      → row_of d t ≡ some s
      → s.domain ≡ d
  unfolding row_of
  row_of-domain d [] s h = ground arith
  row_of-domain d (r ∷ t) s h = ground (arith, list_beq_iff r.domain d, row_of-domain d t s)

  pub row_of-update_where :
      (d e : Text) (f : DomainRow Delay → DomainRow Delay) (t : List (DomainRow Delay))
      → KeepsDomain f
      → row_of d (update_where ops e f t) ≡ (
          if list_beq e d
          then elim (row_of d t) [ none ↦ none | some s ↦ some (f s) ]
          else row_of d t)
  unfolding row_of update_where
  row_of-update_where d e f [] k = ground arith
  row_of-update_where d e f (r ∷ t) k = ground (
    arith,
    k r,
    list_beq_iff r.domain e,
    list_beq_iff r.domain d,
    list_beq_iff e d,
    row_of-update_where d e f t k,
  )

  rowcount-zero :
      (d : Text) (t : List (DomainRow Delay))
      → nat_beq (rowcount ops d t) 0 ≡ elim (row_of d t) [ none ↦ true | some _ ↦ false ]
  unfolding row_of rowcount
  rowcount-zero d [] = refl
  rowcount-zero d (r ∷ t) = ground (arith, rowcount-zero d t)

  pub row_of-append :
      (d : Text) (t : List (DomainRow Delay)) (r : DomainRow Delay)
      → row_of d (t ++ r ∷ []) ≡ elim (row_of d t) [
        | some s ↦ some s
        | none ↦ if list_beq r.domain d then some r else none
      ]
  unfolding row_of
  row_of-append d [] r = ground arith
  row_of-append d (s ∷ t) r = ground (arith, row_of-append d t r)

  insert_one :
      (now : ℕ) (e : Text) (t : List (DomainRow Delay))
      → is_empty e ≡ false
      → row_of e t ≡ none
      → ensure_missing_domain_state_rows ops now (e ∷ []) t ≡ t ++ new_row ops now e ∷ []
  unfolding ensure_missing_domain_state_rows
  insert_one now [] t filled absent = ground arith
  insert_one now (c ∷ e) t filled absent = ground (arith, absent)

  -- The row that an update starts from: a new one where there is none.
  abbrev pub present : ℕ → Text → List (DomainRow Delay) → DomainRow Delay
  present now e t = elim (row_of e t) [ none ↦ new_row ops now e | some s ↦ s ]

  absent-update_where :
      (e : Text) (f : DomainRow Delay → DomainRow Delay) (t : List (DomainRow Delay))
      → KeepsDomain f
      → row_of e t ≡ none
      → row_of e (update_where ops e f t) ≡ none
  absent-update_where e f t k absent = ground (arith, row_of-update_where e e f t k)

  update_or_insert_absent :
      (now : ℕ) (e : Text) (f : DomainRow Delay → DomainRow Delay) (t : List (DomainRow Delay))
      → is_empty e ≡ false
      → KeepsDomain f
      → row_of e t ≡ none
      → update_or_insert ops now e f t
        ≡ update_where ops e f (update_where ops e f t ++ new_row ops now e ∷ [])
  unfolding update_or_insert
  update_or_insert_absent now e f t filled k absent =
      let zero_rows : nat_beq (rowcount ops e t) 0 ≡ true = rw (rowcount-zero e t, absent) in
      let inserted =
        insert_one now e (update_where ops e f t) filled (absent-update_where e f t k absent) in
      if_true _ _ zero_rows ∙ ap (update_where ops e f) inserted

  update_or_insert_present :
      (now : ℕ) (e : Text) (f : DomainRow Delay → DomainRow Delay) (t : List (DomainRow Delay))
      (s : DomainRow Delay)
      → row_of e t ≡ some s
      → update_or_insert ops now e f t ≡ update_where ops e f t
  unfolding update_or_insert
  update_or_insert_present now e f t s found =
      let some_rows : nat_beq (rowcount ops e t) 0 ≡ false = rw (rowcount-zero e t, found) in
      if_false _ _ some_rows

  -- Updating the row of a domain, inserted where it is missing, leaves the other rows alone.
  pub update_or_insert-row_of :
      (now : ℕ) (d e : Text) (f : DomainRow Delay → DomainRow Delay) (t : List (DomainRow Delay))
      → is_empty e ≡ false
      → KeepsDomain f
      → row_of d (update_or_insert ops now e f t)
        ≡ (if list_beq e d then some (f (present now e t)) else row_of d t)
  unfolding new_row
  update_or_insert-row_of now d e f t filled k = elim (Option-cases (row_of e t)) [
    | inl absent ↦
        let u = update_where ops e f t in
        let r = new_row ops now e in
        rw (update_or_insert_absent now e f t filled k absent) (
          ground (
            arith,
            row_of-update_where d e f (u ++ r ∷ []) k,
            row_of-append d u r,
            row_of-update_where d e f t k,
            absent,
            list_beq_iff e d,
          ))
    | inr (s, found) ↦
        rw (update_or_insert_present now e f t s found, row_of-update_where d e f t k)
          (ground (arith, found, list_beq_iff e d))
  ]

  -- What `record_crawl_result` does to the row of its domain; the rows of other domains stay.
  pub record_crawl_result-row_of :
      (now : ℕ) (d e : Text) (is_success : Bool) (t : List (DomainRow Delay))
      → is_empty e ≡ false
      → row_of d (record_crawl_result ops now e is_success t) ≡ (
          if list_beq e d
          then some (
              if is_success
              then after_success ops now (present now e t)
              else after_failure ops now (present now e t))
          else row_of d t)
  unfolding record_crawl_result
  record_crawl_result-row_of now d e true t filled =
      rw filled (update_or_insert-row_of now d e (after_success ops now) t filled (λ s. refl))
  record_crawl_result-row_of now d e false t filled =
      rw filled (update_or_insert-row_of now d e (after_failure ops now) t filled (λ s. refl))
