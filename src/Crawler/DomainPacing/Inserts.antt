-- ===== src/Crawler/DomainPacing/Inserts.antt =====
-- Which rows the inserts into `domain_state` add.
use web_search.Prelude.{
  ℕ, ◌≡◌, refl, ap, ◌∙◌, inl, inr, Bool, false, not, ◌&&◌, none, some, List, [], ◌∷◌, ◌++◌, arith,
  if◌then◌else◌, Bool-cases, Option-cases, keep, is_empty, nat_eq, list_eq, list_beq, list_beq_iff,
  beq_refl, contains, Text, beq_sym, text_leb, unique, contains-sort_by,
}
use web_search.Crawler.Store.{DomainRow, DelayOps, row_of}
use web_search.Crawler.DomainPacing.{
  new_row, insert_rows, unique_domains, ensure_domain_state_rows, set_domain_crawl_delay,
}
use web_search.Crawler.DomainPacing.Rows.{row_of-append, row_of-update_where, present}

contains-keep :
    (p : Text → Bool) (d : Text) (l : List Text) → contains d (keep p l) ≡ (p d && contains d l)
contains-keep p d [] = ground arith
contains-keep p d (x ∷ l) = elim (Bool-cases (list_beq d x)) [
  | inl same ↦
      let e = (list_beq_iff d x).0 same in rw e (ground (arith, beq_refl x, contains-keep p x l))
  | inr other ↦ ground (arith, other, contains-keep p d l)
]

contains-unique : (d : Text) (l : List Text) → contains d (unique l) ≡ contains d l
contains-unique d [] = refl
contains-unique d (x ∷ l) = elim (Bool-cases (list_beq d x)) [
  | inl same ↦
      let e = (list_beq_iff d x).0 same in rw e (ground (arith, beq_refl x, contains-unique x l))
  | inr other ↦ ground (arith, other, contains-unique d l)
]

module _ {Delay : Type 0} (ops : DelayOps Delay) (now : ℕ) where
  -- The domains of a batch, without the empty one.
  contains-unique_domains :
      (d : Text) (domains : List Text)
      → contains d (unique_domains ops domains) ≡ (not (is_empty d) && contains d domains)
  unfolding unique_domains
  contains-unique_domains d domains =
      let named = keep (λ d. not (is_empty d)) domains in
      contains-sort_by text_leb d (unique named)
      ∙ contains-unique d named
      ∙ contains-keep (λ d. not (is_empty d)) d domains

  -- No domains are no rows.
  ensure_as_insert :
      (domains : List Text) (t : List (DomainRow Delay))
      → ensure_domain_state_rows ops now domains t
        ≡ insert_rows ops now (unique_domains ops domains) t
  unfolding ensure_domain_state_rows
  ensure_as_insert domains t = by_length (unique_domains ops domains)
    where
      by_length :
          (wanted : List Text)
          → (if is_empty wanted then t else insert_rows ops now wanted t)
            ≡ insert_rows ops now wanted t
      by_length [] = refl
      by_length (x ∷ xs) = refl

  row_of-insert_rows :
      (d : Text) (ds : List Text) (t : List (DomainRow Delay))
      → row_of d (insert_rows ops now ds t) ≡ elim (row_of d t) [
        | some s ↦ some s
        | none ↦ if contains d ds then some (new_row ops now d) else none
      ]
  unfolding insert_rows new_row
  row_of-insert_rows d [] t = ground arith
  row_of-insert_rows d (e ∷ ds) t = elim (Option-cases (row_of e t)) [
    | inl absent ↦
        let r = new_row ops now e in
        let rest = row_of-insert_rows d ds (t ++ r ∷ []) in
        elim (Bool-cases (list_beq d e)) [
          | inl same ↦
              let one = (list_beq_iff d e).0 same in
              ground (arith, absent, rest, row_of-append ops d t r, same, one, beq_refl e)
          | inr other ↦
              ground (arith, absent, rest, row_of-append ops d t r, other, beq_sym {A = Text} d e)
        ]
    | inr (s, found) ↦
        let rest = row_of-insert_rows d ds t in
        elim (Bool-cases (list_beq d e)) [
          | inl same ↦ let one = (list_beq_iff d e).0 same in ground (arith, found, rest, same, one)
          | inr other ↦ ground (arith, found, rest, other)
        ]
  ]

  -- After `ensure_domain_state_rows` every domain of the batch that is not empty has a row, a new
  -- one where it had none; the rows that were there are as they were.
  pub ensure_domain_state_rows-row_of :
      (d : Text) (domains : List Text) (t : List (DomainRow Delay))
      → row_of d (ensure_domain_state_rows ops now domains t) ≡ elim (row_of d t) [
        | some s ↦ some s
        | none ↦ if not (is_empty d) && contains d domains then some (new_row ops now d) else none
      ]
  ensure_domain_state_rows-row_of d domains t =
      ap (row_of d) (ensure_as_insert domains t)
      ∙ row_of-insert_rows d (unique_domains ops domains) t
      ∙ ap
          (λ b. elim (row_of d t) [
            | some s ↦ some s
            | none ↦ if b then some (new_row ops now d) else none
          ])
          (contains-unique_domains d domains)

  row_of-ensure_one :
      (d e : Text) (t : List (DomainRow Delay))
      → is_empty e ≡ false
      → row_of d (ensure_domain_state_rows ops now (e ∷ []) t)
        ≡ (if list_beq e d then some (present ops now e t) else row_of d t)
  row_of-ensure_one d e t filled = elim (Bool-cases (list_beq e d)) [
    | inl same ↦
        let one = (list_beq_iff e d).0 same in
        let filled_d : is_empty d ≡ false = rw one at filled in
        rw (ensure_domain_state_rows-row_of d (e ∷ []) t, one)
          (ground (arith, beq_refl d, filled_d))
    | inr other ↦
        ensure_domain_state_rows-row_of d (e ∷ []) t ∙ ground (arith, other, beq_sym {A = Text} d e)
  ]

  -- `set_domain_crawl_delay` for a domain that is not empty changes the row of that domain, or
  -- a new one where there was none, to the greater of its delay and the given one, which counts as
  -- 0 if it is less; the rows of other domains are as they were.
  pub set_domain_crawl_delay-row_of :
      (d e : Text) (delay : Delay) (t : List (DomainRow Delay))
      → is_empty e ≡ false
      → row_of d (set_domain_crawl_delay ops now e delay t) ≡ (
          if list_beq e d
          then some (record (present ops now e t) {
            crawl_delay_sec =
                ops.greatest
                  (present ops now e t).crawl_delay_sec
                  (ops.greatest delay ops.zero_delay);
            updated_at = now;
          })
          else row_of d t)
  unfolding set_domain_crawl_delay
  set_domain_crawl_delay-row_of d e delay t filled =
      let f : DomainRow Delay → DomainRow Delay = λ s. record s {
        crawl_delay_sec = ops.greatest s.crawl_delay_sec (ops.greatest delay ops.zero_delay);
        updated_at = now;
      } in
      let ensured = ensure_domain_state_rows ops now (e ∷ []) t in
      rw filled (
        row_of-update_where ops d e f ensured (λ s. refl)
        ∙ ap (λ o. if list_beq e d then elim o [ none ↦ none | some s ↦ some (f s) ] else o)
            (row_of-ensure_one d e t filled)
        ∙ ground arith)
