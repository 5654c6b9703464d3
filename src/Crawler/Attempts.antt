-- ===== src/Crawler/Attempts.antt =====
-- packages/contracts/src/web_search_contracts/enums.py: the statuses of crawl attempts, which are
-- strings, and how they are summed up. A dict is a list of its items in the order of insertion.
use web_search.Prelude.{
  ℕ, ◌+◌, ◌≡◌, refl, ap, inl, inr, List, [], ◌∷◌, arith, if◌then◌else◌, Bool-cases, nat_eq, list_eq,
  list_beq, list_beq_iff, Text, codes, beq_sym,
}

abbrev pub crawl_attempt_summary_map : List (Text × Text)
crawl_attempt_summary_map =
    (codes "indexed", codes "submitted")
    ∷ (codes "blocked", codes "blocked")
    ∷ (codes "skipped", codes "skipped")
    ∷ (codes "retry_later", codes "retrying")
    ∷ (codes "indexer_error", codes "failed")
    ∷ (codes "http_error", codes "failed")
    ∷ (codes "unknown_error", codes "failed")
    ∷ (codes "dead_letter", codes "failed")
    ∷ []

-- `d.get(key, default)`
unfoldable pub get {ℓ} : {V : Type ℓ} → Text → V → List (Text × V) → V
get key default [] = default
get key default ((k, v) ∷ d) = let rest = get key default d in if list_beq k key then v else rest

-- `d[key] = value`
unfoldable pub put {ℓ} : {V : Type ℓ} → Text → V → List (Text × V) → List (Text × V)
put key value [] = (key, value) ∷ []
put key value ((k, v) ∷ d) =
    let rest = put key value d in if list_beq k key then (k, value) ∷ d else (k, v) ∷ rest

unfoldable pub summarize_crawl_attempt_status : Text → Text
unfolding get
summarize_crawl_attempt_status status = get status status crawl_attempt_summary_map

-- The loop, with `summary_counts` as its variable.
unfoldable pub summarize_loop : List (Text × ℕ) → List (Text × ℕ) → List (Text × ℕ)
unfolding summarize_crawl_attempt_status get put
summarize_loop [] summary = summary
summarize_loop ((raw_status, count) ∷ counts) summary =
    let status = summarize_crawl_attempt_status raw_status in
    summarize_loop counts (put status (get status 0 summary + count) summary)

unfoldable pub summarize_crawl_attempt_counts : List (Text × ℕ) → List (Text × ℕ)
unfolding summarize_loop
summarize_crawl_attempt_counts counts = summarize_loop counts []

get-put :
    (key status : Text) (n : ℕ) (d : List (Text × ℕ))
    → get key 0 (put status n d) ≡ (if list_beq status key then n else get key 0 d)
unfolding get put
get-put key status n [] = refl
get-put key status n ((k, v) ∷ d) = elim (Bool-cases (list_beq k status)) [
  | inl same ↦ let e = (list_beq_iff k status).0 same in ground (arith, same, e)
  | inr other ↦ elim (Bool-cases (list_beq k key)) [
    | inl here ↦
        let e = (list_beq_iff k key).0 here in
        ground (arith, other, here, e, beq_sym {A = Text} status key)
    | inr there ↦ ground (arith, other, there, get-put key status n d)
  ]
]

-- The number of attempts whose status is summed up as `key`.
unfoldable pub attempts_summed_as : Text → List (Text × ℕ) → ℕ
attempts_summed_as key [] = 0
attempts_summed_as key ((raw_status, count) ∷ counts) =
    let rest = attempts_summed_as key counts in
    if list_beq (summarize_crawl_attempt_status raw_status) key then count + rest else rest

-- One round, for any status.
round_get :
    (key status : Text) (count rest total : ℕ) (summary : List (Text × ℕ))
    → total ≡ get key 0 (put status (get status 0 summary + count) summary) + rest
    → total ≡ get key 0 summary + (if list_beq status key then count + rest else rest)
round_get key status count rest total summary h =
    let here = get-put key status (get status 0 summary + count) summary in
    elim (Bool-cases (list_beq status key)) [
      | inl same ↦
          let e = ap (λ k. get k 0 summary) ((list_beq_iff status key).0 same) in
          ground (arith, h, here, same, e)
      | inr other ↦ ground (arith, h, here, other)
    ]

summarize_loop-get :
    (key : Text) (counts summary : List (Text × ℕ))
    → get key 0 (summarize_loop counts summary) ≡ get key 0 summary + attempts_summed_as key counts
unfolding summarize_loop attempts_summed_as
summarize_loop-get key [] summary = omega arith
summarize_loop-get key ((raw_status, count) ∷ counts) summary =
    let status = summarize_crawl_attempt_status raw_status in
    round_get key status count (attempts_summed_as key counts) _ summary
      (summarize_loop-get key counts (put status (get status 0 summary + count) summary))

abbrev pub total : List (Text × ℕ) → ℕ
total [] = 0
total ((k, v) ∷ d) = v + total d

total-put :
    (status : Text) (n : ℕ) (d : List (Text × ℕ))
    → total (put status (get status 0 d + n) d) ≡ total d + n
unfolding put get
total-put status n [] = omega arith
total-put status n ((k, v) ∷ d) = ground (arith, total-put status n d)

summarize_loop-total :
    (counts summary : List (Text × ℕ))
    → total (summarize_loop counts summary) ≡ total summary + total counts
unfolding summarize_loop
summarize_loop-total [] summary = omega arith
summarize_loop-total ((raw_status, count) ∷ counts) summary =
    let status = summarize_crawl_attempt_status raw_status in
    let rest = summarize_loop-total counts (put status (get status 0 summary + count) summary) in
    omega (arith, rest, total-put status count summary)

-- `summarize_crawl_attempt_counts` has under each status the number of the attempts that are
-- summed up as it, and all in all as many attempts as it was given.
pub summarize_crawl_attempt_counts-sums :
    (counts : List (Text × ℕ))
    → ((key : Text)
        → get key 0 (summarize_crawl_attempt_counts counts) ≡ attempts_summed_as key counts)
      × (total (summarize_crawl_attempt_counts counts) ≡ total counts)
unfolding summarize_crawl_attempt_counts get
summarize_crawl_attempt_counts-sums counts = (
  λ key. omega (arith, summarize_loop-get key counts []),
  omega (arith, summarize_loop-total counts []),
)
