-- ===== src/Crawler/Fetch/Body.antt =====
-- What the body of a response is cut to.
use web_search.Prelude.{
  ℕ, ◌+◌, ◌≤◌, ◌<◌, ◌≡◌, refl, sym, ap, ◌∙◌, ◌↔◌, Bool, true, false, List, [], ◌∷◌, ◌++◌,
  append-nil, append_assoc, arith, ltb, ltb→lt, length, length-append, nat_eq, list_eq, if_cases,
  pair_eq,
}
use mathlib.Core.Path.{subst}
use web_search.Crawler.Fetch.{join_chunks, read_loop, read_response_body}

join_chunks-append :
    (xs ys : List (List ℕ)) → join_chunks (xs ++ ys) ≡ join_chunks xs ++ join_chunks ys
unfolding join_chunks
join_chunks-append [] ys = refl
join_chunks-append (x ∷ xs) ys =
    ap (λ r. x ++ r) (join_chunks-append xs ys)
    ∙ sym (append_assoc x (join_chunks xs) (join_chunks ys))

-- What was read of a body: all of it, where it is short enough, and otherwise a part of it, from
-- its start.
pub record IsRead (max_size : ℕ) (body : List ℕ) (result : List ℕ × Bool) : Type 0 where
  pub bounded : length result.0 ≤ max_size
  pub truncated_iff : (result.1 ≡ true) ↔ (max_size < length body)
  pub whole : result.1 ≡ false → result.0 ≡ body
  pub rest : List ℕ
  pub a_start : body ≡ result.0 ++ rest

read_loop-IsRead :
    (max_size : ℕ) (content chunks : List (List ℕ)) (total : ℕ)
    → total ≡ length (join_chunks chunks)
    → total ≤ max_size
    → IsRead max_size (join_chunks (chunks ++ content)) (read_loop max_size content chunks total)
unfolding read_loop join_chunks
read_loop-IsRead max_size [] chunks total t k = rw (append-nil chunks) (record {
  bounded = omega (arith, t, k);
  truncated_iff = (λ e. cc, λ e. absurd (omega (arith, t, k, e)));
  whole = λ e. refl;
  rest = [];
  a_start = sym (append-nil (join_chunks chunks));
})
read_loop-IsRead max_size ([] ∷ content) chunks total t k =
    let same : join_chunks (chunks ++ [] ∷ content) ≡ join_chunks (chunks ++ content) =
      join_chunks-append chunks ([] ∷ content) ∙ sym (join_chunks-append chunks content) in
    rw same (read_loop-IsRead max_size content chunks total t k)
read_loop-IsRead max_size ((b ∷ bs) ∷ content) chunks total t k =
    let chunk = b ∷ bs in
    let body = join_chunks (chunks ++ chunk ∷ content) in
    let later = chunk ++ join_chunks content in
    let next = read_loop max_size content (chunks ++ chunk ∷ []) (total + length chunk) in
    let split : body ≡ join_chunks chunks ++ later = join_chunks-append chunks (chunk ∷ content) in
    let longer : length (join_chunks (chunks ++ chunk ∷ [])) ≡ total + length chunk =
      ap length (join_chunks-append chunks (chunk ∷ []))
      ∙ omega
          (arith, t, length-append (join_chunks chunks) (chunk ++ []), length-append chunk []) in
    if_cases (IsRead max_size body) (ltb max_size (total + length chunk))
      (λ over. record {
        bounded = omega (arith, t, k);
        truncated_iff = (
          λ e.
              let size = ap length split in
              omega (
                arith,
                t,
                ltb→lt max_size (total + length chunk) over,
                size,
                length-append (join_chunks chunks) later,
                length-append chunk (join_chunks content),
              ),
          λ e. refl,
        );
        whole = λ e. cc;
        rest = later;
        a_start = split;
      })
      (λ fits.
        subst (λ x. IsRead max_size x next)
          (ap join_chunks (append_assoc chunks (chunk ∷ []) content))
          (read_loop-IsRead max_size content (chunks ++ chunk ∷ []) (total + length chunk)
            (sym longer) (ground (arith, fits))))

-- `read_response_body` reads the whole body and says that it is not truncated, where the body has
-- at most max_size bytes; otherwise it says that it is truncated; and what it returns is always
-- the start of the body, with at most max_size bytes.
pub read_response_body-IsRead :
    (content : List (List ℕ)) (max_size : ℕ)
    → IsRead max_size (join_chunks content) (read_response_body content max_size)
unfolding read_response_body join_chunks
read_response_body-IsRead content max_size =
    read_loop-IsRead max_size content [] 0 refl (omega arith)
