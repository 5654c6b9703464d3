-- ===== src/Crawler/Fetch.antt =====
-- apps/crawler/src/web_search_crawler/services/fetchers.py: `AiohttpFetcher`. What the session
-- answers is a parameter, as are `int` of a header, `lower` and the decoding of a body; timings
-- are left out. A chunk of the body is a list of bytes.
pub mod Body
use web_search.Prelude.{
  ℕ, zero, suc, ◌+◌, ◌-◌, ◌*◌, ◌/◌, ◌%◌, ◌^◌, ◌≤◌, ◌<◌, min, max, ◌≡◌, refl, sym, ap, ◌∙◌, ◌≢◌, ◌↔◌,
  ◌⊎◌, inl, inr, Bool, true, false, not, ◌&&◌, ◌||◌, Option, none, some, List, [], ◌∷◌, ◌++◌, map,
  reverse, Perm, Sublist, append-nil, append_assoc, arith, ltb, leb, nat_beq, if◌then◌else◌, ltb→lt,
  lt→ltb, leb→le, nat_beq_iff, Bool-cases, Option-cases, Bool-eq_of_iff, length, take, drop, any,
  all, keep, is_empty, length-append, length-take, take-append-drop, length-keep-le, any-append,
  keep-append, All, Any, Member, HasEq, ◌==◌, nat_eq, list_eq, list_beq, list_beq_iff, beq_refl,
  contains, contains_iff, update, occurrences, capped, occurrences-capped, capped-sublist,
  WithinQuota, take-capped-WithinQuota, sort_by, Sorted, sort_by-perm, sort_by-All, sort_by-Sorted,
  Text, codes, starts_with, ends_with, occurs_in, split, join, strip, lstrip, rstrip, is_space,
  from_last, ascii_lower, starts_with_iff, ends_with_iff, split-ne_nil, join-split, split-append,
  any-congr, any-or, any-false, keep-congr, keep-All, All-keep, All-append, any_iff, Any-map,
  All-map, All-of, beq_sym, text_leb, text_leb_total, text_leb_trans, unique, if_true, if_false,
  Tracks, Tracks-skip, Tracks-take, All-take, keep-All_of, keep_of_All, All-Member, capped-All,
  keep-All_both, All-members, some_pair, decimal, Sorted-eq_of_perm, keep-perm, text_leb_antisymm,
  text_leb_refl, sort_by-All_inv, All-split, contains-sort_by, ◌>>=◌, sort_by_of_Sorted,
  sort_by-Falling, Falling, sort_by-flag, if_cases, contains-append, contains-keep, pair_eq,
  pair_beq, pair_beq_iff,
}
use web_search.Crawler.Run.{Answer, Answer.returned, Answer.raised}

abbrev pub max_response_size : ℕ
max_response_size = 10 * 1024 * 1024

pub record FetchResult : Type 0 where
  pub status : ℕ
  pub content_type : Text
  pub body : Option Text
  pub error : Option Text

-- What is read of the response: the headers, where they are there, and the chunks of the body.
pub record Response : Type 0 where
  pub status : ℕ
  pub content_type : Option Text
  pub content_length : Option Text
  pub chunks : Answer (List (List ℕ))

unfoldable pub is_html_content_type : Text → Bool
is_html_content_type content_type =
    occurs_in (codes "text/html") content_type || occurs_in (codes "application/xhtml") content_type

unfoldable pub is_feed_content_type : Text → Bool
is_feed_content_type content_type =
    any (λ needle. occurs_in needle content_type)
      (codes "application/rss+xml"
        ∷ codes "application/atom+xml"
        ∷ codes "application/xml"
        ∷ codes "text/xml"
        ∷ [])

-- `b"".join(chunks)`
unfoldable pub join_chunks : List (List ℕ) → List ℕ
join_chunks [] = []
join_chunks (chunk ∷ chunks) = chunk ++ join_chunks chunks

-- The loop, with `chunks` and `total` as its variables.
unfoldable pub read_loop : ℕ → List (List ℕ) → List (List ℕ) → ℕ → List ℕ × Bool
unfolding join_chunks
read_loop max_size [] chunks total = (join_chunks chunks, false)
read_loop max_size ([] ∷ content) chunks total = read_loop max_size content chunks total
read_loop max_size ((b ∷ bs) ∷ content) chunks total =
    let longer = total + length (b ∷ bs) in
    let rest = read_loop max_size content (chunks ++ (b ∷ bs) ∷ []) longer in
    if ltb max_size longer then (join_chunks chunks, true) else rest

unfoldable pub read_response_body : List (List ℕ) → ℕ → List ℕ × Bool
unfolding read_loop
read_response_body content max_size = read_loop max_size content [] 0

module _ (to_int : Text → Option ℕ) (lower : Text → Text) (decode : List ℕ → Text) where
  -- Whether the header says that the response is too large.
  unfoldable pub says_too_large : Option Text → Option Text
  says_too_large none = none
  says_too_large (some []) = none
  says_too_large (some (c ∷ cs)) =
      to_int (c ∷ cs) >>= λ n. if ltb max_response_size n then some (c ∷ cs) else none

  -- What becomes of the body that was read.
  unfoldable pub body_result : ℕ → Text → List ℕ × Bool → FetchResult
  unfolding decimal
  body_result status content_type (body, truncated) =
      if truncated
      then record {
        status = status;
        content_type = content_type;
        body = none;
        error =
            some (codes "Response truncated at " ++ decimal max_response_size ++ codes " bytes");
      }
      else record {
        status = status;
        content_type = content_type;
        body = some (decode body);
        error = none;
      }

  unfoldable pub fetch_response : Response → Answer FetchResult
  unfolding says_too_large is_html_content_type is_feed_content_type read_response_body body_result
  fetch_response resp =
      let content_type = lower (elim resp.content_type [ none ↦ [] | some t ↦ t ]) in
      elim (says_too_large resp.content_length) [
        | some content_length ↦ returned (record {
          status = resp.status;
          content_type = content_type;
          body = none;
          error = some (codes "Response too large: " ++ content_length ++ codes " bytes");
        })
        | none ↦
            if not (nat_beq resp.status 200)
              || not (is_html_content_type content_type || is_feed_content_type content_type)
            then returned (record {
              status = resp.status;
              content_type = content_type;
              body = none;
              error = none;
            })
            else elim resp.chunks [
              | raised e ↦ raised e
              | returned content ↦ returned (
                  body_result resp.status content_type
                    (read_response_body content max_response_size))
            ]
      ]

  -- `fetch`, from what the session answers on.
  unfoldable pub fetch : Answer Response → Answer FetchResult
  unfolding fetch_response
  fetch (raised e) = raised e
  fetch (returned resp) = fetch_response resp
