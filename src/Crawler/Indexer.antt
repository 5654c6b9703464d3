-- ===== src/Crawler/Indexer.antt =====
-- apps/crawler/src/web_search_crawler/services/indexer.py: how the answer of the indexer's API
-- becomes a result that never raises. The parser of JSON is a parameter: `read_error` says what an
-- error body holds.
use web_search.Prelude.{
  ℕ, ◌-◌, ◌⊎◌, inl, inr, Bool, true, false, not, Option, none, some, List, [], ◌∷◌, ◌++◌, ltb,
  nat_beq, if◌then◌else◌, length, take, is_empty, nat_eq, list_eq, Text, codes, join, strip,
  is_space, decimal, pair_eq,
}

abbrev pub max_error_detail_length : ℕ
max_error_detail_length = 240

pub record IndexerSubmitResult : Type 0 where
  pub ok : Bool
  pub status_code : Option ℕ
  pub detail : Option Text

-- An exception: the name of its class and its text.
pub record ExceptionText : Type 0 where
  pub class_name : Text
  pub message : Text

-- What the session answers: a status with a body, or an exception.
pub data PostAnswer : Type 0 where
  responds : ℕ → Text → PostAnswer
  fails : ExceptionText → PostAnswer

-- What the body of an error is: no JSON, no object of JSON (then `get` raises), or an object whose
-- `detail` is a string, a list with a first item, of which a text is taken, or anything else.
pub data ErrorBody : Type 0 where
  not_json other_detail : ErrorBody
  not_object : ExceptionText → ErrorBody
  detail_text first_of_list : Text → ErrorBody

-- `text.split()`, with `word` as the word that is being read.
unfoldable pub split_words : Text → Text → List Text
split_words word [] = if is_empty word then [] else word ∷ []
split_words word (c ∷ s) =
    let ended = split_words [] s in
    let longer = split_words (word ++ c ∷ []) s in
    if not (is_space c) then longer else if is_empty word then ended else word ∷ ended

unfoldable pub normalize_error_text : Text → Text
unfolding split_words
normalize_error_text text =
    let normalized = join b' ' (split_words [] text) in
    if ltb max_error_detail_length (length normalized)
    then take (max_error_detail_length - 3) normalized ++ codes "..."
    else normalized

unfoldable pub describe_exception : ExceptionText → Text
describe_exception exc = elim (strip exc.message) [
  | [] ↦ exc.class_name
  | c ∷ cs ↦ exc.class_name ++ codes ": " ++ c ∷ cs
]

module _ (read_error : Text → ErrorBody) where
  -- The text, or the exception that it raises.
  unfoldable pub summarize_indexer_error : ℕ → Text → Text ⊎ ExceptionText
  unfolding normalize_error_text decimal
  summarize_indexer_error status_code body =
      let name = codes "Indexer " ++ decimal status_code in
      let stripped = strip body in
      let with_text = λ (t : Text). name ++ codes ": " ++ normalize_error_text t in
      if is_empty stripped then inl name else elim (read_error stripped) [
        | not_json ↦ inl (with_text stripped)
        | other_detail ↦ inl (with_text stripped)
        | not_object exc ↦ inr exc
        | detail_text detail ↦ inl (with_text detail)
        | first_of_list candidate ↦ inl (with_text candidate)
      ]

  -- Both `except` clauses.
  unfoldable pub request_failed : ExceptionText → IndexerSubmitResult
  unfolding normalize_error_text describe_exception
  request_failed exc = record {
    ok = false;
    status_code = none;
    detail =
        some (normalize_error_text (codes "Indexer request failed: " ++ describe_exception exc));
  }

  unfoldable pub submit_page_to_indexer : PostAnswer → IndexerSubmitResult
  unfolding summarize_indexer_error request_failed
  submit_page_to_indexer (fails exc) = request_failed exc
  submit_page_to_indexer (responds status body) =
      if nat_beq status 200
      then record { ok = true; status_code = some status; detail = none }
      else elim (summarize_indexer_error status body) [
        | inl detail ↦ record { ok = false; status_code = some status; detail = some detail }
        | inr exc ↦ request_failed exc
      ]
