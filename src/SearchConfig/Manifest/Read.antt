-- ===== src/SearchConfig/Manifest/Read.antt =====
-- The reading of the fields of a case of the manifest.
use web_search.Prelude.{
  ℕ, ◌≡◌, refl, sym, ap, ◌∙◌, ◌≢◌, Bool, true, not, Option, none, some, List, [], ◌∷◌, arith,
  if◌then◌else◌, all, is_empty, All, nat_eq, list_eq, Text, codes, pair_eq, some_injective,
}
use web_search.SearchConfig.Json.{
  Json, JsonFields, get_field, get_value, as_string, null, boolean, number, real, string, array,
  object, or_null,
}
use web_search.SearchConfig.Cases.{EvalJudgment}
use web_search.SearchConfig.Manifest.{has_string, validate_judgments}
use web_search.SearchConfig.Manifest.Load.{
  tuple_of_strings, optional_text, optional_number, number_or, load_judgments,
  derive_case_judgments, load_case,
}
use web_search.SearchConfig.Manifest.Fields.{NonBlank, both, require-string}
use web_search.SearchConfig.Manifest.Rows.{JudgmentIsSound, load_rows-JudgmentIsSound}

-- What the reasons of a case that passes or fails must be.
abbrev pub Reason : Option Text → Type 0
Reason none = ⊥
Reason (some t) = NonBlank t

abbrev pub given : List Text → Bool
given texts = not (is_empty texts)

-- What the validation does not ask: the judgments are not null where they are named, and reasons
-- are texts or null also where they are not needed.
pub record Loadable (item : JsonFields) : Type 0 where
  pub listed : get_field (codes "judgments") item ≢ some null
  pub pass_reason : Option Text
  pub pass_read : optional_text (get_value (codes "pass_reason") item) ≡ some pass_reason
  pub fail_reason : Option Text
  pub fail_read : optional_text (get_value (codes "fail_reason") item) ≡ some fail_reason

pub judgments_read :
    (value : Option Json)
    → value ≢ some null
    → validate_judgments (or_null value) ≡ true
    → (rows : List EvalJudgment) × ((load_judgments value ≡ some rows) × All JudgmentIsSound rows)
unfolding validate_judgments load_judgments
judgments_read none listed h = ([], (refl, tt))
judgments_read (some null) listed h = elim (listed refl) [ ]
judgments_read (some (boolean b)) listed h = ground (arith, h)
judgments_read (some (number n)) listed h = ground (arith, h)
judgments_read (some (real z)) listed h = ground (arith, h)
judgments_read (some (string t)) listed h = ground (arith, h)
judgments_read (some (object o)) listed h = ground (arith, h)
judgments_read (some (array rows)) listed h = load_rows-JudgmentIsSound rows h

pub all-All {ℓ} :
    {A : Type ℓ} (p : A → Bool) (xs : List A) → all p xs ≡ true → All (λ x. p x ≡ true) xs
all-All p [] h = tt
all-All p (x ∷ xs) h =
    let (first, rest) = both {a = p x} {b = all p xs} h in (first, all-All p xs rest)

pub text_read :
    (key : Text) (item : JsonFields)
    → has_string key item ≡ true
    → (t : Text) × ((as_string (get_value key item) ≡ some t) × NonBlank t)
text_read key item h =
    let (t, (is_t, filled)) = require-string (get_value key item) h in
    (t, (ap as_string is_t, filled))

pub optional_text-Reason :
    (key : Text) (item : JsonFields) (reason : Option Text)
    → optional_text (get_value key item) ≡ some reason
    → has_string key item ≡ true
    → Reason reason
optional_text-Reason key item reason read h =
    let (t, (is_t, filled)) = require-string (get_value key item) h in
    let same : reason ≡ some t = some_injective (sym read ∙ ap optional_text is_t) in
    rw (same) filled

-- What a case gives whose fields can be read.
pub load_case-reads :
    (domains paths news : List Text) (item : JsonFields) {rows : List EvalJudgment}
    {query query_type expected notes : Text}
    {terms required any_of titles in_paths path_terms excluded : List Text} {minimum : ℕ}
    {rank : Option ℕ} {pass fail : Option Text}
    → load_judgments (get_field (codes "judgments") item) ≡ some rows
    → as_string (get_value (codes "query") item) ≡ some query
    → as_string (get_value (codes "query_type") item) ≡ some query_type
    → as_string (get_value (codes "expected") item) ≡ some expected
    → as_string (get_value (codes "notes") item) ≡ some notes
    → tuple_of_strings (get_value (codes "required_terms") item) ≡ some terms
    → tuple_of_strings (get_value (codes "required_domains") item) ≡ some required
    → number_or 1 (get_value (codes "minimum_domain_matches") item) ≡ some minimum
    → tuple_of_strings (get_value (codes "any_of_terms") item) ≡ some any_of
    → tuple_of_strings (get_value (codes "required_title_terms") item) ≡ some titles
    → tuple_of_strings (get_value (codes "required_paths") item) ≡ some in_paths
    → tuple_of_strings (get_value (codes "required_path_terms") item) ≡ some path_terms
    → tuple_of_strings (get_value (codes "excluded_domains") item) ≡ some excluded
    → optional_number (get_value (codes "max_match_rank") item) ≡ some rank
    → optional_text (get_value (codes "pass_reason") item) ≡ some pass
    → optional_text (get_value (codes "fail_reason") item) ≡ some fail
    → load_case domains paths news item
      ≡ some (record {
        query = query;
        query_type = query_type;
        expected = expected;
        notes = notes;
        required_terms = terms;
        required_domains = required;
        minimum_domain_matches = minimum;
        any_of_terms = any_of;
        required_title_terms = titles;
        required_paths = in_paths;
        required_path_terms = path_terms;
        excluded_domains = excluded;
        max_match_rank = rank;
        pass_reason = pass;
        fail_reason = fail;
        judgments =
            if is_empty rows then derive_case_judgments query_type domains paths news else rows;
      })
unfolding load_case
load_case-reads domains paths news item e1 e2 e3 e4 e5 e6 e7 e8 e9 e10 e11 e12 e13 e14 e15 e16 =
    rw (e1, e2, e3, e4, e5, e6, e7, e8, e9, e10, e11, e12, e13, e14, e15, e16) refl
