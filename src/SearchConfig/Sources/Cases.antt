-- ===== src/SearchConfig/Sources/Cases.antt =====
-- The cases of a source that the validation accepts.
use web_search.Prelude.{
  ℕ, suc, ◌≡◌, refl, ap, true, false, not, ◌&&◌, Option, none, some, List, [], ◌∷◌, arith, length,
  is_empty, All, nat_eq, list_eq, contains, Text, codes, pair_eq,
}
use web_search.SearchConfig.Json.{
  Json, JsonItems, items_of, or_null, null, boolean, number, real, string, array, object,
}
use web_search.SearchConfig.Cases.{CanonicalEvalCase}
use web_search.SearchConfig.Manifest.{validate_case}
use web_search.SearchConfig.Manifest.Fields.{NonBlank, both}
use web_search.SearchConfig.Manifest.Read.{Loadable}
use web_search.SearchConfig.Manifest.WellFormed.{CaseIsSound, load_case-CaseIsSound}
use web_search.SearchConfig.Sources.{stripped, validate_cases, some_cases, load_cases, cases_of}

-- Every case of a list can be read by the loader.
abbrev pub CasesLoadable : JsonItems → Type 0
CasesLoadable JsonItems.no_items = Unit
CasesLoadable (JsonItems.item (object case) rest) = Loadable case × CasesLoadable rest
CasesLoadable (JsonItems.item value rest) = CasesLoadable rest

abbrev pub FieldLoadable : Option Json → Type 0
FieldLoadable (some (array cases)) = CasesLoadable cases
FieldLoadable value = Unit

module _ (lower : Text → Text) (domains paths news : List Text)
    (domains_filled : All NonBlank domains) (paths_filled : All NonBlank paths)
    (news_filled : All NonBlank news) (some_domain : is_empty domains ≡ false) where
  load_cases-CaseIsSound :
      (seen : List Text) (items : JsonItems)
      → CasesLoadable items
      → validate_cases lower seen items ≡ true
      → (cases : List CanonicalEvalCase) × ((load_cases domains paths news items ≡ some cases)
          × (All CaseIsSound cases × (length cases ≡ length (items_of items))))
  unfolding validate_cases load_cases
  load_cases-CaseIsSound seen JsonItems.no_items l h = ([], (refl, (tt, refl)))
  load_cases-CaseIsSound seen (JsonItems.item (object item) rest) (l, ls) h =
      let query_key = lower (stripped (codes "query") item) in
      let whole : (validate_case item
            && not (contains query_key seen)
            && validate_cases lower (query_key ∷ seen) rest)
          ≡ true =
        h in
      let (k, others) = both whole in
      let (valid, fresh) = both k in
      let (case, (loaded, sound)) =
        load_case-CaseIsSound domains paths news domains_filled paths_filled news_filled some_domain
          item l valid in
      let (cases, (all_loaded, (all_sound, counted))) =
        load_cases-CaseIsSound (query_key ∷ seen) rest ls others in
      (case ∷ cases, (rw (loaded, all_loaded) refl, ((sound, all_sound), ap suc counted)))
  load_cases-CaseIsSound seen (JsonItems.item null rest) l h = ground (arith, h)
  load_cases-CaseIsSound seen (JsonItems.item (boolean b) rest) l h = ground (arith, h)
  load_cases-CaseIsSound seen (JsonItems.item (number n) rest) l h = ground (arith, h)
  load_cases-CaseIsSound seen (JsonItems.item (real z) rest) l h = ground (arith, h)
  load_cases-CaseIsSound seen (JsonItems.item (string t) rest) l h = ground (arith, h)
  load_cases-CaseIsSound seen (JsonItems.item (array xs) rest) l h = ground (arith, h)

  filled_cases :
      (n : ℕ) (cases : List CanonicalEvalCase) → length cases ≡ suc n → is_empty cases ≡ false
  filled_cases n [] h = ground (arith, h)
  filled_cases n (c ∷ cases) h = refl

  pub cases_of-CaseIsSound :
      (value : Option Json)
      → FieldLoadable value
      → some_cases lower (or_null value) ≡ true
      → (cases : List CanonicalEvalCase) × ((cases_of domains paths news value ≡ some cases)
          × (All CaseIsSound cases × (is_empty cases ≡ false)))
  cases_of-CaseIsSound none l h = ground (arith, h)
  cases_of-CaseIsSound (some null) l h = ground (arith, h)
  cases_of-CaseIsSound (some (boolean b)) l h = ground (arith, h)
  cases_of-CaseIsSound (some (number n)) l h = ground (arith, h)
  cases_of-CaseIsSound (some (real z)) l h = ground (arith, h)
  cases_of-CaseIsSound (some (string t)) l h = ground (arith, h)
  cases_of-CaseIsSound (some (object o)) l h = ground (arith, h)
  cases_of-CaseIsSound (some (array JsonItems.no_items)) l h = ground (arith, h)
  cases_of-CaseIsSound (some (array (JsonItems.item case rest))) l h =
      let (cases, (loaded, (sound, counted))) =
        load_cases-CaseIsSound [] (JsonItems.item case rest) l h in
      (cases, (loaded, (sound, filled_cases (length (items_of rest)) cases counted)))
