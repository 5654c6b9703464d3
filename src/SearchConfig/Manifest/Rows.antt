-- ===== src/SearchConfig/Manifest/Rows.antt =====
-- The judgments of a case: the rows that the validation accepts, and those that are derived.
use web_search.Prelude.{
  ◌≡◌, refl, sym, inl, inr, Bool, true, false, not, ◌&&◌, ◌||◌, Option, none, some, List, [], ◌∷◌,
  ◌++◌, map, arith, if◌then◌else◌, Option-cases, all, is_empty, All, nat_eq, list_eq, Text, codes,
  occurs_in, All-append, if_cases, pair_eq, ℤ, pos, negsuc, int_leb,
}
use web_search.SearchConfig.Json.{
  Json, JsonItems, JsonFields, items_of, get_value, truth, as_int, null, boolean, number, real,
  string, array, object,
}
use web_search.SearchConfig.Cases.{EvalJudgment}
use web_search.SearchConfig.Manifest.{
  is_some, is_relevance, validate_string_list, string_or_null, validate_judgment,
}
use web_search.SearchConfig.Manifest.Load.{
  tuple_of_strings, optional_text, load_judgment, load_rows, derived, derived_paths,
  derive_case_judgments,
}
use web_search.SearchConfig.Manifest.Fields.{
  NonBlank, MayBe, both, validate-Strings, optional_text-filled,
}

-- From -1 to 3.
abbrev pub in_scale : ℤ → Bool
in_scale r = int_leb (negsuc 0) r && int_leb r (pos 3)

-- A judgment on the scale with something to compare a hit with, and no blank text.
pub record JudgmentIsSound (judgment : EvalJudgment) : Type 0 where
  pub scaled : in_scale judgment.relevance ≡ true
  pub url : MayBe NonBlank judgment.url
  pub domain : MayBe NonBlank judgment.domain
  pub path_prefix : MayBe NonBlank judgment.path_prefix
  pub title_terms : All NonBlank judgment.title_terms
  pub criterion :
      (is_some judgment.url
        || is_some judgment.domain
        || is_some judgment.path_prefix
        || not (is_empty judgment.title_terms))
      ≡ true

relevance-in_scale :
    (value : Json)
    → is_relevance value ≡ true
    → (r : ℤ) × ((as_int value ≡ some r) × (in_scale r ≡ true))
relevance-in_scale value h = elim (Option-cases (as_int value)) [
  | inl e ↦ ground (arith, e, h)
  | inr found ↦ let (r, e) = found in (r, (e, ground (arith, e, h)))
]

-- What a row gives whose fields can be read.
load_judgment-reads :
    (item : JsonFields) {r : ℤ} {url domain path : Option Text} {titles : List Text}
    → as_int (get_value (codes "relevance") item) ≡ some r
    → optional_text (get_value (codes "url") item) ≡ some url
    → optional_text (get_value (codes "domain") item) ≡ some domain
    → optional_text (get_value (codes "path_prefix") item) ≡ some path
    → tuple_of_strings (get_value (codes "title_terms") item) ≡ some titles
    → load_judgment (object item)
      ≡ some (record {
        relevance = r;
        url = url;
        domain = domain;
        path_prefix = path;
        title_terms = titles;
      })
unfolding load_judgment
load_judgment-reads item e1 e2 e3 e4 e5 = rw (e1, e2, e3, e4, e5) refl

criterion_truth :
    (url domain path titles : Json) (u d p : Option Text) (ts : List Text)
    → (truth url || truth domain || truth path || truth titles) ≡ true
    → truth url ≡ is_some u
    → truth domain ≡ is_some d
    → truth path ≡ is_some p
    → truth titles ≡ not (is_empty ts)
    → (is_some u || is_some d || is_some p || not (is_empty ts)) ≡ true
criterion_truth url domain path titles u d p ts h e1 e2 e3 e4 =
    rw (sym e1, sym e2, sym e3, sym e4) h

sound_fields :
    (item : JsonFields)
    → is_relevance (get_value (codes "relevance") item) ≡ true
    → string_or_null (codes "url") item ≡ true
    → string_or_null (codes "domain") item ≡ true
    → string_or_null (codes "path_prefix") item ≡ true
    → validate_string_list (get_value (codes "title_terms") item) ≡ true
    → (truth (get_value (codes "url") item)
        || truth (get_value (codes "domain") item)
        || truth (get_value (codes "path_prefix") item)
        || truth (get_value (codes "title_terms") item))
      ≡ true
    → (judgment : EvalJudgment) × ((load_judgment (object item) ≡ some judgment)
        × JudgmentIsSound judgment)
sound_fields item relevant url_valid domain_valid path_valid titles_valid given =
    let (r, (is_r, scaled)) = relevance-in_scale (get_value (codes "relevance") item) relevant in
    let (url, (is_url, (url_filled, url_truth))) =
      optional_text-filled (get_value (codes "url") item) url_valid in
    let (domain, (is_domain, (domain_filled, domain_truth))) =
      optional_text-filled (get_value (codes "domain") item) domain_valid in
    let (path, (is_path, (path_filled, path_truth))) =
      optional_text-filled (get_value (codes "path_prefix") item) path_valid in
    let (titles, read) = validate-Strings (get_value (codes "title_terms") item) titles_valid in
    (
      record {
        relevance = r;
        url = url;
        domain = domain;
        path_prefix = path;
        title_terms = titles;
      },
      (
        load_judgment-reads item is_r is_url is_domain is_path read.loaded,
        record {
          scaled = scaled;
          url = url_filled;
          domain = domain_filled;
          path_prefix = path_filled;
          title_terms = read.non_blank;
          criterion =
              criterion_truth (get_value (codes "url") item) (get_value (codes "domain") item)
                (get_value (codes "path_prefix") item) (get_value (codes "title_terms") item) url
                domain path titles given url_truth domain_truth path_truth (read.same_truth);
        },
      ),
    )

pub load_judgment-JudgmentIsSound :
    (row : Json)
    → validate_judgment row ≡ true
    → (judgment : EvalJudgment) × ((load_judgment row ≡ some judgment) × JudgmentIsSound judgment)
unfolding validate_judgment
load_judgment-JudgmentIsSound null h = ground (arith, h)
load_judgment-JudgmentIsSound (boolean b) h = ground (arith, h)
load_judgment-JudgmentIsSound (number n) h = ground (arith, h)
load_judgment-JudgmentIsSound (real z) h = ground (arith, h)
load_judgment-JudgmentIsSound (string t) h = ground (arith, h)
load_judgment-JudgmentIsSound (array xs) h = ground (arith, h)
load_judgment-JudgmentIsSound (object item) h =
    let whole : (is_relevance (get_value (codes "relevance") item)
          && string_or_null (codes "url") item
          && string_or_null (codes "domain") item
          && string_or_null (codes "path_prefix") item
          && validate_string_list (get_value (codes "title_terms") item)
          && (truth (get_value (codes "url") item)
              || truth (get_value (codes "domain") item)
              || truth (get_value (codes "path_prefix") item)
              || truth (get_value (codes "title_terms") item)))
        ≡ true =
      h in
    let (k5, h6) = both whole in
    let (k4, h5) = both k5 in
    let (k3, h4) = both k4 in
    let (k2, h3) = both k3 in let (h1, h2) = both k2 in sound_fields item h1 h2 h3 h4 h5 h6

pub load_rows-JudgmentIsSound :
    (rows : JsonItems)
    → all validate_judgment (items_of rows) ≡ true
    → (judgments : List EvalJudgment) × ((load_rows rows ≡ some judgments)
        × All JudgmentIsSound judgments)
unfolding load_rows
load_rows-JudgmentIsSound JsonItems.no_items h = ([], (refl, tt))
load_rows-JudgmentIsSound (JsonItems.item row rest) h =
    let first : validate_judgment row ≡ true = ground (arith, h) in
    let others : all validate_judgment (items_of rest) ≡ true = ground (arith, h) in
    let (j, (is_j, sound)) = load_judgment-JudgmentIsSound row first in
    let (js, (is_js, all_sound)) = load_rows-JudgmentIsSound rest others in
    (j ∷ js, (rw (is_j, is_js) refl, (sound, all_sound)))

-- Every judgment that is derived from domains and paths without blanks is sound.
derived-JudgmentIsSound :
    (r : ℤ) (domain : Text) (path : Option Text)
    → in_scale r ≡ true
    → NonBlank domain
    → MayBe NonBlank path
    → JudgmentIsSound (derived r domain path)
derived-JudgmentIsSound r domain path scaled filled path_filled = record {
  scaled = scaled;
  url = tt;
  domain = filled;
  path_prefix = path_filled;
  title_terms = tt;
  criterion = refl;
}

under_domain-JudgmentIsSound :
    (domain : Text) (paths : List Text)
    → NonBlank domain
    → All NonBlank paths
    → All JudgmentIsSound (map (λ path. derived (pos 3) domain (some path)) paths)
under_domain-JudgmentIsSound domain [] filled h = tt
under_domain-JudgmentIsSound domain (path ∷ paths) filled (p, h) = (
  derived-JudgmentIsSound (pos 3) domain (some path) refl filled p,
  under_domain-JudgmentIsSound domain paths filled h,
)

domains_only-JudgmentIsSound :
    (r : ℤ) (domains : List Text)
    → in_scale r ≡ true
    → All NonBlank domains
    → All JudgmentIsSound (map (λ domain. derived r domain none) domains)
domains_only-JudgmentIsSound r [] scaled h = tt
domains_only-JudgmentIsSound r (domain ∷ domains) scaled (d, h) = (
  derived-JudgmentIsSound r domain none scaled d tt,
  domains_only-JudgmentIsSound r domains scaled h,
)

derived_paths-JudgmentIsSound :
    (domains paths : List Text)
    → All NonBlank domains
    → All NonBlank paths
    → All JudgmentIsSound (derived_paths domains paths)
unfolding derived_paths
derived_paths-JudgmentIsSound [] paths h k = tt
derived_paths-JudgmentIsSound (domain ∷ domains) paths (d, h) k =
    All-append JudgmentIsSound (map (λ path. derived (pos 3) domain (some path)) paths)
      (derived_paths domains paths) (under_domain-JudgmentIsSound domain paths d k)
      (derived_paths-JudgmentIsSound domains paths h k)

map-filled {ℓ κ} :
    {A : Type ℓ} {B : Type κ} (f : A → B) (xs : List A)
    → is_empty xs ≡ false
    → is_empty (map f xs) ≡ false
map-filled f [] h = h
map-filled f (x ∷ xs) h = refl

append-filled {ℓ} :
    {A : Type ℓ} (xs ys : List A) → is_empty ys ≡ false → is_empty (xs ++ ys) ≡ false
append-filled [] ys h = h
append-filled (x ∷ xs) ys h = refl

-- The derived judgments are sound, and there are some where the source has a domain.
pub derive_case_judgments-JudgmentIsSound :
    (query_type : Text) (domains paths news : List Text)
    → All NonBlank domains
    → All NonBlank paths
    → All NonBlank news
    → is_empty domains ≡ false
    → All JudgmentIsSound (derive_case_judgments query_type domains paths news)
      × (is_empty (derive_case_judgments query_type domains paths news) ≡ false)
unfolding derive_case_judgments
derive_case_judgments-JudgmentIsSound query_type domains paths news h k l some_domain =
    let chosen =
      if occurs_in (codes "news") query_type && not (is_empty news) then news else paths in
    let chosen_filled =
      if_cases (All NonBlank) (occurs_in (codes "news") query_type && not (is_empty news))
        {x = news} {y = paths} (λ e. l) (λ e. k) in
    if_cases (λ (js : List EvalJudgment). All JudgmentIsSound js × (is_empty js ≡ false))
      (is_empty chosen)
      (λ e. (
        domains_only-JudgmentIsSound (pos 3) domains refl h,
        map-filled (λ domain. derived (pos 3) domain none) domains some_domain,
      ))
      (λ e. (
        All-append JudgmentIsSound (derived_paths domains chosen)
            (map (λ domain. derived (pos 2) domain none) domains)
            (derived_paths-JudgmentIsSound domains chosen h chosen_filled)
            (domains_only-JudgmentIsSound (pos 2) domains refl h),
        append-filled (derived_paths domains chosen)
            (map (λ domain. derived (pos 2) domain none) domains)
            (map-filled (λ domain. derived (pos 2) domain none) domains some_domain),
      ))
