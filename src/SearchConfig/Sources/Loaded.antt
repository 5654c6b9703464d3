-- ===== src/SearchConfig/Sources/Loaded.antt =====
-- The sources of a manifest that the validation accepts, as the loader gives them.
use web_search.Prelude.{
  suc, ◌≤◌, ◌≡◌, refl, sym, ap, ◌∙◌, true, false, not, ◌&&◌, none, some, List, [], ◌∷◌, arith,
  length, is_empty, All, nat_eq, list_eq, contains, Text, codes, if_true, pair_eq,
}
use web_search.SearchConfig.Json.{
  JsonItems, JsonFields, items_of, get_field, get_value, null, boolean, number, real, string, array,
  object,
}
use web_search.SearchConfig.Manifest.{has_string}
use web_search.SearchConfig.Manifest.Fields.{
  NonBlank, MayBe, both, validate-Strings, number_or-at_least, optional_text-filled,
}
use web_search.SearchConfig.Manifest.Read.{text_read, given}
use web_search.SearchConfig.Manifest.WellFormed.{CaseIsSound}
use web_search.SearchConfig.Sources.{
  CanonicalSource, query_classes, class_of, stripped, validate_source, validate_sources,
  validate_manifest, load_source, load_sources, some_sources, sources_of,
  load_canonical_source_configs,
}
use web_search.SearchConfig.Sources.Cases.{FieldLoadable, cases_of-CaseIsSound}
use web_search.SearchConfig.Sources.Accept.{
  Accepted, validate_source-Accepted, given_of, class_of-known, load_source-reads,
}

-- A source with a key, aliases, domains, a known class, a window and cases, none of them blank.
pub record SourceIsSound (source : CanonicalSource) : Type 0 where
  pub key : NonBlank source.key
  pub aliases : All NonBlank source.aliases
  pub aliased : given source.aliases ≡ true
  pub domains : All NonBlank source.domains
  pub some_domain : given source.domains ≡ true
  pub preferred_paths : All NonBlank source.preferred_paths
  pub news_paths : All NonBlank source.news_paths
  pub classed : contains source.default_class query_classes ≡ true
  pub window : 1 ≤ source.candidate_window
  pub retrieval_query : MayBe NonBlank source.retrieval_query
  pub cases : All CaseIsSound source.cases
  pub some_case : is_empty source.cases ≡ false

Accepted-SourceIsSound :
    (lower : Text → Text) (item : JsonFields)
    → FieldLoadable (get_field (codes "cases") item)
    → Accepted lower item
    → (source : CanonicalSource) × ((load_source item ≡ some source) × SourceIsSound source)
Accepted-SourceIsSound lower item loadable accepted =
    let (key, (is_key, k)) = text_read (codes "key") item accepted.key in
    let (aliases, a) = validate-Strings (get_value (codes "aliases") item) accepted.aliases in
    let (domains, d) = validate-Strings (get_value (codes "domains") item) accepted.domains in
    let (paths, p) = validate-Strings (get_value (codes "preferred_paths") item) accepted.paths in
    let (news, n) = validate-Strings (get_value (codes "news_paths") item) accepted.news in
    let (aliased, alias) =
      given_of (get_value (codes "aliases") item) aliases a accepted.some_alias in
    let (owned, domain) =
      given_of (get_value (codes "domains") item) domains d accepted.some_domain in
    let (class, (is_known, known)) = class_of-known (class_of item) accepted.class in
    let (window, (is_window, wide)) =
      number_or-at_least 20 (get_value (codes "candidate_window") item) (omega arith)
        accepted.window in
    let (retrieval, (is_retrieval, (asked, retrieval_truth))) =
      optional_text-filled (get_value (codes "retrieval_query") item) accepted.retrieval in
    let (cases, (loaded, (sound, some_case))) =
      cases_of-CaseIsSound lower domains paths news d.non_blank p.non_blank n.non_blank domain
        (get_field (codes "cases") item) loadable accepted.cases in
    (
      _,
      (
        load_source-reads item (d.loaded) (p.loaded) (n.loaded) loaded is_key (a.loaded) is_known
            is_window is_retrieval,
        record {
          key = k;
          aliases = a.non_blank;
          aliased = aliased;
          domains = d.non_blank;
          some_domain = owned;
          preferred_paths = p.non_blank;
          news_paths = n.non_blank;
          classed = known;
          window = wide;
          retrieval_query = asked;
          cases = sound;
          some_case = some_case;
        },
      ),
    )

-- Every source of a list can be read by the loader.
abbrev pub SourcesLoadable : JsonItems → Type 0
SourcesLoadable JsonItems.no_items = Unit
SourcesLoadable (JsonItems.item (object source) rest) =
    FieldLoadable (get_field (codes "cases") source) × SourcesLoadable rest
SourcesLoadable (JsonItems.item value rest) = SourcesLoadable rest

load_sources-SourceIsSound :
    (lower : Text → Text) (seen : List Text) (items : JsonItems)
    → SourcesLoadable items
    → validate_sources lower seen items ≡ true
    → (sources : List CanonicalSource) × ((load_sources items ≡ some sources)
        × (All SourceIsSound sources × (length sources ≡ length (items_of items))))
unfolding validate_sources load_sources
load_sources-SourceIsSound lower seen JsonItems.no_items l h = ([], (refl, (tt, refl)))
load_sources-SourceIsSound lower seen (JsonItems.item (object item) rest) (l, ls) h =
    let source_key = stripped (codes "key") item in
    let whole : (has_string (codes "key") item
          && not (contains source_key seen)
          && validate_source lower item
          && validate_sources lower (source_key ∷ seen) rest)
        ≡ true =
      h in
    let (k, others) =
      both
        {a = has_string (codes "key") item
          && not (contains source_key seen)
          && validate_source lower item}
        {b = validate_sources lower (source_key ∷ seen) rest} whole in
    let (fresh, valid) =
      both {a = has_string (codes "key") item && not (contains source_key seen)}
        {b = validate_source lower item} k in
    let (source, (loaded, sound)) =
      Accepted-SourceIsSound lower item l (validate_source-Accepted lower item valid) in
    let (sources, (all_loaded, (all_sound, counted))) =
      load_sources-SourceIsSound lower (source_key ∷ seen) rest ls others in
    (source ∷ sources, (rw (loaded, all_loaded) refl, ((sound, all_sound), ap suc counted)))
load_sources-SourceIsSound lower seen (JsonItems.item null rest) l h = ground (arith, h)
load_sources-SourceIsSound lower seen (JsonItems.item (boolean b) rest) l h = ground (arith, h)
load_sources-SourceIsSound lower seen (JsonItems.item (number n) rest) l h = ground (arith, h)
load_sources-SourceIsSound lower seen (JsonItems.item (real z) rest) l h = ground (arith, h)
load_sources-SourceIsSound lower seen (JsonItems.item (string t) rest) l h = ground (arith, h)
load_sources-SourceIsSound lower seen (JsonItems.item (array xs) rest) l h = ground (arith, h)

-- A manifest that the validation accepts, in each of whose cases the judgments are not null and the
-- reasons are texts or null, is loaded, as many sources as it lists. Each source has a key, aliases,
-- domains and cases, a class that is known, a window of at least 1 and no blank text, and each of
-- its cases is well formed: no text is blank, the rules agree with each other, the minimum of
-- domains is at least 1 and within the domains that are asked for, the rank is at least 1, both
-- reasons are there where there is a rule, and there are judgments, each on the scale and with
-- something to compare with.
pub load_canonical_source_configs-SourceIsSound :
    (lower : Text → Text) (raw : JsonFields) (items : JsonItems)
    → get_value (codes "sources") raw ≡ array items
    → SourcesLoadable items
    → validate_manifest lower raw ≡ true
    → (sources : List CanonicalSource) × ((load_canonical_source_configs lower raw ≡ some sources)
        × (All SourceIsSound sources × (length sources ≡ length (items_of items))))
unfolding load_canonical_source_configs validate_manifest
load_canonical_source_configs-SourceIsSound lower raw items listed l h =
    let accepted : (not (is_empty (items_of items)) && validate_sources lower [] items) ≡ true =
      ap (some_sources lower) (sym listed) ∙ h in
    let (filled, valid) = both accepted in
    let (sources, (loaded, (sound, counted))) = load_sources-SourceIsSound lower [] items l valid in
    (
      sources,
      (
        if_true (sources_of (get_value (codes "sources") raw)) none h
            ∙ ap sources_of listed
            ∙ loaded,
        (sound, counted),
      ),
    )
