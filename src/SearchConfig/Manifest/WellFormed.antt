-- ===== src/SearchConfig/Manifest/WellFormed.antt =====
-- A case that the validation accepts, as the loader gives it.
use web_search.Prelude.{
  ◌≤◌, ◌≡◌, true, false, not, ◌&&◌, ◌||◌, some, List, if◌then◌else◌, length, is_empty, All, nat_eq,
  list_eq, Text, codes, if_cases, pair_eq,
}
use web_search.SearchConfig.Json.{JsonFields, get_field, get_value}
use web_search.SearchConfig.Cases.{EvalJudgment, CanonicalEvalCase, has_explicit_rule}
use web_search.SearchConfig.Manifest.{
  list_keys, validate_string_list, validate_lists, validate_reasons, validate_case,
}
use web_search.SearchConfig.Manifest.Load.{derive_case_judgments, load_case}
use web_search.SearchConfig.Manifest.Fields.{
  NonBlank, MayBe, validate-Strings, number_or-bounds, optional_number-positive,
}
use web_search.SearchConfig.Manifest.Rows.{JudgmentIsSound, derive_case_judgments-JudgmentIsSound}
use web_search.SearchConfig.Manifest.Read.{
  Reason, given, Loadable, judgments_read, all-All, text_read, load_case-reads,
}
use web_search.SearchConfig.Manifest.Accept.{
  Accepted, validate_case-Accepted, texts_accepted, rule_accepted, numbers_accepted,
}
use web_search.SearchConfig.Manifest.Rules.{
  one_rule_of, any_of_of, filters_of, reachable_of, reasons_of,
}

-- No blank texts, rules that agree with each other, and judgments.
pub record CaseIsSound (case : CanonicalEvalCase) : Type 0 where
  pub texts :
      NonBlank case.query
      × (NonBlank case.query_type × (NonBlank case.expected × NonBlank case.notes))
  pub rules :
      All NonBlank case.required_terms
      × (All NonBlank case.required_domains × All NonBlank case.any_of_terms)
  pub filters :
      All NonBlank case.required_title_terms
      × (All NonBlank case.required_paths
          × (All NonBlank case.required_path_terms × All NonBlank case.excluded_domains))
  pub one_rule : (given case.required_terms && given case.required_domains) ≡ false
  pub any_of_ruled : (given case.any_of_terms && not (given case.required_terms)) ≡ false
  pub filters_ruled :
      ((given case.required_title_terms
          || given case.required_paths
          || given case.required_path_terms
          || given case.excluded_domains)
        && not (has_explicit_rule case))
      ≡ false
  pub minimum : 1 ≤ case.minimum_domain_matches
  pub reachable :
      given case.required_domains ≡ true
      → case.minimum_domain_matches ≤ length case.required_domains
  pub rank : MayBe (λ r. 1 ≤ r) case.max_match_rank
  pub reasons : has_explicit_rule case ≡ true → Reason case.pass_reason × Reason case.fail_reason
  pub judgments : All JudgmentIsSound case.judgments
  pub judged : is_empty case.judgments ≡ false

module _ (domains paths news : List Text) (domains_filled : All NonBlank domains)
    (paths_filled : All NonBlank paths) (news_filled : All NonBlank news)
    (some_domain : is_empty domains ≡ false) where
  judgments_of :
      (query_type : Text) (rows : List EvalJudgment)
      → All JudgmentIsSound rows
      → let judgments =
          if is_empty rows then derive_case_judgments query_type domains paths news else rows in
        All JudgmentIsSound judgments × (is_empty judgments ≡ false)
  judgments_of query_type rows sound =
      if_cases (λ (js : List EvalJudgment). All JudgmentIsSound js × (is_empty js ≡ false))
        (is_empty rows)
        (λ e.
          derive_case_judgments-JudgmentIsSound query_type domains paths news domains_filled
            paths_filled news_filled some_domain)
        (λ e. (sound, e))

  Accepted-CaseIsSound :
      (item : JsonFields)
      → Loadable item
      → Accepted item
      → (case : CanonicalEvalCase) × ((load_case domains paths news item ≡ some case)
          × CaseIsSound case)
  unfolding validate_lists validate_reasons has_explicit_rule
  Accepted-CaseIsSound item loadable accepted =
      let (t1, (t2, (t3, t4))) = texts_accepted item accepted.texts in
      let (l1, (l2, (l3, (l4, (l5, (l6, (l7, end))))))) =
        all-All (λ key. validate_string_list (get_value key item)) list_keys accepted.lists in
      let (r1, (r2, r3)) = rule_accepted item accepted.rule in
      let (n1, (n2, n3)) = numbers_accepted item accepted.numbers in
      let (query, (is_query, q)) = text_read (codes "query") item t1 in
      let (query_type, (is_type, y)) = text_read (codes "query_type") item t2 in
      let (expected, (is_expected, x)) = text_read (codes "expected") item t3 in
      let (notes, (is_notes, o)) = text_read (codes "notes") item t4 in
      let (terms, t) = validate-Strings (get_value (codes "required_terms") item) l1 in
      let (required, d) = validate-Strings (get_value (codes "required_domains") item) l2 in
      let (any_of, a) = validate-Strings (get_value (codes "any_of_terms") item) l3 in
      let (titles, i) = validate-Strings (get_value (codes "required_title_terms") item) l4 in
      let (in_paths, p) = validate-Strings (get_value (codes "required_paths") item) l5 in
      let (path_terms, l) = validate-Strings (get_value (codes "required_path_terms") item) l6 in
      let (excluded, e) = validate-Strings (get_value (codes "excluded_domains") item) l7 in
      let (minimum, (is_minimum, (few, bound))) =
        number_or-bounds (get_value (codes "minimum_domain_matches") item) n1 in
      let (rank, (is_rank, ranked)) =
        optional_number-positive (get_value (codes "max_match_rank") item) n3 in
      let (rows, (is_rows, sound)) =
        judgments_read (get_field (codes "judgments") item) loadable.listed accepted.judgments in
      let (all_sound, some_row) = judgments_of query_type rows sound in
      (
        _,
        (
          load_case-reads domains paths news item is_rows is_query is_type is_expected is_notes
              (t.loaded) (d.loaded) is_minimum (a.loaded) (i.loaded) (p.loaded) (l.loaded)
              (e.loaded) is_rank loadable.pass_read loadable.fail_read,
          record {
            texts = (q, (y, (x, o)));
            rules = (t.non_blank, (d.non_blank, a.non_blank));
            filters = (i.non_blank, (p.non_blank, (l.non_blank, e.non_blank)));
            one_rule =
                one_rule_of (get_value (codes "required_terms") item)
                  (get_value (codes "required_domains") item) terms required t d r1;
            any_of_ruled =
                any_of_of (get_value (codes "any_of_terms") item)
                  (get_value (codes "required_terms") item) any_of terms a t r2;
            filters_ruled =
                filters_of (get_value (codes "required_title_terms") item)
                  (get_value (codes "required_paths") item)
                  (get_value (codes "required_path_terms") item)
                  (get_value (codes "excluded_domains") item)
                  (get_value (codes "required_terms") item)
                  (get_value (codes "required_domains") item) titles in_paths path_terms excluded
                  terms required i p l e t d r3;
            minimum = few;
            reachable =
                reachable_of (get_value (codes "required_domains") item)
                  (get_value (codes "minimum_domain_matches") item) required minimum d bound n2;
            rank = ranked;
            reasons =
                reasons_of item (get_value (codes "required_terms") item)
                  (get_value (codes "required_domains") item) terms required loadable t d
                  accepted.reasons;
            judgments = all_sound;
            judged = some_row;
          },
        ),
      )

  -- A case that the validation accepts, whose judgments are not null and whose reasons are texts or
  -- null, is loaded for a source with domains and without blank texts, and the case is well formed:
  -- no text is blank, the rules agree with each other, the minimum of domains is at least 1 and
  -- within the domains that are asked for, the rank is at least 1, both reasons are there where
  -- there is a rule, and there are judgments, each on the scale and with something to compare with.
  pub load_case-CaseIsSound :
      (item : JsonFields)
      → Loadable item
      → validate_case item ≡ true
      → (case : CanonicalEvalCase) × ((load_case domains paths news item ≡ some case)
          × CaseIsSound case)
  load_case-CaseIsSound item loadable h =
      Accepted-CaseIsSound item loadable (validate_case-Accepted item h)
