-- ===== src/WebModel/Links.antt =====
-- packages/web-model/src/web_search_web_model/links.py: `LinkGraphRepository`, the links that were
-- observed between URLs, and the hosts that refer to a URL. `hostname` is that of `urlparse`, with
-- `none` where it raises `ValueError`; `fails` says that a statement or the commit raises.
pub mod Graph
use web_search.Prelude.{
  ℕ, zero, suc, ◌+◌, ◌-◌, ◌*◌, ◌/◌, ◌%◌, ◌^◌, ◌≤◌, ◌<◌, min, max, ◌≡◌, refl, sym, ap, ◌∙◌, ◌≢◌, ◌↔◌,
  ◌⊎◌, inl, inr, Bool, true, false, not, ◌&&◌, ◌||◌, Option, none, some, List, [], ◌∷◌, ◌++◌, map,
  reverse, Perm, Sublist, append-nil, append_assoc, arith, ltb, leb, nat_beq, if◌then◌else◌, ltb→lt,
  lt→ltb, leb→le, nat_beq_iff, Bool-cases, Option-cases, Bool-eq_of_iff, length, take, drop, any,
  all, keep, is_empty, length-append, length-take, take-append-drop, length-keep-le, any-append,
  keep-append, All, Any, Member, HasEq, ◌==◌, nat_eq, list_eq, list_beq, list_beq_iff, beq_refl,
  contains, contains_iff, update, occurrences, capped, occurrences-capped, capped-sublist,
  WithinQuota, take-capped-WithinQuota, sort_by, Sorted, sort_by-perm, sort_by-All, sort_by-Sorted,
  Text, codes, starts_with, ends_with, occurs_in, split, join, strip, lstrip, rstrip, is_space,
  from_last, ascii_lower, starts_with_iff, ends_with_iff, split-ne_nil, join-split, split-append,
  any-congr, any-or, any-false, keep-congr, keep-All, All-keep, All-append, any_iff, Any-map,
  All-map, All-of, beq_sym, text_leb, text_leb_total, text_leb_trans, unique, if_true, if_false,
  Tracks, Tracks-skip, Tracks-take, All-take, keep-All_of, keep_of_All, All-Member, capped-All,
  keep-All_both, All-members, some_pair, decimal, Sorted-eq_of_perm, keep-perm, text_leb_antisymm,
  text_leb_refl, sort_by-All_inv, All-split, contains-sort_by, ◌>>=◌, sort_by_of_Sorted,
  sort_by-Falling, Falling, sort_by-flag, if_cases, contains-append, contains-keep, pair_eq,
  pair_beq,
}
use web_search.Core.UrlAdmission.{Policy, UrlLib, AdmissionDecision, evaluate, pair_before}

-- A row of `url_referring_hosts`, whose key is (dst_url, referring_host).
pub record ReferringHost : Type 0 where
  pub dst_url : Text
  pub referring_host : Text
  pub last_observed_at : ℕ

-- A row (src, dst) of `links` is its own key.
pub record LinkTables : Type 0 where
  pub links : List (Text × Text)
  pub url_referring_hosts : List ReferringHost

-- What a call leaves: its result, `none` where it raises, and the tables.
pub record Observed : Type 0 where
  pub observed : Option ℕ
  pub tables : LinkTables

-- One round of the loop over the destinations, from the normal form on.
unfoldable pub add_pair : Text → Option Text → List (Text × Text) → List (Text × Text)
add_pair src none pairs = pairs
add_pair src (some []) pairs = pairs
add_pair src (some (c ∷ cs)) pairs =
    let pair : Text × Text = (src, c ∷ cs) in
    if list_beq (c ∷ cs) src
    then pairs
    else if contains pair pairs
    then pairs
    else pairs ++ pair ∷ []

-- `INSERT INTO links … ON CONFLICT DO NOTHING`
unfoldable pub insert_links : List (Text × Text) → List (Text × Text) → List (Text × Text)
insert_links [] links = links
insert_links (pair ∷ pairs) links =
    insert_links pairs (if contains pair links then links else links ++ pair ∷ [])

unfoldable pub replace_links : Text → List (Text × Text) → List (Text × Text) → List (Text × Text)
unfolding insert_links
replace_links src_url pairs links =
    insert_links pairs (keep (λ link. not (list_beq link.0 src_url)) links)

-- One row of the statement: inserted, or observed again.
unfoldable pub upsert_host : ℕ → Text × Text → List ReferringHost → List ReferringHost
upsert_host now (dst, host) [] =
    record { dst_url = dst; referring_host = host; last_observed_at = now } ∷ []
upsert_host now (dst, host) (row ∷ rows) =
    let rest = upsert_host now (dst, host) rows in
    if list_beq row.dst_url dst && list_beq row.referring_host host
    then record row { last_observed_at = now } ∷ rows
    else row ∷ rest

unfoldable pub upsert_hosts : ℕ → List (Text × Text) → List ReferringHost → List ReferringHost
unfolding upsert_host
upsert_hosts now [] table = table
upsert_hosts now (row ∷ rows) table = upsert_hosts now rows (upsert_host now row table)

-- `{(dst, referring_host) for _, dst in pairs}`, without an order.
unfoldable pub host_rows : Text → List (Text × Text) → List (Text × Text)
host_rows host [] = []
host_rows host ((src, dst) ∷ pairs) =
    let rest = host_rows host pairs in
    if contains (dst, host) rest then rest else (dst, host) ∷ rest

module _ (hostname : Text → Option (Option Text)) where
  unfoldable pub referring_host : Text → Option Text
  referring_host src_url = hostname src_url >>= λ host. host

  unfoldable pub upsert_url_referring_hosts :
      ℕ → Text → List (Text × Text) → List ReferringHost → List ReferringHost
  unfolding referring_host upsert_hosts host_rows pair_before sort_by
  upsert_url_referring_hosts now src_url pairs table = elim (referring_host src_url) [
    | none ↦ table
    | some [] ↦ table
    | some (c ∷ cs) ↦ upsert_hosts now (sort_by pair_before (host_rows (c ∷ cs) pairs)) table
  ]

  module _ (lib : UrlLib) (policy : Policy) where
    -- `_normalize_url`: the outer `none` where `evaluate` raises.
    unfoldable pub normalize_link_url : Text → Option (Option Text)
    unfolding evaluate
    normalize_link_url url = evaluate lib policy url >>= λ decision. some decision.normalized_url

    -- The loop over the destinations, with `pairs` as its variable.
    unfoldable pub pairs_loop : Text → List Text → List (Text × Text) → Option (List (Text × Text))
    unfolding normalize_link_url add_pair
    pairs_loop src [] pairs = some pairs
    pairs_loop src ([] ∷ dst_urls) pairs = pairs_loop src dst_urls pairs
    pairs_loop src ((c ∷ cs) ∷ dst_urls) pairs =
        normalize_link_url (c ∷ cs) >>= λ dst. pairs_loop src dst_urls (add_pair src dst pairs)

    unfoldable pub normalize_pairs : Text → List Text → Option (List (Text × Text))
    unfolding normalize_link_url pairs_loop pair_before sort_by
    normalize_pairs src_url dst_urls = normalize_link_url src_url >>= λ normal. elim normal [
      | none ↦ some []
      | some [] ↦ some []
      | some (c ∷ cs) ↦
          pairs_loop (c ∷ cs) dst_urls [] >>= λ pairs. some (sort_by pair_before pairs)
    ]

    -- The transaction of `replace_observed_links`.
    unfoldable pub write_observed :
        (fails : Bool) → ℕ → Text → List (Text × Text) → LinkTables → Observed
    unfolding replace_links upsert_url_referring_hosts
    write_observed fails now src pairs tables =
        if fails then record { observed = none; tables = tables } else record {
          observed = some (length pairs);
          tables = record {
            links = replace_links src pairs tables.links;
            url_referring_hosts =
                upsert_url_referring_hosts now src pairs tables.url_referring_hosts;
          };
        }

    unfoldable pub replace_observed_links :
        (fails : Bool) → ℕ → Text → List Text → LinkTables → Observed
    unfolding normalize_pairs normalize_link_url write_observed
    replace_observed_links fails now src_url dst_urls tables =
        elim (normalize_pairs src_url dst_urls) [
          | none ↦ record { observed = none; tables = tables }
          | some pairs ↦ elim (normalize_link_url src_url) [
            | none ↦ record { observed = none; tables = tables }
            | some none ↦ record { observed = some 0; tables = tables }
            | some (some []) ↦ record { observed = some 0; tables = tables }
            | some (some (c ∷ cs)) ↦ write_observed fails now (c ∷ cs) pairs tables
          ]
        ]
