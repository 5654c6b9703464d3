-- ===== src/WebModel/Links/Graph.antt =====
-- What the calls of `replace_observed_links` do to the graph, seen as the test whether there is a
-- link: the order of the rows is forgotten.
use web_search.Prelude.{
  ℕ, ◌≡◌, refl, sym, ap, ◌∙◌, inl, inr, Bool, true, false, not, ◌&&◌, ◌||◌, Option, none, some,
  List, [], ◌∷◌, ◌++◌, arith, if◌then◌else◌, Bool-cases, Option-cases, any, keep, is_empty, nat_eq,
  list_eq, list_beq, list_beq_iff, contains, sort_by, Text, beq_sym, contains-sort_by, ◌>>=◌,
  contains-append, contains-keep, pair_eq, pair_beq, pair_beq_iff,
}
use mathlib.Core.Path.{subst, ap₂}
use web_search.WebModel.Links.{
  LinkTables, Observed, add_pair, insert_links, replace_links, normalize_link_url, pairs_loop,
  normalize_pairs, write_observed, replace_observed_links,
}
use web_search.Core.UrlAdmission.{Policy, UrlLib, pair_before}

abbrev pub Graph : Type 0
Graph = (src dst : Text) → Bool

abbrev pub graph_of : LinkTables → Graph
graph_of tables src dst = contains (src, dst) tables.links

-- A normal form that is there and not empty.
abbrev filled : Option Text → Option Text
filled none = none
filled (some []) = none
filled (some (c ∷ cs)) = some (c ∷ cs)

abbrev is_form : Option Text → Text → Bool
is_form none dst = false
is_form (some n) dst = list_beq n dst

insert_links-contains :
    (p : Text × Text) (pairs links : List (Text × Text))
    → contains p (insert_links pairs links) ≡ (contains p pairs || contains p links)
unfolding insert_links
insert_links-contains p [] links = refl
insert_links-contains p (q ∷ pairs) links = elim (Bool-cases (contains q links)) [
  | inl there ↦
      let moved : pair_beq p q ≡ true → contains p links ≡ true =
        λ e. subst (λ x. contains x links ≡ true) (sym ((pair_beq_iff p q).0 e)) there in
      rw (there, insert_links) (ground (arith, moved, insert_links-contains p pairs links))
  | inr fresh ↦
      rw (fresh, insert_links)
        (ground (
          arith,
          insert_links-contains p pairs (links ++ q ∷ []),
          contains-append p links (q ∷ []),
        ))
]

replace_links-contains :
    (src : Text) (pairs links : List (Text × Text)) (p : Text × Text)
    → contains p (replace_links src pairs links)
      ≡ (contains p pairs || not (list_beq p.0 src) && contains p links)
unfolding replace_links
replace_links-contains src pairs links p =
    insert_links-contains p pairs (keep (λ link. not (list_beq link.0 src)) links)
    ∙ ap (λ b. contains p pairs || b) (contains-keep (λ link. not (list_beq link.0 src)) p links)

-- One destination that may be added, with any normal form.
add_one :
    (src n dst s : Text) (pairs : List (Text × Text))
    → contains {A = Text × Text}
        (s, dst)
        (if list_beq n src
          then pairs
          else if contains {A = Text × Text} (src, n) pairs
          then pairs
          else pairs ++ (src, n) ∷ [])
      ≡ (contains {A = Text × Text} (s, dst) pairs
          || list_beq s src && (list_beq n dst && not (list_beq dst src)))
add_one src n dst s pairs =
    let there : (s ≡ src)
        → (n ≡ dst)
        → contains {A = Text × Text} (src, n) pairs ≡ contains {A = Text × Text} (s, dst) pairs =
      λ p q. ap₂ (λ a b. contains {A = Text × Text} (a, b) pairs) (sym p) q in
    let same : (n ≡ dst) → list_beq n src ≡ list_beq dst src = ap (λ x. list_beq x src) in
    ground (
      arith,
      there,
      same,
      list_beq_iff s src,
      list_beq_iff n dst,
      beq_sym {A = Text} dst n,
      contains-append {A = Text × Text} (s, dst) pairs ((src, n) ∷ []),
    )

module _ (hostname : Text → Option (Option Text)) (lib : UrlLib) (policy : Policy) where
  unfoldable pub normal_form : Text → Option Text
  unfolding normalize_link_url
  normal_form url = normalize_link_url hostname lib policy url >>= filled

  -- A destination is named where it has this normal form, which is not the source's.
  unfoldable pub names : (src : Text) → Text → (dst : Text) → Bool
  unfolding normal_form
  names src url dst = not (is_empty url) && is_form (normal_form url) dst && not (list_beq dst src)

  -- The graph after a page was observed: the source's links are those that the page names.
  unfoldable pub observe : Text × List Text → Graph → Graph
  unfolding normal_form names
  observe (src_url, dst_urls) graph src dst = elim (normal_form src_url) [
    | none ↦ graph src dst
    | some s ↦ if list_beq src s then any (λ u. names s u dst) dst_urls else graph src dst
  ]

  unfoldable pub replay : List (Text × List Text) → Graph → Graph
  unfolding observe
  replay [] graph = graph
  replay (call ∷ calls) graph = replay calls (observe call graph)

  -- A sequence of calls, with those of them that returned.
  pub data Calls : LinkTables → List (Text × List Text) → LinkTables → Type 0 where
    no_calls : {t : LinkTables} → Calls t [] t
    returned :
        {t t' : LinkTables} {calls : List (Text × List Text)} (fails : Bool) (now : ℕ)
        (src_url : Text) (dst_urls : List Text) (count : ℕ)
        → (replace_observed_links hostname lib policy fails now src_url dst_urls t).observed
          ≡ some count
        → Calls
            (replace_observed_links hostname lib policy fails now src_url dst_urls t).tables
            calls
            t'
        → Calls t ((src_url, dst_urls) ∷ calls) t'
    raised :
        {t t' : LinkTables} {calls : List (Text × List Text)} (fails : Bool) (now : ℕ)
        (src_url : Text) (dst_urls : List Text)
        → (replace_observed_links hostname lib policy fails now src_url dst_urls t).observed ≡ none
        → Calls
            (replace_observed_links hostname lib policy fails now src_url dst_urls t).tables
            calls
            t'
        → Calls t calls t'

  add_pair-contains :
      (src dst s : Text) (form : Option Text) (pairs : List (Text × Text))
      → contains {A = Text × Text} (s, dst) (add_pair src form pairs) ≡ (
          contains {A = Text × Text} (s, dst) pairs
          || list_beq s src && (is_form (filled form) dst && not (list_beq dst src)))
  unfolding add_pair
  add_pair-contains src dst s none pairs = ground arith
  add_pair-contains src dst s (some []) pairs = ground arith
  add_pair-contains src dst s (some (c ∷ cs)) pairs = add_one src (c ∷ cs) dst s pairs

  pairs_loop-contains :
      (src dst s : Text) (dst_urls : List Text) (pairs out : List (Text × Text))
      → pairs_loop hostname lib policy src dst_urls pairs ≡ some out
      → contains {A = Text × Text} (s, dst) out ≡ (
          contains {A = Text × Text} (s, dst) pairs
          || list_beq s src && any (λ u. names src u dst) dst_urls)
  unfolding pairs_loop names normal_form
  pairs_loop-contains src dst s [] pairs out h =
      let same : pairs ≡ out = ground (arith, h) in rw (sym same) (ground arith)
  pairs_loop-contains src dst s ([] ∷ dst_urls) pairs out h =
      pairs_loop-contains src dst s dst_urls pairs out h
  pairs_loop-contains src dst s ((c ∷ cs) ∷ dst_urls) pairs out h =
      elim (Option-cases (normalize_link_url hostname lib policy (c ∷ cs))) [
        | inl bad ↦ absurd (ground (arith, bad, h))
        | inr (form, good) ↦
            let next : pairs_loop hostname lib policy src dst_urls (add_pair src form pairs)
                ≡ some out =
              rw (good, pairs_loop) at h in
            let rest = pairs_loop-contains src dst s dst_urls (add_pair src form pairs) out next in
            rw (good, names) (ground (arith, rest, add_pair-contains src dst s form pairs))
      ]

  abbrev call : Bool → ℕ → Text → List Text → LinkTables → Observed
  call fails now src_url dst_urls t =
      replace_observed_links hostname lib policy fails now src_url dst_urls t

  -- What a call that returns does to the graph, and that one that raises does nothing.
  record Effect (src_url : Text) (dst_urls : List Text) (t : LinkTables) (o : Observed)
      : Type 0 where
    replaced :
        (count : ℕ)
        → o.observed ≡ some count
        → (src dst : Text)
        → graph_of o.tables src dst ≡ observe (src_url, dst_urls) (graph_of t) src dst
    kept : o.observed ≡ none → o.tables ≡ t

  write_observed-Effect :
      (fails : Bool) (now : ℕ) (src_url : Text) (dst_urls : List Text) (t : LinkTables) (s : Text)
      (pairs : List (Text × Text))
      → normal_form src_url ≡ some s
      → ((dst r : Text)
          → contains {A = Text × Text} (r, dst) pairs
            ≡ (list_beq r s && any (λ u. names s u dst) dst_urls))
      → Effect src_url dst_urls t (write_observed hostname lib policy fails now s pairs t)
  unfolding write_observed observe
  write_observed-Effect true now src_url dst_urls t s pairs form ps = record {
    replaced = λ k e. cc;
    kept = λ e. refl;
  }
  write_observed-Effect false now src_url dst_urls t s pairs form ps = record {
    replaced = λ k e src dst.
        rw (form, observe)
          (ground (arith, replace_links-contains s pairs t.links (src, dst), ps dst src));
    kept = λ e. cc;
  }

  nothing-Effect :
      (src_url : Text) (dst_urls : List Text) (t : LinkTables)
      → normal_form src_url ≡ none
      → Effect src_url dst_urls t (record { observed = some 0; tables = t })
  unfolding observe
  nothing-Effect src_url dst_urls t form = record {
    replaced = λ k e src dst. rw (form, observe) refl;
    kept = λ e. cc;
  }

  raising-Effect :
      (src_url : Text) (dst_urls : List Text) (t : LinkTables)
      → Effect src_url dst_urls t (record { observed = none; tables = t })
  raising-Effect src_url dst_urls t = record { replaced = λ k e. cc; kept = λ e. refl }

  call_at :
      (fails : Bool) (now : ℕ) (src_url : Text) (dst_urls : List Text) (t : LinkTables)
      (o : Option (Option Text))
      → normalize_link_url hostname lib policy src_url ≡ o
      → Effect src_url dst_urls t (call fails now src_url dst_urls t)
  unfolding replace_observed_links normalize_pairs normal_form
  call_at fails now src_url dst_urls t none e =
      rw (e, call, replace_observed_links, normalize_pairs) (raising-Effect src_url dst_urls t)
  call_at fails now src_url dst_urls t (some none) e =
      let form : normal_form src_url ≡ none = rw e refl in
      rw (e, call, replace_observed_links, normalize_pairs, e)
        (nothing-Effect src_url dst_urls t form)
  call_at fails now src_url dst_urls t (some (some [])) e =
      let form : normal_form src_url ≡ none = rw e refl in
      rw (e, call, replace_observed_links, normalize_pairs, e)
        (nothing-Effect src_url dst_urls t form)
  call_at fails now src_url dst_urls t (some (some (c ∷ cs))) e =
      let form : normal_form src_url ≡ some (c ∷ cs) = rw e refl in
      rw (e, call, replace_observed_links, normalize_pairs)
        (elim (Option-cases (pairs_loop hostname lib policy (c ∷ cs) dst_urls [])) [
          | inl bad ↦ rw bad (raising-Effect src_url dst_urls t)
          | inr (out, good) ↦
              rw (good, e)
                (write_observed-Effect fails now src_url dst_urls t (c ∷ cs)
                  (sort_by pair_before out) form
                  (λ dst r.
                    contains-sort_by pair_before (r, dst) out
                    ∙ pairs_loop-contains (c ∷ cs) dst r dst_urls [] out good))
        ])

  observe-ext :
      (c : Text × List Text) (g h : Graph)
      → ((src dst : Text) → g src dst ≡ h src dst)
      → (src dst : Text) → observe c g src dst ≡ observe c h src dst
  unfolding observe
  observe-ext (src_url, dst_urls) g h same src dst = ground (arith, same src dst)

  replay-ext :
      (calls : List (Text × List Text)) (g h : Graph)
      → ((src dst : Text) → g src dst ≡ h src dst)
      → (src dst : Text) → replay calls g src dst ≡ replay calls h src dst
  unfolding replay
  replay-ext [] g h same src dst = same src dst
  replay-ext (c ∷ calls) g h same src dst =
      replay-ext calls (observe c g) (observe c h) (observe-ext c g h same) src dst

  -- After any sequence of calls of `replace_observed_links` the table of links is the graph in
  -- which, call by call, the links of the source have been replaced by links to the normal forms
  -- of the destinations, but for the source's own; calls that raise have no effect on it, and
  -- neither have calls for a source without a normal form.
  pub replace_observed_links_refines :
      (t t' : LinkTables) (calls : List (Text × List Text))
      → Calls t calls t'
      → (src dst : Text) → graph_of t' src dst ≡ replay calls (graph_of t) src dst
  unfolding replay
  replace_observed_links_refines t t' calls no_calls src dst = refl
  replace_observed_links_refines t t' calls
        (returned {calls = rest} fails now src_url dst_urls count back next) src dst =
      let effect = call_at fails now src_url dst_urls t _ refl in
      replace_observed_links_refines _ t' rest next src dst
      ∙ replay-ext rest _ _ (effect.replaced count back) src dst
  replace_observed_links_refines t t' calls (raised fails now src_url dst_urls back next) src dst =
      let effect = call_at fails now src_url dst_urls t _ refl in
      replace_observed_links_refines _ t' calls next src dst
      ∙ ap (λ x. replay calls (graph_of x) src dst) (effect.kept back)
