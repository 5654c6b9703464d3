-- ===== src/Core/UrlAdmission/Query.antt =====
-- The query of a normal form: no dropped parameter, and one order for each set of parameters.
use web_search.Prelude.{
  ◌≡◌, Bool, true, false, not, List, Perm, arith, keep, All, nat_eq, list_eq, list_beq_iff,
  beq_refl, contains, Sorted, sort_by-perm, sort_by-All, sort_by-Sorted, Text, text_leb_total,
  text_leb_trans, keep-All_of, Sorted-eq_of_perm, keep-perm, text_leb_antisymm, text_leb_refl,
}
use mathlib.Core.List.Perm
use web_search.Core.UrlAdmission.{UrlLib, pair_before, kept_query_pairs}

pair_before_total : (a b : Text × Text) → pair_before a b ≡ false → pair_before b a ≡ true
unfolding pair_before
pair_before_total (a, v) (b, w) h = ground (
  arith,
  text_leb_total a b,
  text_leb_total b a,
  text_leb_total v w,
  text_leb_refl a,
  list_beq_iff a b,
  list_beq_iff b a,
  text_leb_antisymm a b,
)

pair_before_trans :
    (a b c : Text × Text) → pair_before a b ≡ true → pair_before b c ≡ true → pair_before a c ≡ true
unfolding pair_before
pair_before_trans (a, u) (b, v) (c, w) h k = ground (
  arith,
  text_leb_trans c b a,
  text_leb_trans c a b,
  text_leb_trans b c a,
  text_leb_trans u v w,
  text_leb_total b a,
  text_leb_total c b,
  text_leb_total a b,
  text_leb_total b c,
  list_beq_iff a b,
  list_beq_iff b c,
  list_beq_iff a c,
  text_leb_antisymm a b,
)

pair_before_refl : (a : Text × Text) → pair_before a a ≡ true
unfolding pair_before
pair_before_refl (a, v) = ground (arith, text_leb_refl a, text_leb_refl v, beq_refl {A = Text} a)

pair_before_antisymm : (a b : Text × Text) → pair_before a b ≡ true → pair_before b a ≡ true → a ≡ b
unfolding pair_before
pair_before_antisymm (a, v) (b, w) h k =
    ground (arith, text_leb_antisymm v w, list_beq_iff a b, list_beq_iff b a, text_leb_total a b)

-- The parameters that the policy leaves, as a test on pairs.
abbrev stays : (Text → Text) → List Text → Text × Text → Bool
stays lower dropped pair = not (contains (lower pair.0) dropped)

module _ (lib : UrlLib) (dropped : List Text) where
  -- The query of a normal form has exactly the parameters that are not dropped, as often as the
  -- URL has them, in the order of names and values.
  kept_query_pairs-lem :
      (query : Text)
      → let pairs = kept_query_pairs lib dropped query in
        Perm pairs (keep (stays lib.lower dropped) (lib.parse_qsl query))
        × All (λ pair. contains (lib.lower pair.0) dropped ≡ false) pairs
        × Sorted pair_before pairs
  unfolding kept_query_pairs
  kept_query_pairs-lem query =
      let kept = keep (stays lib.lower dropped) (lib.parse_qsl query) in
      (
        sort_by-perm pair_before kept,
        sort_by-All pair_before _ kept (
            keep-All_of _ (stays lib.lower dropped) (lib.parse_qsl query) (λ pair h. ground arith)),
        sort_by-Sorted pair_before pair_before_total pair_before_trans kept,
      )

  -- Two queries with the same parameters in any order get the same normal form.
  pub kept_query_pairs-perm :
      (query other : Text)
      → Perm (lib.parse_qsl query) (lib.parse_qsl other)
      → kept_query_pairs lib dropped query ≡ kept_query_pairs lib dropped other
  kept_query_pairs-perm query other same =
      let (mine, _, sorted) = kept_query_pairs-lem query in
      let (theirs, _, sorted') = kept_query_pairs-lem other in
      Sorted-eq_of_perm pair_before pair_before_refl pair_before_antisymm _ _ sorted sorted'
        (Perm.trans mine (Perm.trans (keep-perm (stays lib.lower dropped) same) (Perm.symm theirs)))
