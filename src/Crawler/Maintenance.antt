-- ===== src/Crawler/Maintenance.antt =====
-- apps/crawler/src/web_search_crawler/db/url_maintenance.py: the purge of queued tasks by the
-- denylist. `LIKE … ESCAPE '\'` is Postgres's: `%` matches any text, `_` any character, a
-- backslash makes the next character stand for itself. The denylist is a set: its order in the
-- statement does not matter.
pub mod Purge
use web_search.Prelude.{
  ℕ, zero, suc, ◌+◌, ◌-◌, ◌*◌, ◌/◌, ◌%◌, ◌^◌, ◌≤◌, ◌<◌, min, max, ◌≡◌, refl, sym, ap, ◌∙◌, ◌≢◌, ◌↔◌,
  ◌⊎◌, inl, inr, Bool, true, false, not, ◌&&◌, ◌||◌, Option, none, some, List, [], ◌∷◌, ◌++◌, map,
  reverse, Perm, Sublist, append-nil, append_assoc, arith, ltb, leb, nat_beq, if◌then◌else◌, ltb→lt,
  lt→ltb, leb→le, nat_beq_iff, Bool-cases, Option-cases, Bool-eq_of_iff, length, take, drop, any,
  all, keep, is_empty, length-append, length-take, take-append-drop, length-keep-le, any-append,
  keep-append, All, Any, Member, HasEq, ◌==◌, nat_eq, list_eq, list_beq, list_beq_iff, beq_refl,
  contains, contains_iff, update, occurrences, capped, occurrences-capped, capped-sublist,
  WithinQuota, take-capped-WithinQuota, sort_by, Sorted, sort_by-perm, sort_by-All, sort_by-Sorted,
  Text, codes, starts_with, ends_with, occurs_in, split, join, strip, lstrip, rstrip, is_space,
  from_last, ascii_lower, starts_with_iff, ends_with_iff, split-ne_nil, join-split, split-append,
  any-congr, any-or, any-false, keep-congr, keep-All, All-keep, All-append, any_iff, Any-map,
  All-map, All-of, beq_sym, text_leb, text_leb_total, text_leb_trans, unique, if_true, if_false,
  Tracks, Tracks-skip, Tracks-take, All-take, keep-All_of, keep_of_All, All-Member, capped-All,
  keep-All_both, All-members, some_pair, decimal, Sorted-eq_of_perm, keep-perm, text_leb_antisymm,
  text_leb_refl, sort_by-All_inv, All-split,
}
use web_search.Crawler.Store.{QueueRow, Db}

-- `s.replace(x, by)` for a single character `x`
unfoldable pub replace_char : ℕ → Text → Text → Text
replace_char x by [] = []
replace_char x by (c ∷ s) =
    if nat_beq c x then by ++ replace_char x by s else c ∷ replace_char x by s

unfoldable pub escaped : Text → Text
unfolding replace_char
escaped d =
    replace_char b'_' (b'\\' ∷ b'_' ∷ [])
      (replace_char b'%' (b'\\' ∷ b'%' ∷ []) (replace_char b'\\' (b'\\' ∷ b'\\' ∷ []) d))

-- Whether some end of a text passes a test.
unfoldable pub some_end : (Text → Bool) → Text → Bool
some_end f [] = f []
some_end f (c ∷ s) = f (c ∷ s) || some_end f s

-- One character that passes a test, and a rest that passes another.
abbrev pub one_char : (ℕ → Bool) → (Text → Bool) → Text → Bool
one_char p rest [] = false
one_char p rest (c ∷ s) = p c && rest s

-- `s LIKE pattern ESCAPE '\'`; a pattern that ends in a lone backslash matches nothing.
unfoldable pub like : Text → Text → Bool
unfolding some_end
like [] s = is_empty s
like (c ∷ []) s =
    if nat_beq c b'%'
    then true
    else if nat_beq c b'_'
    then one_char (λ x. true) is_empty s
    else if nat_beq c b'\\'
    then false
    else one_char (nat_beq c) is_empty s
like (c ∷ e ∷ p) s =
    let rest = like (e ∷ p) in
    let behind = like p in
    if nat_beq c b'%'
    then some_end rest s
    else if nat_beq c b'_'
    then one_char (λ x. true) rest s
    else if nat_beq c b'\\'
    then one_char (nat_beq e) behind s
    else one_char (nat_beq c) rest s

-- The two conditions that the statement has for an entry.
unfoldable pub entry_condition : Text → Text → Bool
unfolding escaped like
entry_condition domain d = list_beq domain d || like (b'%' ∷ b'.' ∷ escaped d) domain

module _ {Delay : Type 0} where
  unfoldable pub purge_denied_domains : List Text → Db Delay → ℕ × Db Delay
  unfolding entry_condition
  purge_denied_domains [] db = (0, db)
  purge_denied_domains (d ∷ ds) db =
      let matches : QueueRow → Bool = λ q. any (entry_condition q.domain) (d ∷ ds) in
      (
        length (keep matches db.crawl_queue),
        record db { crawl_queue = keep (λ q. not (matches q)) db.crawl_queue },
      )
