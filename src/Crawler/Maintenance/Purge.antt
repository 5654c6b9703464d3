-- ===== src/Crawler/Maintenance/Purge.antt =====
-- The purge removes what the denylist denies.
use web_search.Prelude.{
  ℕ, ◌+◌, ◌≡◌, refl, sym, ap, ◌∙◌, Bool, false, not, ◌&&◌, ◌||◌, List, [], ◌∷◌, ◌++◌, arith,
  nat_beq, if◌then◌else◌, nat_beq_iff, length, any, keep, All, nat_eq, list_eq, list_beq, Text,
  ends_with, any-congr, All-map, All-of, keep_of_All,
}
use web_search.Crawler.Store.{QueueRow, Db}
use web_search.Crawler.Denylist.{is_domain_denied}
use web_search.Crawler.Denylist.Subdomains.{covered, is_domain_denied-any}
use web_search.Crawler.Maintenance.{
  escaped, some_end, one_char, like, entry_condition, purge_denied_domains,
}

-- How one character is written in the pattern.
abbrev written : ℕ → Text
written c =
    if nat_beq c b'\\'
    then b'\\' ∷ b'\\' ∷ []
    else if nat_beq c b'%'
    then b'\\' ∷ b'%' ∷ []
    else if nat_beq c b'_'
    then b'\\' ∷ b'_' ∷ []
    else c ∷ []

escaped-cons : (c : ℕ) (d : Text) → escaped (c ∷ d) ≡ written c ++ escaped d
unfolding escaped
escaped-cons c d = ground (arith, nat_beq_iff c b'\\', nat_beq_iff c b'%', nat_beq_iff c b'_')

like-other :
    (c : ℕ) (p s : Text)
    → nat_beq c b'%' ≡ false
    → nat_beq c b'_' ≡ false
    → nat_beq c b'\\' ≡ false
    → like (c ∷ p) s ≡ one_char (nat_beq c) (like p) s
unfolding like
like-other c [] s h k l = ground (arith, h, k, l)
like-other c (e ∷ p) s h k l = ground (arith, h, k, l)

-- A written character matches itself and nothing else.
like-written : (c : ℕ) (p s : Text) → like (written c ++ p) s ≡ one_char (nat_beq c) (like p) s
unfolding like
like-written c p s =
    ground (arith, like-other c p s, nat_beq_iff c b'\\', nat_beq_iff c b'%', nat_beq_iff c b'_')

one_char-cons :
    (c : ℕ) (f : Text → Bool) (d s : Text)
    → ((t : Text) → f t ≡ list_beq d t)
    → one_char (nat_beq c) f s ≡ list_beq (c ∷ d) s
one_char-cons c f d [] h = refl
one_char-cons c f d (x ∷ s) h = ap (λ b. nat_beq c x && b) (h s)

like-escaped : (d s : Text) → like (escaped d) s ≡ list_beq d s
unfolding escaped like
like-escaped [] [] = refl
like-escaped [] (x ∷ s) = refl
like-escaped (c ∷ d) s =
    ap (λ p. like p s) (escaped-cons c d)
    ∙ like-written c (escaped d) s
    ∙ one_char-cons c (like (escaped d)) d s (like-escaped d)

some_end-ends_with :
    (f : Text → Bool) (p s : Text)
    → ((t : Text) → f t ≡ list_beq p t)
    → some_end f s ≡ ends_with p s
unfolding some_end
some_end-ends_with f [] [] h = h []
some_end-ends_with f (c ∷ p) [] h = h []
some_end-ends_with f p (x ∷ s) h = ground (arith, h (x ∷ s), some_end-ends_with f p s h)

dot_pattern : (d t : Text) → like (b'.' ∷ escaped d) t ≡ list_beq (b'.' ∷ d) t
dot_pattern d t =
    like-other b'.' (escaped d) t refl refl refl
    ∙ one_char-cons b'.' (like (escaped d)) d t (like-escaped d)

-- The pattern of an entry accepts what ends with a dot and the entry.
entry_condition-covered : (domain d : Text) → entry_condition domain d ≡ covered domain d
unfolding entry_condition like
entry_condition-covered domain d =
    ap (λ b. list_beq domain d || b)
      (some_end-ends_with (like (b'.' ∷ escaped d)) (b'.' ∷ d) domain (dot_pattern d))

keep-congr_on {ℓ} :
    {A : Type ℓ} (p q : A → Bool) (xs : List A) → All (λ x. p x ≡ q x) xs → keep p xs ≡ keep q xs
keep-congr_on p q [] h = refl
keep-congr_on p q (x ∷ xs) (e, h) = ground (arith, e, keep-congr_on p q xs h)

length-keep-both {ℓ} :
    {A : Type ℓ} (p : A → Bool) (xs : List A)
    → length (keep p xs) + length (keep (λ x. not (p x)) xs) ≡ length xs
length-keep-both p [] = refl
length-keep-both p (x ∷ xs) = ground (arith, length-keep-both p xs)

matches-denied :
    (lower : Text → Text) (denylist : List Text) (q : QueueRow)
    → lower q.domain ≡ q.domain
    → any (entry_condition q.domain) denylist ≡ is_domain_denied lower q.domain denylist
matches-denied lower denylist q h =
    any-congr _ _ denylist (entry_condition-covered q.domain)
    ∙ ap (λ d. any (covered d) denylist) (sym h)
    ∙ sym (is_domain_denied-any lower q.domain denylist)

module _ {Delay : Type 0} (lower : Text → Text) where
  -- `purge_denied_domains` keeps exactly the tasks whose domain `is_domain_denied` does not
  -- accept, where the domains are in lower case, and returns how many it has removed.
  pub purge_denied_domains-denied :
      (denylist : List Text) (db : Db Delay)
      → All (λ q. lower q.domain ≡ q.domain) db.crawl_queue
      → let (count, after) = purge_denied_domains denylist db in
        (after.crawl_queue
          ≡ keep (λ q. not (is_domain_denied lower q.domain denylist)) db.crawl_queue)
        × (count + length after.crawl_queue ≡ length db.crawl_queue)
        × (after.domain_state ≡ db.domain_state)
  unfolding purge_denied_domains is_domain_denied
  purge_denied_domains-denied [] db low =
      (sym (keep_of_All _ db.crawl_queue (All-of _ db.crawl_queue (λ q. refl))), omega arith, refl)
  purge_denied_domains-denied (d ∷ ds) db low = (
    keep-congr_on _ _ db.crawl_queue
        (All-map _ _ db.crawl_queue (λ q h. ap not (matches-denied lower (d ∷ ds) q h)) low),
    length-keep-both _ db.crawl_queue,
    refl,
  )
