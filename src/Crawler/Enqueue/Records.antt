-- ===== src/Crawler/Enqueue/Records.antt =====
-- What becomes of the URLs of a batch.
use web_search.Prelude.{
  contains-append, ◌≡◌, refl, sym, ap, inl, inr, Bool, true, false, Option, none, some, List, [],
  ◌∷◌, ◌++◌, map, arith, Bool-cases, Option-cases, is_empty, All, Member, nat_eq, list_eq, list_beq,
  list_beq_iff, beq_refl, contains, sort_by-All, Text, All-append, sort_by-All_inv,
}
use web_search.Crawler.Enqueue.{
  CrawlRecord, setdefault, hash_before, record_of, add_decision, normalize_loop,
  normalize_batch_urls,
}
use mathlib.Core.Path.{subst}
use web_search.Core.UrlAdmission.{
  Policy, UrlLib, AdmissionDecision, Action, Action.allow, Action.reject, evaluate,
}

abbrev pub hashes : List CrawlRecord → List Text
hashes records = map (λ x. x.h) records

map-append : (xs ys : List CrawlRecord) → hashes (xs ++ ys) ≡ hashes xs ++ hashes ys
map-append [] ys = refl
map-append (x ∷ xs) ys = ap (◌∷◌ x.h) (map-append xs ys)

-- Nothing is forgotten, and the record's hash is there.
pub setdefault-keeps :
    (t : Text) (r : CrawlRecord) (records : List CrawlRecord)
    → contains t (hashes records) ≡ true
    → contains t (hashes (setdefault r records)) ≡ true
unfolding setdefault
setdefault-keeps t r records h =
    ground (arith, map-append records (r ∷ []), contains-append t (hashes records) (r.h ∷ []))

pub setdefault-adds :
    (r : CrawlRecord) (records : List CrawlRecord)
    → contains r.h (hashes (setdefault r records)) ≡ true
unfolding setdefault
setdefault-adds r records = ground (
  arith,
  map-append records (r ∷ []),
  contains-append r.h (hashes records) (r.h ∷ []),
  beq_refl r.h,
)

pub setdefault-All :
    (P : CrawlRecord → Type 0) (r : CrawlRecord) (records : List CrawlRecord)
    → P r
    → All P records
    → All P (setdefault r records)
unfolding setdefault
setdefault-All P r records p h = elim (Bool-cases (contains r.h (hashes records))) [
  | inl e ↦ rw (e, setdefault) h
  | inr e ↦ rw (e, setdefault) (All-append P records (r ∷ []) h (p, tt))
]

module _ (lib : UrlLib) (policy : Policy) (url_hash get_domain : Text → Text) where
  -- The policy allows a URL under a normal form, which is not empty.
  pub record Allows (url n : Text) : Type 0 where
    pub decision : AdmissionDecision
    pub decided : evaluate lib policy url ≡ some decision
    pub allowed : decision.action ≡ allow
    pub normal : decision.normalized_url ≡ some n
    pub filled : is_empty n ≡ false

  abbrev rec : Text → CrawlRecord
  rec n = record_of lib policy url_hash get_domain n

  abbrev add : AdmissionDecision → List CrawlRecord → List CrawlRecord
  add d records = add_decision lib policy url_hash get_domain d records

  -- What one decision does to the records.
  data Effect (d : AdmissionDecision) (records : List CrawlRecord) : Type 0 where
    passed :
        ((n : Text) → d.action ≡ allow → d.normalized_url ≡ some n → is_empty n ≡ false → ⊥)
        → add d records ≡ records
        → Effect d records
    added :
        (n : Text)
        → d.action ≡ allow
        → d.normalized_url ≡ some n
        → is_empty n ≡ false
        → add d records ≡ setdefault (rec n) records
        → Effect d records

  Effect-by :
      (d : AdmissionDecision) (records : List CrawlRecord) (a : Action) (o : Option Text)
      → d.action ≡ a
      → d.normalized_url ≡ o
      → Effect d records
  unfolding add_decision
  Effect-by d records reject o p q = passed (λ n r t f. cc) (ground (arith, p))
  Effect-by d records allow none p q = passed (λ n r t f. cc) (ground (arith, p, q))
  Effect-by d records allow (some []) p q =
      passed (λ n r t f. ground (arith, q, t)) (ground (arith, p, q))
  Effect-by d records allow (some (c ∷ cs)) p q = added (c ∷ cs) p q refl (ground (arith, p, q))

  effect : (d : AdmissionDecision) (records : List CrawlRecord) → Effect d records
  effect d records = Effect-by d records d.action d.normalized_url refl refl

  -- What holds of the record of every allowed URL holds of the records.
  normalize_loop-All :
      (P : CrawlRecord → Type 0) (urls : List Text) (records out : List CrawlRecord)
      → All (λ u. (n : Text) → Allows u n → P (rec n)) urls
      → All P records
      → normalize_loop lib policy url_hash get_domain urls records ≡ some out
      → All P out
  unfolding normalize_loop
  normalize_loop-All P [] records out f h e = subst (All P) (ground (arith, e)) h
  normalize_loop-All P (u ∷ urls) records out (f, fs) h e =
      elim (Option-cases (evaluate lib policy u)) [
        | inl bad ↦ absurd (ground (arith, bad))
        | inr (d, good) ↦
            let next : normalize_loop lib policy url_hash get_domain urls (add d records)
                ≡ some out =
              rw (good, normalize_loop) at e in
            let kept : All P (add d records) = elim (effect d records) [
              | passed skipped same ↦ rw same h
              | added n p q t same ↦ rw same (
                  setdefault-All P (rec n) records
                    (f n (record {
                      decision = d;
                      decided = good;
                      allowed = p;
                      normal = q;
                      filled = t;
                    }))
                    h)
            ] in
            normalize_loop-All P urls (add d records) out fs kept next
      ]

  add-keeps :
      (t : Text) (d : AdmissionDecision) (records : List CrawlRecord)
      → contains t (hashes records) ≡ true
      → contains t (hashes (add d records)) ≡ true
  add-keeps t d records h = elim (effect d records) [
    | passed skipped same ↦ rw same h
    | added n p q f same ↦ rw same (setdefault-keeps t (rec n) records h)
  ]

  normalize_loop-keeps :
      (t : Text) (urls : List Text) (records out : List CrawlRecord)
      → contains t (hashes records) ≡ true
      → normalize_loop lib policy url_hash get_domain urls records ≡ some out
      → contains t (hashes out) ≡ true
  unfolding normalize_loop
  normalize_loop-keeps t [] records out h e =
      subst (λ r. contains t (hashes r) ≡ true) (ground (arith, e)) h
  normalize_loop-keeps t (u ∷ urls) records out h e = elim (Option-cases (evaluate lib policy u)) [
    | inl bad ↦ absurd (ground (arith, bad))
    | inr (d, good) ↦
        normalize_loop-keeps t urls (add d records) out (add-keeps t d records h)
          (rw (good, normalize_loop) at e)
  ]

  add-allowed :
      (u n : Text) (d : AdmissionDecision) (records : List CrawlRecord)
      → evaluate lib policy u ≡ some d
      → Allows u n
      → contains (url_hash n) (hashes (add d records)) ≡ true
  add-allowed u n d records good a = elim (effect d records) [
    | passed skipped same ↦
        let now : a.decision ≡ d = ground (arith, good, a.decided) in
        absurd (
          skipped n (subst (λ x. x.action ≡ allow) now a.allowed)
            (subst (λ x. x.normalized_url ≡ some n) now a.normal) a.filled)
    | added m p q f same ↦
        let now : a.decision ≡ d = ground (arith, good, a.decided) in
        let one : m ≡ n = ground (arith, q, subst (λ x. x.normalized_url ≡ some n) now a.normal) in
        rw same (
          subst (λ x. contains (url_hash x) (hashes (setdefault (rec m) records)) ≡ true) one
            (setdefault-adds (rec m) records))
  ]

  -- Every allowed URL has a record with its hash.
  normalize_loop_complete :
      (u n : Text) (urls : List Text) (records out : List CrawlRecord)
      → Member u urls
      → Allows u n
      → normalize_loop lib policy url_hash get_domain urls records ≡ some out
      → contains (url_hash n) (hashes out) ≡ true
  unfolding normalize_loop
  normalize_loop_complete u n [] records out m a e = absurd m
  normalize_loop_complete u n (v ∷ urls) records out m a e =
      elim (Option-cases (evaluate lib policy v)) [
        | inl bad ↦ absurd (ground (arith, bad))
        | inr (d, good) ↦
            let next : normalize_loop lib policy url_hash get_domain urls (add d records)
                ≡ some out =
              rw (good, normalize_loop) at e in
            elim m [
              | inl same ↦
                  normalize_loop-keeps (url_hash n) urls (add d records) out
                    (add-allowed u n d records (rw same good) a) next
              | inr later ↦ normalize_loop_complete u n urls (add d records) out later a next
            ]
      ]

  -- What holds of the record of every allowed URL holds of every row.
  pub normalize_batch_urls-All :
      (P : CrawlRecord → Type 0) (urls : List Text) (rows : List CrawlRecord)
      → All (λ u. (n : Text) → Allows u n → P (rec n)) urls
      → normalize_batch_urls lib policy url_hash get_domain urls ≡ some rows
      → All P rows
  unfolding normalize_batch_urls
  normalize_batch_urls-All P urls rows f h =
      elim (Option-cases (normalize_loop lib policy url_hash get_domain urls [])) [
        | inl bad ↦ absurd (ground (arith, bad))
        | inr (out, good) ↦
            subst (All P) (ground (arith, good))
              (sort_by-All hash_before P out (normalize_loop-All P urls [] out f tt good))
      ]

  pub hash_found :
      (f : Text → Bool) (t : Text) (records : List CrawlRecord)
      → All (λ r. f r.h ≡ true) records
      → contains t (hashes records) ≡ true
      → f t ≡ true
  hash_found f t [] h c = ground arith
  hash_found f t (r ∷ rs) (p, h) c = elim (Bool-cases (list_beq t r.h)) [
    | inl same ↦ subst (λ x. f x ≡ true) (sym ((list_beq_iff t r.h).0 same)) p
    | inr other ↦ hash_found f t rs h (ground (arith, other))
  ]

  -- A test that the hashes of all rows pass is passed by the hash of every allowed URL.
  pub normalize_batch_urls_complete :
      (f : Text → Bool) (u n : Text) (urls : List Text) (rows : List CrawlRecord)
      → Member u urls
      → Allows u n
      → normalize_batch_urls lib policy url_hash get_domain urls ≡ some rows
      → All (λ r. f r.h ≡ true) rows
      → f (url_hash n) ≡ true
  unfolding normalize_batch_urls
  normalize_batch_urls_complete f u n urls rows m a h tested =
      elim (Option-cases (normalize_loop lib policy url_hash get_domain urls [])) [
        | inl bad ↦ absurd (ground (arith, bad))
        | inr (out, good) ↦
            hash_found f (url_hash n) out
              (sort_by-All_inv hash_before (λ r. f r.h ≡ true) out
                (subst (All (λ r. f r.h ≡ true)) (ground (arith, good)) tested))
              (normalize_loop_complete u n urls [] out m a good)
      ]
