-- ===== src/Crawler/Enqueue/Growth.antt =====
-- How a batch makes the queue grow.
use web_search.Prelude.{
  contains-append, ℕ, ◌≡◌, refl, sym, ap, ◌∙◌, inl, inr, true, false, List, [], ◌∷◌, ◌++◌, map,
  append-nil, append_assoc, arith, Bool-cases, All, nat_eq, list_eq, beq_refl, contains, Text,
  All-append, All-map, beq_sym,
}
use mathlib.Core.Path.{subst}
use web_search.Crawler.Store.{QueueRow}
use web_search.Crawler.Enqueue.{CrawlRecord, to_row, is_queued, inserted_rows}

abbrev pub Distinct : List Text → Type 0
Distinct [] = Unit
Distinct (t ∷ ts) = (contains t ts ≡ false) × Distinct ts

abbrev pub hashes_of : List QueueRow → List Text
hashes_of queue = map (λ q. q.url_hash) queue

pub hashes_of-append : (xs ys : List QueueRow) → hashes_of (xs ++ ys) ≡ hashes_of xs ++ hashes_of ys
hashes_of-append [] ys = refl
hashes_of-append (x ∷ xs) ys = ap (◌∷◌ x.url_hash) (hashes_of-append xs ys)

Distinct-snoc :
    (ts : List Text) (t : Text) → Distinct ts → contains t ts ≡ false → Distinct (ts ++ t ∷ [])
Distinct-snoc [] t d h = (refl, tt)
Distinct-snoc (s ∷ ts) t (fresh, d) h = (
  ground (arith, contains-append s ts (t ∷ []), beq_sym {A = Text} s t, fresh, h),
  Distinct-snoc ts t d (ground (arith, h)),
)

pub is_queued-append :
    (h : Text) (xs ys : List QueueRow) → is_queued h xs ≡ true → is_queued h (xs ++ ys) ≡ true
is_queued-append h xs ys q =
    ground (arith, hashes_of-append xs ys, contains-append h (hashes_of xs) (hashes_of ys), q)

module _ (now : ℕ) (P : CrawlRecord → Type 0) where
  -- A row made of a record of which `P` holds.
  abbrev pub Made : QueueRow → Type 0
  Made q = (r : CrawlRecord) × P r × (q ≡ to_row now r)

  -- The queue has grown by rows made of a batch, so that every hash of the batch is there.
  pub record Grown (rows : List CrawlRecord) (before after : List QueueRow) : Type 0 where
    pub new : List QueueRow
    pub grown : after ≡ before ++ new
    pub made : All Made new
    pub complete : All (λ r. is_queued r.h after ≡ true) rows
    pub distinct : Distinct (hashes_of before) → Distinct (hashes_of after)

  pub Grown-nil : (queue : List QueueRow) → Grown [] queue queue
  Grown-nil queue = record {
    new = [];
    grown = sym (append-nil queue);
    made = tt;
    complete = tt;
    distinct = λ d. d;
  }

  pub Grown-append :
      (rows rows' : List CrawlRecord) (a b c : List QueueRow)
      → Grown rows a b
      → Grown rows' b c
      → Grown (rows ++ rows') a c
  Grown-append rows rows' a b c g k = record {
    new = g.new ++ k.new;
    grown = k.grown ∙ ap (λ q. q ++ k.new) g.grown ∙ append_assoc a g.new k.new;
    made = All-append Made g.new k.new g.made k.made;
    complete =
        All-append (λ r. is_queued r.h c ≡ true) rows rows'
          (All-map (λ r. is_queued r.h b ≡ true) (λ r. is_queued r.h c ≡ true) rows
            (λ r q. rw k.grown (is_queued-append r.h b k.new q)) g.complete)
          k.complete;
    distinct = λ d. k.distinct (g.distinct d);
  }

  Grown-one :
      (r : CrawlRecord) (queue : List QueueRow)
      → P r
      → is_queued r.h queue ≡ false
      → Grown (r ∷ []) queue (queue ++ to_row now r ∷ [])
  Grown-one r queue p fresh = record {
    new = to_row now r ∷ [];
    grown = refl;
    made = ((r, p, refl), tt);
    complete = (
      ground (
        arith,
        hashes_of-append queue (to_row now r ∷ []),
        contains-append r.h (hashes_of queue) (r.h ∷ []),
        beq_refl r.h,
      ),
      tt,
    );
    distinct = λ d.
        rw (hashes_of-append queue (to_row now r ∷ []))
          (Distinct-snoc (hashes_of queue) r.h d fresh);
  }

  Grown-skip :
      (r : CrawlRecord) (queue : List QueueRow)
      → is_queued r.h queue ≡ true
      → Grown (r ∷ []) queue queue
  Grown-skip r queue there = record {
    new = [];
    grown = sym (append-nil queue);
    made = tt;
    complete = (there, tt);
    distinct = λ d. d;
  }

  -- The statement's rows at the end of the queue.
  pub inserted_rows-Grown :
      (rows : List CrawlRecord) (queue : List QueueRow)
      → All P rows
      → Grown rows queue (queue ++ inserted_rows now rows queue)
  unfolding inserted_rows
  inserted_rows-Grown [] queue h = rw (append-nil queue) (Grown-nil queue)
  inserted_rows-Grown (r ∷ rs) queue (p, h) = elim (Bool-cases (is_queued r.h queue)) [
    | inl there ↦
        rw (there, inserted_rows)
          (Grown-append (r ∷ []) rs queue queue _ (Grown-skip r queue there)
            (inserted_rows-Grown rs queue h))
    | inr fresh ↦
        let longer = queue ++ to_row now r ∷ [] in
        rw (fresh, inserted_rows)
          (subst (Grown (r ∷ rs) queue)
            (append_assoc queue (to_row now r ∷ []) (inserted_rows now rs longer))
            (Grown-append (r ∷ []) rs queue longer _ (Grown-one r queue p fresh)
              (inserted_rows-Grown rs longer h)))
  ]
