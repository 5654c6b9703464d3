-- ===== src/WebModel/Ledger/Progress.antt =====
-- The loops of `record_discovered_urls`, round by round.
use web_search.Prelude.{
  ℕ, zero, suc, ◌+◌, ◌≤◌, ◌<◌, ◌≡◌, refl, sym, ap, ◌∙◌, ◌≢◌, inl, inr, true, false, Option, none,
  some, List, [], ◌∷◌, ◌++◌, arith, leb, nat_beq, Bool-cases, Option-cases, is_empty, All, Member,
  nat_eq, list_eq, contains, Text, All-split, pair_eq, ℤ, pos, negsuc, is_negative,
}
use mathlib.Core.Path.{subst, ap₂}
use web_search.Crawler.Store.{QueueRow}
use web_search.Crawler.Enqueue.{
  CrawlRecord, AttemptEnd, AttemptEnd.committed, AttemptEnd.aborted, setdefault, record_of, chunked,
}
use web_search.Crawler.Enqueue.Records.{setdefault-keeps, setdefault-adds, setdefault-All, hashes}
use web_search.Crawler.Enqueue.Chunks.{flat, chunked-flat}
use web_search.Crawler.Enqueue.Growth.{Grown, Grown-nil, Grown-append, inserted_rows-Grown}
use web_search.Core.UrlAdmission.{Policy, UrlLib, AdmissionDecision, evaluate}
use web_search.WebModel.Ledger.{
  LedgerSettings, at_least_one, known_url, known_loop, insert_urls_batch, record_attempts,
  LedgerOutcome, record_chunks, record_rows,
}

-- Of the attempts that the limit leaves one commits, before any of them ends in an error that is not
-- tried again.
abbrev pub CommitsWithin : ℕ → (ℕ → AttemptEnd) → Type 0
CommitsWithin limit ends =
    (j : ℕ) × ((j ≤ limit) × ((ends j ≡ committed) × ((k : ℕ) → k < j → ends k ≢ aborted)))

-- So it is at every chunk, unless the limit leaves no attempt.
abbrev pub Commits : (retry_limit : ℤ) → (ℕ → ℕ → AttemptEnd) → Type 0
Commits (pos limit) ends = (i : ℕ) → CommitsWithin limit (ends i)
Commits (negsuc n) ends = Unit

module _ (ends : ℕ → AttemptEnd) (limit gain j : ℕ) (in_limit : j ≤ limit)
    (commits : ends j ≡ committed) (tried : (k : ℕ) → k < j → ends k ≢ aborted) where
  attempts_commit :
      (rounds attempt recorded : ℕ)
      → attempt ≤ j
      → j < attempt + rounds
      → (record_attempts ends limit gain rounds attempt recorded).0 ≡ true
  unfolding record_attempts
  attempts_commit zero attempt recorded h k = absurd (omega (arith, h, k))
  attempts_commit (suc rounds) attempt recorded h k = elim (Bool-cases (nat_beq attempt j)) [
    | inl e ↦
        let here : attempt ≡ j = ground (arith, e) in
        let there : ends attempt ≡ committed = ap ends here ∙ commits in
        rw (there, record_attempts) refl
    | inr e ↦
        let early : attempt < j = ground (arith, e, h) in
        let on = tried attempt early in
        let one =
          attempts_commit rounds (attempt + 1) recorded (omega (arith, early)) (omega (arith, k)) in
        let two =
          attempts_commit rounds (attempt + 1) (recorded + gain) (omega (arith, early))
            (omega (arith, k)) in
        let below : leb limit attempt ≡ false = ground (arith, early, in_limit) in
        ground (arith, on, one, two, below)
  ]

at_least_one-positive : (n : ℤ) → 0 < at_least_one n
at_least_one-positive (pos n) = omega arith
at_least_one-positive (negsuc n) = omega arith

module _ (now : ℕ) (P : CrawlRecord → Type 0) where
  batch-Grown :
      (rows : List CrawlRecord) (urls : List QueueRow)
      → All P rows
      → Grown now P rows urls (insert_urls_batch rows now urls).1
  unfolding insert_urls_batch
  batch-Grown [] urls h = Grown-nil now P urls
  batch-Grown (r ∷ rows) urls h = inserted_rows-Grown now P (r ∷ rows) urls h

  -- Some rows are through: all of them where the loop returns and the limit leaves an attempt, and
  -- none where it leaves none; and the loop returns where every chunk commits.
  pub record Progress (retry_limit : ℤ) (ends : ℕ → ℕ → AttemptEnd) (rows : List CrawlRecord)
      (urls : List QueueRow) (o : LedgerOutcome) : Type 0 where
    pub through : List CrawlRecord
    pub part : Grown now P through urls o.urls
    pub whole : (k : ℕ) → is_negative retry_limit ≡ false → o.recorded ≡ some k → through ≡ rows
    pub idle : is_negative retry_limit ≡ true → o.urls ≡ urls
    pub returns : Commits retry_limit ends → o.recorded ≢ none

  record_chunks-Progress :
      (retry_limit : ℤ) (ends : ℕ → ℕ → AttemptEnd) (i : ℕ) (chunks : List (List CrawlRecord))
      (recorded : ℕ) (urls : List QueueRow)
      → All P (flat chunks)
      → Progress retry_limit ends
          (flat chunks)
          urls
          (record_chunks retry_limit ends now i chunks recorded urls)
  unfolding record_chunks
  record_chunks-Progress retry_limit ends i [] recorded urls h = record {
    through = [];
    part = Grown-nil now P urls;
    whole = λ k some_limit e. refl;
    idle = λ e. refl;
    returns = λ c e. cc;
  }
  record_chunks-Progress (negsuc n) ends i (chunk ∷ chunks) recorded urls h =
      let rest =
        record_chunks-Progress (negsuc n) ends (i + 1) chunks recorded urls
          (All-split P chunk (flat chunks) h).1 in
      record {
        through = rest.through;
        part = rest.part;
        whole = λ k some_limit e. cc;
        idle = λ e. rest.idle e;
        returns = λ c. rest.returns tt;
      }
  record_chunks-Progress (pos limit) ends i (chunk ∷ chunks) recorded urls h =
      let (here, later) = All-split P chunk (flat chunks) h in
      let (gain, saved) = insert_urls_batch chunk now urls in
      let tried = record_attempts (ends i) limit gain (limit + 1) 0 recorded in
      elim (Bool-cases tried.0) [
        | inl done ↦
            let rest = record_chunks-Progress (pos limit) ends (i + 1) chunks tried.1 saved later in
            rw (done, record_chunks)
              (record {
                through = chunk ++ rest.through;
                part =
                    Grown-append now P chunk rest.through urls saved _ (batch-Grown chunk urls here)
                      rest.part;
                whole = λ k some_limit e. ap (◌++◌ chunk) (rest.whole k some_limit e);
                idle = λ e. cc;
                returns = rest.returns;
              })
        | inr failed ↦
            let never : Commits (pos limit) ends → ⊥ = λ c.
              let (j, (in_limit, (commits, before))) = c i in
              let got =
                attempts_commit (ends i) limit gain j in_limit commits before (limit + 1) 0 recorded
                  (omega arith) (omega (arith, in_limit)) in
              ground (arith, got, failed) in
            rw (failed, record_chunks)
              (record {
                through = [];
                part = Grown-nil now P urls;
                whole = λ k some_limit e. cc;
                idle = λ e. refl;
                returns = λ c e. absurd (never c);
              })
      ]

  pub record_rows-Progress :
      (settings : LedgerSettings) (ends : ℕ → ℕ → AttemptEnd) (rows : List CrawlRecord)
      (urls : List QueueRow)
      → All P rows
      → Progress settings.url_ledger_retry_limit ends rows urls
          (record_rows settings ends now (some rows) urls)
  unfolding record_rows
  record_rows-Progress settings ends [] urls h = record {
    through = [];
    part = Grown-nil now P urls;
    whole = λ k some_limit e. refl;
    idle = λ e. refl;
    returns = λ c e. cc;
  }
  record_rows-Progress settings ends (r ∷ rows) urls h =
      let limit = settings.url_ledger_retry_limit in
      let size = at_least_one settings.url_ledger_chunk_size in
      let chunks = chunked (r ∷ rows) size in
      let whole =
        (chunked-flat (r ∷ rows) size (at_least_one-positive settings.url_ledger_chunk_size)).0 in
      subst (λ x. Progress limit ends x urls (record_chunks limit ends now 0 chunks 0 urls)) whole
        (record_chunks-Progress limit ends 0 chunks 0 urls (subst (All P) (sym whole) h))

module _ (lib : UrlLib) (policy : Policy) (url_hash get_domain : Text → Text) where
  -- A URL that is not empty is known under its normal form, and without one under its own.
  pub record IsKnownAs (n url : Text) : Type 0 where
    pub filled : is_empty url ≡ false
    pub decision : AdmissionDecision
    pub decided : evaluate lib policy url ≡ some decision
    pub known : known_url decision.normalized_url url ≡ n

  abbrev pub rec : Text → CrawlRecord
  rec n = record_of lib policy url_hash get_domain n

  abbrev pub loop : List Text → List CrawlRecord → Option (List CrawlRecord)
  loop urls records = known_loop lib policy url_hash get_domain urls records

  -- What holds of the records of every known URL holds of the records.
  pub known_loop-All :
      (P : CrawlRecord → Type 0) (urls : List Text) (records out : List CrawlRecord)
      → All (λ u. (n : Text) → IsKnownAs n u → P (rec n)) urls
      → All P records
      → loop urls records ≡ some out
      → All P out
  unfolding known_loop
  known_loop-All P [] records out f h e = subst (All P) (ground (arith, e)) h
  known_loop-All P ([] ∷ urls) records out (f, fs) h e = known_loop-All P urls records out fs h e
  known_loop-All P ((c ∷ cs) ∷ urls) records out (f, fs) h e =
      elim (Option-cases (evaluate lib policy (c ∷ cs))) [
        | inl bad ↦ absurd (ground (arith, bad, e))
        | inr (d, good) ↦
            let n = known_url d.normalized_url (c ∷ cs) in
            let is_known : IsKnownAs n (c ∷ cs) = record {
              filled = refl;
              decision = d;
              decided = good;
              known = refl;
            } in
            known_loop-All P urls (setdefault (rec n) records) out fs
              (setdefault-All P (rec n) records (f n is_known) h) (rw (good, known_loop) at e)
      ]

  known_loop-keeps :
      (t : Text) (urls : List Text) (records out : List CrawlRecord)
      → contains t (hashes records) ≡ true
      → loop urls records ≡ some out
      → contains t (hashes out) ≡ true
  unfolding known_loop
  known_loop-keeps t [] records out h e =
      subst (λ r. contains t (hashes r) ≡ true) (ground (arith, e)) h
  known_loop-keeps t ([] ∷ urls) records out h e = known_loop-keeps t urls records out h e
  known_loop-keeps t ((c ∷ cs) ∷ urls) records out h e =
      elim (Option-cases (evaluate lib policy (c ∷ cs))) [
        | inl bad ↦ absurd (ground (arith, bad, e))
        | inr (d, good) ↦
            let n = known_url d.normalized_url (c ∷ cs) in
            known_loop-keeps t urls (setdefault (rec n) records) out
              (setdefault-keeps t (rec n) records h) (rw (good, known_loop) at e)
      ]

  -- Every known URL has a record with its hash.
  pub known_loop_complete :
      (u n : Text) (urls : List Text) (records out : List CrawlRecord)
      → Member u urls
      → IsKnownAs n u
      → loop urls records ≡ some out
      → contains (url_hash n) (hashes out) ≡ true
  unfolding known_loop
  known_loop_complete u n [] records out m k e = absurd m
  known_loop_complete u n ([] ∷ urls) records out (inl same) k e =
      absurd (ground (arith, subst (λ x. is_empty x ≡ false) same k.filled))
  known_loop_complete u n ([] ∷ urls) records out (inr m) k e =
      known_loop_complete u n urls records out m k e
  known_loop_complete u n ((c ∷ cs) ∷ urls) records out m k e =
      elim (Option-cases (evaluate lib policy (c ∷ cs))) [
        | inl bad ↦ absurd (ground (arith, bad, e))
        | inr (d, good) ↦
            let v = known_url d.normalized_url (c ∷ cs) in
            let next = setdefault (rec v) records in
            let after : loop urls next ≡ some out = rw (good, known_loop) at e in
            elim m [
              | inr later ↦ known_loop_complete u n urls next out later k after
              | inl same ↦
                  let one : k.decision ≡ d =
                    ground (arith, sym k.decided, ap (evaluate lib policy) same, good) in
                  let named : v ≡ n =
                    ap₂ (λ x y. known_url x y) (ap (λ x. x.normalized_url) (sym one)) (sym same)
                    ∙ k.known in
                  subst (λ x. contains (url_hash x) (hashes out) ≡ true) named
                    (known_loop-keeps (url_hash v) urls next out (setdefault-adds (rec v) records)
                      after)
            ]
      ]
