-- ===== src/WebModel/Ledger/Recorded.antt =====
-- What `record_discovered_urls` leaves in the table, whether it returns or raises.
use web_search.Prelude.{
  ℕ, ◌≡◌, refl, sym, ◌≢◌, inl, inr, true, false, none, some, List, [], ◌∷◌, ◌++◌, append-nil,
  Option-cases, All, Any, Member, nat_eq, list_eq, sort_by, sort_by-All, Text, Any-map, All-map,
  All-members, sort_by-All_inv, pair_eq, is_negative,
}
use mathlib.Core.Path.{subst}
use web_search.Crawler.Store.{QueueRow}
use web_search.Crawler.Enqueue.{CrawlRecord, AttemptEnd, is_queued, hash_before}
use web_search.Crawler.Enqueue.Records.{hash_found}
use web_search.Crawler.Enqueue.Growth.{Made, Distinct, hashes_of}
use web_search.Core.UrlAdmission.{Policy, UrlLib, AdmissionDecision, evaluate}
use web_search.WebModel.Ledger.{
  LedgerSettings, known_loop, normalize_known_urls, LedgerOutcome, record_rows,
  record_discovered_urls,
}
use web_search.WebModel.Ledger.Progress.{
  Commits, record_rows-Progress, IsKnownAs, rec, loop, known_loop-All, known_loop_complete,
}

module _ (lib : UrlLib) (policy : Policy) (url_hash get_domain : Text → Text)
    (settings : LedgerSettings) (ends : ℕ → ℕ → AttemptEnd) (now : ℕ) where
  abbrev Known : Text → Text → Type 0
  Known n u = IsKnownAs lib policy url_hash get_domain n u

  -- A row for a URL of the call, under the form in which it is known.
  pub record IsKnownRow (urls : List Text) (q : QueueRow) : Type 0 where
    pub known_from : Any (Known q.url) urls
    pub hash : q.url_hash ≡ url_hash q.url
    pub host : q.domain ≡ get_domain q.url
    pub time : q.created_at ≡ now

  pub record Recorded (urls : List Text) (before : List QueueRow) (o : LedgerOutcome) : Type 0 where
    pub new : List QueueRow
    pub grown : o.urls ≡ before ++ new
    pub made : All (IsKnownRow urls) new
    pub distinct : Distinct (hashes_of before) → Distinct (hashes_of o.urls)
    pub complete :
        is_negative settings.url_ledger_retry_limit ≡ false
        → o.recorded ≢ none
        → (u n : Text) → Member u urls
        → Known n u
        → is_queued (url_hash n) o.urls ≡ true
    pub idle : is_negative settings.url_ledger_retry_limit ≡ true → o.urls ≡ before
    pub returns :
        All (λ u. (d : AdmissionDecision) × (evaluate lib policy u ≡ some d)) urls
        → Commits settings.url_ledger_retry_limit ends
        → o.recorded ≢ none

  abbrev FromUrls : List Text → CrawlRecord → Type 0
  FromUrls urls r = Any (Known r.url) urls × (r.h ≡ url_hash r.url) × (r.domain ≡ get_domain r.url)

  rows-FromUrls :
      (urls : List Text)
      → All
          (λ u. (n : Text) → Known n u → FromUrls urls (rec lib policy url_hash get_domain n))
          urls
  rows-FromUrls urls =
      All-map (λ u. Member u urls) _ urls
        (λ u m n k.
          (Any-map (λ v. u ≡ v) (Known n) urls (λ v e. subst (Known n) e k) m, refl, refl))
        (All-members urls)

  Made-IsKnownRow :
      (urls : List Text) (q : QueueRow) → Made now (FromUrls urls) q → IsKnownRow urls q
  Made-IsKnownRow urls q (r, (from, h, d), same) =
      subst (IsKnownRow urls) (sym same)
        (record { known_from = from; hash = h; host = d; time = refl })

  loop_returns :
      (urls : List Text) (records : List CrawlRecord)
      → All (λ u. (d : AdmissionDecision) × (evaluate lib policy u ≡ some d)) urls
      → loop lib policy url_hash get_domain urls records ≢ none
  unfolding known_loop
  loop_returns [] records h e = cc
  loop_returns ([] ∷ urls) records (p, h) e = loop_returns urls records h e
  loop_returns ((c ∷ cs) ∷ urls) records ((d, good), h) e =
      loop_returns urls _ h (rw (good, known_loop) at e)

  raised-Recorded :
      (urls : List Text) (before : List QueueRow)
      → loop lib policy url_hash get_domain urls [] ≡ none
      → Recorded urls before (record { recorded = none; urls = before })
  raised-Recorded urls before bad = record {
    new = [];
    grown = sym (append-nil before);
    made = tt;
    distinct = λ d. d;
    complete = λ some_limit back u n m k. absurd (back refl);
    idle = λ e. refl;
    returns = λ decided c e. loop_returns urls [] decided bad;
  }

  rows-Recorded :
      (urls : List Text) (before : List QueueRow) (out : List CrawlRecord)
      → loop lib policy url_hash get_domain urls [] ≡ some out
      → let rows = sort_by hash_before out in
        Recorded urls before (record_rows settings ends now (some rows) before)
  rows-Recorded urls before out good =
      let rows = sort_by hash_before out in
      let P = FromUrls urls in
      let o = record_rows settings ends now (some rows) before in
      let from =
        known_loop-All lib policy url_hash get_domain P urls [] out (rows-FromUrls urls) tt good in
      let p =
        record_rows-Progress now P settings ends rows before (sort_by-All hash_before P out from) in
      let Kept = λ (r : CrawlRecord). is_queued r.h o.urls ≡ true in
      record {
        new = p.part.new;
        grown = p.part.grown;
        made = All-map _ (IsKnownRow urls) p.part.new (Made-IsKnownRow urls) p.part.made;
        distinct = p.part.distinct;
        idle = p.idle;
        complete = λ some_limit returns u n m k. elim (Option-cases o.recorded) [
          | inl raised ↦ absurd (returns raised)
          | inr (count, back) ↦
              hash_found lib policy url_hash get_domain (λ h. is_queued h o.urls) (url_hash n) out
                (sort_by-All_inv hash_before Kept out
                  (subst (All Kept) (p.whole count some_limit back) p.part.complete))
                (known_loop_complete lib policy url_hash get_domain u n urls [] out m k good)
        ];
        returns = λ decided c. p.returns c;
      }

  -- Whether `record_discovered_urls` returns or raises, the table has only got rows at its end,
  -- each for a URL of the call that is not empty, under its normal form or, where it has none,
  -- as it is, with its hash, its host and the time; if no two rows had the same hash before, none
  -- have after; where the call returns, every such URL is in the table, unless the configured limit
  -- is negative, for then nothing is ever written; and it returns where every URL gets a decision
  -- and, of the attempts at every chunk that the limit leaves, one commits, before any of them ends
  -- in an error that is not tried again.
  pub record_discovered_urls-Recorded :
      (urls : List Text) (before : List QueueRow)
      → Recorded urls before
          (record_discovered_urls lib policy url_hash get_domain settings ends now urls before)
  unfolding record_discovered_urls normalize_known_urls record_rows
  record_discovered_urls-Recorded [] before = record {
    new = [];
    grown = sym (append-nil before);
    made = tt;
    distinct = λ d. d;
    complete = λ some_limit back u n m k. absurd m;
    idle = λ e. refl;
    returns = λ decided c e. cc;
  }
  record_discovered_urls-Recorded (u ∷ us) before =
      elim (Option-cases (loop lib policy url_hash get_domain (u ∷ us) [])) [
        | inl bad ↦
            rw (bad, record_discovered_urls, normalize_known_urls)
              (raised-Recorded (u ∷ us) before bad)
        | inr (out, good) ↦
            rw (good, record_discovered_urls, normalize_known_urls)
              (rows-Recorded (u ∷ us) before out good)
      ]
