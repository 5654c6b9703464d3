-- ===== src/Tests/Known.antt =====
-- The graph of links and the ledger of URLs at concrete inputs.
use web_search.Prelude.{
  pos, negsuc, ℕ, ◌≡◌, refl, false, Option, some, List, [], ◌∷◌, reverse, nat_beq, if◌then◌else◌,
  nat_eq, list_eq, Text, codes, pair_eq,
}
use web_search.Crawler.Enqueue.{AttemptEnd, AttemptEnd.committed, AttemptEnd.statement_failed}
use web_search.WebModel.Links.{LinkTables, Observed, replace_observed_links}
use web_search.WebModel.Links.Graph.{
  graph_of, replay, Calls.no_calls, Calls.returned, replace_observed_links_refines,
}
use web_search.WebModel.Ledger.{LedgerSettings, record_discovered_urls}
use web_search.WebModel.Ledger.Recorded.{Recorded, record_discovered_urls-Recorded}
use web_search.Core.UrlAdmission.{evaluate}
use web_search.Tests.SimpleUrls.{simple_urls, simple_domain}
use web_search.Tests.Producer.{no_png}

abbrev pub simple_hostname : Text → Option (Option Text)
simple_hostname url = some (some (simple_domain url))

abbrev before : LinkTables
before = record {
  links =
      (codes "http://a.com/1", codes "http://old.com/")
      ∷ (codes "http://b.com/1", codes "http://a.com/1")
      ∷ [];
  url_referring_hosts = [];
}

abbrev named : List Text
named =
    codes "http://c.com/1"
    ∷ []
    ∷ codes "http://a.com/1"
    ∷ codes "http://c.com:80/1"
    ∷ codes "http://b.com/1"
    ∷ []

abbrev observed : Observed
observed =
    replace_observed_links simple_hostname simple_urls no_png false 7 (codes "HTTP://a.com:80/1")
      named before

links_runs :
    observed.tables.links
    ≡ (codes "http://b.com/1", codes "http://a.com/1")
      ∷ (codes "http://a.com/1", codes "http://b.com/1")
      ∷ (codes "http://a.com/1", codes "http://c.com/1")
      ∷ []
unfolding replace_observed_links evaluate
links_runs = refl

count_runs : observed.observed ≡ some 2
unfolding replace_observed_links evaluate
count_runs = refl

replace_observed_links_refines_example :
    (graph_of observed.tables (codes "http://a.com/1") (codes "http://old.com/"))
    ≡ replay simple_hostname simple_urls no_png
        ((codes "HTTP://a.com:80/1", named) ∷ [])
        (graph_of before)
        (codes "http://a.com/1")
        (codes "http://old.com/")
replace_observed_links_refines_example =
    replace_observed_links_refines simple_hostname simple_urls no_png before observed.tables
      ((codes "HTTP://a.com:80/1", named) ∷ [])
      (returned false 7 (codes "HTTP://a.com:80/1") named 2 count_runs no_calls)
      (codes "http://a.com/1") (codes "http://old.com/")

-- The reversed URL, in place of its digest.
abbrev whole_hash : Text → Text
whole_hash = reverse

-- Two rows in a chunk, and two attempts at each.
abbrev settings : LedgerSettings
settings = record { url_ledger_chunk_size = pos 2; url_ledger_retry_limit = pos 1 }

-- The first attempt at each chunk fails.
abbrev one_failure : ℕ → ℕ → AttemptEnd
one_failure i j = if nat_beq j 0 then statement_failed else committed

ledger_runs :
    (record_discovered_urls simple_urls no_png whole_hash simple_domain settings one_failure 7 named
      []).recorded
    ≡ some 3
unfolding record_discovered_urls evaluate
ledger_runs = refl

record_discovered_urls-Recorded_example :
    Recorded simple_urls no_png whole_hash simple_domain settings one_failure 7 named [] (
      record_discovered_urls simple_urls no_png whole_hash simple_domain settings one_failure 7
        named [])
record_discovered_urls-Recorded_example =
    record_discovered_urls-Recorded simple_urls no_png whole_hash simple_domain settings one_failure
      7 named []

-- A negative limit: the call returns, and nothing is written.
unattempted_runs :
    record_discovered_urls simple_urls no_png whole_hash simple_domain
      (record settings { url_ledger_retry_limit = negsuc 0 })
      one_failure
      7
      named
      []
    ≡ record { recorded = some 0; urls = [] }
unfolding record_discovered_urls evaluate
unattempted_runs = refl
