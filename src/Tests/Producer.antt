-- ===== src/Tests/Producer.antt =====
-- The producer's side of the crawl queue, the purge and the planner at concrete inputs.
use web_search.Prelude.{
  ℕ, ◌+◌, ◌/◌, ◌≤◌, max, ◌≡◌, refl, ◌≢◌, inl, inr, Bool, false, not, none, some, List, [], ◌∷◌,
  reverse, nat_beq, if◌then◌else◌, length, take, keep, nat_eq, list_eq, Text, codes, ascii_lower,
  pair_eq,
}
use web_search.Crawler.Store.{QueueRow, CrawlTask, DelayOps, Db, row_of}
use web_search.Crawler.DomainPacing.{ensure_domain_state_rows, set_domain_crawl_delay, new_row}
use web_search.Crawler.DomainPacing.Inserts.{
  ensure_domain_state_rows-row_of, set_domain_crawl_delay-row_of,
}
use web_search.Crawler.Queue.{PopEnd, to_task}
use web_search.Crawler.Enqueue.{
  AttemptEnd, AttemptEnd.committed, AttemptEnd.statement_failed, AttemptEnd.commit_failed,
  enqueue_urls_for_crawl,
}
use web_search.Crawler.Enqueue.Counts.{enqueue_urls_for_crawl-count}
use web_search.Crawler.Enqueue.Returns.{enqueue_urls_for_crawl-returns}
use web_search.Crawler.Enqueue.Outcomes.{Enqueued, enqueue_urls_for_crawl-Enqueued}
use web_search.Crawler.Denylist.{is_domain_denied}
use web_search.Crawler.Maintenance.{purge_denied_domains}
use web_search.Crawler.Maintenance.Purge.{purge_denied_domains-denied}
use web_search.Crawler.Planner.{CrawlTaskPlanner, new_planner, pop_ready_urls}
use web_search.Crawler.Planner.Selection.{Planned, pop_ready_urls-Planned}
use web_search.Core.UrlAdmission.{Policy, evaluate}
use web_search.Tests.SimpleUrls.{simple_urls, simple_domain}

abbrev pub millis : DelayOps ℕ
millis = record {
  ceil = λ d. (d + 999) / 1000;
  greatest = max;
  zero_delay = 0;
  default_delay = 1000;
}

abbrev pub no_png : Policy
no_png = record {
  drop_query_params = [];
  reject_extensions = codes ".png" ∷ [];
  reject_path_prefixes = [];
  reject_path_contains = [];
  reject_query_params = [];
  domain_rules = [];
}

-- The first characters of the reversed URL, in place of its digest.
abbrev pub simple_hash : Text → Text
simple_hash url = take 4 (reverse url)

abbrev pub queued : Text → ℕ → QueueRow
queued url created_at = record {
  url_hash = simple_hash url;
  url = url;
  domain = simple_domain url;
  created_at = created_at;
}

abbrev start : Db ℕ
start = record { crawl_queue = queued (codes "http://a.com/2") 1 ∷ []; domain_state = [] }

abbrev urls : List Text
urls =
    codes "http://b.com/1"
    ∷ codes "http://b.com/1.png"
    ∷ codes "HTTP://a.com:80/2"
    ∷ codes "http://b.com/1"
    ∷ []

-- Each chunk fails once in a statement.
abbrev one_failure : ℕ → ℕ → AttemptEnd
one_failure i j = if nat_beq j 0 then statement_failed else committed

-- Each chunk fails once in the commit.
abbrev commit_failure : ℕ → ℕ → AttemptEnd
commit_failure i j = if nat_beq j 0 then commit_failed else committed

enqueue_runs :
    enqueue_urls_for_crawl millis simple_urls no_png simple_hash simple_domain one_failure 7 urls
      start
    ≡ record {
      added = some 1;
      db = record {
        crawl_queue = queued (codes "http://a.com/2") 1 ∷ queued (codes "http://b.com/1") 7 ∷ [];
        domain_state = new_row millis 7 (codes "a.com") ∷ new_row millis 7 (codes "b.com") ∷ [];
      };
    }
unfolding enqueue_urls_for_crawl evaluate
enqueue_runs = refl

-- The result counts a row twice where the commit fails once.
commit_failure_runs :
    (enqueue_urls_for_crawl millis simple_urls no_png simple_hash simple_domain commit_failure 7
      urls start).added
    ≡ some 2
unfolding enqueue_urls_for_crawl evaluate
commit_failure_runs = refl

enqueue_urls_for_crawl-Enqueued_example :
    let o =
      enqueue_urls_for_crawl millis simple_urls no_png simple_hash simple_domain one_failure 7 urls
        start in
    Enqueued millis simple_urls no_png simple_hash simple_domain one_failure 7 urls
      (o.added ≢ none)
      start.crawl_queue
      o.db.crawl_queue
enqueue_urls_for_crawl-Enqueued_example =
    enqueue_urls_for_crawl-Enqueued millis simple_urls no_png simple_hash simple_domain one_failure
      7 urls start

one_failure_added :
    (enqueue_urls_for_crawl millis simple_urls no_png simple_hash simple_domain one_failure 7 urls
      start).added
    ≡ some 1
unfolding enqueue_urls_for_crawl evaluate
one_failure_added = refl

enqueue_urls_for_crawl-count_example :
    let after =
      (enqueue_urls_for_crawl millis simple_urls no_png simple_hash simple_domain one_failure 7 urls
        start).db in
    (length after.crawl_queue ≤ 1 + 1)
    × (((i j : ℕ) → one_failure i j ≢ commit_failed) → length after.crawl_queue ≡ 1 + 1)
enqueue_urls_for_crawl-count_example =
    enqueue_urls_for_crawl-count millis 7 one_failure simple_urls no_png simple_hash simple_domain
      urls 1 start one_failure_added

enqueue_urls_for_crawl-returns_example :
    (enqueue_urls_for_crawl millis simple_urls no_png simple_hash simple_domain one_failure 7
      (codes "http://b.com/1" ∷ [])
      start).added
    ≢ none
unfolding evaluate
enqueue_urls_for_crawl-returns_example =
    enqueue_urls_for_crawl-returns millis one_failure 7 simple_urls no_png simple_hash simple_domain
      (codes "http://b.com/1" ∷ []) start ((_, refl), tt) (λ j. inr (inl ((λ e. cc), refl)))

ensure_domain_state_rows-row_of_example :
    row_of
      (codes "b.com")
      (ensure_domain_state_rows millis 5 (codes "b.com" ∷ [] ∷ codes "b.com" ∷ []) [])
    ≡ some (new_row millis 5 (codes "b.com"))
unfolding row_of
ensure_domain_state_rows-row_of_example =
    ensure_domain_state_rows-row_of millis 5 (codes "b.com")
      (codes "b.com" ∷ [] ∷ codes "b.com" ∷ []) []

set_domain_crawl_delay-row_of_example :
    row_of (codes "b.com") (set_domain_crawl_delay millis 5 (codes "b.com") 3000 [])
    ≡ some (record (new_row millis 5 (codes "b.com")) { crawl_delay_sec = 3000; updated_at = 5 })
unfolding row_of new_row
set_domain_crawl_delay-row_of_example =
    set_domain_crawl_delay-row_of millis 5 (codes "b.com") (codes "b.com") 3000 [] refl

abbrev denied : List Text
denied = codes "a_b.com" ∷ codes "t.co" ∷ []

abbrev mixed : Db ℕ
mixed = record {
  crawl_queue =
      queued (codes "http://x.a_b.com/1") 1
      ∷ queued (codes "http://x.acb.com/2") 2
      ∷ queued (codes "http://t.co/3") 3
      ∷ [];
  domain_state = [];
}

purge_runs :
    purge_denied_domains denied mixed
    ≡ (2, record mixed { crawl_queue = queued (codes "http://x.acb.com/2") 2 ∷ [] })
unfolding purge_denied_domains
purge_runs = refl

purge_denied_domains-denied_example :
    let (count, after) = purge_denied_domains denied mixed in
    (after.crawl_queue
      ≡ keep (λ q. not (is_domain_denied ascii_lower q.domain denied)) mixed.crawl_queue)
    × (count + length after.crawl_queue ≡ 3)
    × (after.domain_state ≡ [])
purge_denied_domains-denied_example =
    purge_denied_domains-denied ascii_lower denied mixed (refl, (refl, (refl, tt)))

abbrev planner : CrawlTaskPlanner
planner = record new_planner { denied_domains = denied }

abbrev no_faults : ℕ → PopEnd
no_faults attempt = PopEnd.commit

abbrev nothing_locked : QueueRow → Bool
nothing_locked q = false

abbrev planned : List CrawlTask
planned = to_task (queued (codes "http://x.acb.com/2") 2) ∷ []

planned_runs :
    pop_ready_urls ascii_lower no_faults nothing_locked 9 planner 3 mixed
    ≡ some (planned, record mixed { crawl_queue = [] })
unfolding pop_ready_urls
planned_runs = refl

pop_ready_urls-Planned_example :
    Planned ascii_lower no_faults nothing_locked 9 planner 3 mixed planned
      (record mixed { crawl_queue = [] })
pop_ready_urls-Planned_example =
    pop_ready_urls-Planned ascii_lower no_faults nothing_locked 9 planner 3 mixed planned
      (record mixed { crawl_queue = [] }) planned_runs
