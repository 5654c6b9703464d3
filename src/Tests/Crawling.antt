-- ===== src/Tests/Crawling.antt =====
-- Attempts, checks and the worker of the crawler at concrete inputs.
use web_search.Prelude.{
  ℕ, ◌+◌, ◌/◌, ◌≤◌, max, ◌≡◌, refl, inl, true, false, none, some, List, [], ◌∷◌, length, All,
  nat_eq, list_eq, Text, codes, ascii_lower,
}
use web_search.Crawler.Store.{DelayOps}
use web_search.Crawler.Attempts.{
  get, summarize_crawl_attempt_counts, attempts_summed_as, total,
  summarize_crawl_attempt_counts-sums,
}
use web_search.Crawler.Discovery.{
  UrlParts, html_outlink, admitted_urls, MayQueue, admitted_urls-MayQueue,
}
use web_search.Crawler.Precheck.{Context, precheck}
use web_search.Crawler.Precheck.Outcomes.{Prechecked, precheck-Prechecked}
use web_search.Crawler.Run.{CrawlState, Writes, returned}
use web_search.Crawler.Worker.{
  WorkerService, new_service, start, finish_stop, Step.starts, Step.stop_ends, Reachable.created,
  Reachable.then_step, IsConsistent, Reachable-IsConsistent, get_uptime,
}
use web_search.Tests.SimpleUrls.{simple_domain}

abbrev counts : List (Text × ℕ)
counts =
    (codes "http_error", 2)
    ∷ (codes "indexed", 5)
    ∷ (codes "dead_letter", 1)
    ∷ (codes "new_status", 4)
    ∷ []

summary_runs :
    summarize_crawl_attempt_counts counts
    ≡ (codes "failed", 3) ∷ (codes "submitted", 5) ∷ (codes "new_status", 4) ∷ []
unfolding summarize_crawl_attempt_counts
summary_runs = refl

summarize_crawl_attempt_counts-sums_example :
    ((key : Text)
      → get key 0 (summarize_crawl_attempt_counts counts) ≡ attempts_summed_as key counts)
    × (total (summarize_crawl_attempt_counts counts) ≡ total counts)
summarize_crawl_attempt_counts-sums_example = summarize_crawl_attempt_counts-sums counts

abbrev millis : DelayOps ℕ
millis = record {
  ceil = λ d. (d + 999) / 1000;
  greatest = max;
  zero_delay = 0;
  default_delay = 1000;
}

abbrev ctx : Context ℕ
ctx = record {
  url = codes "http://a.com/1";
  domain = codes "a.com";
  blocked_domains = codes "b.com" ∷ [];
  can_fetch = returned false;
  is_private = returned false;
  crawl_delay = returned (some 2000);
}

abbrev pub untouched : CrawlState ℕ
untouched = record {
  attempts = [];
  db = record { crawl_queue = []; domain_state = [] };
  urls = [];
  link_tables = record { links = []; url_referring_hosts = [] };
}

-- Every write is taken.
abbrev pub all_taken : Writes
all_taken = record { log_fails = false; result_raises = none; delay_raises = none }

robots_runs :
    (precheck millis ascii_lower simple_domain all_taken 7 ctx untouched).0
    ≡ returned (some (codes "robots_blocked"))
unfolding precheck
robots_runs = refl

precheck-Prechecked_example :
    Prechecked millis ascii_lower simple_domain all_taken 7 ctx untouched
      (precheck millis ascii_lower simple_domain all_taken 7 ctx untouched)
precheck-Prechecked_example =
    precheck-Prechecked millis ascii_lower simple_domain all_taken 7 ctx untouched

abbrev started : WorkerService
started = record {
  task = some 1;
  is_running = true;
  started_at = some 5;
  active_counter = 0;
  concurrency = some 4;
}

start_runs : start 5 1 4 new_service ≡ some started
unfolding start
start_runs = refl

uptime_runs : get_uptime 8 started ≡ some 3
unfolding get_uptime
uptime_runs = refl

Reachable-IsConsistent_example : IsConsistent (finish_stop started)
Reachable-IsConsistent_example =
    Reachable-IsConsistent (finish_stop started)
      (then_step (then_step created (starts 5 1 4 start_runs)) stop_ends)

-- URLs without queries and fragments.
abbrev pub only_path : Text → UrlParts
only_path url = record { path = url; query = []; fragment = [] }

abbrev pub first_choice : Text → List Text → Text
first_choice u us = u

abbrev links : List Text
links = codes "http://b.com/1" ∷ codes "http://a.com/*" ∷ codes "http://a.com/2" ∷ []

admitted_runs :
    admitted_urls ascii_lower only_path simple_domain first_choice
      (codes "http://a.com/1")
      (codes "b.com" ∷ [])
      links
      html_outlink
    ≡ (codes "http://a.com/*" ∷ codes "http://a.com/2" ∷ [], codes "http://a.com/2" ∷ [])
unfolding admitted_urls
admitted_runs = refl

admitted_urls-MayQueue_example :
    All
      (MayQueue ascii_lower only_path simple_domain first_choice
        (codes "http://a.com/1")
        (codes "b.com" ∷ [])
        html_outlink)
      (admitted_urls ascii_lower only_path simple_domain first_choice
        (codes "http://a.com/1")
        (codes "b.com" ∷ [])
        links
        html_outlink).1
    × (length
          (admitted_urls ascii_lower only_path simple_domain first_choice
            (codes "http://a.com/1")
            (codes "b.com" ∷ [])
            links
            html_outlink).1
        ≤ 1)
admitted_urls-MayQueue_example =
    admitted_urls-MayQueue ascii_lower only_path simple_domain first_choice (λ u us. inl refl)
      (codes "http://a.com/1") (codes "b.com" ∷ []) links html_outlink
