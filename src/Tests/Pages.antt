-- ===== src/Tests/Pages.antt =====
-- The pipeline at concrete inputs.
use web_search.Prelude.{
  pos, ℕ, ◌≡◌, refl, inl, true, false, none, some, [], ◌∷◌, map, nat_eq, list_eq, codes,
  ascii_lower, pair_eq,
}
use web_search.Crawler.Enqueue.{AttemptEnd.committed}
use web_search.Crawler.Precheck.{Context}
use web_search.Crawler.Run.{
  Raised.network, Raised.unexpected, Raised.cancelled, Answer, Answer.returned, Answer.raised,
  AttemptStatus,
}
use web_search.Crawler.Fetch.{FetchResult, join_chunks, read_response_body}
use web_search.Crawler.Fetch.Body.{IsRead, read_response_body-IsRead}
use web_search.Crawler.Indexer.{
  IndexerSubmitResult, PostAnswer.responds, ErrorBody.not_json, submit_page_to_indexer,
}
use web_search.Crawler.Services.{ParseResult, Services}
use web_search.Crawler.Pipeline.Tasks.{process_url}
use web_search.Core.UrlAdmission.{evaluate}
use web_search.Tests.SimpleUrls.{simple_urls, simple_domain}
use web_search.Tests.Producer.{millis, no_png, simple_hash}
use web_search.Tests.Crawling.{all_taken, untouched, only_path, first_choice}
use web_search.Tests.Known.{simple_hostname}

abbrev page : ParseResult
page = record {
  title = codes "A";
  content = codes "text";
  outlinks = codes "http://a.com/2" ∷ codes "http://b.com/1" ∷ [];
  feed_links = [];
}

abbrev accepted : IndexerSubmitResult
accepted = record { ok = true; status_code = some 200; detail = none }

abbrev with_fetch : Answer FetchResult → Services ℕ
with_fetch answer = record {
  ops = millis;
  lib = simple_urls;
  policy = no_png;
  url_hash = simple_hash;
  get_domain = simple_domain;
  lower = ascii_lower;
  urlparse = only_path;
  hostname = simple_hostname;
  choice = first_choice;
  now = 7;
  fetch = answer;
  parse_page = λ html. returned page;
  parse_feed = λ xml. inl [];
  submit = λ i url title content. accepted;
  writes = all_taken;
  ledger_settings = record { url_ledger_chunk_size = pos 100; url_ledger_retry_limit = pos 2 };
  ledger_ends = λ call i j. committed;
  queue_ends = λ kind i j. committed;
  links_fail = false;
  write_error = unexpected [];
}

abbrev page_services : Services ℕ
page_services = with_fetch (
    returned (record {
      status = 200;
      content_type = codes "text/html";
      body = some (codes "<html>");
      error = none;
    }))

abbrev timeout_services : Services ℕ
timeout_services = with_fetch (raised (network (codes "timeout")))

abbrev ctx : Context ℕ
ctx = record {
  url = codes "http://a.com/1";
  domain = codes "a.com";
  blocked_domains = [];
  can_fetch = returned true;
  is_private = returned false;
  crawl_delay = returned none;
}

page_runs :
    (process_url page_services all_taken ctx untouched).1.attempts
    ≡ record {
      url = codes "http://a.com/1";
      status = AttemptStatus.indexed;
      http_code = some 200;
      error_message = none;
    }
      ∷ []
unfolding process_url evaluate
page_runs = refl

-- What the page names is in the ledger, and a link to its own host in the queue.
queue_runs :
    map (λ q. q.url) (process_url page_services all_taken ctx untouched).1.db.crawl_queue
    ≡ codes "http://a.com/2" ∷ []
unfolding process_url evaluate
queue_runs = refl

timeout_runs :
    (process_url timeout_services all_taken ctx untouched).1.attempts
    ≡ record {
      url = codes "http://a.com/1";
      status = AttemptStatus.http_error;
      http_code = none;
      error_message = some (codes "timeout");
    }
      ∷ []
unfolding process_url evaluate
timeout_runs = refl

-- A cancellation is let through, and nothing is recorded.
cancelled_runs :
    let (answer, state) = process_url (with_fetch (raised cancelled)) all_taken ctx untouched in
    (answer ≡ raised cancelled) × (state.attempts ≡ []) × (state.db.domain_state ≡ [])
unfolding process_url evaluate
cancelled_runs = (refl, refl, refl)

submit_runs :
    submit_page_to_indexer (λ body. not_json) (responds 503 (codes " try   later "))
    ≡ record { ok = false; status_code = some 503; detail = some (codes "Indexer 503: try later") }
unfolding submit_page_to_indexer
submit_runs = refl

body_runs : read_response_body ((1 ∷ 2 ∷ []) ∷ [] ∷ (3 ∷ []) ∷ []) 2 ≡ (1 ∷ 2 ∷ [], true)
unfolding read_response_body
body_runs = refl

read_response_body-IsRead_example :
    IsRead 2
      (join_chunks ((1 ∷ 2 ∷ []) ∷ [] ∷ (3 ∷ []) ∷ []))
      (read_response_body ((1 ∷ 2 ∷ []) ∷ [] ∷ (3 ∷ []) ∷ []) 2)
read_response_body-IsRead_example = read_response_body-IsRead ((1 ∷ 2 ∷ []) ∷ [] ∷ (3 ∷ []) ∷ []) 2
