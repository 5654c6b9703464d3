-- ===== src/Crawler/Pages.antt =====
-- apps/crawler/src/web_search_crawler/services: what becomes of a page (html_processing.py), of a
-- feed (feed_processing.py), and of the URLs that they name (crawl_queue_admission.py).
use web_search.Prelude.{
  ℕ, ◌+◌, ◌⊎◌, inl, inr, Bool, true, false, Option, none, some, List, [], ◌∷◌, ◌++◌, map, nat_beq,
  if◌then◌else◌, length, is_empty, nat_eq, list_eq, Text, codes, decimal, pair_eq,
}
use web_search.Crawler.Discovery.{
  DiscoveryKind, DiscoveryKind.html_outlink, DiscoveryKind.syndication_feed, admitted_urls,
}
use web_search.Crawler.Precheck.{Context}
use web_search.Crawler.Run.{
  AttemptStatus, AttemptStatus.indexed, AttemptStatus.skipped, AttemptStatus.indexer_error, Run,
  give, ask, ◌▷◌, conclude,
}
use web_search.Crawler.Fetch.{FetchResult}
use web_search.Crawler.Indexer.{IndexerSubmitResult}
use web_search.Crawler.Services.{
  LedgerCall.for_entries, LedgerCall.for_discovered, ParseResult, FeedEntry, ProcessStatus,
  PipelineProcessResult, Services, observe_links, record_urls, enqueue_urls,
}

-- `code or default`
abbrev pub or_code : Option ℕ → ℕ → ℕ
or_code none default = default
or_code (some code) default = if nat_beq code 0 then default else code

-- `text or default`
abbrev pub or_text : Option Text → Text → Text
or_text none default = default
or_text (some []) default = default
or_text (some (c ∷ cs)) default = c ∷ cs

module _ {Delay : Type 0} (services : Services Delay) (ctx : Context Delay) where
  open services use {
    ops, get_domain, lower, urlparse, choice, now, writes, parse_page, parse_feed, submit,
  }

  -- The log entry, the result of the task, and what is returned.
  unfoldable pub finish :
      AttemptStatus
      → (code : Option ℕ) → (message : Option Text) → (is_done : Bool) → PipelineProcessResult
      → Run Delay PipelineProcessResult
  unfolding conclude
  finish status code message is_done result =
      conclude ops get_domain writes now
        (record { url = ctx.url; status = status; http_code = code; error_message = message })
        is_done
      ▷ λ _. give result

  unfoldable pub admit_discovered_urls : List Text → DiscoveryKind → Run Delay Unit
  unfolding admitted_urls record_urls enqueue_urls
  admit_discovered_urls [] kind = give tt
  admit_discovered_urls (d ∷ ds) kind =
      let (valid, queueable) =
        admitted_urls lower urlparse get_domain choice ctx.url ctx.blocked_domains (d ∷ ds) kind in
      if is_empty valid
      then give tt
      else (record_urls services (for_discovered kind) valid ▷ λ _.
          if is_empty queueable then give tt else enqueue_urls services kind queueable)

  -- How a page that was handed to the indexer ends.
  unfoldable pub finish_submitted :
      (outlinks : ℕ) → IndexerSubmitResult → Run Delay PipelineProcessResult
  unfolding finish
  finish_submitted outlinks index_result =
      let error_message = or_text index_result.detail (codes "Indexer API rejected") in
      if index_result.ok
      then finish indexed (some (or_code index_result.status_code 200)) none true (record {
        status = ProcessStatus.indexed;
        message = codes "Page indexed";
        outlinks_discovered = outlinks;
        host_error = false;
      })
      else finish indexer_error (some (or_code index_result.status_code 500)) (some error_message)
          false
          (record {
            status = ProcessStatus.failed;
            message = error_message;
            outlinks_discovered = outlinks;
            host_error = false;
          })

  unfoldable pub finish_without_content : (outlinks : ℕ) → Run Delay PipelineProcessResult
  unfolding finish
  finish_without_content outlinks =
      finish skipped (some 200) (some (codes "No main content found")) true (record {
        status = ProcessStatus.skipped;
        message = codes "No main content found";
        outlinks_discovered = outlinks;
        host_error = false;
      })

  -- `process_html_result` from the parsed page on.
  unfoldable pub process_parsed : ParseResult → Run Delay PipelineProcessResult
  unfolding observe_links admit_discovered_urls finish_submitted finish_without_content
  process_parsed parsed = observe_links services ctx.url parsed.outlinks ▷ λ _.
      admit_discovered_urls parsed.feed_links syndication_feed ▷ λ _.
      if is_empty parsed.content
      then (admit_discovered_urls parsed.outlinks html_outlink ▷ λ _.
          finish_without_content (length parsed.outlinks))
      else let index_result = submit 0 ctx.url parsed.title parsed.content in
        admit_discovered_urls parsed.outlinks html_outlink ▷ λ _.
        finish_submitted (length parsed.outlinks) index_result

  unfoldable pub process_html_result : Text → Run Delay PipelineProcessResult
  unfolding process_parsed
  process_html_result html = ask (parse_page html) ▷ process_parsed

  -- The loop over the entries, with `submitted` as its variable; `i` is the number of the entry.
  unfoldable pub submit_entries : ℕ → List FeedEntry → ℕ → ℕ
  submit_entries i [] submitted = submitted
  submit_entries i (entry ∷ entries) submitted =
      let index_result = submit i entry.url entry.title entry.content in
      submit_entries (i + 1) entries (if index_result.ok then submitted + 1 else submitted)

  -- A feed of which nothing, or something, was indexed.
  unfoldable pub finish_feed : (status : ℕ) → (submitted : ℕ) → Run Delay PipelineProcessResult
  unfolding finish decimal
  finish_feed status submitted =
      let message = codes "Feed entries failed to index" in
      if nat_beq submitted 0
      then finish indexer_error (some status) (some message) false (record {
        status = ProcessStatus.failed;
        message = message;
        outlinks_discovered = 0;
        host_error = false;
      })
      else finish indexed (some status) (some (codes "feed_entries=" ++ decimal submitted)) true
          (record {
            status = ProcessStatus.indexed;
            message = codes "Feed entries indexed";
            outlinks_discovered = submitted;
            host_error = false;
          })

  -- `process_feed_result` from what the parser says on.
  unfoldable pub process_entries :
      (status : ℕ) → List FeedEntry ⊎ Text → Run Delay PipelineProcessResult
  unfolding finish observe_links record_urls submit_entries finish_feed
  process_entries status (inr exc) =
      let message = codes "Feed parse failed: " ++ exc in
      finish skipped (some status) (some message) false (record {
        status = ProcessStatus.failed;
        message = message;
        outlinks_discovered = 0;
        host_error = false;
      })
  process_entries status (inl []) =
      let message = codes "No feed entries found" in
      finish skipped (some status) (some message) true (record {
        status = ProcessStatus.skipped;
        message = message;
        outlinks_discovered = 0;
        host_error = false;
      })
  process_entries status (inl (entry ∷ entries)) =
      let entry_urls = map (λ e. e.url) (entry ∷ entries) in
      observe_links services ctx.url entry_urls ▷ λ _.
      record_urls services for_entries entry_urls ▷ λ _.
      finish_feed status (submit_entries 0 (entry ∷ entries) 0)

  unfoldable pub process_feed_result : FetchResult → Run Delay PipelineProcessResult
  unfolding process_entries
  process_feed_result result =
      process_entries result.status (parse_feed (elim result.body [ none ↦ [] | some b ↦ b ]))
