-- ===== src/Crawler/Pipeline/Ends/Stages.antt =====
-- The stages behind the fetch, one by one.
use web_search.Prelude.{
  ℕ, ◌≡◌, refl, ◌⊎◌, inl, inr, Option, none, some, List, [], ◌∷◌, map, nat_beq, length, is_empty,
  nat_eq, list_eq, Text, if_cases, pair_eq,
}
use web_search.Crawler.Precheck.{Context}
use web_search.Crawler.Run.{CrawlState}
use web_search.Crawler.Fetch.{FetchResult, is_feed_content_type}
use web_search.Crawler.Indexer.{IndexerSubmitResult}
use web_search.Crawler.Services.{LedgerCall.for_entries, ParseResult, FeedEntry, Services}
use web_search.Crawler.Discovery.{html_outlink, syndication_feed}
use web_search.Crawler.Pages.{
  finish_submitted, finish_without_content, process_parsed, process_html_result, finish_feed,
  process_entries, process_feed_result,
}
use web_search.Crawler.Pipeline.{
  finish_error, process_body, finish_unread, process_unfailed, process_fetch_result,
}
use web_search.Crawler.Pipeline.Ends.{
  Ends, Ends-after, Quiet-ask, finish-Ends, links-Quiet, urls-Quiet, admit-Quiet,
}

module _ {Delay : Type 0} (services : Services Delay) (ctx : Context Delay) where
  finish_submitted-Ends :
      (start : CrawlState Delay) (outlinks : ℕ) (index_result : IndexerSubmitResult)
      → Ends services ctx start (finish_submitted services ctx outlinks index_result)
  unfolding finish_submitted
  finish_submitted-Ends start outlinks index_result =
      if_cases (Ends services ctx start) index_result.ok
        (λ e. finish-Ends services ctx start _ _ _ _ _ refl)
        (λ e. finish-Ends services ctx start _ _ _ _ _ refl)

  process_parsed-Ends :
      (start : CrawlState Delay) (parsed : ParseResult)
      → Ends services ctx start (process_parsed services ctx parsed)
  unfolding process_parsed finish_without_content
  process_parsed-Ends start parsed =
      Ends-after services ctx start _ _ (links-Quiet services ctx ctx.url parsed.outlinks) (λ _.
        Ends-after services ctx start _ _
          (admit-Quiet services ctx parsed.feed_links syndication_feed)
          (λ _.
            if_cases (Ends services ctx start) (is_empty parsed.content)
              (λ e.
                Ends-after services ctx start _ _
                  (admit-Quiet services ctx parsed.outlinks html_outlink)
                  (λ _. finish-Ends services ctx start _ _ _ _ _ refl))
              (λ e.
                Ends-after services ctx start _ _
                  (admit-Quiet services ctx parsed.outlinks html_outlink)
                  (λ _.
                    finish_submitted-Ends start (length parsed.outlinks)
                      (services.submit 0 ctx.url parsed.title parsed.content)))))

  finish_feed-Ends :
      (start : CrawlState Delay) (status submitted : ℕ)
      → Ends services ctx start (finish_feed services ctx status submitted)
  unfolding finish_feed
  finish_feed-Ends start status submitted =
      if_cases (Ends services ctx start) (nat_beq submitted 0)
        (λ e. finish-Ends services ctx start _ _ _ _ _ refl)
        (λ e. finish-Ends services ctx start _ _ _ _ _ refl)

  process_entries-Ends :
      (start : CrawlState Delay) (status : ℕ) (parsed : List FeedEntry ⊎ Text)
      → Ends services ctx start (process_entries services ctx status parsed)
  unfolding process_entries
  process_entries-Ends start status (inr exc) = finish-Ends services ctx start _ _ _ _ _ refl
  process_entries-Ends start status (inl []) = finish-Ends services ctx start _ _ _ _ _ refl
  process_entries-Ends start status (inl (entry ∷ entries)) =
      Ends-after services ctx start _ _
        (links-Quiet services ctx ctx.url (map (λ e. e.url) (entry ∷ entries)))
        (λ _.
          Ends-after services ctx start _ _
            (urls-Quiet services ctx for_entries (map (λ e. e.url) (entry ∷ entries)))
            (λ _. finish_feed-Ends start status _))

  process_body-Ends :
      (start : CrawlState Delay) (result : FetchResult) (html : Text)
      → Ends services ctx start (process_body services ctx result html)
  unfolding process_body process_feed_result process_html_result
  process_body-Ends start result html =
      if_cases (Ends services ctx start) (is_feed_content_type result.content_type)
        (λ e. process_entries-Ends start _ _)
        (λ e.
          Ends-after services ctx start _ _ (Quiet-ask services ctx (services.parse_page html))
            (process_parsed-Ends start))

  finish_unread-Ends :
      (start : CrawlState Delay) (result : FetchResult)
      → Ends services ctx start (finish_unread services ctx result)
  unfolding finish_unread
  finish_unread-Ends start result =
      if_cases (Ends services ctx start) (nat_beq result.status 200)
        (λ e. finish-Ends services ctx start _ _ _ _ _ refl)
        (λ e. finish-Ends services ctx start _ _ _ _ _ refl)

  unfailed-Ends :
      (start : CrawlState Delay) (result : FetchResult) (body : Option Text)
      → result.body ≡ body
      → Ends services ctx start (process_unfailed services ctx result)
  unfolding process_unfailed
  unfailed-Ends start result none b = rw (b, process_unfailed) (finish_unread-Ends start result)
  unfailed-Ends start result (some html) b =
      rw (b, process_unfailed)
        (if_cases (Ends services ctx start) (nat_beq result.status 200)
          (λ e. process_body-Ends start result html) (λ e. finish_unread-Ends start result))

  fetched-Ends :
      (start : CrawlState Delay) (result : FetchResult) (error : Option Text)
      → result.error ≡ error
      → Ends services ctx start (process_fetch_result services ctx result)
  unfolding process_fetch_result finish_error
  fetched-Ends start result none r =
      rw (r, process_fetch_result) (unfailed-Ends start result result.body refl)
  fetched-Ends start result (some []) r =
      rw (r, process_fetch_result) (unfailed-Ends start result result.body refl)
  fetched-Ends start result (some (c ∷ cs)) r =
      rw (r, process_fetch_result) (finish-Ends services ctx start _ _ _ _ _ refl)

  -- Every path behind the fetch ends with one entry of the log and one result of the task.
  pub process_fetch_result-Ends :
      (start : CrawlState Delay) (result : FetchResult)
      → Ends services ctx start (process_fetch_result services ctx result)
  process_fetch_result-Ends start result = fetched-Ends start result result.error refl
