-- ===== src/Crawler/Pipeline.antt =====
-- apps/crawler/src/web_search_crawler/workers/pipeline.py behind the checks, and `process_url` of
-- workers/tasks.py, which handles what the stages raise.
pub mod Ends
pub mod Tasks
use web_search.Prelude.{
  ℕ, zero, suc, ◌+◌, ◌-◌, ◌*◌, ◌/◌, ◌%◌, ◌^◌, ◌≤◌, ◌<◌, min, max, ◌≡◌, refl, sym, ap, ◌∙◌, ◌≢◌, ◌↔◌,
  ◌⊎◌, inl, inr, Bool, true, false, not, ◌&&◌, ◌||◌, Option, none, some, List, [], ◌∷◌, ◌++◌, map,
  reverse, Perm, Sublist, append-nil, append_assoc, arith, ltb, leb, nat_beq, if◌then◌else◌, ltb→lt,
  lt→ltb, leb→le, nat_beq_iff, Bool-cases, Option-cases, Bool-eq_of_iff, length, take, drop, any,
  all, keep, is_empty, length-append, length-take, take-append-drop, length-keep-le, any-append,
  keep-append, All, Any, Member, HasEq, ◌==◌, nat_eq, list_eq, list_beq, list_beq_iff, beq_refl,
  contains, contains_iff, update, occurrences, capped, occurrences-capped, capped-sublist,
  WithinQuota, take-capped-WithinQuota, sort_by, Sorted, sort_by-perm, sort_by-All, sort_by-Sorted,
  Text, codes, starts_with, ends_with, occurs_in, split, join, strip, lstrip, rstrip, is_space,
  from_last, ascii_lower, starts_with_iff, ends_with_iff, split-ne_nil, join-split, split-append,
  any-congr, any-or, any-false, keep-congr, keep-All, All-keep, All-append, any_iff, Any-map,
  All-map, All-of, beq_sym, text_leb, text_leb_total, text_leb_trans, unique, if_true, if_false,
  Tracks, Tracks-skip, Tracks-take, All-take, keep-All_of, keep_of_All, All-Member, capped-All,
  keep-All_both, All-members, some_pair, decimal, Sorted-eq_of_perm, keep-perm, text_leb_antisymm,
  text_leb_refl, sort_by-All_inv, All-split, contains-sort_by, ◌>>=◌, sort_by_of_Sorted,
  sort_by-Falling, Falling, sort_by-flag, if_cases, contains-append, contains-keep, pair_eq,
  pair_beq, pair_beq_iff,
}
use web_search.Crawler.Precheck.{Context, precheck}
use web_search.Crawler.Run.{
  Answer, Answer.returned, Answer.raised, AttemptStatus, AttemptStatus.http_error,
  AttemptStatus.skipped, CrawlState, Run, give, ask, go_on, ◌▷◌,
}
use web_search.Crawler.Fetch.{FetchResult, is_feed_content_type}
use web_search.Crawler.Services.{ProcessStatus, PipelineProcessResult, Services}
use web_search.Crawler.Pages.{finish, process_html_result, process_feed_result}

abbrev pub result_of : ProcessStatus → Text → (host_error : Bool) → PipelineProcessResult
result_of status message host_error = record {
  status = status;
  message = message;
  outlinks_discovered = 0;
  host_error = host_error;
}

-- `f"Non-HTML content-type: {content_type.strip() or 'unknown'}"`
unfoldable pub non_html_reason : Text → Text
non_html_reason content_type =
    codes "Non-HTML content-type: "
    ++ (elim (strip content_type) [ [] ↦ codes "unknown" | c ∷ cs ↦ c ∷ cs ])

module _ {Delay : Type 0} (services : Services Delay) (ctx : Context Delay) where
  open services use {ops, lower, get_domain, writes, now, fetch}

  -- A result with an error, which is not the empty text.
  unfoldable pub finish_error : ℕ → Text → Run Delay PipelineProcessResult
  unfolding finish
  finish_error status error =
      finish services ctx skipped (some status) (some error) false
        (result_of ProcessStatus.failed error false)

  -- A result with the status 200 and a body.
  unfoldable pub process_body : FetchResult → Text → Run Delay PipelineProcessResult
  unfolding process_feed_result process_html_result is_feed_content_type
  process_body result html =
      if is_feed_content_type result.content_type
      then process_feed_result services ctx result
      else process_html_result services ctx html

  -- A result with neither an error nor a body that is read.
  unfoldable pub finish_unread : FetchResult → Run Delay PipelineProcessResult
  unfolding finish non_html_reason decimal
  finish_unread result =
      let reason = non_html_reason result.content_type in
      let message = codes "HTTP " ++ decimal result.status in
      if nat_beq result.status 200
      then finish services ctx skipped (some result.status) (some reason) true
          (result_of ProcessStatus.skipped reason false)
      else finish services ctx http_error (some result.status) (some message) false
          (result_of ProcessStatus.failed message (leb 500 result.status))

  unfoldable pub process_unfailed : FetchResult → Run Delay PipelineProcessResult
  unfolding process_body finish_unread
  process_unfailed result = elim result.body [
    | none ↦ finish_unread result
    | some html ↦
        if nat_beq result.status 200 then process_body result html else finish_unread result
  ]

  unfoldable pub process_fetch_result : FetchResult → Run Delay PipelineProcessResult
  unfolding finish_error process_unfailed
  process_fetch_result result = elim result.error [
    | none ↦ process_unfailed result
    | some [] ↦ process_unfailed result
    | some (c ∷ cs) ↦ finish_error result.status (c ∷ cs)
  ]

  -- `execute_crawl` behind the checks.
  unfoldable pub crawl_unless : Option Text → Run Delay PipelineProcessResult
  unfolding process_fetch_result
  crawl_unless none = ask fetch ▷ process_fetch_result
  crawl_unless (some []) = ask fetch ▷ process_fetch_result
  crawl_unless (some (c ∷ cs)) =
      give (result_of ProcessStatus.skipped (codes "Crawl skipped: " ++ c ∷ cs) false)

  unfoldable pub execute_crawl : Run Delay PipelineProcessResult
  unfolding precheck crawl_unless
  execute_crawl = precheck ops lower get_domain writes now ctx ▷ crawl_unless
