-- ===== src/Tests/Crawler.antt =====
-- The crawler's queue and its pacing at concrete inputs.
use web_search.Prelude.{
  ℕ, ◌+◌, ◌*◌, ◌/◌, ◌≤◌, ◌<◌, min, max, ◌≡◌, refl, ◌≢◌, ◌↔◌, Bool, true, false, none, some, List,
  [], ◌∷◌, ◌++◌, map, reverse, arith, nat_beq, if◌then◌else◌, take, All, Any, nat_eq, list_eq,
  contains, Text, codes, ascii_lower, pair_eq,
}
use web_search.Crawler.Denylist.{is_domain_denied}
use web_search.Crawler.Denylist.Subdomains.{IsCovered, is_domain_denied_iff}
use web_search.Crawler.Store.{QueueRow, CrawlTask, DomainRow, DelayOps, Db, row_of}
use web_search.Crawler.DomainPacing.{record_crawl_result, after_failure, backoff_seconds, pace}
use web_search.Crawler.DomainPacing.Rows.{record_crawl_result-row_of, present}
use web_search.Crawler.DomainPacing.Backoff.{backoff_seconds_doubles}
use web_search.Crawler.Queue.{PopEnd, pop_ready_crawl_tasks, record_crawl_task_result, to_task}
use web_search.Crawler.Queue.Pop.{Popped, pop_ready_crawl_tasks-Popped}
use web_search.Crawler.Queue.Exclusive.{task_hash, pop_exclusive, popped_after_result, rests_until}
use web_search.Tests.SimpleUrls.{simple_domain}

abbrev denylist : List Text
denylist = codes "facebook.com" ∷ codes "t.co" ∷ []

is_domain_denied_iff_example :
    (is_domain_denied ascii_lower (codes "M.Facebook.com") denylist ≡ true)
    ↔ Any (IsCovered (codes "m.facebook.com")) denylist
is_domain_denied_iff_example = is_domain_denied_iff ascii_lower (codes "M.Facebook.com") denylist

denied_runs : is_domain_denied ascii_lower (codes "notfacebook.com") denylist ≡ false
unfolding is_domain_denied
denied_runs = refl

-- Delays in milliseconds.
abbrev millis : DelayOps ℕ
millis = record {
  ceil = λ d. (d + 999) / 1000;
  greatest = max;
  zero_delay = 0;
  default_delay = 1000;
}

abbrev slow_row : DomainRow ℕ
slow_row = record {
  domain = codes "a.com";
  next_request_at = 5;
  crawl_delay_sec = 2500;
  backoff_until = none;
  fail_streak = 2;
  updated_at = 1;
}

backoff_runs : backoff_seconds millis slow_row ≡ 24
unfolding backoff_seconds
backoff_runs = refl

backoff_seconds_doubles_example :
    (2 ≤ backoff_seconds millis slow_row)
    × (backoff_seconds millis slow_row ≤ 3600)
    × (slow_row.fail_streak ≡ 0
        → backoff_seconds millis slow_row ≡ min (2 * pace millis slow_row) 3600)
    × (slow_row.fail_streak < 9
        → backoff_seconds millis (record slow_row { fail_streak = 3 })
          ≡ min (2 * backoff_seconds millis slow_row) 3600)
    × (9 ≤ slow_row.fail_streak
        → backoff_seconds millis (record slow_row { fail_streak = 3 })
          ≡ backoff_seconds millis slow_row)
backoff_seconds_doubles_example = backoff_seconds_doubles millis slow_row

abbrev failing_row : DomainRow ℕ
failing_row = record slow_row { fail_streak = 30 }

abbrev row : ℕ → Text → ℕ → QueueRow
row n domain created_at = record {
  url_hash = n ∷ [];
  url = codes "http://" ++ (domain ++ (b'/' ∷ n ∷ []));
  domain = domain;
  created_at = created_at;
}

abbrev db : Db ℕ
db = record {
  crawl_queue =
      row b'1' (codes "a.com") 3
      ∷ row b'2' (codes "b.com") 2
      ∷ row b'3' (codes "b.com") 1
      ∷ row b'4' (codes "b.com") 4
      ∷ [];
  domain_state = slow_row ∷ [];
}

abbrev first_fails : ℕ → PopEnd
first_fails attempt = if nat_beq attempt 0 then PopEnd.conflict else PopEnd.commit

abbrev none_locked : QueueRow → Bool
none_locked q = false

abbrev popped_tasks : List CrawlTask
popped_tasks =
    to_task (row b'3' (codes "b.com") 1)
    ∷ to_task (row b'2' (codes "b.com") 2)
    ∷ to_task (row b'1' (codes "a.com") 3)
    ∷ []

abbrev left : Db ℕ
left = record db { crawl_queue = row b'4' (codes "b.com") 4 ∷ [] }

pop_runs : pop_ready_crawl_tasks first_fails none_locked 9 3 2 db ≡ some (popped_tasks, left)
unfolding pop_ready_crawl_tasks
pop_runs = refl

pop_ready_crawl_tasks-Popped_example : Popped first_fails none_locked 9 3 2 db popped_tasks left
pop_ready_crawl_tasks-Popped_example =
    pop_ready_crawl_tasks-Popped first_fails none_locked 9 3 2 db popped_tasks left pop_runs

-- An error that is no conflict is not tried again.
pop_stops : pop_ready_crawl_tasks (λ _. PopEnd.other_error) none_locked 9 3 2 db ≡ none
unfolding pop_ready_crawl_tasks
pop_stops = refl

abbrev empty_queue : Db ℕ
empty_queue = record db { crawl_queue = [] }

pop_again_runs :
    pop_ready_crawl_tasks first_fails none_locked 10 3 2 left
    ≡ some (to_task (row b'4' (codes "b.com") 4) ∷ [], empty_queue)
unfolding pop_ready_crawl_tasks
pop_again_runs = refl

-- The hash that the rows have: the last character of the URL.
abbrev tail_hash : Text → Text
tail_hash url = take 1 (reverse url)

pop_exclusive_example :
    All
      (λ t. contains (task_hash tail_hash t) (map (task_hash tail_hash) popped_tasks) ≡ false)
      (to_task (row b'4' (codes "b.com") 4) ∷ [])
pop_exclusive_example =
    pop_exclusive tail_hash first_fails first_fails none_locked none_locked 9 10 3 2 3 2 db left
      popped_tasks (to_task (row b'4' (codes "b.com") 4) ∷ []) left empty_queue
      (refl, (refl, (refl, (refl, tt)))) pop_runs refl pop_again_runs

record_crawl_result-row_of_example :
    row_of (codes "a.com") (record_crawl_result millis 20 (codes "a.com") false (slow_row ∷ []))
    ≡ some (after_failure millis 20 slow_row)
unfolding row_of
record_crawl_result-row_of_example =
    record_crawl_result-row_of millis 20 (codes "a.com") (codes "a.com") false (slow_row ∷ []) refl

-- The tables after a failure at 20, from which the domain is read at 30.
abbrev after_fail : Db ℕ
after_fail = record_crawl_task_result millis simple_domain 20 (codes "http://a.com/x") false db

abbrev after_pop : Db ℕ
after_pop = record after_fail {
  crawl_queue = row b'1' (codes "a.com") 3 ∷ row b'4' (codes "b.com") 4 ∷ [];
}

pop_rested_runs :
    pop_ready_crawl_tasks first_fails none_locked 30 2 2 after_fail
    ≡ some (
      to_task (row b'3' (codes "b.com") 1) ∷ to_task (row b'2' (codes "b.com") 2) ∷ [],
      after_pop,
    )
unfolding pop_ready_crawl_tasks record_crawl_task_result
pop_rested_runs = refl

abbrev rested_pop :
    Popped first_fails none_locked 30 2 2 after_fail
      (to_task (row b'3' (codes "b.com") 1) ∷ to_task (row b'2' (codes "b.com") 2) ∷ [])
      after_pop
rested_pop =
    pop_ready_crawl_tasks-Popped first_fails none_locked 30 2 2 after_fail
      (to_task (row b'3' (codes "b.com") 1) ∷ to_task (row b'2' (codes "b.com") 2) ∷ []) after_pop
      pop_rested_runs

rest_runs :
    rests_until millis simple_domain 20 false (present millis 20 (codes "a.com") db.domain_state)
    ≡ 44
unfolding rests_until backoff_seconds row_of
rest_runs = refl

popped_after_result_example : All (λ q. q.domain ≢ codes "a.com") rested_pop.rows
popped_after_result_example =
    popped_after_result millis simple_domain 20 30 (codes "http://a.com/x") false db refl
      (rw rest_runs (omega arith)) refl rested_pop
