-- ===== src/Tests/Excerpts.antt =====
-- Snippets, and the worker loop, at concrete inputs.
use web_search.Prelude.{
  ℕ, ◌+◌, ◌≤◌, ◌≡◌, refl, Bool, true, false, some, List, [], ◌∷◌, length, nat_eq, list_eq, list_beq,
  Text, codes, ascii_lower, pair_eq,
}
use web_search.Kernel.Snippet.{generate_snippet}
use web_search.Kernel.Snippet.Marks.{is_found, IsShown, generate_snippet-IsShown, shown}
use web_search.Kernel.Snippet.Lengths.{length-generate_snippet-le}
use web_search.Crawler.Store.{Db}
use web_search.Crawler.WorkerLoop.{
  WorkerLoop, begin_loop, ask_planner, LoopStep.asks, LoopStep.answers, LoopReachable.begins,
  LoopReachable.goes_on,
}
use web_search.Tests.Producer.{queued}

abbrev same_letter : ℕ → ℕ → Bool
same_letter c d = list_beq (ascii_lower (c ∷ [])) (ascii_lower (d ∷ []))

abbrev page_text : Text
page_text = codes "A <b> Cat & a dog"

abbrev terms : List Text
terms = codes "cat" ∷ codes " " ∷ codes "dog" ∷ []

snippet_runs : generate_snippet same_letter page_text terms 40 true ≡ record {
  text = codes "A &lt;b&gt; <mark>Cat</mark> &amp; a <mark>dog</mark>";
  plain_text = page_text;
}
unfolding generate_snippet
snippet_runs = refl

-- Where no term is found the text is not escaped.
unmarked_runs :
    (generate_snippet same_letter page_text (codes "bird" ∷ []) 40 true).text ≡ page_text
unfolding generate_snippet
unmarked_runs = refl

-- What a browser shows of it is not the plain snippet.
unmarked_shown : shown page_text ≡ codes "A  Cat "
unfolding shown
unmarked_shown = refl

generate_snippet-IsShown_example :
    IsShown same_letter
      (is_found same_letter terms page_text)
      (generate_snippet same_letter page_text terms 40 true)
generate_snippet-IsShown_example = generate_snippet-IsShown same_letter page_text terms 40

length-generate_snippet-le_example :
    length (generate_snippet same_letter page_text terms 4 false).plain_text ≤ 4 + 66
length-generate_snippet-le_example = length-generate_snippet-le same_letter page_text terms 4 false

abbrev tables : Db ℕ
tables = record {
  crawl_queue = queued (codes "http://a.com/2") 1 ∷ queued (codes "http://b.com/1") 2 ∷ [];
  domain_state = [];
}

abbrev fresh_loop : WorkerLoop ℕ
fresh_loop = begin_loop (codes "b.com" ∷ []) tables

abbrev after_round : WorkerLoop ℕ
after_round = record fresh_loop {
  in_flight_tasks =
      (0, record { url = codes "http://a.com/2"; domain = codes "a.com"; created_at = 1 }) ∷ [];
  active_counter = 1;
  next_task = 1;
  db = record { crawl_queue = []; domain_state = [] };
}

-- The loop while it waits for the planner, for both slots.
abbrev waiting : WorkerLoop ℕ
waiting = record fresh_loop { requested = some 2 }

asks_runs : ask_planner ascii_lower 2 fresh_loop ≡ waiting
unfolding ask_planner begin_loop
asks_runs = refl
