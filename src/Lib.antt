-- ===== src/Lib.antt =====
-- Verification library of the web search: a crawler that keeps a queue of URLs in Postgres, an
-- indexer, and a front end that searches, ranks and shows what was indexed.
--
-- What is modelled, and how the parts meet:
--
-- * Core/UrlAdmission (packages/core/src/web_search_core/url_admission.py): `URLAdmissionPolicy`.
--   `evaluate` normalises a URL and decides whether it is crawled. The crawler asks it before it
--   queues a URL (Crawler/Enqueue).
-- * Core/Retry (packages/core/src/web_search_core/retry.py): `RetryPolicy.execute`.
-- * Crawler/Store holds the tables `crawl_queue` and `domain_state` as lists of rows (`Db`), in the
--   order of insertion (apps/crawler/src/web_search_crawler/db/url_types.py,
--   db/crawler_runtime_store.py).
-- * Crawler/Enqueue and Crawler/Queue (apps/crawler/src/web_search_crawler/db/crawl_queue.py):
--   `CrawlQueueMixin`. The producer turns allowed URLs into rows, chunk by chunk; the consumer
--   hands out ready rows, within a quota for each domain, and deletes them; the result of a crawl
--   goes to the pacing of its domain.
-- * Crawler/DomainPacing (db/url_domain_state.py beside it): `DomainSchedulingStateStore`, the time
--   before which a domain is left alone, and its backoff after failures.
-- * Crawler/Denylist (core/crawl_denylist.py): `is_domain_denied`. Crawler/Maintenance
--   (db/url_maintenance.py) purges the queue by the same denylist, with a pattern of SQL, and
--   Crawler/Planner (crawl_task_planner.py) filters what the queue hands out.
-- * Crawler/Discovery (services/crawl_queue_admission.py): which of the URLs that a page names are
--   recorded and queued.
-- * Crawler/Attempts (packages/contracts/src/web_search_contracts/enums.py): the statuses of crawl
--   attempts, and how they are summed up.
-- * Crawler/Run (steps of a crawl that return or raise, and what they leave behind) carries the
--   pipeline of one URL: Crawler/Services (what the services answer and what is written),
--   Crawler/Precheck and Crawler/Pipeline (workers/pipeline.py), Crawler/Fetch
--   (services/fetchers.py), Crawler/Indexer (services/indexer.py), Crawler/Pages
--   (services/html_processing.py, services/feed_processing.py) and Crawler/Pipeline/Tasks
--   (workers/tasks.py, `process_url`). It logs and records what came of the crawl, and what it
--   records goes to the pacing and the queue above.
-- * Crawler/Worker (services/worker.py): `WorkerService` as a state machine, whose steps may come
--   in any order. Crawler/WorkerLoop (workers/tasks.py): `worker_loop` as another, whose steps are
--   the parts of a round between two waits, what its tasks do, and what others write.
-- * WebModel/Links and WebModel/Ledger (packages/web-model/src/web_search_web_model, links.py and
--   urls.py): the graph of observed links, and the ledger of discovered URLs, which the
--   pipeline and the indexer write.
-- * Kernel/Diversify (packages/kernel/src/web_search_kernel/diversify.py): the cap on the results
--   of one domain. Kernel/Snippet (snippet.py beside it): the excerpt of a hit, with its marks.
-- * Frontend/Ranking (apps/frontend/src/web_search_frontend/services/search_ranking_policy.py):
--   the policy of a query (Classify), the signals of a hit (Signals), the order of the hits
--   (Rerank), and how many candidates are asked for (Windows).
-- * SearchConfig (packages/search-config/src/web_search_search_config): Json, Cases, Manifest and
--   Sources (canonical_sources.py) check and load the sources that the front end ranks by, and the
--   cases against which the search is evaluated; Evaluator (evaluator.py) measures the
--   hits of a case (Metrics) and judges it (Verdicts).
-- * Prelude has what these share: tests on numbers, lists, equality, quotas, stable sorting, and
--   strings as lists of code points. Tests has the theorems at concrete inputs, and runs.
--
-- How code becomes definitions: a function has its name here, without a leading underscore; a loop
-- over a list is a recursion on the list with the loop's variables as arguments; an exception that
-- leaves a function is `none`, or `raised` in the steps of a crawl; a validation that raises is
-- `false`; a statement of SQL is a function on the rows. A transaction that fails leaves the tables
-- as they were. Times are whole seconds, as the code has them.
--
-- Bounds and fuel: the attempts of a transaction are counted down from three, or for the ledger from
-- the configured limit and one, which is the number of rounds of the loop, so that the count never
-- ends a loop early. `chunks_from` gets as many
-- rounds as the batch has rows, and each takes at least one. `decimal` gets one round more than the
-- number, and each divides it by ten. Python's integers have no width, and numbers of tasks,
-- limits and pages are taken to be natural.
--
-- What is a parameter: the parsers and printers of URLs and `str.lower` (the records `UrlLib`
-- and `HitLib`, `urlparse`, `hostname`), `re.IGNORECASE` (`same`), `url_hash` (a prefix of
-- SHA-256) and `get_domain`, the floats of a crawl delay (`DelayOps`), of a rank (`RankOrder`)
-- and of a measure (`ScoreOps`), how attempts end (`faults`, `ends`), the settings of the ledger
-- and which rows another transaction holds (`locked`), what the network, robots.txt, the
-- resolver, the parser of HTML and the indexer's API answer (`Services`), the parser of JSON
-- behind an answer (`read_error`), the answer of `random.choice`, and the configured canonical
-- sources.
--
-- What is not modelled: HTTP itself, HTML and robots.txt, the embeddings, OpenSearch and its
-- queries, the schema migrations, the routers and templates, telemetry and the command line,
-- which are calls of libraries and services; the loaders of the other configuration files; other
-- transactions between two attempts of one call; and, in `process_url`, a cancellation while the
-- log, the client of the indexer or the database is waited for, other than one that is raised as
-- the error of a write.
pub mod Core
pub mod Crawler
pub mod Frontend
pub mod Kernel
pub mod Prelude
pub mod SearchConfig
pub mod Tests
pub mod WebModel
