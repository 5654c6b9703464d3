-- ===== src/Crawler/Store.antt =====
-- The tables that the crawler keeps: rows of `crawl_queue` and `domain_state`
-- (apps/crawler/src/web_search_crawler/db/url_types.py and db/crawler_runtime_store.py, over the
-- schema of db/alembic). `Delay` stands for the column `crawl_delay_sec`, a float of Postgres.
use web_search.Prelude.{
  ℕ, Option, none, some, List, [], ◌∷◌, if◌then◌else◌, ◌==◌, nat_eq, list_eq, Text,
}

pub record QueueRow : Type 0 where
  pub url_hash : Text
  pub url : Text
  pub domain : Text
  pub created_at : ℕ

-- `CrawlTask` of url_types.py
pub record CrawlTask : Type 0 where
  pub url : Text
  pub domain : Text
  pub created_at : ℕ

-- `DomainState` of url_types.py
pub record DomainState (Delay : Type 0) : Type 0 where
  pub domain : Text
  pub next_request_at : ℕ
  pub crawl_delay_sec : Delay
  pub backoff_until : Option ℕ
  pub fail_streak : ℕ

-- A row of the table: the columns of `DomainState`, and the time of the last change.
pub record DomainRow (Delay : Type 0) : Type 0 where
  pub domain : Text
  pub next_request_at : ℕ
  pub crawl_delay_sec : Delay
  pub backoff_until : Option ℕ
  pub fail_streak : ℕ
  pub updated_at : ℕ

-- What the statements use of the floats: `CEIL(x)::INTEGER`, `GREATEST` and two literals.
pub record DelayOps (Delay : Type 0) : Type 0 where
  pub ceil : Delay → ℕ
  pub greatest : Delay → Delay → Delay
  pub zero_delay : Delay
  pub default_delay : Delay

pub record Db (Delay : Type 0) : Type 0 where
  pub crawl_queue : List QueueRow
  pub domain_state : List (DomainRow Delay)

-- The row with a given `domain`, which is the primary key.
unfoldable pub row_of : {Delay : Type 0} → Text → List (DomainRow Delay) → Option (DomainRow Delay)
row_of d [] = none
row_of d (s ∷ rest) = if s.domain == d then some s else row_of d rest
