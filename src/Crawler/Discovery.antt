-- ===== src/Crawler/Discovery.antt =====
-- apps/crawler/src/web_search_crawler/services/crawl_queue_admission.py: which of the URLs that a
-- page names are recorded, and which are queued. `urlparse` and `get_domain` are parameters, and
-- `choice` is `random.choice`, whose answer is some member of its list.
use web_search.Prelude.{
  ◌≤◌, ◌≡◌, Bool, true, false, not, ◌&&◌, ◌||◌, List, [], ◌∷◌, arith, leb, if◌then◌else◌, length,
  keep, is_empty, All, Member, nat_eq, list_eq, list_beq, Text, codes, occurs_in, keep-All,
  All-Member, keep-All_both,
}
use web_search.Crawler.Denylist.{is_domain_denied}
use web_search.Core.UrlAdmission.{max_url_length}

pub data DiscoveryKind : Type 0 where
  html_outlink syndication_feed : DiscoveryKind

-- What is read of the result of `urlparse`.
pub record UrlParts : Type 0 where
  pub path : Text
  pub query : Text
  pub fragment : Text

module _ (lower : Text → Text) (urlparse : Text → UrlParts) (get_domain : Text → Text)
    (choice : Text → List Text → Text) where
  unfoldable pub should_enqueue_discovered_url : Text → (source_url : Text) → DiscoveryKind → Bool
  should_enqueue_discovered_url url source_url syndication_feed = true
  should_enqueue_discovered_url url source_url html_outlink =
      let parsed = urlparse url in
      if not (is_empty parsed.query)
        || not (is_empty parsed.fragment)
        || occurs_in (codes "*") parsed.path
      then false
      else list_beq (get_domain url) (get_domain source_url)

  unfoldable pub select_urls_to_enqueue : List Text → DiscoveryKind → List Text
  select_urls_to_enqueue urls syndication_feed = urls
  select_urls_to_enqueue [] html_outlink = []
  select_urls_to_enqueue (u ∷ us) html_outlink = choice u us ∷ []

  -- `valid_urls`
  unfoldable pub valid_urls : List Text → List Text → List Text
  unfolding is_domain_denied
  valid_urls blocked_domains discovered =
      keep
        (λ u.
          leb (length u) max_url_length
          && not (is_domain_denied lower (get_domain u) blocked_domains))
        discovered

  -- What `admit_discovered_urls` hands to the ledger, and what to the queue.
  unfoldable pub admitted_urls :
      (url : Text) (blocked_domains discovered : List Text) → DiscoveryKind → List Text × List Text
  unfolding valid_urls select_urls_to_enqueue should_enqueue_discovered_url
  admitted_urls url blocked_domains discovered kind =
      let valid = valid_urls blocked_domains discovered in
      (
        valid,
        select_urls_to_enqueue (keep (λ u. should_enqueue_discovered_url u url kind) valid) kind,
      )

  -- A URL that may be queued.
  pub record MayQueue (url : Text) (blocked_domains : List Text) (kind : DiscoveryKind) (u : Text)
      : Type 0 where
    pub short : length u ≤ max_url_length
    pub undenied : is_domain_denied lower (get_domain u) blocked_domains ≡ false
    pub wanted : should_enqueue_discovered_url u url kind ≡ true

  module _ (choice-Member : (u : Text) (us : List Text) → Member (choice u us) (u ∷ us)) where
    selected-All :
        (P : Text → Type 0) (kind : DiscoveryKind) (us : List Text)
        → All P us
        → All P (select_urls_to_enqueue us kind)
    unfolding select_urls_to_enqueue
    selected-All P syndication_feed us h = h
    selected-All P html_outlink [] h = tt
    selected-All P html_outlink (u ∷ us) h =
        (All-Member P (choice u us) (u ∷ us) h (choice-Member u us), tt)

    selected_few : (us : List Text) → length (select_urls_to_enqueue us html_outlink) ≤ 1
    unfolding select_urls_to_enqueue
    selected_few [] = omega arith
    selected_few (u ∷ us) = omega arith

    -- If `random.choice` gives a member of its list, what `admit_discovered_urls` queues are URLs
    -- that are not too long, whose host is not denied, and which `should_enqueue_discovered_url`
    -- accepts; and of the links of a page it queues one at most.
    pub admitted_urls-MayQueue :
        (url : Text) (blocked_domains discovered : List Text) (kind : DiscoveryKind)
        → All
            (MayQueue url blocked_domains kind)
            (admitted_urls url blocked_domains discovered kind).1
          × (length (admitted_urls url blocked_domains discovered html_outlink).1 ≤ 1)
    unfolding admitted_urls valid_urls
    admitted_urls-MayQueue url blocked_domains discovered kind =
        let accepts = λ (u : Text). should_enqueue_discovered_url u url kind in
        let ok = λ (u : Text).
          leb (length u) max_url_length
          && not (is_domain_denied lower (get_domain u) blocked_domains) in
        (
          selected-All (MayQueue url blocked_domains kind) kind _ (
              keep-All_both (λ u. ok u ≡ true) (MayQueue url blocked_domains kind) accepts
                (valid_urls blocked_domains discovered)
                (λ u k w. record {
                  short = ground (arith, k);
                  undenied = ground (arith, k);
                  wanted = w;
                })
                (keep-All ok discovered)),
          selected_few _,
        )
