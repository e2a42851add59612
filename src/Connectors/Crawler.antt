-- ===== src/Connectors/Crawler.antt =====
-- `discover` of src/cranus/connectors/web_crawler.py, as the list of the urls that it yields. What
-- robots.txt allows, the domain of a url, for urls that `urlparse` takes apart, the answer to a request
-- and the links of a page are arguments; waiting is not modelled. An exception that is not caught ends
-- the list.
pub mod Lawful
mod Tests
use cranus.Base.{
  ℕ, zero, suc, ◌+◌, ◌≡◌, Bool, true, false, not, ◌&&◌, ◌||◌, Option, none, some, List, [], ◌∷◌,
  ◌++◌, map, Str, ltb, str_in, keep_if, is_empty, if◌then◌else◌,
}

-- The page that a request ends with, which follows redirects: whether it is HTML, and the links in it, taken
-- from the url asked for; `none` is an exception.
pub record Page : Type 0 where
  pub is_html : Bool
  pub links : Option (List Str)

-- What `_get` does: it raises an httpx.HTTPError, or another exception, or returns.
pub data Answer : Type 0 where
  failed raised : Answer
  got : Page → Answer

pub record Web : Type 0 where
  pub domain : Str → Str
  -- `none` is an exception.
  pub robots_allows : Str → Option Bool
  pub get : Str → Answer

-- What becomes of a url: it is passed over, an exception ends the discovery, or it is yielded, with the
-- links of its page.
pub data Visit : Type 0 where
  passed_over ended : Visit
  yielded : Option (List Str) → Visit

module _ (web : Web) (allowed : List Str) (max_depth : ℕ) where
  -- `url in seen or self._domain(url) not in allowed`
  abbrev pub is_skipped : List Str → Str → Bool
  is_skipped seen url = str_in url seen || not (str_in (web.domain url) allowed)

  abbrev pub html_links : Answer → Visit
  html_links failed = passed_over
  html_links raised = ended
  html_links (got page) = if page.is_html then yielded page.links else passed_over

  abbrev pub if_allowed : Option Bool → Answer → Visit
  if_allowed none answer = ended
  if_allowed (some allows) answer = if allows then html_links answer else passed_over

  abbrev pub fetched_links : Str → Visit
  fetched_links url = if_allowed (web.robots_allows url) (web.get url)

  abbrev pub new_links : ℕ → List Str → List Str → List (Str × ℕ)
  new_links depth seen links =
      if ltb depth max_depth
      then map (λ link. (link, depth + 1)) (keep_if (λ link. not (str_in link seen)) links)
      else []

  -- Behind a page that is yielded, where `more` goes on.
  abbrev pub follow :
      (List (Str × ℕ) → List Str → List Str)
      → ℕ
      → Option (List Str)
      → List (Str × ℕ)
      → List Str
      → List Str
  follow more depth none queue seen = if ltb depth max_depth then [] else more queue seen
  follow more depth (some links) queue seen = more (queue ++ new_links depth seen links) seen

  abbrev pub visit :
      (List (Str × ℕ) → List Str → List Str)
      → Str
      → ℕ
      → Visit
      → List (Str × ℕ)
      → List Str
      → List Str
      → List Str
  visit more url depth passed_over queue seen rest = rest
  visit more url depth ended queue seen rest = []
  visit more url depth (yielded links) queue seen rest = url ∷ follow more depth links queue seen

  -- The queue up to the next page that is yielded.
  unfoldable pub scan :
      (List (Str × ℕ) → List Str → List Str) → List (Str × ℕ) → List Str → List Str
  scan more [] seen = []
  scan more ((url, depth) ∷ queue) seen =
      let skipped = scan more queue seen in
      let visited = scan more queue (url ∷ seen) in
      if is_skipped seen url
      then skipped
      else visit more url depth (fetched_links url) queue (url ∷ seen) visited

  -- With the number of pages that may still be yielded.
  unfoldable pub crawl : ℕ → List (Str × ℕ) → List Str → List Str
  unfolding scan
  crawl zero queue seen = []
  crawl (suc pages) queue seen = scan (crawl pages) queue seen

abbrev pub allowed_or_seeds : Web → Option (List Str) → List Str → List Str
allowed_or_seeds web none seeds = map web.domain seeds
allowed_or_seeds web (some domains) seeds =
    if is_empty domains then map web.domain seeds else domains

unfoldable pub discover : Web → List Str → Option (List Str) → ℕ → ℕ → List Str
unfolding crawl
discover web seeds allowed_domains max_depth max_pages =
    crawl web (allowed_or_seeds web allowed_domains seeds) max_depth max_pages
      (map (λ s. (s, 0)) seeds) []
