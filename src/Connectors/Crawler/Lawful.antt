-- ===== src/Connectors/Crawler/Lawful.antt =====
-- The bounds that `discover` of src/cranus/connectors/web_crawler.py keeps to.
use cranus.Base.{
  Bool, if_cases, ℕ, zero, suc, ◌+◌, ◌≤◌, ◌<◌, ◌≡◌, refl, sym, subst, inl, inr, true, false, not,
  Option, none, some, List, [], ◌∷◌, map, arith, length, Str, ltb, str_in, str_in→Has, Has→str_in,
  keep_if, Has-keep_if, Bool-cases, All, All-append, Has, Has-All, map-Has, Distinct,
}
use cranus.Connectors.Crawler.{
  Page, Answer, failed, raised, got, Visit, passed_over, ended, yielded, if_allowed, follow, Web,
  is_skipped, fetched_links, new_links, visit, scan, crawl, allowed_or_seeds, discover,
}

module _ (web : Web) (seeds allowed : List Str) (max_depth : ℕ) where
  -- A url at the end of so many links from a seed, each of a page that was fetched.
  pub data Reached : Str → ℕ → Type 0 where
    seed : (url : Str) → Has url seeds → Reached url 0
    link :
        (from url : Str) (depth : ℕ) (links : List Str)
        → Reached from depth
        → depth < max_depth
        → fetched_links web allowed max_depth from ≡ yielded (some links)
        → Has url links
        → Reached url (depth + 1)

  -- A url that is yielded: in an allowed domain and allowed by robots.txt, the request for it ended with HTML,
  -- and it is no deeper than the limit.
  pub record IsLawful (url : Str) : Type 0 where
    pub depth : ℕ
    pub domain : Has (web.domain url) allowed
    pub robots : web.robots_allows url ≡ some true
    pub page : Page
    pub fetched : web.get url ≡ got page
    pub html : page.is_html ≡ true
    pub reached : Reached url depth
    pub not_deep : depth ≤ max_depth

  abbrev Job : Str × ℕ → Type 0
  Job (url, depth) = Reached url depth × (depth ≤ max_depth)

  -- What holds of a list of urls that is yielded when some were seen before.
  pub record AreLawful (pages : ℕ) (seen urls : List Str) : Type 0 where
    pub each : All IsLawful urls
    pub once : Distinct urls
    pub new : (url : Str) → Has url urls → ¬ (Has url seen)
    pub bounded : length urls ≤ pages

  nothing : (pages : ℕ) (seen : List Str) → AreLawful pages seen []
  nothing pages seen = record { each = tt; once = tt; new = λ url m _. m; bounded = omega arith }

  seen_more :
      (pages : ℕ) (url : Str) (seen urls : List Str)
      → AreLawful pages (url ∷ seen) urls
      → AreLawful pages seen urls
  seen_more pages url seen urls a = record {
    each = a.each;
    once = a.once;
    new = λ u m s. a.new u m (inr s);
    bounded = a.bounded;
  }

  allowed-yielded :
      (o : Option Bool) (a : Answer) (links : Option (List Str))
      → if_allowed web allowed max_depth o a ≡ yielded links
      → (page : Page) × (o ≡ some true) × (a ≡ got page) × (page.is_html ≡ true)
  allowed-yielded none a links e = absurd (cc)
  allowed-yielded (some false) a links e = absurd (cc)
  allowed-yielded (some true) failed links e = absurd (cc)
  allowed-yielded (some true) raised links e = absurd (cc)
  allowed-yielded (some true) (got page) links e = elim (Bool-cases page.is_html) [
    | inl h ↦ (page, refl, refl, h)
    | inr h ↦ absurd (ground (arith, e, h))
  ]

  html-fetched :
      (url : Str) (links : Option (List Str))
      → fetched_links web allowed max_depth url ≡ yielded links
      → (page : Page) × (web.robots_allows url ≡ some true)
        × (web.get url ≡ got page)
        × (page.is_html ≡ true)
  html-fetched url links e = allowed-yielded (web.robots_allows url) (web.get url) links e

  new_links-Job :
      (url : Str) (depth : ℕ) (seen links : List Str)
      → Reached url depth
      → fetched_links web allowed max_depth url ≡ yielded (some links)
      → All Job (new_links web allowed max_depth depth seen links)
  new_links-Job url depth seen links r e = elim (Bool-cases (ltb depth max_depth)) [
    | inr d ↦ rw d tt
    | inl d ↦ rw d (
        Has-All Job (map (λ l. (l, depth + 1)) (keep_if (λ l. not (str_in l seen)) links)) (λ j m.
          let (l, there, same) =
            map-Has (λ l. (l, depth + 1)) j (keep_if (λ l. not (str_in l seen)) links) m in
          let (in_links, _) = Has-keep_if (λ l. not (str_in l seen)) l links there in
          subst Job (sym same) (link url l depth links r (ground arith) e in_links, ground arith)))
  ]

  more_pages :
      (pages : ℕ) (seen urls : List Str)
      → AreLawful pages seen urls
      → AreLawful (suc pages) seen urls
  more_pages pages seen urls a = record {
    each = a.each;
    once = a.once;
    new = a.new;
    bounded = omega (arith, a.bounded);
  }

  skipped-false :
      (seen : List Str) (url : Str)
      → is_skipped web allowed max_depth seen url ≡ false
      → (str_in url seen ≡ false) × (str_in (web.domain url) allowed ≡ true)
  skipped-false seen url e = (ground (arith, e), ground (arith, e))

  module _ (pages : ℕ) (more : List (Str × ℕ) → List Str → List Str)
      (later : (queue : List (Str × ℕ)) (seen : List Str)
        → All Job queue
        → AreLawful pages seen (more queue seen)) where
    follow-AreLawful :
        (url : Str) (depth : ℕ) (o : Option (List Str)) (queue : List (Str × ℕ)) (seen : List Str)
        → fetched_links web allowed max_depth url ≡ yielded o
        → Job (url, depth)
        → All Job queue
        → AreLawful pages seen (follow web allowed max_depth more depth o queue seen)
    follow-AreLawful url depth none queue seen e j js =
        if_cases (AreLawful pages seen) (ltb depth max_depth) _ _ (λ d. nothing pages seen)
          (λ d. later queue seen js)
    follow-AreLawful url depth (some links) queue seen e j js =
        later _ seen (All-append Job queue _ js (new_links-Job url depth seen links j.0 e))

    visit-AreLawful :
        (url : Str) (depth : ℕ) (o : Visit) (queue : List (Str × ℕ)) (seen rest : List Str)
        → fetched_links web allowed max_depth url ≡ o
        → is_skipped web allowed max_depth seen url ≡ false
        → Job (url, depth)
        → All Job queue
        → AreLawful (suc pages) (url ∷ seen) rest
        → AreLawful
            (suc pages)
            seen
            (visit web allowed max_depth more url depth o queue (url ∷ seen) rest)
    visit-AreLawful url depth passed_over queue seen rest e s j js a =
        seen_more (suc pages) url seen rest a
    visit-AreLawful url depth ended queue seen rest e s j js a = nothing (suc pages) seen
    visit-AreLawful url depth (yielded links) queue seen rest e s j js a =
        let (unseen, ours) = skipped-false seen url s in
        let (page, robots, page_got, html) = html-fetched url links e in
        let tail = follow-AreLawful url depth links queue (url ∷ seen) e j js in
        record {
          each = (
            record {
              depth = depth;
              domain = str_in→Has (web.domain url) allowed ours;
              robots = robots;
              page = page;
              fetched = page_got;
              html = html;
              reached = j.0;
              not_deep = j.1;
            },
            tail.each,
          );
          once = (λ m. tail.new url m (inl refl), tail.once);
          new = λ u m h. elim m [
            | inl q ↦ ground (arith, unseen, Has→str_in url seen (subst (λ x. Has x seen) q h))
            | inr m' ↦ tail.new u m' (inr h)
          ];
          bounded = omega (arith, tail.bounded);
        }

    scan-AreLawful :
        (queue : List (Str × ℕ)) (seen : List Str)
        → All Job queue
        → AreLawful (suc pages) seen (scan web allowed max_depth more queue seen)
    unfolding scan
    scan-AreLawful [] seen js = nothing (suc pages) seen
    scan-AreLawful ((url, depth) ∷ queue) seen js =
        elim (Bool-cases (is_skipped web allowed max_depth seen url)) [
          | inl e ↦ rw e (scan-AreLawful queue seen js.1)
          | inr e ↦ rw e (
              visit-AreLawful url depth (fetched_links web allowed max_depth url) queue seen _ refl
                e js.0 js.1 (scan-AreLawful queue (url ∷ seen) js.1))
        ]

  crawl-AreLawful :
      (pages : ℕ) (queue : List (Str × ℕ)) (seen : List Str)
      → All Job queue
      → AreLawful pages seen (crawl web allowed max_depth pages queue seen)
  unfolding crawl
  crawl-AreLawful zero queue seen js = nothing zero seen
  crawl-AreLawful (suc pages) queue seen js =
      scan-AreLawful pages (crawl web allowed max_depth pages) (crawl-AreLawful pages) queue seen js

-- Discovery always ends. It yields no more urls than the limit and none twice. Each is a url that was
-- asked for: it is in an allowed domain (that of a seed, when none is given), robots.txt allows it, the
-- request for it, redirects followed, ended with HTML, and it is at the end of no more links from a seed
-- than the limit of depth. Nothing is said of the url that redirects ended at.
pub discover-AreLawful :
    (web : Web) (seeds : List Str) (allowed_domains : Option (List Str)) (max_depth max_pages : ℕ)
    → AreLawful web seeds
        (allowed_or_seeds web allowed_domains seeds)
        max_depth
        max_pages
        []
        (discover web seeds allowed_domains max_depth max_pages)
unfolding discover
discover-AreLawful web seeds allowed_domains max_depth max_pages =
    let allowed = allowed_or_seeds web allowed_domains seeds in
    crawl-AreLawful web seeds allowed max_depth max_pages (map (λ s. (s, 0)) seeds) [] (
      Has-All (λ (url, depth). Reached web seeds allowed max_depth url depth × (depth ≤ max_depth))
        (map (λ s. (s, 0)) seeds)
        (λ j m.
          let (s, there, same) = map-Has (λ s. (s, 0)) j seeds m in
          subst
            (λ ((url, depth) : Str × ℕ).
              Reached web seeds allowed max_depth url depth × (depth ≤ max_depth))
            (sym same) (seed s there, omega arith)))
