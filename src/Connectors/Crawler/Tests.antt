-- ===== src/Connectors/Crawler/Tests.antt =====
-- A crawl of a small web by src/cranus/connectors/web_crawler.py, and its theorem there.
use cranus.Base.{
  ◌≡◌, refl, true, false, some, none, List, [], ◌∷◌, Str, codes, str_eq, take, if◌then◌else◌,
}
use cranus.Connectors.Crawler.{got, Web, allowed_or_seeds, discover}
use cranus.Connectors.Crawler.Lawful.{AreLawful, discover-AreLawful}

abbrev links_of : Str → List Str
links_of url =
    if str_eq url (codes "a/1")
    then codes "a/2" ∷ codes "b/1" ∷ codes "a/3" ∷ codes "a/1" ∷ []
    else codes "a/4" ∷ []

abbrev web : Web
web = record {
  domain = λ url. take 1 url;
  robots_allows = λ url. some (if str_eq url (codes "a/3") then false else true);
  get = λ url. got (record { is_html = true; links = some (links_of url) });
}

discover-web : discover web (codes "a/1" ∷ []) none 1 9 ≡ codes "a/1" ∷ codes "a/2" ∷ []
unfolding discover
discover-web = refl

discover-AreLawful_example :
    AreLawful web
      (codes "a/1" ∷ [])
      (allowed_or_seeds web none (codes "a/1" ∷ []))
      1
      9
      []
      (discover web (codes "a/1" ∷ []) none 1 9)
discover-AreLawful_example = discover-AreLawful web (codes "a/1" ∷ []) none 1 9
