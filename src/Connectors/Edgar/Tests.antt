-- ===== src/Connectors/Edgar/Tests.antt =====
-- A company with three filings for src/cranus/connectors/sec_edgar.py, and its theorems there.
use cranus.Base.{ℕ, ◌≡◌, refl, ◌++◌, Option, some, none, List, [], ◌∷◌, Str, codes, decimal, map}
use cranus.Storage.Json.{str, field, end}
use cranus.Connectors.Edgar.{
  Submissions, SourceItem, Yielded, zfill, scan_filings, discover, split_once, split_ref, int_of,
  archives_base, no_dashes, filing_address,
}
use cranus.Connectors.Edgar.Address.{item_of-filing_address}

abbrev acme : Submissions
acme = record {
  name = some (codes "Acme");
  accession_number = some (codes "01-23-7" ∷ codes "01-23-8" ∷ codes "01-23-9" ∷ []);
  form = some (codes "10-K" ∷ codes "8-K" ∷ codes "10-K" ∷ []);
  primary_document = some (codes "a.htm" ∷ codes "b.htm" ∷ codes "x/c.pdf" ∷ []);
  filing_date = some (codes "2023-02-01" ∷ codes "2023-03-01" ∷ codes "2024-02-01" ∷ []);
}

abbrev get_submissions : Str → Option Submissions
get_submissions cik = some acme

abbrev refs : Yielded → List Str
refs y = map (λ (i : SourceItem). i.ref) y.items

discover-two :
    refs (discover get_submissions (codes "10-K" ∷ []) 5 (codes "320193" ∷ []))
    ≡ codes "0000320193/01-23-7/a.htm" ∷ codes "0000320193/01-23-9/x/c.pdf" ∷ []
unfolding discover scan_filings zfill
discover-two = refl

discover-limit :
    refs (discover get_submissions [] 1 (codes "320193" ∷ []))
    ≡ codes "0000320193/01-23-7/a.htm" ∷ []
unfolding discover scan_filings zfill
discover-limit = refl

filing_address-nested :
    filing_address (codes "0000320193/01-23-9/x/c.pdf")
    ≡ some (codes "https://www.sec.gov/Archives/edgar/data/320193/01239/x/c.pdf", codes "x/c.pdf")
unfolding filing_address split_ref split_once int_of decimal
filing_address-nested = refl

filing_address-short : filing_address (codes "0000320193/01-23-9") ≡ none
unfolding filing_address split_ref split_once int_of
filing_address-short = refl

abbrev filing : SourceItem
filing = record {
  ref = zfill 10 (codes "320193") ++ codes "/" ++ codes "01-23-9" ++ codes "/" ++ codes "x/c.pdf";
  hint_title = codes "Acme 10-K (2024-02-01)";
  extra = field (codes "cik") (str (zfill 10 (codes "320193"))) (
      field (codes "company_name") (str (codes "Acme")) (
        field (codes "form") (str (codes "10-K")) (
          field (codes "filing_date") (str (codes "2024-02-01"))
            (field (codes "accession") (str (codes "01-23-9")) end))));
}

item_of-filing_address_example :
    (n : ℕ) × (int_of (codes "320193") ≡ some n)
    × (filing_address filing.ref
        ≡ some (
          archives_base
              ++ codes "/"
              ++ decimal n
              ++ codes "/"
              ++ no_dashes (codes "01-23-9")
              ++ codes "/"
              ++ codes "x/c.pdf",
          codes "x/c.pdf",
        ))
item_of-filing_address_example =
    item_of-filing_address acme 51 (codes "20193") (codes "01-23-9") (codes "10-K")
      (codes "x/c.pdf") (codes "2024-02-01") filing
      (refl, (refl, (refl, (refl, (refl, (refl, tt))))))
      (refl, (refl, (refl, (refl, (refl, (refl, (refl, tt))))))) refl
