-- ===== src/Connectors/Edgar.antt =====
-- src/cranus/connectors/sec_edgar.py. The answers of the web service, the extraction of texts, `lower`, dates and the
-- clock are arguments. `int` is that of a text of decimal digits. The delay between requests is not modelled.
pub mod Filings
pub mod Address
mod Tests
use cranus.Base.{
  ℕ, zero, suc, ◌+◌, ◌-◌, ◌*◌, Bool, true, false, not, ◌&&◌, ◌||◌, ◌==◌, leb, ltb, Option, none,
  some, List, [], ◌∷◌, ◌++◌, get_elem?, Str, codes, str_eq, str_in, ends_with, is_empty, length,
  keep_if, decimal, if◌then◌else◌,
}
use cranus.Storage.Json.{Json, Fields, str, end, field, get_field}
use cranus.Ingestion.Items.{RawObject, ParsedDocument, Attempt, returned, raised}

-- `filings.recent` of a company, a missing key being `none`, with the company's name.
pub record Submissions : Type 0 where
  pub name : Option Str
  pub accession_number : Option (List Str)
  pub form : Option (List Str)
  pub primary_document : Option (List Str)
  pub filing_date : Option (List Str)

pub record SourceItem : Type 0 where
  pub ref : Str
  pub hint_title : Str
  pub extra : Fields

-- What an asynchronous generator yields, and whether it raises an error then.
pub record Yielded : Type 0 where
  pub items : List SourceItem
  pub is_raised : Bool

abbrev pub zeros : ℕ → Str → Str
zeros zero s = s
zeros (suc n) s = 48 ∷ zeros n s

-- `s.zfill(width)`
unfoldable pub zfill : ℕ → Str → Str
zfill width [] = zeros width []
zfill width (c ∷ s) =
    if c == 43 || c == 45
    then c ∷ zeros (width - length (c ∷ s)) s
    else zeros (width - length (c ∷ s)) (c ∷ s)

-- `column[i]` of a column that may be missing.
abbrev pub column_at : Option (List Str) → ℕ → Option Str
column_at none i = none
column_at (some column) i = get_elem? column i

abbrev pub or_empty : Option (List Str) → List Str
or_empty none = []
or_empty (some column) = column

abbrev pub or_text : Option Str → Str → Str
or_text none default = default
or_text (some s) default = s

-- `if forms and form not in forms: continue`
abbrev pub is_wanted : List Str → Str → Bool
is_wanted forms form = is_empty forms || str_in form forms

abbrev pub yielding : Option SourceItem → Yielded → Yielded
yielding none rest = record { items = []; is_raised = true }
yielding (some item) rest = record rest { items = item ∷ rest.items }

abbrev pub raises : Yielded
raises = record { items = []; is_raised = true }

abbrev pub ends : Yielded
ends = record { items = []; is_raised = false }

module _ (padded : Str) (submissions : Submissions) where
  abbrev pub item_of : Str → Str → Option Str → Option Str → Option SourceItem
  item_of accession form none filing_date = none
  item_of accession form (some primary_doc) none = none
  item_of accession form (some primary_doc) (some filing_date) =
      let company_name = or_text submissions.name padded in
      some (record {
        ref = padded ++ codes "/" ++ accession ++ codes "/" ++ primary_doc;
        hint_title = company_name ++ codes " " ++ form ++ codes " (" ++ filing_date ++ codes ")";
        extra = field (codes "cik") (str padded) (
            field (codes "company_name") (str company_name) (
              field (codes "form") (str form) (
                field (codes "filing_date") (str filing_date)
                  (field (codes "accession") (str accession) end))));
      })

  module _ (forms : List Str) (limit_per_cik : ℕ) where
    -- One round of the loop: what is yielded, given what is for the rows behind, with the row counted or not.
    abbrev pub scan_row : ℕ → ℕ → Str → Option Str → Yielded → Yielded → Yielded
    scan_row i count accession none counted skipped = raises
    scan_row i count accession (some form) counted skipped =
        if not (is_wanted forms form)
        then skipped
        else if leb limit_per_cik count
        then ends
        else yielding
            (item_of accession form (column_at submissions.primary_document i)
              (column_at submissions.filing_date i))
            counted

    unfoldable pub scan_filings : ℕ → ℕ → List Str → Yielded
    scan_filings i count [] = ends
    scan_filings i count (accession ∷ accessions) =
        let counted = scan_filings (suc i) (suc count) accessions in
        let skipped = scan_filings (suc i) count accessions in
        scan_row i count accession (column_at submissions.form i) counted skipped

abbrev pub and_then : Yielded → Yielded → Yielded
and_then first rest =
    if first.is_raised then first else record rest { items = first.items ++ rest.items }

module _ (get_submissions : Str → Option Submissions) (forms : List Str) (limit_per_cik : ℕ) where
  abbrev pub company_filings : Str → Option Submissions → Yielded
  company_filings padded none = raises
  company_filings padded (some submissions) =
      scan_filings padded submissions forms limit_per_cik 0 0
        (or_empty submissions.accession_number)

  unfoldable pub discover : List Str → Yielded
  discover [] = ends
  discover (cik ∷ ciks) =
      and_then (company_filings (zfill 10 cik) (get_submissions (zfill 10 cik))) (discover ciks)

abbrev pub before_rest : ℕ → Option (Str × Str) → Option (Str × Str)
before_rest c none = none
before_rest c (some (first, rest)) = some (c ∷ first, rest)

-- The text before the first slash, and the text behind it.
unfoldable pub split_once : Str → Option (Str × Str)
split_once [] = none
split_once (c ∷ s) = if c == 47 then some ([], s) else before_rest c (split_once s)

abbrev pub second_split : Str → Option (Str × Str) → Option (Str × Str × Str)
second_split first none = none
second_split first (some (second, rest)) = some (first, second, rest)

abbrev pub split_rest : Option (Str × Str) → Option (Str × Str × Str)
split_rest none = none
split_rest (some (first, rest)) = second_split first (split_once rest)

-- `cik, accession, primary_doc = ref.split("/", 2)`: `none` is a `ValueError`.
unfoldable pub split_ref : Str → Option (Str × Str × Str)
split_ref ref = split_rest (split_once ref)

abbrev pub is_digit : ℕ → Bool
is_digit c = leb 48 c && leb c 57

unfoldable pub digits_value : ℕ → Str → Option ℕ
digits_value n [] = some n
digits_value n (c ∷ s) =
    let rest = digits_value (n * 10 + (c - 48)) s in if is_digit c then rest else none

unfoldable pub int_of : Str → Option ℕ
unfolding digits_value
int_of [] = none
int_of (c ∷ s) = digits_value 0 (c ∷ s)

abbrev pub archives_base : Str
archives_base = codes "https://www.sec.gov/Archives/edgar/data"

abbrev pub no_dashes : Str → Str
no_dashes = keep_if (λ c. not (c == 45))

abbrev pub address_of : Option ℕ → Str → Str → Option (Str × Str)
address_of none accession primary_doc = none
address_of (some cik) accession primary_doc = some (
  archives_base
      ++ codes "/"
      ++ decimal cik
      ++ codes "/"
      ++ no_dashes accession
      ++ codes "/"
      ++ primary_doc,
  primary_doc,
)

abbrev pub address_of_parts : Option (Str × Str × Str) → Option (Str × Str)
address_of_parts none = none
address_of_parts (some (cik, accession, primary_doc)) =
    address_of (int_of cik) accession primary_doc

-- The url that is fetched for an item, and the name of the document there.
unfoldable pub filing_address : Str → Option (Str × Str)
filing_address ref = address_of_parts (split_ref ref)

-- The libraries: the requests, `str.lower`, the extraction of texts, and `datetime.fromisoformat`.
pub record Edgar : Type 0 where
  pub get : Str → Attempt Str
  pub lower : Str → Str
  pub extract_pdf : Str → Attempt Str
  pub extract_html : Str → Str → Attempt Str
  pub from_iso : Str → Attempt ℕ

module _ (edgar : Edgar) (now : ℕ) where
  abbrev pub fetched_as : Fields → Str → Str → Attempt Str → Attempt RawObject
  fetched_as extra url primary_doc (raised message) = raised message
  fetched_as extra url primary_doc (returned content) = returned (record {
    uri = url;
    content = content;
    content_type = some (
        if ends_with (codes ".pdf") (edgar.lower primary_doc)
        then codes "application/pdf"
        else codes "text/html");
    fetched_at = now;
    extra = extra;
  })

  abbrev pub fetch_address : Fields → Option (Str × Str) → Attempt RawObject
  fetch_address extra none = raised (codes "ValueError")
  fetch_address extra (some (url, primary_doc)) = fetched_as extra url primary_doc (edgar.get url)

  unfoldable pub fetch : SourceItem → Attempt RawObject
  fetch item = fetch_address item.extra (filing_address item.ref)

  abbrev pub is_pdf : Option Str → Bool
  is_pdf none = false
  is_pdf (some content_type) = str_eq content_type (codes "application/pdf")

  -- `raw.extra.get(key, default)`: the values are texts.
  abbrev pub text_or : Str → Option Json → Str
  text_or default (some (str s)) = s
  text_or default other = default

  abbrev pub date_of : Option Json → Attempt (Option ℕ)
  date_of (some (str (c ∷ s))) = elim (edgar.from_iso (c ∷ s)) [
    | returned t ↦ returned (some t)
    | raised message ↦ raised message
  ]
  date_of other = returned none

  abbrev pub parsed_at : RawObject → Str → Attempt (Option ℕ) → Attempt ParsedDocument
  parsed_at raw text (raised message) = raised message
  parsed_at raw text (returned published_at) = returned (record {
    uri = raw.uri;
    title =
        text_or (codes "Unknown") (get_field (codes "company_name") raw.extra)
        ++ codes " — "
        ++ text_or (codes "filing") (get_field (codes "form") raw.extra);
    text = text;
    published_at = published_at;
  })

  abbrev pub parsed_text : RawObject → Attempt Str → Attempt ParsedDocument
  parsed_text raw (raised message) = raised message
  parsed_text raw (returned text) =
      parsed_at raw text (date_of (get_field (codes "filing_date") raw.extra))

  unfoldable pub parse : RawObject → Attempt ParsedDocument
  parse raw = parsed_text raw (
      if is_pdf raw.content_type
      then edgar.extract_pdf raw.content
      else edgar.extract_html raw.content raw.uri)
