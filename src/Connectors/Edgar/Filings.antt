-- ===== src/Connectors/Edgar/Filings.antt =====
-- Which filings of a company `discover` of src/cranus/connectors/sec_edgar.py yields.
use cranus.Base.{
  ◌++◌, ℕ, suc, ◌+◌, ◌-◌, ◌≤◌, ◌≡◌, true, false, Option, none, some, List, [], ◌∷◌, min, get_elem?,
  length, Str, if◌then◌else◌,
}
use cranus.Connectors.Edgar.{
  Submissions, SourceItem, Yielded, column_at, or_empty, is_wanted, item_of, zfill,
}

module _ (padded : Str) (submissions : Submissions) (forms : List Str) where
  -- The item of one row of the columns, whose form is wanted.
  pub record IsFiling (item : SourceItem) : Type 0 where
    pub row : ℕ
    pub accession : Str
    pub form : Str
    pub is_accession : get_elem? (or_empty submissions.accession_number) row ≡ some accession
    pub is_form : column_at submissions.form row ≡ some form
    pub wanted : is_wanted forms form ≡ true
    pub is_item :
        item_of padded submissions accession form
          (column_at submissions.primary_document row)
          (column_at submissions.filing_date row)
        ≡ some item

  -- How many rows have a form that is wanted.
  abbrev pub one_wanted : Option Str → ℕ
  one_wanted none = 0
  one_wanted (some form) = if is_wanted forms form then 1 else 0

  abbrev pub count_wanted : ℕ → List Str → ℕ
  count_wanted i [] = 0
  count_wanted i (accession ∷ accessions) =
      one_wanted (column_at submissions.form i) + count_wanted (suc i) accessions

  module _ (limit : ℕ) where
    -- Filings of rows from `i` on, in the order of the columns, no row twice.
    abbrev pub FilingsFrom : ℕ → List SourceItem → Type 0
    FilingsFrom i [] = Unit
    FilingsFrom i (item ∷ items) = (f : IsFiling item) × (i ≤ f.row) × FilingsFrom (suc f.row) items

    -- What is yielded for the rows from `i` on, `count` rows being counted before.
    pub record AreFilings (i count : ℕ) (accessions : List Str) (y : Yielded) : Type 0 where
      pub filings : FilingsFrom i y.items
      pub bounded : count + length y.items ≤ limit
      pub complete :
          y.is_raised ≡ false → length y.items ≡ min (limit - count) (count_wanted i accessions)

module _ (get_submissions : Str → Option Submissions) (forms : List Str) (limit : ℕ) where
  -- The filings of a company whose columns are these.
  abbrev pub AreOf : Str → Submissions → Yielded → Type 0
  AreOf padded submissions =
      AreFilings padded submissions forms limit 0 0 (or_empty submissions.accession_number)

  -- What is yielded for companies, one behind the other; an error ends it.
  pub data AreDiscovered : List Str → Yielded → Type 0 where
    no_company : AreDiscovered [] (record { items = []; is_raised = false })
    unanswered :
        (cik : Str) (ciks : List Str)
        → get_submissions (zfill 10 cik) ≡ none
        → AreDiscovered (cik ∷ ciks) (record { items = []; is_raised = true })
    cut_short :
        (cik : Str) (ciks : List Str) (submissions : Submissions) (here : Yielded)
        → get_submissions (zfill 10 cik) ≡ some submissions
        → here.is_raised ≡ true
        → AreOf (zfill 10 cik) submissions here
        → AreDiscovered (cik ∷ ciks) here
    followed :
        (cik : Str) (ciks : List Str) (submissions : Submissions) (here rest : Yielded)
        → get_submissions (zfill 10 cik) ≡ some submissions
        → here.is_raised ≡ false
        → AreOf (zfill 10 cik) submissions here
        → AreDiscovered ciks rest
        → AreDiscovered
            (cik ∷ ciks)
            (record { items = here.items ++ rest.items; is_raised = rest.is_raised })
