-- ===== src/Ingestion/Items/Runs.antt =====
-- The runs of a connector in src/cranus/ingestion/pipeline.py.
use cranus.Base.{
  false, keep_if, ℕ, ◌+◌, ◌≡◌, Bool, true, Option, none, some, List, [], ◌∷◌, Str, length,
}
use cranus.Ingestion.Items.{
  Indexing, count_result, register_source, record_run, Connector, Corpus, ItemResult, error,
  duplicate, quarantined, ingested, ingest_item, Stats, no_stats,
}

module _ (Item : Type 0) (connector : Connector Item) (fix_text detect_language : Str → Str)
    (index_and_graph : ℕ → Str → Str → Indexing) where
  abbrev Counts : Type 0
  Counts = Stats Item connector fix_text detect_language index_and_graph

  -- A run over items, each with the id for its row: the results that they were given, up to the one that
  -- raised an error, if one did.
  pub data Ran : List (Str × Item) → Corpus → List ItemResult → Corpus → Bool → Type 0 where
    over : (corpus : Corpus) → Ran [] corpus [] corpus false
    raising :
        (new_id : Str) (item : Item) (items : List (Str × Item)) (corpus corpus' : Corpus)
        → ingest_item Item connector fix_text detect_language index_and_graph new_id item corpus
          ≡ (corpus', none)
        → Ran ((new_id, item) ∷ items) corpus [] corpus' true
    going_on :
        (new_id : Str) (item : Item) (items : List (Str × Item)) (corpus next last : Corpus)
        (result : ItemResult) (results : List ItemResult) (is_raised : Bool)
        → ingest_item Item connector fix_text detect_language index_and_graph new_id item corpus
          ≡ (next, some result)
        → Ran items next results last is_raised
        → Ran ((new_id, item) ∷ items) corpus (result ∷ results) last is_raised

  abbrev is_ingested : ItemResult → Bool
  is_ingested (ingested id) = true
  is_ingested (quarantined id) = false
  is_ingested (duplicate id) = false
  is_ingested (error message) = false

  abbrev is_quarantined : ItemResult → Bool
  is_quarantined (ingested id) = false
  is_quarantined (quarantined id) = true
  is_quarantined (duplicate id) = false
  is_quarantined (error message) = false

  abbrev is_duplicate : ItemResult → Bool
  is_duplicate (ingested id) = false
  is_duplicate (quarantined id) = false
  is_duplicate (duplicate id) = true
  is_duplicate (error message) = false

  abbrev is_error : ItemResult → Bool
  is_error (ingested id) = false
  is_error (quarantined id) = false
  is_error (duplicate id) = false
  is_error (error message) = true

  -- Every counter has grown by the number of results of its kind.
  pub record HasCounted (before : Counts) (results : List ItemResult) (s : Counts) : Type 0 where
    pub discovered : s.discovered ≡ before.discovered + length results
    pub ingested : s.ingested ≡ before.ingested + length (keep_if is_ingested results)
    pub quarantined : s.quarantined ≡ before.quarantined + length (keep_if is_quarantined results)
    pub duplicates : s.duplicates ≡ before.duplicates + length (keep_if is_duplicate results)
    pub errors : s.errors ≡ before.errors + length (keep_if is_error results)

  abbrev counted : ItemResult → Counts → Counts
  counted r s =
      count_result Item connector fix_text detect_language index_and_graph r
        (record s { discovered = s.discovered + 1 })

  abbrev RunsTo : List (Str × Item) → Corpus → Counts → Corpus × Option Counts → Type 0
  RunsTo items corpus before (last, none) =
      (results : List ItemResult) × Ran items corpus results last true
  RunsTo items corpus before (last, some s) =
      (results : List ItemResult) × Ran items corpus results last false
      × HasCounted before results s

  abbrev registered : Corpus → Corpus
  registered corpus = record corpus {
    sources = register_source connector.name connector.default_license corpus.sources;
  }

  -- A run behind the registration of its source: where an error ends it, there is no count; otherwise
  -- every item has a result, each counter is the number of results of its kind, and the run and the
  -- number of documents ingested are noted in the source's row.
  abbrev pub JobRan : ℕ → List (Str × Item) → Corpus → Corpus × Option Counts → Type 0
  JobRan now items corpus (last, none) =
      (results : List ItemResult) × Ran items (registered corpus) results last true
  JobRan now items corpus (last, some s) =
      (results : List ItemResult) × (ran : Corpus) × Ran items (registered corpus) results ran false
      × (length results ≡ length items)
      × HasCounted (no_stats Item connector fix_text detect_language index_and_graph) results s
      × (last ≡ record ran {
        sources = record_run connector.name (length (keep_if is_ingested results)) now ran.sources;
      })
