-- ===== src/Ingestion/Items.antt =====
-- src/cranus/ingestion/pipeline.py, with register_source and record_run of src/cranus/storage/catalog.py.
-- The methods of a connector, the clean-up of texts, the detection of a language, the new ids and the
-- indexing of a document are arguments.
pub mod Store
pub mod Runs
pub mod Stranded
mod Tests
use cranus.Base.{
  ℕ, zero, suc, ◌+◌, ◌≡◌, Bool, true, false, ◌&&◌, Option, none, some, List, [], ◌∷◌, ◌++◌, Str,
  codes, str_eq, strip, is_empty, if◌then◌else◌,
}
use cranus.Storage.Json.{Fields}
use cranus.Storage.Models.{Source}
use cranus.Storage.Table.{find_first, get_row, update_rows}
use cranus.Retrieval.Fusion.{put}
use cranus.Ingestion.Gates.{check_document}

pub record RawObject : Type 0 where
  pub uri : Str
  pub content : Str
  pub content_type : Option Str
  pub fetched_at : ℕ
  pub extra : Fields

pub record ParsedDocument : Type 0 where
  pub uri : Str
  pub title : Str
  pub text : Str
  pub published_at : Option ℕ

pub record Provenance : Type 0 where
  pub license : Str
  pub content_hash : Str
  pub fetched_at : ℕ

pub record Document : Type 0 where
  pub id : Str
  pub uri : Str
  pub title : Str
  pub published_at : Option ℕ
  pub fetched_at : ℕ
  pub license : Str
  pub content_hash : Str
  pub lang : Str
  pub active : Bool
  pub quarantine_reason : Option Str
  pub source_connector : Str
  pub blob_key : Str

-- A call that returns or raises.
pub data Attempt (A : Type 0) : Type 0 where
  returned : A → Attempt A
  raised : Str → Attempt A

-- A connector, for items of any kind.
pub record Connector (Item : Type 0) : Type 0 where
  pub name : Str
  pub default_license : Str
  pub fetch : Item → Attempt RawObject
  pub parse : RawObject → Attempt ParsedDocument
  pub provenance : Item → RawObject → Provenance

-- What the pipeline writes: documents, blobs, the documents that were indexed, with their texts, and
-- those whose graph was extracted.
pub record Corpus : Type 0 where
  pub documents : List Document
  pub blobs : List (Str × Str)
  pub indexed : List (Str × Str)
  pub graphed : List Str
  pub sources : List Source

-- What one attempt of `_index_and_graph_task` commits: neither of its two sessions, only the first, which
-- indexes, or also the second, which extracts the graph.
pub data Indexing : Type 0 where
  not_indexed not_graphed graphed : Indexing

pub data ItemResult : Type 0 where
  error : Str → ItemResult
  duplicate quarantined ingested : (doc_id : Str) → ItemResult

abbrev pub is_same : Str → Str → Document → Bool
is_same connector_name content_hash d =
    str_eq d.content_hash content_hash && str_eq d.source_connector connector_name

abbrev pub source_name : Source → Str
source_name s = s.name

abbrev pub with_license : Str → Source → Source
with_license license s = record s { default_license = license }

abbrev pub register_found : Str → Str → Option Source → List Source → List Source
register_found name license none sources =
    sources
    ++ record { name = name; default_license = license; last_run_at = none; row_count = 0 } ∷ []
register_found name license (some s) sources =
    update_rows source_name name (with_license license) sources

unfoldable pub register_source : Str → Str → List Source → List Source
register_source name license sources =
    register_found name license (get_row source_name name sources) sources

abbrev pub ran_at : ℕ → ℕ → Source → Source
ran_at now rows_added s = record s { last_run_at = some now; row_count = s.row_count + rows_added }

unfoldable pub record_run : Str → ℕ → ℕ → List Source → List Source
record_run name rows_added now sources =
    update_rows source_name name (ran_at now rows_added) sources

abbrev pub is_passed : Option Str → Bool
is_passed none = true
is_passed (some reason) = false

module _ (Item : Type 0) (connector : Connector Item) (fix_text detect_language : Str → Str)
    (index_and_graph : ℕ → Str → Str → Indexing) where
  abbrev pub clean_text : Str → Str
  clean_text text = strip (fix_text text)

  abbrev pub document_of : Str → RawObject → ParsedDocument → Provenance → Document
  document_of new_id raw parsed prov =
      let text = clean_text parsed.text in
      let reason = check_document text prov.license in
      record {
        id = new_id;
        uri = parsed.uri;
        title = parsed.title;
        published_at = parsed.published_at;
        fetched_at = prov.fetched_at;
        license = prov.license;
        content_hash = prov.content_hash;
        lang = if is_empty text then codes "en" else detect_language text;
        active = is_passed reason;
        quarantine_reason = reason;
        source_connector = connector.name;
        blob_key = connector.name ++ (codes "/" ++ prov.content_hash);
      }

  -- `_persist_task`: the blob and the row.
  abbrev pub persist : Document → RawObject → Corpus → Corpus
  persist doc raw corpus = record corpus {
    documents = corpus.documents ++ doc ∷ [];
    blobs = put doc.blob_key raw.content corpus.blobs;
  }

  abbrev pub indexed_as : Document → Str → Corpus → Corpus
  indexed_as doc text corpus = record corpus { indexed = corpus.indexed ++ (doc.id, text) ∷ [] }

  -- One attempt; where a session raises, `retry` goes on from what was committed.
  abbrev pub index_as :
      (Corpus → Corpus × Option ItemResult)
      → Indexing
      → Document
      → Str
      → Corpus
      → Corpus × Option ItemResult
  index_as retry not_indexed doc text corpus = retry corpus
  index_as retry not_graphed doc text corpus = retry (indexed_as doc text corpus)
  index_as retry graphed doc text corpus = (
    record (indexed_as doc text corpus) { graphed = corpus.graphed ++ doc.id ∷ [] },
    some (ingested doc.id),
  )

  -- The attempts that are left; without a result the last of them raised.
  abbrev pub index_attempts : ℕ → Document → Str → Corpus → Corpus × Option ItemResult
  index_attempts zero doc text corpus = (corpus, none)
  index_attempts (suc left) doc text corpus =
      index_as (index_attempts left doc text) (index_and_graph left doc.id text) doc text corpus

  -- Behind `_persist_task`: the task has two retries.
  abbrev pub index_new : Document → Str → Corpus → Corpus × Option ItemResult
  index_new doc text corpus =
      if doc.active then index_attempts 3 doc text corpus else (corpus, some (quarantined doc.id))

  abbrev pub ingest_parsed :
      Str → RawObject → Provenance → Attempt ParsedDocument → Corpus → Corpus × Option ItemResult
  ingest_parsed new_id raw prov (raised message) corpus = (corpus, some (error message))
  ingest_parsed new_id raw prov (returned parsed) corpus =
      let doc = document_of new_id raw parsed prov in
      index_new doc (clean_text parsed.text) (persist doc raw corpus)

  abbrev pub ingest_new :
      Str → RawObject → Provenance → Option Document → Corpus → Corpus × Option ItemResult
  ingest_new new_id raw prov (some existing) corpus = (corpus, some (duplicate existing.id))
  ingest_new new_id raw prov none corpus =
      ingest_parsed new_id raw prov (connector.parse raw) corpus

  abbrev pub ingest_fetched : Str → Item → Attempt RawObject → Corpus → Corpus × Option ItemResult
  ingest_fetched new_id item (raised message) corpus = (corpus, some (error message))
  ingest_fetched new_id item (returned raw) corpus =
      let prov = connector.provenance item raw in
      ingest_new new_id raw prov
        (find_first (is_same connector.name prov.content_hash) corpus.documents) corpus

  unfoldable pub ingest_item : Str → Item → Corpus → Corpus × Option ItemResult
  ingest_item new_id item corpus = ingest_fetched new_id item (connector.fetch item) corpus

  pub record Stats : Type 0 where
    pub discovered : ℕ
    pub ingested : ℕ
    pub quarantined : ℕ
    pub duplicates : ℕ
    pub errors : ℕ

  abbrev pub count_result : ItemResult → Stats → Stats
  count_result (ingested id) s = record s { ingested = s.ingested + 1 }
  count_result (duplicate id) s = record s { duplicates = s.duplicates + 1 }
  count_result (quarantined id) s = record s { quarantined = s.quarantined + 1 }
  count_result (error message) s = record s { errors = s.errors + 1 }

  -- An error that is raised ends the loop.
  abbrev pub go_on :
      Corpus → Option ItemResult → Stats → (Stats → Corpus × Option Stats) → Corpus × Option Stats
  go_on corpus none stats rest = (corpus, none)
  go_on corpus (some result) stats rest =
      rest (count_result result (record stats { discovered = stats.discovered + 1 }))

  -- The loop over the items discovered, each with the id for its row.
  unfoldable pub ingest_items : List (Str × Item) → Corpus → Stats → Corpus × Option Stats
  unfolding ingest_item
  ingest_items [] corpus stats = (corpus, some stats)
  ingest_items ((new_id, item) ∷ items) corpus stats =
      let (corpus', result) = ingest_item new_id item corpus in
      go_on corpus' result stats (λ stats'. ingest_items items corpus' stats')

  abbrev pub no_stats : Stats
  no_stats = record { discovered = 0; ingested = 0; quarantined = 0; duplicates = 0; errors = 0 }

  abbrev pub finish_job : ℕ → Corpus × Option Stats → Corpus × Option Stats
  finish_job now (corpus, none) = (corpus, none)
  finish_job now (corpus, some stats) = (
    record corpus { sources = record_run connector.name stats.ingested now corpus.sources },
    some stats,
  )

  -- `items` are those that `discover` yields.
  unfoldable pub run_connector_job : ℕ → List (Str × Item) → Corpus → Corpus × Option Stats
  unfolding ingest_items register_source record_run
  run_connector_job now items corpus = finish_job now (
      ingest_items items
        (record corpus {
          sources = register_source connector.name connector.default_license corpus.sources;
        })
        no_stats)
