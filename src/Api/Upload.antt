-- ===== src/Api/Upload.antt =====
-- src/cranus/api/routers/upload.py. A file is the list of its bytes. The route's session is committed before the file
-- is read, and the item is ingested in sessions of its own.
pub mod Bounded
pub mod Licensed
mod Tests
use cranus.Base.{
  ℕ, zero, suc, ◌+◌, Bool, Option, none, some, List, [], ◌∷◌, ◌++◌, Str, codes, is_empty, length,
  take, drop, ltb, if◌then◌else◌,
}
use cranus.Api.Http.{Response, done, failed}
use cranus.Ingestion.Items.{Indexing, Corpus, Connector, ItemResult, register_source, ingest_item}
use cranus.Connectors.Upload.{SourceItem, Extractors, upload_license, upload_connector}

pub record UploadFile : Type 0 where
  pub filename : Str
  pub content_type : Option Str
  pub body : Str

abbrev pub join_all : List Str → Str
join_all [] = []
join_all (chunk ∷ chunks) = chunk ++ join_all chunks

module _ (read_size max_bytes : ℕ) where
  -- The loop, with `chunks`, `total` and the rest of the file, on fuel; `total` is returned too.
  unfoldable pub read_loop : ℕ → List Str → ℕ → Str → Option (Response Str × ℕ)
  read_loop zero chunks total body = none
  read_loop (suc fuel) chunks total body =
      let chunk = take read_size body in
      let total' = total + length chunk in
      let rest = read_loop fuel (chunks ++ chunk ∷ []) total' (drop read_size body) in
      if is_empty chunk
      then some (done (join_all chunks), total)
      else if ltb max_bytes total'
      then some (failed 413, total')
      else rest

  unfoldable pub read_bounded : Str → Option (Response Str × ℕ)
  unfolding read_loop
  read_bounded body = read_loop (suc (length body)) [] 0 body

abbrev pub or_upload : Str → Str
or_upload [] = codes "upload"
or_upload (c ∷ s) = c ∷ s

module _ (extractors : Extractors) (now : ℕ) (fix_text detect_language : Str → Str)
    (index_and_graph : ℕ → Str → Str → Indexing) where
  abbrev pub item_of : UploadFile → Option Str → Str → SourceItem
  item_of file license content = record {
    ref = or_upload file.filename;
    content = content;
    filename = file.filename;
    content_type = file.content_type;
    license = license;
  }

  -- An error that is raised is the status 500.
  abbrev pub answered : Corpus × Option ItemResult → Corpus × Response ItemResult
  answered (corpus, none) = (corpus, failed 500)
  answered (corpus, some result) = (corpus, done result)

  abbrev pub ingest_read :
      Str
      → UploadFile
      → Option Str
      → Corpus
      → Option (Response Str × ℕ)
      → Option (Corpus × Response ItemResult)
  ingest_read new_id file license corpus none = none
  ingest_read new_id file license corpus (some (failed code, total)) = some (corpus, failed code)
  ingest_read new_id file license corpus (some (done content, total)) = some (
      answered (
        ingest_item SourceItem (upload_connector extractors now) fix_text detect_language
          index_and_graph new_id (item_of file license content) corpus))

  abbrev pub with_source : Corpus → Corpus
  with_source corpus = record corpus {
    sources = register_source (codes "upload") upload_license corpus.sources;
  }

  unfoldable pub upload_document :
      (read_size max_bytes : ℕ)
      → (new_id : Str) → UploadFile
      → (license : Option Str) → Corpus
      → Option (Corpus × Response ItemResult)
  unfolding read_bounded
  upload_document read_size max_bytes new_id file license corpus =
      ingest_read new_id file license (with_source corpus)
        (read_bounded read_size max_bytes file.body)
