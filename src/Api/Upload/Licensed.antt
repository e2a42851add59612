-- ===== src/Api/Upload/Licensed.antt =====
-- The license of a file uploaded by src/cranus/api/routers/upload.py, and what it decides.
use cranus.Base.{
  zero, suc, ℕ, ◌≡◌, refl, ap, subst, ◌⊎◌, ◌++◌, or_else, codes, inl, inr, false, Option, none,
  some, [], ◌∷◌, Str, Has, Option-cases, if_cases, if_false,
}
use cranus.Storage.Json.{str, field, end, get_field}
use cranus.Ingestion.Gates.{check_document, check_document-exact, known_licenses}
use cranus.Ingestion.Items.{
  index_attempts, not_indexed, not_graphed, graphed, index_as, Indexing, RawObject, ParsedDocument,
  Document, Attempt, returned, raised, Corpus, ItemResult, is_passed, persist, clean_text,
  document_of, index_new, ingest_parsed, ingest_new, ingest_item,
}
use cranus.Connectors.Upload.{
  SourceItem, Extractors, upload_license, or_null, given_license, upload_connector, fetch, parse,
  provenance,
}

abbrev pub license_of : Option Str → Str
license_of none = upload_license
license_of (some []) = upload_license
license_of (some (c ∷ s)) = c ∷ s

-- A corpus that has at most one more document, with this license; an unknown license lets nothing be indexed.
abbrev pub IsLicensed : Str → Corpus → Corpus → Type 0
IsLicensed license corpus corpus' =
    (corpus' ≡ corpus)
    ⊎ ((doc : Document) × (corpus'.documents ≡ corpus.documents ++ doc ∷ [])
        × (doc.license ≡ license)
        × (¬ (Has license known_licenses)
            → (doc.active ≡ false) × (corpus'.indexed ≡ corpus.indexed)))

not_passed :
    (text license : Str)
    → (¬ (Has license known_licenses))
    → is_passed (check_document text license) ≡ false
not_passed text license unknown = elim (Option-cases (check_document text license)) [
  | inl e ↦ absurd (unknown ((check_document-exact text license).0 e).known)
  | inr (reason, e) ↦ ap is_passed e
]

module _ (extractors : Extractors) (now : ℕ) (fix_text detect_language : Str → Str)
    (index_and_graph : ℕ → Str → Str → Indexing) where
  abbrev raw_of : SourceItem → RawObject
  raw_of item = record {
    uri = item.ref;
    content = item.content;
    content_type = or_else (extractors.guess item.content) item.content_type;
    fetched_at = now;
    extra =
        field (codes "filename") (str item.filename)
          (field (codes "license") (or_null item.license) end);
  }

  raw_license :
      (license : Option Str) (filename : Str)
      → given_license (
          get_field (codes "license") (
            field
              (codes "filename")
              (str filename)
              (field (codes "license") (or_null license) end)))
        ≡ license_of license
  unfolding get_field
  raw_license none filename = refl
  raw_license (some []) filename = refl
  raw_license (some (c ∷ s)) filename = refl

  attempts-documents :
      (left : ℕ) (doc : Document) (text : Str) (corpus : Corpus)
      → (index_attempts SourceItem
          (upload_connector extractors now)
          fix_text
          detect_language
          index_and_graph
          left
          doc
          text
          corpus).0.documents
        ≡ corpus.documents
  attempts-documents zero doc text corpus = refl
  attempts-documents (suc left) doc text corpus =
      elim (index_and_graph left doc.id text)
        as (λ (o : Indexing).
          (index_as SourceItem (upload_connector extractors now) fix_text detect_language
            index_and_graph
            (index_attempts SourceItem (upload_connector extractors now) fix_text detect_language
              index_and_graph left doc text)
            o doc text corpus).0.documents
          ≡ corpus.documents) [
            | not_indexed ↦ attempts-documents left doc text corpus
            | not_graphed ↦ attempts-documents left doc text _
            | graphed ↦ refl
          ]

  indexed-IsLicensed :
      (doc : Document) (raw : RawObject) (text : Str) (corpus : Corpus)
      → (¬ (Has doc.license known_licenses) → doc.active ≡ false)
      → IsLicensed doc.license corpus
          (index_new SourceItem
            (upload_connector extractors now)
            fix_text
            detect_language
            index_and_graph
            doc
            text
            (persist SourceItem
              (upload_connector extractors now)
              fix_text
              detect_language
              index_and_graph
              doc
              raw
              corpus)).0
  indexed-IsLicensed doc raw text corpus unknown = inr (
    doc,
    if_cases (λ (r : Corpus × Option ItemResult). r.0.documents ≡ corpus.documents ++ doc ∷ [])
        doc.active _ _ (λ e. attempts-documents 3 doc text _) (λ e. refl),
    refl,
    λ n. (
      unknown n,
      if_false (λ (r : Corpus × Option ItemResult). r.0.indexed ≡ corpus.indexed) doc.active _ _
          (unknown n) refl,
    ),
  )

  parsed-IsLicensed :
      (new_id : Str) (item : SourceItem) (raw : RawObject) (o : Attempt ParsedDocument)
      (corpus : Corpus)
      → let prov = provenance extractors now item raw in
        IsLicensed prov.license corpus
          (ingest_parsed SourceItem
            (upload_connector extractors now)
            fix_text
            detect_language
            index_and_graph
            new_id
            raw
            prov
            o
            corpus).0
  parsed-IsLicensed new_id item raw (raised message) corpus = inl refl
  parsed-IsLicensed new_id item raw (returned parsed) corpus =
      let prov = provenance extractors now item raw in
      let text =
        clean_text SourceItem (upload_connector extractors now) fix_text detect_language
          index_and_graph parsed.text in
      indexed-IsLicensed
        (document_of SourceItem (upload_connector extractors now) fix_text detect_language
          index_and_graph new_id raw parsed prov)
        raw text corpus (not_passed text prov.license)

  new-IsLicensed :
      (new_id : Str) (item : SourceItem) (raw : RawObject) (o : Option Document) (corpus : Corpus)
      → let prov = provenance extractors now item raw in
        IsLicensed prov.license corpus
          (ingest_new SourceItem
            (upload_connector extractors now)
            fix_text
            detect_language
            index_and_graph
            new_id
            raw
            prov
            o
            corpus).0
  new-IsLicensed new_id item raw (some existing) corpus = inl refl
  new-IsLicensed new_id item raw none corpus =
      parsed-IsLicensed new_id item raw (parse extractors now raw) corpus

  -- Ingesting an upload adds no document, and nothing else then, or one whose license is the one given with the file, or
  -- "user-uploaded" where none is given or an empty one. If that license is not a known one, the document is
  -- quarantined, and nothing is indexed.
  pub ingest_item-IsLicensed :
      (new_id : Str) (item : SourceItem) (corpus : Corpus)
      → IsLicensed
          (license_of item.license)
          corpus
          (ingest_item SourceItem
            (upload_connector extractors now)
            fix_text
            detect_language
            index_and_graph
            new_id
            item
            corpus).0
  unfolding ingest_item fetch provenance
  ingest_item-IsLicensed new_id item corpus =
      subst
        (λ l.
          IsLicensed l corpus
            (ingest_item SourceItem (upload_connector extractors now) fix_text detect_language
              index_and_graph new_id item corpus).0)
        (raw_license item.license item.filename) (new-IsLicensed new_id item (raw_of item) _ corpus)
