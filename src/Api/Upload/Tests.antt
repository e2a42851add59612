-- ===== src/Api/Upload/Tests.antt =====
-- Small uploads to src/cranus/api/routers/upload.py, read two bytes at a time, and its theorems there.
use cranus.Base.{ℕ, ◌+◌, ◌≤◌, ◌<◌, ◌≡◌, refl, ◌⊎◌, none, some, [], Str, codes, length}
use cranus.Api.Http.{done, failed}
use cranus.Ingestion.Items.{Indexing, graphed, Corpus, error, returned, ingest_item}
use cranus.Connectors.Upload.{SourceItem, Extractors, upload_connector}
use cranus.Api.Upload.{UploadFile, read_bounded, item_of, answered, with_source, upload_document}
use cranus.Api.Upload.Bounded.{upload_document-IsBounded}
use cranus.Api.Upload.Licensed.{license_of, IsLicensed, ingest_item-IsLicensed}

abbrev extractors : Extractors
extractors = record {
  guess = λ s. none;
  extract_pdf = returned;
  extract_html = returned;
  extract_json = returned;
  transcribe_audio = returned;
  decode = λ s. s;
  content_hash = λ s. s;
}

abbrev same : Str → Str
same s = s

abbrev indexes : ℕ → Str → Str → Indexing
indexes left id text = graphed

abbrev empty : Corpus
empty = record { documents = []; blobs = []; indexed = []; graphed = []; sources = [] }

abbrev file : UploadFile
file = record {
  filename = codes "a.txt";
  content_type = some (codes "text/plain");
  body = codes "hello";
}

read_bounded-whole : read_bounded 2 5 (codes "hello") ≡ some (done (codes "hello"), 5)
unfolding read_bounded
read_bounded-whole = refl

read_bounded-over : read_bounded 2 3 (codes "hello") ≡ some (failed 413, 4)
unfolding read_bounded
read_bounded-over = refl

-- A part without a type, whose bytes tell none either, is not taken for a plain text.
untyped-error :
    (ingest_item SourceItem
      (upload_connector extractors 7)
      same
      same
      indexes
      (codes "d1")
      (record {
        ref = codes "a";
        content = codes "hello";
        filename = codes "a";
        content_type = none;
        license = none;
      })
      empty).1
    ≡ some (error (codes "'NoneType' object has no attribute 'startswith'"))
unfolding ingest_item cranus.Connectors.Upload.fetch cranus.Connectors.Upload.parse
untyped-error = refl

upload_document-IsBounded_example :
    ((length file.body ≤ 3)
      × (upload_document extractors 7 same same indexes 2 3 (codes "d1") file none empty
          ≡ some (
              answered extractors 7 same same indexes (
                ingest_item SourceItem
                  (upload_connector extractors 7)
                  same
                  same
                  indexes
                  (codes "d1")
                  (item_of extractors 7 same same indexes file none file.body)
                  (with_source extractors 7 same same indexes empty)))))
    ⊎ ((3 < length file.body)
        × (upload_document extractors 7 same same indexes 2 3 (codes "d1") file none empty
            ≡ some (with_source extractors 7 same same indexes empty, failed 413))
        × ((n : ℕ) × (read_bounded 2 3 file.body ≡ some (failed 413, n)) × (n ≤ 3 + 2)))
upload_document-IsBounded_example =
    upload_document-IsBounded extractors 7 same same indexes 1 3 (codes "d1") file none empty

abbrev item : SourceItem
item = record {
  ref = codes "a";
  content = codes "hello";
  filename = codes "a";
  content_type = some (codes "text/plain");
  license = some (codes "all mine");
}

ingest_item-IsLicensed_example :
    IsLicensed
      (license_of item.license)
      empty
      (ingest_item SourceItem
        (upload_connector extractors 7)
        same
        same
        indexes
        (codes "d1")
        item
        empty).0
ingest_item-IsLicensed_example =
    ingest_item-IsLicensed extractors 7 same same indexes (codes "d1") item empty
