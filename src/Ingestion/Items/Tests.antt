-- ===== src/Ingestion/Items/Tests.antt =====
-- Items through src/cranus/ingestion/pipeline.py, and its theorems there. An item is its own content.
use cranus.Base.{ℕ, ◌≡◌, refl, Option, some, none, List, [], ◌∷◌, Str, codes, length, is_space}
use cranus.Ingestion.Gates.{check_document}
use cranus.Storage.Json.{end}
use cranus.Ingestion.Items.{
  Indexing, graphed, not_graphed, returned, Connector, Corpus, Stats, ingest_item,
  run_connector_job,
}
use cranus.Ingestion.Items.Store.{IsConsistent, ingest_item-IsConsistent}
use cranus.Ingestion.Items.Stranded.{Stranded}

abbrev long_text : Str
long_text = codes "A text that is long enough to pass the gate."

check_document-long_text : check_document long_text (codes "CC0-1.0") ≡ none
unfolding check_document is_space
check_document-long_text = refl

abbrev connector : Connector Str
connector = record {
  name = codes "notes";
  default_license = codes "CC0-1.0";
  fetch = λ item.
      returned
        (record { uri = item; content = item; content_type = none; fetched_at = 3; extra = end });
  parse = λ raw.
      returned (record { uri = raw.uri; title = raw.uri; text = raw.content; published_at = none });
  provenance = λ item raw. record {
    license = codes "CC0-1.0";
    content_hash = raw.content;
    fetched_at = raw.fetched_at;
  };
}

abbrev same : Str → Str
same s = s

abbrev english : Str → Str
english s = codes "en"

abbrev works : ℕ → Str → Str → Indexing
works left id text = graphed

abbrev fails : ℕ → Str → Str → Indexing
fails left id text = not_graphed

abbrev nothing : Corpus
nothing = record { documents = []; blobs = []; indexed = []; graphed = []; sources = [] }

nothing-IsConsistent : IsConsistent nothing
nothing-IsConsistent = record { unique = tt; gated = tt; licensed = tt; indexed = tt; graphed = tt }

abbrev items : List (Str × Str)
items = (codes "d1", long_text) ∷ (codes "d2", codes "short") ∷ (codes "d3", long_text) ∷ []

abbrev facts : Corpus × Option (Stats Str connector same english works) → ℕ × ℕ × ℕ × ℕ × ℕ
facts (corpus, none) = (0, 0, 0, 0, 0)
facts (corpus, some s) =
    (s.discovered, s.ingested, s.quarantined, s.duplicates, length corpus.indexed)

run-facts :
    facts (run_connector_job Str connector same english works 9 items nothing) ≡ (3, 1, 1, 1, 1)
unfolding run_connector_job check_document is_space
run-facts = refl

ingest_item-IsConsistent_example :
    IsConsistent (ingest_item Str connector same english works (codes "d1") long_text nothing).0
ingest_item-IsConsistent_example =
    ingest_item-IsConsistent Str connector same english works (codes "d1") long_text nothing
      nothing-IsConsistent

-- Each attempt adds the document to the index once more.
indexed-thrice :
    length (ingest_item Str connector same english fails (codes "d1") long_text nothing).0.indexed
    ≡ 3
unfolding ingest_item check_document is_space
indexed-thrice = refl
