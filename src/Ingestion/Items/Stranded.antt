-- ===== src/Ingestion/Items/Stranded.antt =====
-- What an indexing or an extraction of the graph that fails in src/cranus/ingestion/pipeline.py leaves behind.
use cranus.Base.{ℕ, ◌≡◌, true, some, List, [], ◌∷◌, ◌++◌, Str, ◌≤◌, All, length}
use cranus.Ingestion.Items.{
  RawObject, Document, Attempt, Connector, Corpus, duplicate, ingest_fetched,
}
use cranus.Ingestion.Items.{Indexing, graphed}

module _ (Item : Type 0) (connector : Connector Item) (fix_text detect_language : Str → Str)
    (index_and_graph : ℕ → Str → Str → Indexing) where
  -- One more document, active, whose graph was not extracted, and that was indexed up to three times or not
  -- at all; its own item is from then on taken for a duplicate of it.
  abbrev pub Stranded : Str → Attempt RawObject → Item → Corpus → Corpus → Type 0
  Stranded id fetched item corpus corpus' =
      (doc : Document) × (corpus'.documents ≡ corpus.documents ++ doc ∷ [])
      × (doc.active ≡ true)
      × (corpus'.graphed ≡ corpus.graphed)
      × ((text : Str) × (more : List (Str × Str)) × (corpus'.indexed ≡ corpus.indexed ++ more)
          × All (λ (e : Str × Str). e ≡ (doc.id, text)) more
          × (length more ≤ 3))
      × (ingest_fetched Item connector fix_text detect_language index_and_graph id item fetched
            corpus'
          ≡ (corpus', some (duplicate doc.id)))

  -- Attempts without a result have indexed the text some number of times, at most once each.
  abbrev Kept : ℕ → Document → Str → Corpus → Corpus → Type 0
  Kept left doc text corpus corpus' =
      (more : List (Str × Str)) × (corpus' ≡ record corpus { indexed = corpus.indexed ++ more })
      × All (λ (e : Str × Str). e ≡ (doc.id, text)) more
      × (length more ≤ left)
