-- ===== src/Ingestion/Items/Store.antt =====
-- What src/cranus/ingestion/pipeline.py keeps true of the documents it stores.
use cranus.Base.{
  ℕ, ◌⊎◌, if_cases, Option-cases, true_ne_false, map-snoc, ◌≡◌, refl, ap, sym, subst, ◌∙◌, inl, inr,
  Bool, true, false, Option, none, some, List, [], ◌∷◌, ◌++◌, map, arith, Str, str_eq, str_eq_refl,
  Bool-cases, All, All-map, All-append, Has, map-Has, Has-append_left, Has-append_right, Distinct,
  Distinct-snoc, zero, suc,
}
use cranus.Storage.Table.{find_first}
use cranus.Ingestion.Gates.{check_document, check_document-exact, known_licenses, IsSound}
use cranus.Ingestion.Items.{
  index_attempts, Indexing, ItemResult, not_indexed, not_graphed, graphed, indexed_as, index_as,
  RawObject, ParsedDocument, Provenance, Document, Attempt, returned, raised, Connector, Corpus,
  is_same, is_passed, clean_text, document_of, persist, index_new, ingest_parsed, ingest_new,
  ingest_fetched, ingest_item,
}

abbrev pub origin : Document → Str × Str
origin d = (d.source_connector, d.content_hash)

-- The text is one of an active document of the list with this id, and long enough, encodable and of a
-- known license.
abbrev pub IsActive : List Document → Str × Str → Type 0
IsActive documents (id, text) =
    (d : Document) × Has d documents × (d.id ≡ id) × (d.active ≡ true) × IsSound text d.license

-- The document is quarantined, or its license is known.
abbrev pub IsLicensed : Document → Type 0
IsLicensed d = (d.active ≡ false) ⊎ Has d.license known_licenses

abbrev pub HasText : List (Str × Str) → Str → Type 0
HasText indexed id = (text : Str) × Has (id, text) indexed

-- No content twice from one connector; a document is active when no reason speaks against it, and then
-- its license is known; only sound texts of active documents are indexed, and the graph is extracted
-- only of documents that are.
pub record IsConsistent (corpus : Corpus) : Type 0 where
  pub unique : Distinct (map origin corpus.documents)
  pub gated : All (λ (d : Document). d.active ≡ is_passed d.quarantine_reason) corpus.documents
  pub licensed : All IsLicensed corpus.documents
  pub indexed : All (IsActive corpus.documents) corpus.indexed
  pub graphed : All (HasText corpus.indexed) corpus.graphed

passed-IsSound :
    (text license : Str) → is_passed (check_document text license) ≡ true → IsSound text license
passed-IsSound text license e = elim (Option-cases (check_document text license)) [
  | inl none_given ↦ (check_document-exact text license).0 none_given
  | inr (reason, q) ↦ absurd (true_ne_false (sym e ∙ ap is_passed q))
]

sound-IsLicensed :
    (text : Str) (doc : Document) → (doc.active ≡ true → IsSound text doc.license) → IsLicensed doc
sound-IsLicensed text doc sound = elim (Bool-cases doc.active) [
  | inl e ↦ inr (sound e).known
  | inr e ↦ inl e
]

find_first-all :
    {A : Type 0} (p : A → Bool) (rows : List A) (r : A)
    → find_first p rows ≡ none
    → Has r rows
    → p r ≡ false
find_first-all p [] r e m = absurd m
find_first-all p (x ∷ rows) r e m = elim (Bool-cases (p x)) [
  | inl q ↦ absurd (ground (arith, e, q))
  | inr q ↦ elim m [ inl h ↦ ap p h ∙ q | inr h ↦ find_first-all p rows r (rw q at e) h ]
]

module _ (Item : Type 0) (connector : Connector Item) (fix_text detect_language : Str → Str)
    (index_and_graph : ℕ → Str → Str → Indexing) where
  new_origin :
      (content_hash : Str) (documents : List Document)
      → find_first (is_same connector.name content_hash) documents ≡ none
      → ¬ (Has (connector.name, content_hash) (map origin documents))
  new_origin content_hash documents e m =
      let (d, there, same) = map-Has origin (connector.name, content_hash) documents m in
      let other = find_first-all (is_same connector.name content_hash) documents d e there in
      ground (
        arith,
        other,
        str_eq_refl d.content_hash,
        str_eq_refl d.source_connector,
        ap (str_eq d.content_hash) (ap (λ p. p.1) same),
        ap (str_eq d.source_connector) (ap (λ p. p.0) same),
      )

  persist-IsConsistent :
      (doc : Document) (raw : RawObject) (corpus : Corpus)
      → (¬ (Has (origin doc) (map origin corpus.documents)))
      → doc.active ≡ is_passed doc.quarantine_reason
      → IsLicensed doc
      → IsConsistent corpus
      → IsConsistent
          (persist Item connector fix_text detect_language index_and_graph doc raw corpus)
  persist-IsConsistent doc raw corpus new gate licensed c = record {
    unique =
        subst Distinct (sym (map-snoc origin corpus.documents doc))
          (Distinct-snoc (map origin corpus.documents) (origin doc) c.unique new);
    gated =
        All-append (λ (d : Document). d.active ≡ is_passed d.quarantine_reason) corpus.documents
          (doc ∷ []) c.gated (gate, tt);
    licensed = All-append IsLicensed corpus.documents (doc ∷ []) c.licensed (licensed, tt);
    graphed = c.graphed;
    indexed =
        All-map {Q = IsActive (corpus.documents ++ doc ∷ [])}
          (λ e (d, there, same, active, sound).
            (d, Has-append_left d corpus.documents (doc ∷ []) there, same, active, sound))
          corpus.indexed c.indexed;
  }

  indexed_as-IsConsistent :
      (doc : Document) (text : Str) (corpus : Corpus)
      → Has doc corpus.documents
      → doc.active ≡ true
      → IsSound text doc.license
      → IsConsistent corpus
      → IsConsistent
          (indexed_as Item connector fix_text detect_language index_and_graph doc text corpus)
  indexed_as-IsConsistent doc text corpus there active sound c = record {
    unique = c.unique;
    gated = c.gated;
    licensed = c.licensed;
    indexed =
        All-append (IsActive corpus.documents) corpus.indexed ((doc.id, text) ∷ []) c.indexed
          ((doc, there, refl, active, sound), tt);
    graphed =
        All-map {P = HasText corpus.indexed} {Q = HasText (corpus.indexed ++ (doc.id, text) ∷ [])}
          (λ id (t, h). (t, Has-append_left (id, t) corpus.indexed ((doc.id, text) ∷ []) h))
          corpus.graphed c.graphed;
  }

  graphed-IsConsistent :
      (doc : Document) (text : Str) (corpus : Corpus)
      → Has doc corpus.documents
      → doc.active ≡ true
      → IsSound text doc.license
      → IsConsistent corpus
      → IsConsistent
          (record (indexed_as Item connector fix_text detect_language index_and_graph doc text
            corpus) { graphed = corpus.graphed ++ doc.id ∷ [] })
  graphed-IsConsistent doc text corpus there active sound c =
      let r = indexed_as-IsConsistent doc text corpus there active sound c in
      let indexed = corpus.indexed ++ (doc.id, text) ∷ [] in
      record {
        unique = r.unique;
        gated = r.gated;
        licensed = r.licensed;
        indexed = r.indexed;
        graphed =
            All-append (HasText indexed) corpus.graphed (doc.id ∷ []) r.graphed
              ((text, Has-append_right (doc.id, text) corpus.indexed _ (inl refl)), tt);
      }

  attempts-IsConsistent :
      (left : ℕ) (doc : Document) (text : Str) (corpus : Corpus)
      → Has doc corpus.documents
      → doc.active ≡ true
      → IsSound text doc.license
      → IsConsistent corpus
      → IsConsistent
          (index_attempts Item connector fix_text detect_language index_and_graph left doc text
            corpus).0
  attempts-IsConsistent zero doc text corpus there active sound c = c
  attempts-IsConsistent (suc left) doc text corpus there active sound c =
      elim (index_and_graph left doc.id text)
        as (λ (o : Indexing).
          IsConsistent
            (index_as Item connector fix_text detect_language index_and_graph
              (index_attempts Item connector fix_text detect_language index_and_graph left doc text)
              o doc text corpus).0) [
                | not_indexed ↦ attempts-IsConsistent left doc text corpus there active sound c
                | not_graphed ↦
                    attempts-IsConsistent left doc text _ there active sound
                      (indexed_as-IsConsistent doc text corpus there active sound c)
                | graphed ↦ graphed-IsConsistent doc text corpus there active sound c
              ]

  index_new-IsConsistent :
      (doc : Document) (text : Str) (corpus : Corpus)
      → Has doc corpus.documents
      → (doc.active ≡ true → IsSound text doc.license)
      → IsConsistent corpus
      → IsConsistent
          (index_new Item connector fix_text detect_language index_and_graph doc text corpus).0
  index_new-IsConsistent doc text corpus there sound c =
      if_cases (λ (r : Corpus × Option ItemResult). IsConsistent r.0) doc.active _ _
        (λ a. attempts-IsConsistent 3 doc text corpus there a (sound a) c) (λ a. c)

  parsed-IsConsistent :
      (new_id : Str) (raw : RawObject) (prov : Provenance) (o : Attempt ParsedDocument)
      (corpus : Corpus)
      → (¬ (Has (connector.name, prov.content_hash) (map origin corpus.documents)))
      → IsConsistent corpus
      → IsConsistent
          (ingest_parsed Item connector fix_text detect_language index_and_graph new_id raw prov o
            corpus).0
  parsed-IsConsistent new_id raw prov (raised message) corpus new c = c
  parsed-IsConsistent new_id raw prov (returned parsed) corpus new c =
      let doc =
        document_of Item connector fix_text detect_language index_and_graph new_id raw parsed
          prov in
      let text = clean_text Item connector fix_text detect_language index_and_graph parsed.text in
      index_new-IsConsistent doc text
        (persist Item connector fix_text detect_language index_and_graph doc raw corpus)
        (Has-append_right doc corpus.documents (doc ∷ []) (inl refl))
        (passed-IsSound text prov.license)
        (persist-IsConsistent doc raw corpus new refl
          (sound-IsLicensed text doc (passed-IsSound text prov.license)) c)

  new-IsConsistent :
      (new_id : Str) (raw : RawObject) (prov : Provenance) (o : Option Document) (corpus : Corpus)
      → find_first (is_same connector.name prov.content_hash) corpus.documents ≡ o
      → IsConsistent corpus
      → IsConsistent
          (ingest_new Item connector fix_text detect_language index_and_graph new_id raw prov o
            corpus).0
  new-IsConsistent new_id raw prov (some existing) corpus e c = c
  new-IsConsistent new_id raw prov none corpus e c =
      parsed-IsConsistent new_id raw prov (connector.parse raw) corpus
        (new_origin prov.content_hash corpus.documents e) c

  fetched-IsConsistent :
      (new_id : Str) (item : Item) (o : Attempt RawObject) (corpus : Corpus)
      → IsConsistent corpus
      → IsConsistent
          (ingest_fetched Item connector fix_text detect_language index_and_graph new_id item o
            corpus).0
  fetched-IsConsistent new_id item (raised message) corpus c = c
  fetched-IsConsistent new_id item (returned raw) corpus c =
      let prov = connector.provenance item raw in
      new-IsConsistent new_id raw prov
        (find_first (is_same connector.name prov.content_hash) corpus.documents) corpus refl c

  -- However an item fares, errors raised included, the corpus stays consistent: no connector has two
  -- documents of one content; a document is active exactly when it has no reason of quarantine, and then
  -- its license is a known one; a text is indexed only for an active document, and only if it has forty
  -- characters inside its white space, can be encoded and has a known license; the graph is extracted
  -- only of documents that are indexed.
  pub ingest_item-IsConsistent :
      (new_id : Str) (item : Item) (corpus : Corpus)
      → IsConsistent corpus
      → IsConsistent
          (ingest_item Item connector fix_text detect_language index_and_graph new_id item corpus).0
  unfolding ingest_item
  ingest_item-IsConsistent new_id item corpus c =
      fetched-IsConsistent new_id item (connector.fetch item) corpus c
