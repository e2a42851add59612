-- ===== src/Graph/Lookup/Facts.antt =====
-- Which facts `graph_lookup_for_question` of src/cranus/graph/query_support.py returns.
use cranus.Base.{◌≡◌, ◌⊎◌, false, List, [], ◌∷◌, ◌++◌, map, Str, str_in, Has, Distinct}
use cranus.Retrieval.Fusion.{FusedResult}
use cranus.Graph.Resolve.{Names}
use cranus.Graph.Lookup.{ChunkRow, Fact, Scores}
use cranus.Base.{Option, none, some, true, All, str_eq, codes}
use cranus.Graph.Lookup.{spaced}

module _ (Score : Type 0) (scores : Scores Score) (names : Names Score)
    (traverse : Str → List (Fact Score)) where
  abbrev pub edge_ids : List (Fact Score) → List Str
  edge_ids = map (λ (f : Fact Score). f.edge_id)

  -- The score of a fact: its confidence, or the default for none or for zero.
  abbrev pub IsScore : Option Score → Score → Type 0
  IsScore none score = score ≡ scores.default_confidence
  IsScore (some c) score =
      ((scores.is_zero c ≡ false) × (score ≡ c))
      ⊎ ((scores.is_zero c ≡ true) × (score ≡ scores.default_confidence))

  -- One result for each of the ids that is of a chunk on record, in the order of the ids.
  pub data AreEvidence (chunks : List ChunkRow) : List Str → List (FusedResult Score) → Type 0 where
    no_ids : AreEvidence chunks [] []
    gone :
        (id : Str) (ids : List Str) (rs : List (FusedResult Score))
        → All (λ (c : ChunkRow). str_eq c.id id ≡ false) chunks
        → AreEvidence chunks ids rs
        → AreEvidence chunks (id ∷ ids) rs
    on_record :
        (id : Str) (ids : List Str) (rs : List (FusedResult Score)) (c : ChunkRow)
        → Has c chunks
        → c.id ≡ id
        → AreEvidence chunks ids rs
        → AreEvidence chunks (id ∷ ids) (
            record {
              chunk_id = c.id;
              doc_id = c.doc_id;
              text = c.text;
              rrf_score = scores.evidence_score;
            }
            ∷ rs)

  -- For each fact a result of its edge, of the document "graph", which reads as a sentence; then its evidence.
  pub data AreResults (chunks : List ChunkRow)
      : List (Fact Score) → List (FusedResult Score) → Type 0 where
    no_facts : AreResults chunks [] []
    fact :
        (f : Fact Score) (fs : List (Fact Score)) (score : Score)
        (evidence rs : List (FusedResult Score))
        → IsScore f.confidence score
        → AreEvidence chunks f.evidence_chunk_ids evidence
        → AreResults chunks fs rs
        → AreResults chunks (f ∷ fs) (
            record {
              chunk_id = f.edge_id;
              doc_id = codes "graph";
              text =
                  f.from_name
                  ++ codes " "
                  ++ names.lower (spaced f.type_name)
                  ++ codes " "
                  ++ f.to_name;
              rrf_score = score;
            }
            ∷ (evidence ++ rs))

  -- Some of the facts, none of an edge seen before, one for each other edge.
  abbrev pub Picks : List (Fact Score) → List Str → List (Fact Score) → Type 0
  Picks fs seen picked =
      Distinct (edge_ids picked)
      × ((f : Fact Score) → Has f picked → Has f fs × (str_in f.edge_id seen ≡ false))
      × ((f : Fact Score) → Has f fs → Has f.edge_id (edge_ids picked) ⊎ Has f.edge_id seen)

  abbrev pub IsExpanded : List ChunkRow → List (Fact Score) → List (FusedResult Score) → Type 0
  IsExpanded chunks fs rs =
      (picked : List (Fact Score)) × Picks fs [] picked × AreResults chunks picked rs
