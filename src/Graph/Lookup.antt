-- ===== src/Graph/Lookup.antt =====
-- `graph_lookup_for_question` of src/cranus/graph/query_support.py. The phrases found in the question,
-- the traversal of the graph database, the comparisons of names and the constants are arguments.
pub mod Matches
pub mod Facts
mod Tests
use cranus.Base.{
  ℕ, Bool, true, false, not, Option, none, some, List, [], ◌∷◌, ◌++◌, map, Str, codes, str_eq,
  str_in, is_empty, if◌then◌else◌,
}
use cranus.Storage.Table.{find_first, get_row}
use cranus.Graph.Store.{Entity}
use cranus.Graph.Resolve.{Names, score_pair}
use cranus.Graph.Edges.{non_empty}
use cranus.Retrieval.Fusion.{FusedResult}

-- The columns of a chunk's row that are read here.
pub record ChunkRow : Type 0 where
  pub id : Str
  pub doc_id : Str
  pub text : Str

abbrev pub chunk_key : ChunkRow → Str
chunk_key c = c.id

-- `replace("_", " ")`
abbrev pub spaced : Str → Str
spaced = map (λ c. if str_eq (c ∷ []) (codes "_") then 32 else c)

module _ (Score : Type 0) where
  -- What a traversal finds; no list of evidence is an empty one.
  pub record Fact : Type 0 where
    pub edge_id : Str
    pub type_name : Str
    pub from_name : Str
    pub to_name : Str
    pub confidence : Option Score
    pub evidence_chunk_ids : List Str

  -- The constants: 0.0, 0.5, 0.9 and ENTITY_MATCH_THRESHOLD, and the comparisons of scores.
  pub record Scores : Type 0 where
    pub zero_score : Score
    pub default_confidence : Score
    pub evidence_score : Score
    pub match_threshold : Score
    pub is_zero : Score → Bool
    pub less : Score → Score → Bool

module _ (Score : Type 0) (scores : Scores Score) (names : Names Score)
    (traverse : Str → List (Fact Score)) where
  unfoldable pub best_match : Str → List Entity → Option Str → Score → Option Str × Score
  best_match phrase [] best_id best_score = (best_id, best_score)
  best_match phrase (e ∷ es) best_id best_score =
      if scores.less best_score (score_pair Score names phrase e.canonical_name)
      then best_match phrase es (some e.id) (score_pair Score names phrase e.canonical_name)
      else best_match phrase es best_id best_score

  abbrev pub add_match : Option Str → Score → List Str → List Str
  add_match none best_score matched = matched
  add_match (some id) best_score matched =
      if scores.less best_score scores.match_threshold
      then matched
      else if str_in id matched
      then matched
      else matched ++ id ∷ []

  -- The set of the entities matched, in the order of the phrases.
  unfoldable pub match_phrases : List Entity → List Str → List Str → List Str
  match_phrases candidates [] matched = matched
  match_phrases candidates (phrase ∷ phrases) matched =
      let (best_id, best_score) = best_match phrase candidates none scores.zero_score in
      match_phrases candidates phrases (add_match (non_empty best_id) best_score matched)

  abbrev pub confidence_or_default : Option Score → Score
  confidence_or_default none = scores.default_confidence
  confidence_or_default (some c) = if scores.is_zero c then scores.default_confidence else c

  abbrev pub fact_result : Fact Score → FusedResult Score
  fact_result f = record {
    chunk_id = f.edge_id;
    doc_id = codes "graph";
    text = f.from_name ++ codes " " ++ names.lower (spaced f.type_name) ++ codes " " ++ f.to_name;
    rrf_score = confidence_or_default f.confidence;
  }

  abbrev pub evidence_result : Option ChunkRow → List (FusedResult Score)
  evidence_result none = []
  evidence_result (some c) =
      record {
        chunk_id = c.id;
        doc_id = c.doc_id;
        text = c.text;
        rrf_score = scores.evidence_score;
      }
      ∷ []

  abbrev pub evidence_results : List ChunkRow → List Str → List (FusedResult Score)
  evidence_results chunks [] = []
  evidence_results chunks (id ∷ ids) =
      evidence_result (get_row chunk_key id chunks) ++ evidence_results chunks ids

  abbrev pub fact_results : List ChunkRow → Fact Score → List (FusedResult Score)
  fact_results chunks f = fact_result f ∷ evidence_results chunks f.evidence_chunk_ids

  -- The loop over the facts of the matched entities, in turn, from the edges seen so far.
  unfoldable pub add_facts : List ChunkRow → List (Fact Score) → List Str → List (FusedResult Score)
  add_facts chunks [] seen = []
  add_facts chunks (f ∷ fs) seen =
      if str_in f.edge_id seen
      then add_facts chunks fs seen
      else fact_results chunks f ++ add_facts chunks fs (f.edge_id ∷ seen)

  abbrev pub facts_of : List Str → List (Fact Score)
  facts_of [] = []
  facts_of (id ∷ ids) = traverse id ++ facts_of ids

  unfoldable pub graph_lookup : List Str → List Entity → List ChunkRow → List (FusedResult Score)
  graph_lookup phrases candidates chunks =
      if is_empty phrases
      then []
      else add_facts chunks (facts_of (match_phrases candidates phrases [])) []
