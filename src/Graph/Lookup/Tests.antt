-- ===== src/Graph/Lookup/Tests.antt =====
-- A question that names one entity, looked up by src/cranus/graph/query_support.py, and its theorem there.
-- A score counts in percent.
use cranus.Base.{
  ℕ, ◌+◌, ◌/◌, ◌≡◌, refl, none, List, [], ◌∷◌, Str, codes, str_eq, ltb, map, if◌then◌else◌,
}
use cranus.Graph.Store.{Entity}
use cranus.Graph.Resolve.{Names, score_pair}
use cranus.Graph.Lookup.{ChunkRow, Fact, Scores, best_match, match_phrases, add_facts, graph_lookup}
use cranus.Retrieval.Fusion.{FusedResult}

abbrev names : Names ℕ
names = record {
  lower = λ s. s;
  metaphone = λ s. s;
  token_sort_ratio = λ a b. if str_eq a b then 100 else 20;
  jaro_winkler_similarity = λ a b. if str_eq a b then 100 else 40;
  weighted = λ a b. (a + b) / 2;
}

abbrev scores : Scores ℕ
scores = record {
  zero_score = 0;
  default_confidence = 50;
  evidence_score = 90;
  match_threshold = 60;
  is_zero = λ n. ltb n 1;
  less = ltb;
}

abbrev acme : Entity
acme = record {
  id = codes "e1";
  type_name = codes "ORG";
  canonical_name = codes "Acme";
  aliases = [];
}

abbrev owns : Fact ℕ
owns = record {
  edge_id = codes "edge_1";
  type_name = codes "OWNS_ALL";
  from_name = codes "Acme";
  to_name = codes "Bolt";
  confidence = none;
  evidence_chunk_ids = codes "c1" ∷ codes "gone" ∷ [];
}

abbrev chunks : List ChunkRow
chunks = record { id = codes "c1"; doc_id = codes "d1"; text = codes "Acme owns Bolt." } ∷ []

abbrev traverse : Str → List (Fact ℕ)
traverse id = if str_eq id (codes "e1") then owns ∷ owns ∷ [] else []

abbrev phrases : List Str
phrases = codes "Acme" ∷ codes "Zeta" ∷ []

abbrev found : List (FusedResult ℕ)
found = graph_lookup ℕ scores names traverse phrases (acme ∷ []) chunks

abbrev result_ids : List (FusedResult ℕ) → List Str
result_ids = map (λ (r : FusedResult ℕ). r.chunk_id)

graph_lookup-phrases : result_ids found ≡ codes "edge_1" ∷ codes "c1" ∷ []
unfolding graph_lookup match_phrases best_match score_pair add_facts
graph_lookup-phrases = refl

abbrev matched : List Str
matched = match_phrases ℕ scores names traverse (acme ∷ []) phrases []
