-- ===== src/Graph/Edges/Tests.antt =====
-- Candidates of one edge in src/cranus/graph/pipeline.py, and its theorem there.
use cranus.Base.{ℕ, ◌≡◌, refl, true, some, List, [], ◌∷◌, Str, codes, ltb}
use cranus.Graph.Store.{EntityMention, EdgeCandidate}
use cranus.Graph.Edges.{promote_edge_candidates}

abbrev mention : Str → Str → EntityMention
mention id entity_id = record {
  id = id;
  chunk_id = codes "c1";
  span_text = id;
  ner_type = codes "ORG";
  suggested_entity_id = some entity_id;
  resolved = true;
}

abbrev mentions : List EntityMention
mentions = mention (codes "m1") (codes "e1") ∷ mention (codes "m2") (codes "e2") ∷ []

abbrev candidate : Str → Str → ℕ → EdgeCandidate ℕ
candidate from to confidence = record {
  id = codes "x";
  from_mention_id = from;
  to_mention_id = to;
  type_name = codes "OWNS";
  evidence_chunk_id = codes "c1";
  confidence = confidence;
  is_pending = true;
}

-- An edge, the same edge again, a loop, and one of low confidence.
abbrev cands : List (Str × EdgeCandidate ℕ)
cands =
    (codes "g1", candidate (codes "m1") (codes "m2") 9)
    ∷ (codes "g2", candidate (codes "m1") (codes "m2") 8)
    ∷ (codes "g3", candidate (codes "m1") (codes "m1") 9)
    ∷ (codes "g4", candidate (codes "m2") (codes "m1") 2)
    ∷ []

promote-cands : (promote_edge_candidates ℕ ltb 5 mentions cands []).2 ≡ 1
unfolding promote_edge_candidates
promote-cands = refl
