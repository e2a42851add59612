-- ===== src/Graph/Review/Tests.antt =====
-- A merge of two joined entities in src/cranus/graph/entity_resolution/review.py, and its theorems there.
use cranus.Base.{true_ne_false, ℕ, ◌≡◌, refl, ap, ◌≢◌, inl, [], ◌∷◌, Str, codes, str_eq, Has}
use cranus.Graph.Store.{Entity, Edge, Graph}
use cranus.Graph.Review.{merge_entities}
use cranus.Graph.Review.Merging.{IsMerged, merge_entities-IsMerged, merge_entities-loop}

abbrev entity : Str → Entity
entity id = record { id = id; type_name = codes "ORG"; canonical_name = id; aliases = [] }

abbrev joined : Edge ℕ
joined = record {
  id = codes "g1";
  from_entity_id = codes "e1";
  to_entity_id = codes "e2";
  type_name = codes "OWNS";
  evidence_chunk_ids = [];
  confidence = 9;
}

abbrev graph : Graph ℕ
graph = record {
  entities = entity (codes "e1") ∷ entity (codes "e2") ∷ [];
  mentions = [];
  edges = joined ∷ [];
  reviews = [];
}

different : codes "e1" ≢ codes "e2"
different e = true_ne_false (ap (λ id. str_eq id (codes "e1")) e)

merge_entities-IsMerged_example :
    IsMerged
      (codes "e1")
      (codes "e2")
      different
      ℕ
      graph
      (merge_entities ℕ (codes "e1") (codes "e2") graph)
merge_entities-IsMerged_example =
    merge_entities-IsMerged (codes "e1") (codes "e2") different ℕ graph (entity (codes "e1"))
      (entity (codes "e2")) refl refl

merge_entities-loop_example :
    (e' : Edge ℕ) × Has e' (merge_entities ℕ (codes "e1") (codes "e2") graph).edges
    × (e'.from_entity_id ≡ codes "e1")
    × (e'.to_entity_id ≡ codes "e1")
merge_entities-loop_example =
    merge_entities-loop (codes "e1") (codes "e2") different ℕ graph (entity (codes "e1"))
      (entity (codes "e2")) joined refl refl (inl refl) (inl (refl, refl))
