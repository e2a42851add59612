-- ===== src/Graph/Batch/Tests.antt =====
-- A pass of src/cranus/graph/entity_resolution/splink_batch.py over four entities, and its theorem there. A
-- probability counts in percent.
use cranus.Base.{ℕ, ◌≡◌, refl, Option, none, some, List, [], ◌∷◌, map, Str, codes, ltb}
use cranus.Graph.Store.{Entity, Graph}
use cranus.Graph.Review.{entity_key, merge_entities, queue_for_review}
use cranus.Graph.Batch.{
  Pair, Pass, of_type, batch_pair, batch_pairs, resolve_type, resolve_types, run_batch_resolution,
}
use cranus.Graph.Batch.Passed.{IsPassed, resolve_type-IsPassed}

abbrev org : Str → Entity
org id = record { id = id; type_name = codes "ORG"; canonical_name = id; aliases = [] }

abbrev graph : Graph ℕ
graph = record {
  entities = org (codes "a") ∷ org (codes "b") ∷ org (codes "c") ∷ org (codes "d") ∷ [];
  mentions = [];
  edges = [];
  reviews = [];
}

abbrev pair : Str → Str → ℕ → Pair ℕ
pair a b n = record { id_a = a; id_b = b; prob = n }

abbrev pairs : List (Pair ℕ)
pairs =
    pair (codes "c") (codes "d") 80
    ∷ pair (codes "b") (codes "c") 95
    ∷ pair (codes "a") (codes "b") 99
    ∷ pair (codes "a") (codes "c") 93
    ∷ pair (codes "a") (codes "d") 78
    ∷ []

abbrev predict_pairs : List (Str × Str) → Option (List (Pair ℕ))
predict_pairs records = some pairs

abbrev fresh : ℕ → Str
fresh n = n ∷ []

abbrev start : Pass ℕ
start = record {
  graph = graph;
  next_id = 0;
  dropped = [];
  types_scanned = 0;
  pairs_scored = 0;
  merged = 0;
  queued_for_review = 0;
}

abbrev passed : Pass ℕ
passed = run_batch_resolution ℕ ltb 92 75 fresh predict_pairs none graph 0

run_batch_resolution-dropped : passed.dropped ≡ codes "b" ∷ codes "c" ∷ []
unfolding run_batch_resolution resolve_types resolve_type batch_pairs batch_pair merge_entities
    queue_for_review
run_batch_resolution-dropped = refl

run_batch_resolution-queued : passed.queued_for_review ≡ 1
unfolding run_batch_resolution resolve_types resolve_type batch_pairs batch_pair merge_entities
    queue_for_review
run_batch_resolution-queued = refl

resolve_type-IsPassed_example :
    IsPassed ℕ ltb 92 75 fresh predict_pairs
      (map entity_key (of_type ℕ ltb 92 75 fresh predict_pairs (codes "ORG") graph.entities))
      pairs
      start
      (resolve_type ℕ ltb 92 75 fresh predict_pairs (codes "ORG") start)
resolve_type-IsPassed_example =
    resolve_type-IsPassed ℕ ltb 92 75 fresh predict_pairs (codes "ORG") start pairs refl refl
