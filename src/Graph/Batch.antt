-- ===== src/Graph/Batch.antt =====
-- `run_batch_resolution` of src/cranus/graph/entity_resolution/splink_batch.py. The prediction of pairs is an
-- argument, which is `none` where Splink raises an error; so are the order of scores and the supply of new ids.
pub mod Left
pub mod Merges
pub mod Passed
mod Tests
use cranus.Base.{
  ℕ, ◌+◌, Bool, true, false, not, ◌||◌, Option, none, some, List, [], ◌∷◌, ◌++◌, map, Str, str_eq,
  str_in, is_empty, length, ltb, keep_if, sort_down, if◌then◌else◌,
}
use cranus.Graph.Store.{Entity, Graph}
use cranus.Graph.Review.{entity_key, merge_entities, queue_for_review}

pub record Pair (Score : Type 0) : Type 0 where
  pub id_a : Str
  pub id_b : Str
  pub prob : Score

-- The rows, the ids used, the entities merged away in this pass, and `stats`.
pub record Pass (Score : Type 0) : Type 0 where
  pub graph : Graph Score
  pub next_id : ℕ
  pub dropped : List Str
  pub types_scanned : ℕ
  pub pairs_scored : ℕ
  pub merged : ℕ
  pub queued_for_review : ℕ

module _ (Score : Type 0) (less : Score → Score → Bool) (high review : Score) (fresh : ℕ → Str)
    (predict_pairs : List (Str × Str) → Option (List (Pair Score))) where
  abbrev pub less_pair : Pair Score → Pair Score → Bool
  less_pair p q = less p.prob q.prob

  abbrev pub merge_pair_of : Pair Score → Pass Score → Pass Score
  merge_pair_of p s = record s {
    graph = merge_entities Score p.id_a p.id_b s.graph;
    dropped = s.dropped ++ p.id_b ∷ [];
    merged = s.merged + 1;
  }

  abbrev pub queue_pair : Pair Score → Pass Score → Pass Score
  queue_pair p s = record s {
    graph = queue_for_review Score (fresh s.next_id) p.id_a p.id_b p.prob s.graph;
    next_id = s.next_id + 1;
    queued_for_review = s.queued_for_review + 1;
  }

  -- One side is merged away already, or is no entity of this type.
  abbrev pub is_stale : List Str → List Str → Pair Score → Bool
  is_stale ids dropped p =
      str_in p.id_a dropped
      || (str_in p.id_b dropped || (not (str_in p.id_a ids) || not (str_in p.id_b ids)))

  unfoldable pub batch_pair : List Str → Pair Score → Pass Score → Pass Score
  batch_pair ids p s =
      if is_stale ids s.dropped p
      then s
      else if not (less p.prob high)
      then merge_pair_of p s
      else if not (less p.prob review)
      then queue_pair p s
      else s

  unfoldable pub batch_pairs : List Str → List (Pair Score) → Pass Score → Pass Score
  batch_pairs ids [] s = s
  batch_pairs ids (p ∷ ps) s = batch_pairs ids ps (batch_pair ids p s)

  abbrev pub of_type : Str → List Entity → List Entity
  of_type entity_type = keep_if (λ (e : Entity). str_eq e.type_name entity_type)

  abbrev pub with_predicted : List Str → Option (List (Pair Score)) → Pass Score → Pass Score
  with_predicted ids none s = s
  with_predicted ids (some pairs) s =
      batch_pairs ids (sort_down less_pair pairs)
        (record s { dropped = []; pairs_scored = s.pairs_scored + length pairs })

  -- MIN_RECORDS_FOR_BATCH is 4.
  unfoldable pub resolve_type : Str → Pass Score → Pass Score
  resolve_type entity_type s =
      let entities = of_type entity_type s.graph.entities in
      if ltb (length entities) 4
      then s
      else with_predicted (map entity_key entities)
          (predict_pairs (map (λ (e : Entity). (e.id, e.canonical_name)) entities)) s

  unfoldable pub resolve_types : List Str → Pass Score → Pass Score
  resolve_types [] s = s
  resolve_types (t ∷ ts) s =
      resolve_types ts (resolve_type t (record s { types_scanned = s.types_scanned + 1 }))

  -- `SELECT DISTINCT type`
  abbrev pub distinct_types : List Entity → List Str
  distinct_types [] = []
  distinct_types (e ∷ es) =
      let rest = distinct_types es in if str_in e.type_name rest then rest else e.type_name ∷ rest

  abbrev pub types_of : Option Str → List Entity → List Str
  types_of none es = distinct_types es
  types_of (some t) es = if is_empty t then distinct_types es else t ∷ []

  unfoldable pub run_batch_resolution : Option Str → Graph Score → ℕ → Pass Score
  run_batch_resolution entity_type g next_id =
      resolve_types (types_of entity_type g.entities) (record {
        graph = g;
        next_id = next_id;
        dropped = [];
        types_scanned = 0;
        pairs_scored = 0;
        merged = 0;
        queued_for_review = 0;
      })
