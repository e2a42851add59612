-- ===== src/Graph/Review.antt =====
-- src/cranus/graph/entity_resolution/review.py, with the references that the database clears when an
-- entity is deleted.
pub mod Merging
mod Tests
use cranus.Base.{
  ℕ, ◌≡◌, Bool, true, false, not, Option, none, some, List, [], ◌∷◌, ◌++◌, map, Str, codes, str_eq,
  str_in, keep_if, if◌then◌else◌,
}
use cranus.Storage.Table.{get_row, update_rows}
use cranus.Graph.Store.{Entity, EntityMention, Edge, EntityResolutionReview, Graph}

abbrev pub entity_key : Entity → Str
entity_key e = e.id

abbrev pub add_alias : Str → List Str → List Str
add_alias name aliases = if str_in name aliases then aliases else aliases ++ name ∷ []

-- The union of two sets of names, in some order.
abbrev pub add_aliases : List Str → List Str → List Str
add_aliases [] aliases = aliases
add_aliases (name ∷ names) aliases = add_aliases names (add_alias name aliases)

abbrev pub absorb : Entity → Entity → Entity
absorb drop_entity keep = record keep {
  aliases = add_aliases drop_entity.aliases (add_alias drop_entity.canonical_name keep.aliases);
}

abbrev pub repoint : Str → Str → Str → Str
repoint keep_id drop_id id = if str_eq id drop_id then keep_id else id

abbrev pub repoint_if : Str → Str → Option Str → Option Str
repoint_if keep_id drop_id none = none
repoint_if keep_id drop_id (some id) = some (repoint keep_id drop_id id)

-- `ON DELETE SET NULL`
abbrev pub unless_deleted : Str → Option Str → Option Str
unless_deleted drop_id none = none
unless_deleted drop_id (some id) = if str_eq id drop_id then none else some id

abbrev pub repoint_mention : Str → Str → EntityMention → EntityMention
repoint_mention keep_id drop_id m = record m {
  suggested_entity_id = repoint_if keep_id drop_id m.suggested_entity_id;
}

abbrev pub clear_mention : Str → EntityMention → EntityMention
clear_mention drop_id m = record m {
  suggested_entity_id = unless_deleted drop_id m.suggested_entity_id;
}

module _ (Score : Type 0) where
  abbrev pub review_key : EntityResolutionReview Score → Str
  review_key r = r.id

  abbrev pub repoint_edge : Str → Str → Edge Score → Edge Score
  repoint_edge keep_id drop_id e = record e {
    from_entity_id = repoint keep_id drop_id e.from_entity_id;
    to_entity_id = repoint keep_id drop_id e.to_entity_id;
  }

  -- `ON DELETE CASCADE`
  abbrev pub outlives : Str → Edge Score → Bool
  outlives drop_id e =
      if str_eq e.from_entity_id drop_id then false else not (str_eq e.to_entity_id drop_id)

  abbrev pub clear_review : Str → EntityResolutionReview Score → EntityResolutionReview Score
  clear_review drop_id r = record r {
    entity_a_id = unless_deleted drop_id r.entity_a_id;
    entity_b_id = unless_deleted drop_id r.entity_b_id;
  }

  -- `db.delete(drop)`, with what the database does to the rows that refer to it.
  abbrev pub delete_entity : Str → Graph Score → Graph Score
  delete_entity drop_id g = record {
    entities = keep_if (λ (e : Entity). not (str_eq e.id drop_id)) g.entities;
    mentions = map (clear_mention drop_id) g.mentions;
    edges = keep_if (outlives drop_id) g.edges;
    reviews = map (clear_review drop_id) g.reviews;
  }

  abbrev pub merge_found : Str → Str → Option Entity → Option Entity → Graph Score → Graph Score
  merge_found keep_id drop_id none dropped g = g
  merge_found keep_id drop_id (some keep) none g = g
  merge_found keep_id drop_id (some keep) (some dropped) g = delete_entity drop_id (record g {
    entities = update_rows entity_key keep_id (absorb dropped) g.entities;
    edges = map (repoint_edge keep_id drop_id) g.edges;
    mentions = map (repoint_mention keep_id drop_id) g.mentions;
  })

  unfoldable pub merge_entities : Str → Str → Graph Score → Graph Score
  merge_entities keep_id drop_id g =
      merge_found keep_id drop_id (get_row entity_key keep_id g.entities)
        (get_row entity_key drop_id g.entities) g

  unfoldable pub queue_for_review : Str → Str → Str → Score → Graph Score → Graph Score
  queue_for_review new_id a b score g = record g {
    reviews =
        g.reviews
        ++ record {
          id = new_id;
          entity_a_id = some a;
          entity_b_id = some b;
          score = score;
          status = codes "pending";
          decided_by = none;
          decided_at = none;
        }
          ∷ [];
  }

  unfoldable list_pending : Graph Score → List (EntityResolutionReview Score)
  list_pending g =
      keep_if (λ (r : EntityResolutionReview Score). str_eq r.status (codes "pending")) g.reviews

  abbrev pub decided :
      Str → Option Str → ℕ → EntityResolutionReview Score → EntityResolutionReview Score
  decided decision decided_by now r = record r {
    status = decision;
    decided_by = decided_by;
    decided_at = some now;
  }

  -- `db.get(Entity, None)` finds nothing.
  abbrev pub merge_pair : Option Str → Option Str → Graph Score → Graph Score
  merge_pair none b g = g
  merge_pair (some a) none g = g
  merge_pair (some a) (some b) g = merge_entities a b g

  abbrev pub decide_found :
      Str
      → Option Str
      → ℕ
      → Option (EntityResolutionReview Score)
      → Graph Score
      → Option (Graph Score)
  decide_found decision decided_by now none g = none
  decide_found decision decided_by now (some r) g =
      let g' : Graph Score = record g {
        reviews = update_rows review_key r.id (decided decision decided_by now) g.reviews;
      } in
      some
        (if str_eq decision (codes "merged") then merge_pair r.entity_a_id r.entity_b_id g' else g')

  -- `none` is a `KeyError`.
  unfoldable pub decide : Str → Str → Option Str → ℕ → Graph Score → Option (Graph Score)
  decide review_id decision decided_by now g =
      decide_found decision decided_by now (get_row review_key review_id g.reviews) g
