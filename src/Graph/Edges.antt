-- ===== src/Graph/Edges.antt =====
-- `_promote_edge_candidates` of src/cranus/graph/pipeline.py. The mirroring of an edge to the graph
-- database is not modelled; the comparison of confidences is an argument.
pub mod Promoted
mod Tests
use cranus.Base.{
  ℕ, suc, ◌+◌, ◌≡◌, Bool, true, false, not, ◌&&◌, Option, none, some, List, [], ◌∷◌, ◌++◌, Str,
  str_eq, str_in, is_empty, if◌then◌else◌,
}
use cranus.Storage.Table.{get_row}
use cranus.Graph.Store.{EntityMention, Edge, EdgeCandidate}

abbrev pub mention_key : EntityMention → Str
mention_key m = m.id

-- The entity that a mention was resolved to; an empty id is none.
abbrev pub suggested : Option EntityMention → Option Str
suggested none = none
suggested (some m) = m.suggested_entity_id

abbrev pub non_empty : Option Str → Option Str
non_empty none = none
non_empty (some []) = none
non_empty (some (c ∷ s)) = some (c ∷ s)

-- The two ends of a candidate, if both are resolved, and to different entities.
abbrev pub two_ends : Option Str → Option Str → Option (Str × Str)
two_ends none b = none
two_ends (some a) none = none
two_ends (some a) (some b) = if str_eq a b then none else some (a, b)

abbrev pub with_evidence : Str → List Str → List Str
with_evidence chunk_id evidence =
    if not (str_in chunk_id evidence) then evidence ++ chunk_id ∷ [] else evidence

module _ (Score : Type 0) (less : Score → Score → Bool) (threshold : Score) where
  abbrev pub add_evidence : Str → Edge Score → Edge Score
  add_evidence chunk_id e = record e {
    evidence_chunk_ids = with_evidence chunk_id e.evidence_chunk_ids;
  }

  abbrev pub is_edge_of : Str → Str → Str → Edge Score → Bool
  is_edge_of a b type_name e =
      str_eq e.from_entity_id a && (str_eq e.to_entity_id b && str_eq e.type_name type_name)

  abbrev pub new_edge : Str → Str → Str → EdgeCandidate Score → Edge Score
  new_edge new_id a b cand = record {
    id = new_id;
    from_entity_id = a;
    to_entity_id = b;
    type_name = cand.type_name;
    evidence_chunk_ids = cand.evidence_chunk_id ∷ [];
    confidence = cand.confidence;
  }

  -- The first edge of these ends and this type takes the evidence, or a new one is added; the number
  -- says whether one was.
  unfoldable pub put_edge :
      Str → Str → Str → EdgeCandidate Score → List (Edge Score) → List (Edge Score) × ℕ
  put_edge new_id a b cand [] = (new_edge new_id a b cand ∷ [], 1)
  put_edge new_id a b cand (e ∷ edges) =
      let (rest, added) = put_edge new_id a b cand edges in
      if is_edge_of a b cand.type_name e
      then (add_evidence cand.evidence_chunk_id e ∷ edges, 0)
      else (e ∷ rest, added)

  abbrev pub marked : EdgeCandidate Score → EdgeCandidate Score
  marked cand = record cand { is_pending = false }

  -- The ends of a candidate that is confident enough.
  abbrev pub ends_of : List EntityMention → EdgeCandidate Score → Option (Str × Str)
  ends_of mentions cand =
      if less cand.confidence threshold
      then none
      else two_ends (non_empty (suggested (get_row mention_key cand.from_mention_id mentions)))
          (non_empty (suggested (get_row mention_key cand.to_mention_id mentions)))

  abbrev pub promote_one :
      Str
      → Option (Str × Str)
      → EdgeCandidate Score
      → List (Edge Score)
      → EdgeCandidate Score × List (Edge Score) × ℕ
  promote_one new_id none cand edges = (cand, edges, 0)
  promote_one new_id (some (a, b)) cand edges =
      let (edges', added) = put_edge new_id a b cand edges in (marked cand, edges', added)

  -- The loop over the pending candidates of the chunks, each with the id for an edge.
  unfoldable pub promote_edge_candidates :
      List EntityMention
      → List (Str × EdgeCandidate Score)
      → List (Edge Score)
      → List (EdgeCandidate Score) × List (Edge Score) × ℕ
  unfolding put_edge
  promote_edge_candidates mentions [] edges = ([], edges, 0)
  promote_edge_candidates mentions ((new_id, cand) ∷ cands) edges =
      let (cand', edges', added) = promote_one new_id (ends_of mentions cand) cand edges in
      let (cands', edges'', promoted) = promote_edge_candidates mentions cands edges' in
      (cand' ∷ cands', edges'', added + promoted)
