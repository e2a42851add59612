-- ===== src/Agent/Tools.antt =====
-- src/cranus/agent/tools.py. The two searches, the phrases of a text, the traversal of the graph, the comparison of
-- names and the arithmetic of scores are arguments. A negative `k` is not modelled.
pub mod Searched
pub mod Named
mod Tests
use cranus.Base.{
  ℕ, Bool, Option, option_map, none, some, List, [], ◌∷◌, ◌++◌, map, take, keep_if, Str, codes,
  if◌then◌else◌,
}
use cranus.Retrieval.Fusion.{RetrievedChunk, FusedResult, rrf_merge}
use cranus.Graph.Store.{Entity}
use cranus.Graph.Resolve.{Names, score_pair}
use cranus.Graph.Relations.Vocabulary.{is_within}
use cranus.Graph.Lookup.{Fact, Scores, ChunkRow, graph_lookup}
use cranus.Agent.Loop.{Item}

module _ (Score : Type 0) where
  abbrev pub item_of : FusedResult Score → Item
  item_of r = record { id = r.chunk_id; text = r.text }

  -- `none` is an error raised by the merging.
  unfoldable pub search_text :
      (zero_score : Score) (add : Score → Score → Score) (one_over : ℕ → Score)
      (less : Score → Score → Bool) (rrf_k : ℕ)
      (lexical_search vector_search : Str → ℕ → List RetrievedChunk)
      → Str
      → ℕ
      → Option (List Item)
  search_text zero_score add one_over less rrf_k lexical_search vector_search query k =
      option_map (λ fused. map item_of (take k fused))
        (rrf_merge Score zero_score add one_over less rrf_k
          (lexical_search query k ∷ vector_search query k ∷ []))

  module _ (scores : Scores Score) (names : Names Score) where
    -- No relation, or an empty one, keeps every result.
    abbrev pub of_relation : Option Str → List (FusedResult Score) → List (FusedResult Score)
    of_relation none results = results
    of_relation (some []) results = results
    of_relation (some (c ∷ s)) results =
        keep_if (λ (r : FusedResult Score). is_within (names.lower (c ∷ s)) (names.lower r.text))
          results

    unfoldable pub graph_lookup_items :
        (candidate_phrases : Str → List Str) (traverse : ℕ → Str → List (Fact Score))
        → List Entity
        → List ChunkRow
        → (entity : Str) → (relation : Option Str) → (hops : ℕ) → List Item
    graph_lookup_items candidate_phrases traverse candidates chunks entity relation hops =
        map item_of (
          of_relation relation (
            graph_lookup Score scores names (traverse hops) (candidate_phrases entity) candidates
              chunks))

    -- The loop over the candidates, from the best so far.
    unfoldable pub best_entity : Str → List Entity → Option Entity → Score → Option Entity × Score
    best_entity name [] best best_score = (best, best_score)
    best_entity name (c ∷ cs) best best_score =
        if scores.less best_score (score_pair Score names name c.canonical_name)
        then best_entity name cs (some c) (score_pair Score names name c.canonical_name)
        else best_entity name cs best best_score

    abbrev pub resolved : Str → Option Entity × Score → List Item
    resolved name (none, best_score) = []
    resolved name (some best, best_score) =
        if scores.less best_score scores.match_threshold
        then []
        else record {
          id = best.id;
          text =
              codes "Resolved '"
              ++ name
              ++ codes "' to entity '"
              ++ best.canonical_name
              ++ codes "' ("
              ++ best.type_name
              ++ codes ")";
        }
          ∷ []

    unfoldable pub resolve_entity : List Entity → Str → List Item
    resolve_entity candidates name =
        resolved name (best_entity name candidates none scores.zero_score)
