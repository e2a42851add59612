-- ===== src/Graph/Documents/Processed.antt =====
-- What `process_document_for_graph` of src/cranus/graph/pipeline.py does to the tables, as a whole.
use cranus.Base.{
  ℕ, ◌+◌, ◌≡◌, refl, sym, subst, ap, ◌∙◌, ◌⊎◌, List, [], ◌∷◌, map, Str, str_in, ◌&&◌, keep_if,
  length, All, Has, arith,
}
use cranus.Storage.Table.{length-update_rows}
use cranus.Graph.Store.{EdgeCandidate, Graph}
use cranus.Graph.Edges.{promote_edge_candidates}
use cranus.Graph.Edges.Promoted.{AreSimple, promote_edge_candidates-Promoted}
use cranus.Graph.Resolve.{Names}
use cranus.Graph.Resolve.Kept.{entity_ids}
use cranus.Graph.Documents.{
  Model, ChunkText, Limits, Run, candidate_key, write_back, number, process_chunks, promote_chunks,
  fresh_run, process_document,
}
use cranus.Graph.Documents.Counted.{process_chunks-IsCounted}
use cranus.Graph.Documents.Settled.{IsSettled, process_chunks-IsSettled}

module _ (Score : Type 0) (limits : Limits Score) (names : Names Score) (fresh : ℕ → Str) where
  pub record IsProcessed (g : Graph Score) (table : List (EdgeCandidate Score)) (r : Run Score)
      : Type 0 where
    pub settled : All (λ x. IsSettled r.graph.entities x ⊎ Has x g.mentions) r.graph.mentions
    pub mentions : length r.graph.mentions ≡ length g.mentions + r.mentions
    pub edge_candidates : length r.edge_table ≡ length table + r.edge_candidates
    pub entities : length r.graph.entities ≡ length g.entities + r.entities_created
    pub reviews : length r.graph.reviews ≡ length g.reviews + r.reviews_queued
    pub edges : length r.graph.edges ≡ length g.edges + r.edges_created
    pub simple : AreSimple Score limits.less limits.promotion r.graph.edges
    pub lasting : (id : Str) → Has id (entity_ids g.entities) → Has id (entity_ids r.graph.entities)

  length-write_back :
      (cs table : List (EdgeCandidate Score))
      → length (write_back Score limits names fresh cs table) ≡ length table
  length-write_back [] table = refl
  length-write_back (c ∷ cs) table =
      length-write_back cs _
      ∙ length-update_rows (candidate_key Score limits names fresh) c.id (λ old. c) table

  promote_chunks-IsProcessed :
      (g : Graph Score) (table : List (EdgeCandidate Score)) (chunks : List ChunkText)
      (r : Run Score)
      → IsProcessed g table r
      → r.edges_created ≡ 0
      → IsProcessed g table (promote_chunks Score limits names fresh chunks r)
  unfolding promote_chunks
  promote_chunks-IsProcessed g table [] r h z = h
  promote_chunks-IsProcessed g table (ch ∷ chunks) r h z =
      let ids = map (λ (c : ChunkText). c.id) (ch ∷ chunks) in
      let cands =
        keep_if (λ (c : EdgeCandidate Score). str_in c.evidence_chunk_id ids && c.is_pending)
          r.edge_table in
      let numbered = number Score limits names fresh r.next_id cands in
      let promoted =
        promote_edge_candidates Score limits.less limits.promotion r.graph.mentions numbered
          r.graph.edges in
      let (simple, added) =
        promote_edge_candidates-Promoted Score limits.less limits.promotion r.graph.mentions
          numbered r.graph.edges h.simple in
      record {
        settled = h.settled;
        mentions = h.mentions;
        edge_candidates = length-write_back promoted.0 r.edge_table ∙ h.edge_candidates;
        entities = h.entities;
        reviews = h.reviews;
        edges = omega (arith, added, h.edges, z);
        simple = simple;
        lasting = h.lasting;
      }

  -- After a document has been processed, each mention added is resolved to an entity on record; the five numbers
  -- returned are those of the mentions, candidates, entities, reviews and edges added; no entity is
  -- gone; and if no edge was a loop or the double of another, none is.
  pub process_document-IsProcessed :
      {Token : Type 0} (model : Model Token) (chunks : List ChunkText) (g : Graph Score)
      (table : List (EdgeCandidate Score)) (next_id : ℕ)
      → AreSimple Score limits.less limits.promotion g.edges
      → IsProcessed g table (process_document Score limits names fresh model chunks g table next_id)
  unfolding process_document
  process_document-IsProcessed model chunks g table next_id simple =
      let start = fresh_run Score limits names fresh model g table next_id in
      let r = process_chunks Score limits names fresh model chunks start in
      let counted = process_chunks-IsCounted Score limits names fresh model chunks start in
      promote_chunks-IsProcessed g table chunks r
        (record {
          settled = process_chunks-IsSettled Score limits names fresh model chunks start;
          mentions = omega (arith, counted.mentions);
          edge_candidates = omega (arith, counted.edge_candidates);
          entities = omega (arith, counted.entities);
          reviews = omega (arith, counted.reviews);
          edges = omega (arith, ap length counted.edges, counted.edges_created);
          simple = subst (AreSimple Score limits.less limits.promotion) (sym counted.edges) simple;
          lasting = counted.lasting;
        })
        counted.edges_created
