-- ===== src/Graph/Documents/Counted.antt =====
-- What `process_document_for_graph` of src/cranus/graph/pipeline.py counts and leaves in the tables.
use cranus.Base.{
  ℕ, ◌+◌, ◌≡◌, refl, ap, ◌∙◌, Option, none, some, List, [], ◌∷◌, Str, length, length-append,
  is_empty, Has, if_cases, arith,
}
use cranus.Storage.Table.{length-update_rows}
use cranus.Graph.Edges.{mention_key}
use cranus.Graph.Resolve.{Mention, Names, resolve_mention}
use cranus.Graph.Resolve.Kept.{entity_ids, resolve_mention-IsKept}
use cranus.Graph.Relations.{RelationCandidate}
use cranus.Graph.Documents.{
  Model, extract_mentions, ChunkText, Limits, Run, add_row, add_rows, add_candidate, add_candidates,
  resolved_to, resolve_row, resolve_rows, process_mentions, process_chunks,
}

module _ (Score : Type 0) where
  -- From one state to a later one, the counters rise by what the tables grow by, and no entity is lost.
  pub record IsCounted (r r' : Run Score) : Type 0 where
    pub mentions : length r'.graph.mentions + r.mentions ≡ length r.graph.mentions + r'.mentions
    pub edge_candidates :
        length r'.edge_table + r.edge_candidates ≡ length r.edge_table + r'.edge_candidates
    pub entities :
        length r'.graph.entities + r.entities_created
        ≡ length r.graph.entities + r'.entities_created
    pub reviews :
        length r'.graph.reviews + r.reviews_queued ≡ length r.graph.reviews + r'.reviews_queued
    pub lasting :
        (id : Str) → Has id (entity_ids r.graph.entities) → Has id (entity_ids r'.graph.entities)
    pub edges : r'.graph.edges ≡ r.graph.edges
    pub edges_created : r'.edges_created ≡ r.edges_created

  IsCounted-refl : (r : Run Score) → IsCounted r r
  IsCounted-refl r = record {
    mentions = refl;
    edge_candidates = refl;
    entities = refl;
    reviews = refl;
    lasting = λ id h. h;
    edges = refl;
    edges_created = refl;
  }

  IsCounted-trans : (a b c : Run Score) → IsCounted a b → IsCounted b c → IsCounted a c
  IsCounted-trans a b c h k = record {
    mentions = omega (arith, h.mentions, k.mentions);
    edge_candidates = omega (arith, h.edge_candidates, k.edge_candidates);
    entities = omega (arith, h.entities, k.entities);
    reviews = omega (arith, h.reviews, k.reviews);
    lasting = λ id m. k.lasting id (h.lasting id m);
    edges = k.edges ∙ h.edges;
    edges_created = k.edges_created ∙ h.edges_created;
  }

module _ (Score : Type 0) (limits : Limits Score) (names : Names Score) (fresh : ℕ → Str) where
  add_row-IsCounted :
      (chunk_id : Str) (m : Mention) (r : Run Score)
      → IsCounted Score r (add_row Score limits names fresh chunk_id m r)
  add_row-IsCounted chunk_id m r = record {
    mentions = omega (arith, length-append r.graph.mentions);
    edge_candidates = refl;
    entities = refl;
    reviews = refl;
    lasting = λ id h. h;
    edges = refl;
    edges_created = refl;
  }

  add_rows-IsCounted :
      (chunk_id : Str) (ms : List Mention) (r : Run Score)
      → IsCounted Score r (add_rows Score limits names fresh chunk_id ms r).1
  unfolding add_rows
  add_rows-IsCounted chunk_id [] r = IsCounted-refl Score r
  add_rows-IsCounted chunk_id (m ∷ ms) r =
      IsCounted-trans Score r (add_row Score limits names fresh chunk_id m r) _
        (add_row-IsCounted chunk_id m r)
        (add_rows-IsCounted chunk_id ms (add_row Score limits names fresh chunk_id m r))

  add_candidate-IsCounted :
      (chunk_id : Str) (rel : RelationCandidate) (from to : Option Str) (r : Run Score)
      → IsCounted Score r (add_candidate Score limits names fresh chunk_id rel from to r)
  add_candidate-IsCounted chunk_id rel none to r = IsCounted-refl Score r
  add_candidate-IsCounted chunk_id rel (some a) none r = IsCounted-refl Score r
  add_candidate-IsCounted chunk_id rel (some a) (some b) r = record {
    mentions = refl;
    edge_candidates = omega (arith, length-append r.edge_table);
    entities = refl;
    reviews = refl;
    lasting = λ id h. h;
    edges = refl;
    edges_created = refl;
  }

  add_candidates-IsCounted :
      (chunk_id : Str) (rows : List (Mention × Str)) (rels : List RelationCandidate) (r : Run Score)
      → IsCounted Score r (add_candidates Score limits names fresh chunk_id rows rels r)
  unfolding add_candidates
  add_candidates-IsCounted chunk_id rows [] r = IsCounted-refl Score r
  add_candidates-IsCounted chunk_id rows (rel ∷ rels) r =
      IsCounted-trans Score r _ _ (add_candidate-IsCounted chunk_id rel _ _ r)
        (add_candidates-IsCounted chunk_id rows rels _)

  resolve_row-IsCounted :
      (m : Mention) (row_id : Str) (r : Run Score)
      → IsCounted Score r (resolve_row Score limits names fresh m row_id r)
  resolve_row-IsCounted m row_id r =
      let res =
        resolve_mention Score names limits.less limits.zero_score limits.high limits.review
          (fresh r.next_id) (fresh (r.next_id + 1)) m r.graph in
      let kept =
        resolve_mention-IsKept Score names limits.less limits.zero_score limits.high limits.review
          (fresh r.next_id) (fresh (r.next_id + 1)) m r.graph in
      record {
        mentions =
            ap (λ n. n + r.mentions)
              (length-update_rows mention_key row_id
                  (resolved_to Score limits names fresh res.entity.id) res.graph.mentions
                ∙ ap length kept.mentions);
        edge_candidates = refl;
        entities = omega (arith, kept.entities);
        reviews = omega (arith, kept.reviews);
        lasting = kept.lasting;
        edges = kept.edges;
        edges_created = refl;
      }

  resolve_rows-IsCounted :
      (rows : List (Mention × Str)) (r : Run Score)
      → IsCounted Score r (resolve_rows Score limits names fresh rows r)
  unfolding resolve_rows
  resolve_rows-IsCounted [] r = IsCounted-refl Score r
  resolve_rows-IsCounted ((m, row_id) ∷ rows) r =
      IsCounted-trans Score r _ _ (resolve_row-IsCounted m row_id r) (resolve_rows-IsCounted rows _)

  module _ {Token : Type 0} (model : Model Token) where
    process_mentions-IsCounted :
        (chunk : ChunkText) (ms : List Mention) (r : Run Score)
        → IsCounted Score r (process_mentions Score limits names fresh model chunk ms r)
    process_mentions-IsCounted chunk ms r =
        IsCounted-trans Score r _ _ (add_rows-IsCounted chunk.id ms r) (
          IsCounted-trans Score _ _ _ (add_candidates-IsCounted chunk.id _ _ _)
            (resolve_rows-IsCounted _ _))

    pub process_chunks-IsCounted :
        (chunks : List ChunkText) (r : Run Score)
        → IsCounted Score r (process_chunks Score limits names fresh model chunks r)
    unfolding process_chunks
    process_chunks-IsCounted [] r = IsCounted-refl Score r
    process_chunks-IsCounted (chunk ∷ chunks) r =
        IsCounted-trans Score r _ _
          (if_cases (IsCounted Score r) (is_empty (extract_mentions (model.ents chunk.text))) r _
            (λ e. IsCounted-refl Score r) (λ e. process_mentions-IsCounted chunk _ r))
          (process_chunks-IsCounted chunks _)
