-- ===== src/Graph/Documents/Settled.antt =====
-- That `process_document_for_graph` of src/cranus/graph/pipeline.py resolves every mention.
use cranus.Base.{
  true_ne_false, ℕ, ◌+◌, ◌≡◌, refl, sym, subst, ◌∙◌, ◌⊎◌, inl, inr, true, false, Option, none, some,
  List, [], ◌∷◌, map, Str, str_eq, str_eq_refl, is_empty, All, All-append, All-map, Has, Has-All,
  if_cases,
}
use cranus.Storage.Table.{All-update_rows}
use cranus.Graph.Store.{Entity, EntityMention, Graph}
use cranus.Graph.Edges.{mention_key}
use cranus.Graph.Resolve.{Mention, Names}
use cranus.Graph.Resolve.Kept.{entity_ids, resolve_mention-IsKept}
use cranus.Graph.Relations.{RelationCandidate}
use cranus.Graph.Documents.{
  Model, extract_mentions, ChunkText, Limits, Run, add_row, add_rows, add_candidate, add_candidates,
  resolve_row, resolve_rows, process_mentions, process_chunks,
}

-- The mention is resolved, to an entity on record.
abbrev pub IsSettled : List Entity → EntityMention → Type 0
IsSettled es m =
    (m.resolved ≡ true) × ((id : Str) × (m.suggested_entity_id ≡ some id) × Has id (entity_ids es))

module _ (Score : Type 0) (limits : Limits Score) (names : Names Score) (fresh : ℕ → Str)
    (old : List EntityMention) where
  -- Settled, or as before, or still to do.
  abbrev Tracked : List Str → List Entity → EntityMention → Type 0
  Tracked pending es m = IsSettled es m ⊎ (Has m old ⊎ Has m.id pending)

  row_ids : List (Mention × Str) → List Str
  row_ids = map (λ (p : Mention × Str). p.1)

  add_rows-All {κ} :
      (Q : EntityMention → Type κ) (chunk_id : Str) (ms : List Mention) (r : Run Score)
      → All Q r.graph.mentions
      → ((x : EntityMention)
          → Has x.id (row_ids (add_rows Score limits names fresh chunk_id ms r).0)
          → Q x)
      → All Q (add_rows Score limits names fresh chunk_id ms r).1.graph.mentions
  unfolding add_rows row_ids
  add_rows-All Q chunk_id [] r h k = h
  add_rows-All Q chunk_id (m ∷ ms) r h k =
      add_rows-All Q chunk_id ms (add_row Score limits names fresh chunk_id m r)
        (All-append Q r.graph.mentions _ h (k _ (inl refl), tt)) (λ x q. k x (inr q))

  add_rows-entities :
      (chunk_id : Str) (ms : List Mention) (r : Run Score)
      → (add_rows Score limits names fresh chunk_id ms r).1.graph.entities ≡ r.graph.entities
  unfolding add_rows
  add_rows-entities chunk_id [] r = refl
  add_rows-entities chunk_id (m ∷ ms) r =
      add_rows-entities chunk_id ms (add_row Score limits names fresh chunk_id m r)

  add_candidate-graph :
      (chunk_id : Str) (rel : RelationCandidate) (from to : Option Str) (r : Run Score)
      → (add_candidate Score limits names fresh chunk_id rel from to r).graph ≡ r.graph
  add_candidate-graph chunk_id rel none to r = refl
  add_candidate-graph chunk_id rel (some a) none r = refl
  add_candidate-graph chunk_id rel (some a) (some b) r = refl

  add_candidates-graph :
      (chunk_id : Str) (rows : List (Mention × Str)) (rels : List RelationCandidate) (r : Run Score)
      → (add_candidates Score limits names fresh chunk_id rows rels r).graph ≡ r.graph
  unfolding add_candidates
  add_candidates-graph chunk_id rows [] r = refl
  add_candidates-graph chunk_id rows (rel ∷ rels) r =
      add_candidates-graph chunk_id rows rels _ ∙ add_candidate-graph chunk_id rel _ _ r

  lasts :
      (es es' : List Entity) (x : EntityMention)
      → ((id : Str) → Has id (entity_ids es) → Has id (entity_ids es'))
      → IsSettled es x
      → IsSettled es' x
  lasts es es' x last (done, (id, q, h)) = (done, (id, q, last id h))

  -- The mention is not the one that is resolved now.
  still :
      (row_id : Str) (pending : List Str) (es es' : List Entity)
      → ((id : Str) → Has id (entity_ids es) → Has id (entity_ids es'))
      → (x : EntityMention) → Tracked (row_id ∷ pending) es x
      → str_eq x.id row_id ≡ false
      → Tracked pending es' x
  still row_id pending es es' last x (inl s) e = inl (lasts es es' x last s)
  still row_id pending es es' last x (inr (inl h)) e = inr (inl h)
  still row_id pending es es' last x (inr (inr (inl q))) e =
      absurd (true_ne_false (sym (rw q (str_eq_refl row_id)) ∙ e))
  still row_id pending es es' last x (inr (inr (inr h))) e = inr (inr h)

  widen :
      (pending : List Str) (es es' : List Entity)
      → ((id : Str) → Has id (entity_ids es) → Has id (entity_ids es'))
      → (x : EntityMention) → Tracked [] es x
      → Tracked pending es' x
  widen pending es es' last x (inl s) = inl (lasts es es' x last s)
  widen pending es es' last x (inr (inl h)) = inr (inl h)
  widen pending es es' last x (inr (inr h)) = absurd h

  resolve_row-Tracked :
      (m : Mention) (row_id : Str) (pending : List Str) (r : Run Score)
      → All (Tracked (row_id ∷ pending) r.graph.entities) r.graph.mentions
      → let r' = resolve_row Score limits names fresh m row_id r in
        All (Tracked pending r'.graph.entities) r'.graph.mentions
  resolve_row-Tracked m row_id pending r h =
      let kept =
        resolve_mention-IsKept Score names limits.less limits.zero_score limits.high limits.review
          (fresh r.next_id) (fresh (r.next_id + 1)) m r.graph in
      All-update_rows mention_key row_id _ _ (λ x q e. inl (refl, (_, refl, kept.recorded)))
        (λ x q e. still row_id pending r.graph.entities _ kept.lasting x q e)
        (subst (All (Tracked (row_id ∷ pending) r.graph.entities)) (sym kept.mentions) h)

  resolve_rows-Tracked :
      (rows : List (Mention × Str)) (r : Run Score)
      → All (Tracked (row_ids rows) r.graph.entities) r.graph.mentions
      → let r' = resolve_rows Score limits names fresh rows r in
        All (Tracked [] r'.graph.entities) r'.graph.mentions
  unfolding resolve_rows row_ids
  resolve_rows-Tracked [] r h = h
  resolve_rows-Tracked ((m, row_id) ∷ rows) r h =
      resolve_rows-Tracked rows _ (resolve_row-Tracked m row_id (row_ids rows) r h)

  module _ {Token : Type 0} (model : Model Token) where
    process_mentions-Tracked :
        (chunk : ChunkText) (ms : List Mention) (r : Run Score)
        → All (Tracked [] r.graph.entities) r.graph.mentions
        → let r' = process_mentions Score limits names fresh model chunk ms r in
          All (Tracked [] r'.graph.entities) r'.graph.mentions
    process_mentions-Tracked chunk ms r h =
        let added = add_rows Score limits names fresh chunk.id ms r in
        let rows = row_ids added.0 in
        let same = add_rows-entities chunk.id ms r in
        let last = λ (id : Str). subst (λ es. Has id (entity_ids es)) (sym same) in
        resolve_rows-Tracked added.0 _ (
          subst (λ (g : Graph Score). All (Tracked rows g.entities) g.mentions)
            (sym (add_candidates-graph chunk.id added.0 _ added.1))
            (add_rows-All (Tracked rows added.1.graph.entities) chunk.id ms r
              (All-map (widen rows r.graph.entities added.1.graph.entities last) _ h)
              (λ x k. inr (inr k))))

    process_chunks-Tracked :
        (chunks : List ChunkText) (r : Run Score)
        → All (Tracked [] r.graph.entities) r.graph.mentions
        → let r' = process_chunks Score limits names fresh model chunks r in
          All (Tracked [] r'.graph.entities) r'.graph.mentions
    unfolding process_chunks
    process_chunks-Tracked [] r h = h
    process_chunks-Tracked (chunk ∷ chunks) r h = process_chunks-Tracked chunks _ (
        if_cases (λ (r' : Run Score). All (Tracked [] r'.graph.entities) r'.graph.mentions)
          (is_empty (extract_mentions (model.ents chunk.text))) r _ (λ e. h)
          (λ e. process_mentions-Tracked chunk _ r h))

-- Every mention is settled, but for those that there were.
pub process_chunks-IsSettled :
    (Score : Type 0) (limits : Limits Score) (names : Names Score) (fresh : ℕ → Str)
    {Token : Type 0} (model : Model Token) (chunks : List ChunkText) (r : Run Score)
    → let r' = process_chunks Score limits names fresh model chunks r in
      All (λ x. IsSettled r'.graph.entities x ⊎ Has x r.graph.mentions) r'.graph.mentions
process_chunks-IsSettled Score limits names fresh model chunks r =
    All-map (done r.graph.mentions _) _ (
      process_chunks-Tracked Score limits names fresh r.graph.mentions model chunks r
        (Has-All _ r.graph.mentions (λ x h. inr (inl h))))
  where
    done :
        (old : List EntityMention) (es : List Entity) (x : EntityMention)
        → IsSettled es x ⊎ (Has x old ⊎ Has x.id [])
        → IsSettled es x ⊎ Has x old
    done old es x (inl s) = inl s
    done old es x (inr (inl h)) = inr h
    done old es x (inr (inr h)) = absurd h
