-- ===== src/Graph/Documents.antt =====
-- `process_document_for_graph` of src/cranus/graph/pipeline.py, with `extract_mentions` of
-- src/cranus/graph/ner.py. What the language model finds in a text is an argument, and so is the supply of new
-- ids; the mirroring to the graph database is not modelled.
pub mod Counted
pub mod Settled
pub mod Processed
mod Tests
use cranus.Base.{
  ℕ, ◌+◌, ◌==◌, Bool, true, false, ◌&&◌, Option, none, some, List, [], ◌∷◌, ◌++◌, map, Str, codes,
  str_eq, str_in, is_empty, length, keep_if, if◌then◌else◌, or_else,
}
use cranus.Storage.Table.{update_rows}
use cranus.Graph.Store.{EntityMention, EdgeCandidate, Graph}
use cranus.Graph.Edges.{mention_key, promote_edge_candidates}
use cranus.Graph.Resolve.{Mention, Names, Resolution, resolve_mention}
use cranus.Graph.Relations.{RelationCandidate, extract_relations}
use cranus.Graph.Relations.Mentions.{Parse, Sentence}

-- A named entity that the language model finds.
pub record Ent : Type 0 where
  pub text : Str
  pub start_char : ℕ
  pub end_char : ℕ
  pub label : Str

-- `_LABEL_MAP.get(label)`
unfoldable pub label_map : Str → Option Str
label_map label =
    if str_eq label (codes "PERSON")
    then some (codes "Person")
    else if str_eq label (codes "ORG")
    then some (codes "Organization")
    else if str_in label (codes "GPE" ∷ codes "LOC" ∷ codes "FAC" ∷ [])
    then some (codes "Place")
    else if str_eq label (codes "PRODUCT")
    then some (codes "Product")
    else if str_eq label (codes "NORP")
    then some (codes "Other")
    else none

abbrev pub add_ent : Ent → Option Str → List Mention → List Mention
add_ent ent none rest = rest
add_ent ent (some mapped) rest =
    record {
      span_text = ent.text;
      span_start = ent.start_char;
      span_end = ent.end_char;
      ner_type = mapped;
    }
    ∷ rest

unfoldable pub extract_mentions : List Ent → List Mention
extract_mentions [] = []
extract_mentions (ent ∷ ents) = add_ent ent (label_map ent.label) (extract_mentions ents)

-- The language model, by the text of a chunk.
pub record Model (Token : Type 0) : Type 0 where
  pub ents : Str → List Ent
  pub parse : Parse Token
  pub sents : Str → List (Sentence Token)

-- The columns of a chunk that are read.
pub record ChunkText : Type 0 where
  pub id : Str
  pub text : Str

-- The constants, and the order of scores.
pub record Limits (Score : Type 0) : Type 0 where
  pub less : Score → Score → Bool
  pub zero_score : Score
  pub high : Score
  pub review : Score
  pub promotion : Score
  pub of_hundredths : ℕ → Score

module _ (Score : Type 0) where
  -- The tables, the number of ids used, and `stats`.
  pub record Run : Type 0 where
    pub graph : Graph Score
    pub edge_table : List (EdgeCandidate Score)
    pub next_id : ℕ
    pub mentions : ℕ
    pub edge_candidates : ℕ
    pub entities_created : ℕ
    pub edges_created : ℕ
    pub reviews_queued : ℕ

-- The id of the last row of these bounds, as in `mention_row_by_span.get`.
abbrev pub row_by_span : ℕ → ℕ → List (Mention × Str) → Option Str
row_by_span start end [] = none
row_by_span start end ((m, id) ∷ rows) =
    or_else (row_by_span start end rows)
      (if (m.span_start == start) && (m.span_end == end) then some id else none)

module _ (Score : Type 0) (limits : Limits Score) (names : Names Score) (fresh : ℕ → Str) where
  abbrev pub new_row : Str → Str → Mention → EntityMention
  new_row id chunk_id m = record {
    id = id;
    chunk_id = chunk_id;
    span_text = m.span_text;
    ner_type = m.ner_type;
    suggested_entity_id = none;
    resolved = false;
  }

  abbrev pub add_row : Str → Mention → Run Score → Run Score
  add_row chunk_id m r = record r {
    graph = record (r.graph) {
      mentions = r.graph.mentions ++ new_row (fresh r.next_id) chunk_id m ∷ [];
    };
    next_id = r.next_id + 1;
    mentions = r.mentions + 1;
  }

  -- The loop that adds the mentions' rows, with the pairs of a mention and the id of its row.
  unfoldable pub add_rows : Str → List Mention → Run Score → List (Mention × Str) × Run Score
  add_rows chunk_id [] r = ([], r)
  add_rows chunk_id (m ∷ ms) r =
      let (rows, r') = add_rows chunk_id ms (add_row chunk_id m r) in
      ((m, fresh r.next_id) ∷ rows, r')

  abbrev pub add_candidate :
      Str → RelationCandidate → Option Str → Option Str → Run Score → Run Score
  add_candidate chunk_id rel none to r = r
  add_candidate chunk_id rel (some from) none r = r
  add_candidate chunk_id rel (some from) (some to) r = record r {
    edge_table =
        r.edge_table
        ++ record {
          id = fresh r.next_id;
          from_mention_id = from;
          to_mention_id = to;
          type_name = rel.type_name;
          evidence_chunk_id = chunk_id;
          confidence = limits.of_hundredths rel.confidence;
          is_pending = true;
        }
          ∷ [];
    next_id = r.next_id + 1;
    edge_candidates = r.edge_candidates + 1;
  }

  unfoldable pub add_candidates :
      Str → List (Mention × Str) → List RelationCandidate → Run Score → Run Score
  add_candidates chunk_id rows [] r = r
  add_candidates chunk_id rows (rel ∷ rels) r = add_candidates chunk_id rows rels (
      add_candidate chunk_id rel
        (row_by_span rel.from_mention.span_start rel.from_mention.span_end rows)
        (row_by_span rel.to_mention.span_start rel.to_mention.span_end rows) r)

  abbrev pub resolved_to : Str → EntityMention → EntityMention
  resolved_to entity_id row = record row { suggested_entity_id = some entity_id; resolved = true }

  abbrev pub one_if : Bool → ℕ
  one_if b = if b then 1 else 0

  -- What is written after a mention is resolved.
  abbrev pub settle_row : Str → Resolution Score → Run Score → Run Score
  settle_row row_id res r = record r {
    graph = record (res.graph) {
      mentions = update_rows mention_key row_id (resolved_to res.entity.id) res.graph.mentions;
    };
    next_id = r.next_id + 2;
    entities_created = r.entities_created + one_if res.created;
    reviews_queued = r.reviews_queued + one_if res.review_queued;
  }

  abbrev pub resolve_row : Mention → Str → Run Score → Run Score
  resolve_row m row_id r =
      settle_row row_id
        (resolve_mention Score names limits.less limits.zero_score limits.high limits.review
          (fresh r.next_id) (fresh (r.next_id + 1)) m r.graph)
        r

  unfoldable pub resolve_rows : List (Mention × Str) → Run Score → Run Score
  resolve_rows [] r = r
  resolve_rows ((m, row_id) ∷ rows) r = resolve_rows rows (resolve_row m row_id r)

  abbrev pub candidate_key : EdgeCandidate Score → Str
  candidate_key c = c.id

  -- The rows changed are written back.
  abbrev pub write_back :
      List (EdgeCandidate Score) → List (EdgeCandidate Score) → List (EdgeCandidate Score)
  write_back [] table = table
  write_back (c ∷ cs) table = write_back cs (update_rows candidate_key c.id (λ old. c) table)

  abbrev pub number : ℕ → List (EdgeCandidate Score) → List (Str × EdgeCandidate Score)
  number n [] = []
  number n (c ∷ cs) = (fresh n, c) ∷ number (n + 1) cs

  -- The pending candidates of these chunks are promoted; without a chunk nothing is.
  unfoldable pub promote_chunks : List ChunkText → Run Score → Run Score
  promote_chunks [] r = r
  promote_chunks (ch ∷ chunks) r =
      let ids = map (λ (c : ChunkText). c.id) (ch ∷ chunks) in
      let cands =
        keep_if (λ (c : EdgeCandidate Score). str_in c.evidence_chunk_id ids && c.is_pending)
          r.edge_table in
      let (changed, edges, promoted) =
        promote_edge_candidates Score limits.less limits.promotion r.graph.mentions
          (number r.next_id cands) r.graph.edges in
      record r {
        graph = record (r.graph) { edges = edges };
        edge_table = write_back changed r.edge_table;
        next_id = r.next_id + length cands;
        edges_created = promoted;
      }

  module _ {Token : Type 0} (model : Model Token) where
    -- The body of the loop over the chunks, for the mentions of a chunk.
    abbrev pub process_mentions : ChunkText → List Mention → Run Score → Run Score
    process_mentions chunk ms r =
        let (rows, r') = add_rows chunk.id ms r in
        resolve_rows rows (
          add_candidates chunk.id rows
            (extract_relations model.parse names.lower (model.sents chunk.text) ms) r')

    abbrev pub process_chunk : ChunkText → Run Score → Run Score
    process_chunk chunk r =
        let ms = extract_mentions (model.ents chunk.text) in
        if is_empty ms then r else process_mentions chunk ms r

    unfoldable pub process_chunks : List ChunkText → Run Score → Run Score
    process_chunks [] r = r
    process_chunks (chunk ∷ chunks) r = process_chunks chunks (process_chunk chunk r)

    abbrev pub fresh_run : Graph Score → List (EdgeCandidate Score) → ℕ → Run Score
    fresh_run g table next_id = record {
      graph = g;
      edge_table = table;
      next_id = next_id;
      mentions = 0;
      edge_candidates = 0;
      entities_created = 0;
      edges_created = 0;
      reviews_queued = 0;
    }

    unfoldable pub process_document :
        List ChunkText → Graph Score → List (EdgeCandidate Score) → ℕ → Run Score
    process_document chunks g table next_id =
        promote_chunks chunks (process_chunks chunks (fresh_run g table next_id))
