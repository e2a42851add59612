-- ===== src/Graph/Resolve.antt =====
-- `_resolve_mention` of src/cranus/graph/pipeline.py, with `block_key` of entity_resolution/blocking.py
-- and `score_pair` of entity_resolution/scoring.py for two names without attributes. The comparisons of
-- names, `lower`, `metaphone` and the arithmetic and the order of scores are arguments.
pub mod Matched
pub mod Kept
mod Tests
use cranus.Base.{
  ℕ, Bool, true, false, not, ◌&&◌, ◌||◌, Option, none, some, List, [], ◌∷◌, ◌++◌, map, Str, codes,
  str_eq, str_in, is_space, strip, keep_if, if◌then◌else◌,
}
use cranus.Storage.Table.{update_rows}
use cranus.Graph.Store.{Entity, Graph}
use cranus.Graph.Review.{entity_key, queue_for_review}

-- Its confidence, which a new entity takes over, is left out: it is the same for every mention.
pub record Mention : Type 0 where
  pub span_text : Str
  pub span_start : ℕ
  pub span_end : ℕ
  pub ner_type : Str

-- The functions of the libraries that compare names.
pub record Names (Score : Type 0) : Type 0 where
  pub lower : Str → Str
  pub metaphone : Str → Str
  pub token_sort_ratio : Str → Str → Score
  pub jaro_winkler_similarity : Str → Str → Score
  pub weighted : Score → Score → Score

-- `split()[0]` of a stripped text, and the empty text for an empty one.
abbrev pub first_token : Str → Str
first_token [] = []
first_token (c ∷ s) = if is_space c then [] else c ∷ first_token s

abbrev pub add_span : Mention → Entity → Entity
add_span m e = record e {
  aliases =
      if not (str_in m.span_text e.aliases) && not (str_eq m.span_text e.canonical_name)
      then e.aliases ++ m.span_text ∷ []
      else e.aliases;
}

abbrev pub new_entity : Str → Mention → Entity
new_entity id m = record {
  id = id;
  type_name = m.ner_type;
  canonical_name = m.span_text;
  aliases = [];
}

module _ (Score : Type 0) where
  -- What is returned, and the rows after.
  pub record Resolution : Type 0 where
    pub entity : Entity
    pub created : Bool
    pub review_queued : Bool
    pub graph : Graph Score

  abbrev pub add_entity : Entity → Graph Score → Graph Score
  add_entity e g = record g { entities = g.entities ++ e ∷ [] }

module _ (Score : Type 0) (names : Names Score) where
  unfoldable pub block_key : Str → Str → Str
  block_key entity_type canonical_name =
      entity_type ++ codes ":" ++ names.metaphone (first_token (strip canonical_name))

  unfoldable pub score_pair : Str → Str → Score
  score_pair name_a name_b =
      names.weighted (names.token_sort_ratio name_a name_b)
        (names.jaro_winkler_similarity (names.lower name_a) (names.lower name_b))

  -- The candidate is in the mention's block, or has its text for an alias.
  abbrev pub may_match : Mention → Entity → Bool
  may_match m c =
      str_eq (block_key c.type_name c.canonical_name) (block_key m.ner_type m.span_text)
      || str_in (names.lower m.span_text) (map names.lower c.aliases)

  abbrev pub score_of : Mention → Entity → Score
  score_of m c = score_pair m.span_text c.canonical_name

  module _ (less : Score → Score → Bool) where
    -- The loop over the candidates, from the best so far.
    unfoldable pub best_candidate :
        Mention → List Entity → Option Entity → Score → Option Entity × Score
    best_candidate m [] best score = (best, score)
    best_candidate m (c ∷ cs) best score =
        if not (may_match m c)
        then best_candidate m cs best score
        else if less score (score_of m c)
        then best_candidate m cs (some c) (score_of m c)
        else best_candidate m cs best score

    module _ (zero_score high review : Score) where
      abbrev pub settle :
          Str → Str → Mention → Option Entity → Score → Graph Score → Resolution Score
      settle new_id review_id m none score g = record {
        entity = new_entity new_id m;
        created = true;
        review_queued = false;
        graph = add_entity Score (new_entity new_id m) g;
      }
      settle new_id review_id m (some best) score g =
          if not (less score high)
          then record {
            entity = add_span m best;
            created = false;
            review_queued = false;
            graph = record g { entities = update_rows entity_key best.id (add_span m) g.entities };
          }
          else if not (less score review)
          then record {
            entity = new_entity new_id m;
            created = true;
            review_queued = true;
            graph =
                queue_for_review Score review_id new_id best.id score
                  (add_entity Score (new_entity new_id m) g);
          }
          else record {
            entity = new_entity new_id m;
            created = true;
            review_queued = false;
            graph = add_entity Score (new_entity new_id m) g;
          }

      unfoldable pub resolve_mention : Str → Str → Mention → Graph Score → Resolution Score
      resolve_mention new_id review_id m g =
          let (best, score) =
            best_candidate m (keep_if (λ (e : Entity). str_eq e.type_name m.ner_type) g.entities)
              none zero_score in
          settle new_id review_id m best score g
