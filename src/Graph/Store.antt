-- ===== src/Graph/Store.antt =====
-- The rows of src/cranus/storage/models/entities.py, edges.py and entity_resolution.py. A confidence is
-- of an arbitrary type.
use cranus.Base.{ℕ, Bool, Option, List, Str}

pub record Entity : Type 0 where
  pub id : Str
  pub type_name : Str
  pub canonical_name : Str
  pub aliases : List Str

pub record EntityMention : Type 0 where
  pub id : Str
  pub chunk_id : Str
  pub span_text : Str
  pub ner_type : Str
  pub suggested_entity_id : Option Str
  pub resolved : Bool

module _ (Score : Type 0) where
  pub record Edge : Type 0 where
    pub id : Str
    pub from_entity_id : Str
    pub to_entity_id : Str
    pub type_name : Str
    pub evidence_chunk_ids : List Str
    pub confidence : Score

  pub record EdgeCandidate : Type 0 where
    pub id : Str
    pub from_mention_id : Str
    pub to_mention_id : Str
    pub type_name : Str
    pub evidence_chunk_id : Str
    pub confidence : Score
    pub is_pending : Bool

  pub record EntityResolutionReview : Type 0 where
    pub id : Str
    pub entity_a_id : Option Str
    pub entity_b_id : Option Str
    pub score : Score
    pub status : Str
    pub decided_by : Option Str
    pub decided_at : Option ℕ

  pub record Graph : Type 0 where
    pub entities : List Entity
    pub mentions : List EntityMention
    pub edges : List Edge
    pub reviews : List EntityResolutionReview
