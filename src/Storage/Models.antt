-- ===== src/Storage/Models.antt =====
-- The rows: src/cranus/storage/models. Times are counted from some fixed moment.
use cranus.Base.{ℕ, Bool, Option, List, Str, codes, [], ◌∷◌}
use cranus.Storage.Json.{Json, Fields}

abbrev pub role_admin : Str
role_admin = codes "admin"

abbrev pub role_analyst : Str
role_analyst = codes "analyst"

abbrev pub role_viewer : Str
role_viewer = codes "viewer"

abbrev pub roles : List Str
roles = role_admin ∷ role_analyst ∷ role_viewer ∷ []

pub record User : Type 0 where
  pub id : Str
  pub email : Str
  pub role : Str
  pub revoked : Bool

pub record ApiKey : Type 0 where
  pub id : Str
  pub user_id : Str
  pub key_hash : Str
  pub lookup_hash : Str
  pub revoked : Bool
  pub last_used_at : Option ℕ

pub record Engagement : Type 0 where
  pub id : Str
  pub target : Str
  pub scope_note : Str
  pub evidence_ref : Str
  pub authorized_by_user_id : Str
  pub valid_from : ℕ
  pub valid_until : ℕ
  pub revoked_at : Option ℕ

-- The row of `system_settings` for the kill switch: the `enabled` key of its value.
pub record SystemSetting : Type 0 where
  pub enabled : Option Bool
  pub updated_at : ℕ

-- The dicts that the program writes as payloads.
pub data Payload : Type 0 where
  opened : (question mode : Str) → Payload
  tool_call : (tool : Str) (args : Json) → Payload
  agent_stopped : (reason : Str) (steps_used : ℕ) → Payload
  closed :
      (retrieved : List Str) (latency_ms : ℕ) (answer_hash : Str) (token_cost : Option ℕ) → Payload

pub record AuditEvent : Type 0 where
  pub session_id : Str
  pub event_type : Str
  pub user_id : Option Str
  pub payload : Payload
  pub created_at : ℕ

pub data Status : Type 0 where
  pending running succeeded failed : Status

pub record Source : Type 0 where
  pub name : Str
  pub default_license : Str
  pub last_run_at : Option ℕ
  pub row_count : ℕ

pub record IngestionJob : Type 0 where
  pub id : Str
  pub connector_name : Str
  pub status : Status
  pub params : Fields
  pub result : Option Json
  pub error : Option Str
  pub created_at : ℕ
  pub started_at : Option ℕ
  pub finished_at : Option ℕ
  pub locked_by : Option Str
  pub locked_at : Option ℕ
