-- ===== src/Storage/Db.antt =====
-- The database as the modelled parts see it: one list of rows for each table.
use cranus.Base.{List, Option}
use cranus.Storage.Models.{
  User, ApiKey, Engagement, SystemSetting, AuditEvent, Source, IngestionJob,
}

pub record Db : Type 0 where
  pub users : List User
  pub api_keys : List ApiKey
  pub engagements : List Engagement
  pub kill_switch : Option SystemSetting
  pub audit_events : List AuditEvent
  pub sources : List Source
  pub ingestion_jobs : List IngestionJob
