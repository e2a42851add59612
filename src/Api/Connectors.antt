-- ===== src/Api/Connectors.antt =====
-- `run_connector` and `get_job_status` of src/cranus/api/routers/admin_connectors.py. A job that is published is a
-- message handed to the broker; the session is committed after the answer. The role check of the routes is
-- `require_role`.
pub mod Scoped
mod Tests
use cranus.Base.{
  ℕ, zero, suc, ◌≡◌, Bool, true, false, not, Option, none, some, List, [], ◌∷◌, ◌++◌, Str, codes,
  str_eq, is_empty, if◌then◌else◌,
}
use cranus.Storage.Json.{
  Json, Items, Fields, null, bool, num, str, arr, obj, nil, cons, end, field, get_field, truthy,
}
use cranus.Storage.Models.{User, Engagement, IngestionJob, pending, role_admin, role_analyst}
use cranus.Storage.Table.{get_row}
use cranus.Storage.Db.{Db}
use cranus.Governance.Errors
use cranus.Governance.Engagements.{
  get_engagement, is_active, id_given, or_denied, enforce_engagement_scope,
}
use cranus.Ingestion.Items.{register_source}
use cranus.Worker.Jobs.{job_key}
use cranus.Api.Http.{Response, done, failed, ◌>>=◌, ◌>>◌, or_status}
use cranus.Api.Auth.{or_failed}

-- What the route reads of a registered connector.
pub record Registered : Type 0 where
  pub name : Str
  pub default_license : Str
  pub requires_engagement : Bool

abbrev pub registered_name : Registered → Str
registered_name c = c.name

-- `fields[key] = value`, in place where the key is there.
unfoldable pub set_field : Str → Json → Fields → Fields
set_field key value end = field key value end
set_field key value (field k v rest) =
    let rest' = set_field key value rest in
    if str_eq k key then field k value rest else field k v rest'

abbrev pub given_target : Option Json → Response Json
given_target none = failed 400
given_target (some v) = if truthy v then done v else failed 400

-- A target that is no text fails as soon as it is compared with the engagement's.
abbrev pub enforce_target : (Str → Str) → Db → ℕ → Option Str → Json → Response (Unit {0})
enforce_target lower db now engagement_id (str target) =
    or_status 403 (enforce_engagement_scope lower db now engagement_id target)
enforce_target lower db now engagement_id other =
    or_status 403 (
      Errors.◌>>=◌ (id_given engagement_id) λ id.
        Errors.◌>>=◌ (or_denied (get_engagement db id))
          λ engagement. Errors.require (is_active engagement now) Errors.access_denied)
    >> failed 500

-- `if body.engagement_id`
abbrev pub with_engagement : Option Str → Fields → Fields
with_engagement none params = params
with_engagement (some []) params = params
with_engagement (some (c ∷ id)) params = set_field (codes "engagement_id") (str (c ∷ id)) params

-- The message that `publish_job` hands over.
pub record Message : Type 0 where
  pub job_id : Str
  pub connector_name : Str
  pub params : Fields

abbrev pub new_job : Str → ℕ → Str → Fields → IngestionJob
new_job id now name params = record {
  id = id;
  connector_name = name;
  status = pending;
  params = params;
  result = none;
  error = none;
  created_at = now;
  started_at = none;
  finished_at = none;
  locked_by = none;
  locked_at = none;
}

abbrev pub publish_if : Bool → IngestionJob → List Message
publish_if false job = []
publish_if true job =
    record { job_id = job.id; connector_name = job.connector_name; params = job.params } ∷ []

abbrev pub enforce_given : (Str → Str) → Db → ℕ → Option Str → Response Json → Response (Unit {0})
enforce_given lower db now engagement_id given =
    given >>= λ target. enforce_target lower db now engagement_id target

-- The gate of a connector that looks a target up.
abbrev pub enforce_gate :
    (Str → Str) → Db → ℕ → Registered → Fields → Option Str → Response (Unit {0})
enforce_gate lower db now connector params engagement_id =
    if connector.requires_engagement
    then enforce_given lower db now engagement_id (given_target (get_field (codes "target") params))
    else done tt

-- The rows after, the job and the messages published, all before the session is committed.
unfoldable pub run_connector :
    (Str → Str)
    → List Registered
    → (is_kafka : Bool) → (job_id : Str) → (now : ℕ) → (name : Str) → (params : Fields)
    → (engagement_id : Option Str) → Db
    → Response (Db × (IngestionJob × List Message))
run_connector lower registry is_kafka job_id now name params engagement_id db =
    or_failed 500 (get_row registered_name name registry) >>= λ connector.
    enforce_gate lower db now connector params engagement_id >>= λ ok.
    let job = new_job job_id now name (with_engagement engagement_id params) in
    done (
      record db {
        sources = register_source name connector.default_license db.sources;
        ingestion_jobs = db.ingestion_jobs ++ job ∷ [];
      },
      (job, publish_if is_kafka job),
    )

-- The row whose columns are the answer; `none` is the answer "not found".
unfoldable pub get_job_status : Str → Db → Option IngestionJob
get_job_status job_id db = get_row job_key job_id db.ingestion_jobs
