-- ===== src/Api/Connectors/Tests.antt =====
-- Requests to src/cranus/api/routers/admin_connectors.py, and its theorem there.
use cranus.Base.{
  ℕ, ◌+◌, ◌≡◌, refl, ◌↔◌, true, Option, none, some, List, [], ◌∷◌, length, Str, codes, is_space,
}
use cranus.Storage.Json.{Json, str, num, end, field, get_field}
use cranus.Storage.Models.{IngestionJob}
use cranus.Storage.Db.{Db}
use cranus.Governance.Engagements.{enforce_engagement_scope}
use cranus.Ingestion.Items.{register_source}
use cranus.Api.Http.{Response, done, failed}
use cranus.Api.Connectors.{Registered, Message, run_connector}
use cranus.Api.Connectors.Scoped.{IsAllowed, IsQueued, run_connector-IsQueued}

abbrev lower : Str → Str
lower s = s

abbrev db : Db
db = record {
  users = [];
  api_keys = [];
  engagements =
      record {
        id = codes "e1";
        target = codes "acme.com";
        scope_note = [];
        evidence_ref = [];
        authorized_by_user_id = codes "u2";
        valid_from = 10;
        valid_until = 20;
        revoked_at = none;
      }
      ∷ [];
  kill_switch = none;
  audit_events = [];
  sources = [];
  ingestion_jobs = [];
}

abbrev registry : List Registered
registry =
    record {
      name = codes "breaches";
      default_license = codes "internal";
      requires_engagement = true;
    }
    ∷ []

abbrev request : Json → (engagement_id : Option Str) → Response (Db × (IngestionJob × List Message))
request target engagement_id =
    run_connector lower registry true (codes "j1") 15 (codes "breaches")
      (field (codes "target") target end) engagement_id db

abbrev status_of : Response (Db × (IngestionJob × List Message)) → ℕ
status_of (failed c) = c
status_of (done out) = 200 + length out.1.1

run_connector-covered : status_of (request (str (codes "www.acme.com")) (some (codes "e1"))) ≡ 201
unfolding run_connector enforce_engagement_scope get_field is_space register_source
run_connector-covered = refl

run_connector-outside : status_of (request (str (codes "bolt.com")) (some (codes "e1"))) ≡ 403
unfolding run_connector enforce_engagement_scope get_field is_space register_source
run_connector-outside = refl

run_connector-missing : status_of (request (str []) (some (codes "e1"))) ≡ 400
unfolding run_connector enforce_engagement_scope get_field is_space register_source
run_connector-missing = refl

run_connector-number : status_of (request (num 7) (some (codes "e1"))) ≡ 500
unfolding run_connector enforce_engagement_scope get_field is_space register_source
run_connector-number = refl

run_connector-IsQueued_example :
    (((out : Db × (IngestionJob × List Message)) × (request
            (str (codes "acme.com"))
            (some (codes "e1"))
          ≡ done out))
      ↔ IsAllowed lower db 15
          (some (codes "e1"))
          registry
          (codes "breaches")
          (field (codes "target") (str (codes "acme.com")) end))
    × ((out : Db × (IngestionJob × List Message))
        → request (str (codes "acme.com")) (some (codes "e1")) ≡ done out
        → IsQueued lower db 15 (some (codes "e1")) true (codes "j1") (codes "breaches") out)
run_connector-IsQueued_example =
    run_connector-IsQueued lower db 15 (some (codes "e1")) registry true (codes "j1")
      (codes "breaches") (field (codes "target") (str (codes "acme.com")) end)
