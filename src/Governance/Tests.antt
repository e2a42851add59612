-- ===== src/Governance/Tests.antt =====
-- Runs of src/cranus/governance on a small database, and the theorems there.
use cranus.Base.{◌≡◌, refl, ◌↔◌, true, false, some, none, [], ◌∷◌, Str, codes, is_space}
use cranus.Storage.Models.{User, Engagement, role_viewer}
use cranus.Storage.Db.{Db}
use cranus.Governance.Errors.{access_denied, ok, raise}
use cranus.Governance.Access.{SourceDict, internal_only}
use cranus.Governance.Engagements.{target_in_scope, enforce_engagement_scope}
use cranus.Governance.Engagements.Scope.{
  InScope, target_in_scope-exact, IsAuthorized, enforce_engagement_scope-exact,
}

-- `str.lower` on ASCII is the identity on the texts used here.
abbrev lower : Str → Str
lower s = s

abbrev acme : Engagement
acme = record {
  id = codes "e1";
  target = codes "acme.com";
  scope_note = [];
  evidence_ref = [];
  authorized_by_user_id = codes "u2";
  valid_from = 10;
  valid_until = 20;
  revoked_at = none;
}

abbrev db : Db
db = record {
  users = [];
  api_keys = [];
  engagements = acme ∷ [];
  kill_switch = none;
  audit_events = [];
  sources = [];
  ingestion_jobs = [];
}

enforce-runs :
    (enforce_engagement_scope lower db 15 (some (codes "e1")) (codes " www.acme.com ") ≡ ok tt)
    × (enforce_engagement_scope lower db 15 (some (codes "e1")) (codes "notacme.com")
        ≡ raise access_denied)
    × (enforce_engagement_scope lower db 21 (some (codes "e1")) (codes "acme.com")
        ≡ raise access_denied)
unfolding enforce_engagement_scope is_space
enforce-runs = (refl, refl, refl)

target_in_scope-exact_example :
    (target_in_scope lower (codes "acme.com") (codes "www.acme.com") ≡ true)
    ↔ InScope lower (codes "acme.com") (codes "www.acme.com")
target_in_scope-exact_example =
    target_in_scope-exact lower (codes "acme.com") (codes "www.acme.com")

-- The target need not name a host at all.
blank_target : target_in_scope lower (codes " ") (codes "any.host.") ≡ true
unfolding target_in_scope is_space
blank_target = refl

enforce_engagement_scope-exact_example :
    (enforce_engagement_scope lower db 15 (some (codes "e1")) (codes "www.acme.com") ≡ ok tt)
    ↔ IsAuthorized lower db 15 (some (codes "e1")) (codes "www.acme.com")
enforce_engagement_scope-exact_example =
    enforce_engagement_scope-exact lower db 15 (some (codes "e1")) (codes "www.acme.com")

abbrev viewer : User
viewer = record { id = codes "u1"; email = codes "v@x"; role = role_viewer; revoked = false }

abbrev secret : SourceDict
secret = record {
  id = codes "c1";
  text = codes "t";
  kind = codes "chunk";
  license = some internal_only;
  doc_id = none;
  uri = none;
  title = none;
}
