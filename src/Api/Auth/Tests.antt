-- ===== src/Api/Auth/Tests.antt =====
-- Requests to src/cranus/api/deps.py on a small database, and its theorems there.
use cranus.Base.{
  ap, All, ◌⊎◌, true_ne_false, ℕ, ◌≡◌, refl, ◌≢◌, true, false, Option, some, none, [], ◌∷◌, Str,
  codes, str_eq,
}
use cranus.Storage.Json.{Json, str, obj, arr, nil, cons, field, end, get_field}
use cranus.Storage.Models.{User, ApiKey, role_viewer, role_admin, role_analyst}
use cranus.Storage.Db.{Db}
use cranus.Api.Http.{Response, done, failed}
use cranus.Api.Auth.{
  used_at, Hashing, Claims, OidcSettings, get_current_user_api_key, get_current_user_oidc,
  get_current_user,
}
use cranus.Api.Users.{revoke_user, create_user}
use cranus.Storage.Table.{update_rows}
use cranus.Api.Auth.Keys.{Decision, get_current_user-Decision}
use cranus.Api.Auth.Revoked.{created, at_once, revoke_user-get_current_user}
use cranus.Api.Auth.Roles.{IsIdentified, get_current_user_oidc-IsIdentified}

abbrev hashing : Hashing
hashing = record { lookup_key_for_index = λ t. t; verify_api_key = λ t h. str_eq t h }

abbrev ann : User
ann = record { id = codes "u1"; email = codes "ann@x"; role = role_admin; revoked = false }

abbrev bob : User
bob = record { id = codes "u2"; email = codes "bob@x"; role = role_viewer; revoked = false }

abbrev key_of : Str → Str → ApiKey
key_of id user_id = record {
  id = id;
  user_id = user_id;
  key_hash = id;
  lookup_hash = id;
  revoked = false;
  last_used_at = none;
}

abbrev db : Db
db = record {
  users = ann ∷ bob ∷ [];
  api_keys = key_of (codes "k1") (codes "u1") ∷ key_of (codes "k2") (codes "u2") ∷ [];
  engagements = [];
  kill_switch = none;
  audit_events = [];
  sources = [];
  ingestion_jobs = [];
}

abbrev ask : Str → Db → Response (Db × User)
ask header = get_current_user (get_current_user_api_key hashing 5) (some header)

abbrev code_of : Response (Db × User) → ℕ
code_of (done r) = 200
code_of (failed code) = code

ask-codes :
    (code_of (ask (codes "Bearer k1") db) ≡ 200)
    × (code_of (ask (codes "k1") db) ≡ 401)
    × (code_of (ask (codes "Bearer k1") (revoke_user (codes "u1") db)) ≡ 401)
    × (code_of (ask (codes "Bearer k2") (revoke_user (codes "u1") db)) ≡ 200)
unfolding get_current_user get_current_user_api_key revoke_user
    cranus.Governance.Access.enforce_authenticated
ask-codes = (refl, refl, refl, refl)

get_current_user-Decision_example :
    Decision hashing 5 db (some (codes "Bearer k1")) (ask (codes "Bearer k1") db)
get_current_user-Decision_example =
    get_current_user-Decision hashing 5 db (some (codes "Bearer k1"))

abbrev without_ann : Db
without_ann = revoke_user (codes "u1") db

-- Ann was revoked and asked for again by her e-mail address; Bob then uses his key.
abbrev ann_again : Option (Db × User × Str)
ann_again =
    create_user (codes "u9") (codes "k9") (codes "k9") (codes "k9") (codes "k9") (codes "ann@x")
      role_viewer without_ann

abbrev db_of : Option (Db × User × Str) → Db
db_of none = db
db_of (some (d, user, key)) = d

abbrev later_db : Db
later_db = db_of ann_again

abbrev bob_db : Db
bob_db = record later_db {
  api_keys = update_rows (λ (k : ApiKey). k.id) (codes "k2") (used_at 5) later_db.api_keys;
}

ann_made : ann_again ≡ some (later_db, record ann { revoked = true }, codes "k9")
unfolding revoke_user create_user
ann_made = refl

later_codes :
    (code_of (ask (codes "Bearer k9") later_db) ≡ 403)
    × (ask (codes "Bearer k2") later_db ≡ done (bob_db, bob))
unfolding get_current_user get_current_user_api_key revoke_user create_user
    cranus.Governance.Access.enforce_authenticated
later_codes = (refl, refl)

new_not_ann : codes "u9" ≢ codes "u1"
new_not_ann e = true_ne_false (ap (λ id. str_eq id (codes "u9")) e)

revoke_user-get_current_user_example :
    All (λ (k : ApiKey). (k.user_id ≢ codes "u1") ⊎ (k.revoked ≡ true)) without_ann.api_keys
    × (codes "u2" ≢ codes "u1")
revoke_user-get_current_user_example =
    revoke_user-get_current_user hashing 5 (codes "u1") db later_db bob_db ann
      (some (codes "Bearer k2")) bob refl
      (created without_ann later_db (record ann { revoked = true }) (codes "k9") (codes "u9")
        (codes "k9") (codes "k9") (codes "k9") (codes "k9") (codes "ann@x") role_viewer at_once
        new_not_ann ann_made)
      later_codes.1

abbrev lower : Str → Str
lower s = s

abbrev show : Json → Str
show (str s) = s
show other = []

abbrev settings : OidcSettings
settings = record {
  oidc_jwks_url = codes "https://x/jwks";
  oidc_issuer = codes "https://x";
  oidc_role_claim = codes "realm.roles";
  oidc_role_map = (codes "staff", role_analyst) ∷ [];
}

abbrev claims : Claims
claims = record {
  sub = some (codes "bob");
  email = some (codes "bob@x");
  all =
      field (codes "realm")
        (obj (
          field (codes "roles") (arr (cons (str (codes "other")) (cons (str (codes "staff")) nil)))
            end))
        end;
}

abbrev decode : Str → Option Claims
decode token = some claims

abbrev analyst_bob : User
analyst_bob = record bob { role = role_analyst }

abbrev analyst_db : Db
analyst_db = record db { users = ann ∷ analyst_bob ∷ [] }

bob_identified :
    get_current_user_oidc lower show decode settings (codes "u3") (codes "t") db
    ≡ done (analyst_db, analyst_bob)
unfolding get_current_user_oidc get_field
bob_identified = refl

get_current_user_oidc-IsIdentified_example :
    IsIdentified lower show settings decode (codes "u3") (codes "t") db analyst_db analyst_bob
get_current_user_oidc-IsIdentified_example =
    get_current_user_oidc-IsIdentified lower show settings decode (codes "u3") (codes "t") db
      analyst_db analyst_bob bob_identified
