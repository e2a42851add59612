-- ===== src/Api/Auth.antt =====
-- src/cranus/api/deps.py and src/cranus/api/oidc_auth.py. The hashes, the check of a token's signature
-- and claims, and `str.lower` are arguments.
pub mod Keys
pub mod Revoked
pub mod Roles
pub mod Ratchet
mod Tests
use cranus.Base.{
  ℕ, ◌+◌, ◌≡◌, Bool, true, false, not, ◌&&◌, ◌||◌, Option, none, some, List, [], ◌∷◌, ◌++◌, map,
  Str, codes, str_eq, str_in, starts_with, drop, is_empty, if◌then◌else◌,
}
use cranus.Storage.Json.{
  Json, Items, Fields, null, bool, num, str, arr, obj, nil, cons, end, field, get_field, items_list,
}
use cranus.Storage.Models.{User, ApiKey, role_viewer, roles}
use cranus.Storage.Table.{find_first, get_row, update_rows}
use cranus.Storage.Db.{Db}
use cranus.Governance.Access.{enforce_authenticated, require_role}
use cranus.Governance.KillSwitch.{enforce_kill_switch}
use cranus.Api.Http.{Response, done, failed, ◌>>=◌, ◌>>◌, or_status}

abbrev pub user_key : User → Str
user_key u = u.id

abbrev pub api_key_id : ApiKey → Str
api_key_id k = k.id

abbrev pub or_failed : {A : Type 0} → ℕ → Option A → Response A
or_failed status_code none = failed status_code
or_failed status_code (some a) = done a

abbrev pub check : Bool → ℕ → Response (Unit {0})
check true status_code = done tt
check false status_code = failed status_code

-- What the API-key mode calls: the index of a token, and the verification of its hash.
pub record Hashing : Type 0 where
  pub lookup_key_for_index : Str → Str
  pub verify_api_key : (token key_hash : Str) → Bool

abbrev pub used_at : ℕ → ApiKey → ApiKey
used_at now k = record k { last_used_at = some now }

abbrev pub is_key_for : Hashing → Str → ApiKey → Bool
is_key_for hashing token k =
    str_eq k.lookup_hash (hashing.lookup_key_for_index token) && not k.revoked

-- `_get_current_user_api_key`
unfoldable pub get_current_user_api_key : Hashing → ℕ → Str → Db → Response (Db × User)
get_current_user_api_key hashing now token db =
    or_failed 401 (find_first (is_key_for hashing token) db.api_keys) >>= λ api_key.
    check (hashing.verify_api_key token api_key.key_hash) 401
    >> (or_failed 401 (get_row user_key api_key.user_id db.users) >>= λ user. done (
      record db { api_keys = update_rows api_key_id api_key.id (used_at now) db.api_keys },
      user,
    ))

-- The claims of a token that passed: its subject and e-mail address, if it has them, and all claims.
pub record Claims : Type 0 where
  pub sub : Option Str
  pub email : Option Str
  pub all : Fields

pub record OidcSettings : Type 0 where
  pub oidc_jwks_url : Str
  pub oidc_issuer : Str
  pub oidc_role_claim : Str
  pub oidc_role_map : List (Str × Str)

-- `s.split(".")`
abbrev pub push_first : ℕ → List Str → List Str
push_first c [] = (c ∷ []) ∷ []
push_first c (s ∷ ss) = (c ∷ s) ∷ ss

unfoldable pub split_dots : Str → List Str
split_dots [] = [] ∷ []
split_dots (c ∷ s) =
    if str_eq (c ∷ []) (codes ".") then [] ∷ split_dots s else push_first c (split_dots s)

-- A missing key and a claim `null` are both `None`.
abbrev pub or_null : Option Json → Json
or_null none = null
or_null (some v) = v

abbrev pub get_key : Str → Json → Json
get_key segment (obj fields) = or_null (get_field segment fields)
get_key segment other = null

unfoldable pub get_claim_path : Json → List Str → Json
get_claim_path value [] = value
get_claim_path value (segment ∷ path) = get_claim_path (get_key segment value) path

abbrev pub field_names : Fields → List Json
field_names end = []
field_names (field k v rest) = str k ∷ field_names rest

-- What the loop over the claim runs through; a number is not iterable, which is an error.
abbrev pub raw_roles : Json → Response (List Json)
raw_roles null = done []
raw_roles (str s) = done (if is_empty s then [] else str s ∷ [])
raw_roles (arr items) = done (items_list items)
raw_roles (obj fields) = done (field_names fields)
raw_roles (bool b) = if b then failed 500 else done []
raw_roles (num n) = elim n [ ℕ.zero ↦ done [] | ℕ.suc m ↦ failed 500 ]

-- `settings.oidc_role_map.get(key)`
abbrev pub mapped_role : List (Str × Str) → Str → Option Str
mapped_role [] key = none
mapped_role ((k, v) ∷ entries) key = if str_eq k key then some v else mapped_role entries key

abbrev pub first_role : Option Str → Str → Str
first_role none rest = rest
first_role (some role) rest = if str_in role roles then role else rest

module _ (lower : Str → Str) (show : Json → Str) where
  unfoldable pub pick_role : List (Str × Str) → List Json → Str
  pick_role role_map [] = role_viewer
  pick_role role_map (raw ∷ raws) =
      first_role (mapped_role role_map (lower (show raw))) (pick_role role_map raws)

  unfoldable pub resolve_role : Fields → OidcSettings → Response Str
  unfolding get_claim_path split_dots pick_role
  resolve_role claims settings =
      raw_roles (get_claim_path (obj claims) (split_dots settings.oidc_role_claim)) >>= λ raws.
      done (pick_role settings.oidc_role_map raws)

  abbrev pub some_text : Option Str → Response Str
  some_text none = failed 401
  some_text (some []) = failed 401
  some_text (some (c ∷ s)) = done (c ∷ s)

  -- `decode` fetches the keys and checks the token: `none` is any error of these.
  unfoldable pub validate_token :
      (Str → Option Claims) → OidcSettings → Str → Response (Str × Str × Option Str)
  unfolding resolve_role
  validate_token decode settings token =
      check (not (is_empty settings.oidc_jwks_url) && not (is_empty settings.oidc_issuer)) 401
      >> (or_failed 401 (decode token) >>= λ claims. some_text claims.sub >>= λ subject.
          resolve_role claims.all settings >>= λ role. done (subject, role, claims.email))

  abbrev pub email_of : Str → Option Str → Str
  email_of subject none = subject ++ codes "@oidc.local"
  email_of subject (some []) = subject ++ codes "@oidc.local"
  email_of subject (some (c ∷ s)) = c ∷ s

  abbrev pub with_role : Str → User → User
  with_role role u = record u { role = role }

  -- The user of this e-mail address, made or brought in line.
  abbrev pub sync_user : Str → Str → Str → Option User → Db → Db × User
  sync_user new_id email role none db =
      let user : User = record { id = new_id; email = email; role = role; revoked = false } in
      (record db { users = db.users ++ user ∷ [] }, user)
  sync_user new_id email role (some user) db = if str_eq user.role role then (db, user) else (
    record db { users = update_rows user_key user.id (with_role role) db.users },
    with_role role user,
  )

  -- `_get_current_user_oidc`; `new_id` is the id of a user that is made.
  unfoldable pub get_current_user_oidc :
      (Str → Option Claims) → OidcSettings → Str → Str → Db → Response (Db × User)
  unfolding validate_token
  get_current_user_oidc decode settings new_id token db =
      validate_token decode settings token >>= λ (subject, role, email_claim).
      let email = email_of subject email_claim in
      done
        (sync_user new_id email role (find_first (λ (u : User). str_eq u.email email) db.users) db)

abbrev pub bearer : Str
bearer = codes "Bearer "

abbrev pub token_of : Option Str → Response Str
token_of none = failed 401
token_of (some authorization) =
    if starts_with bearer authorization then done (drop 7 authorization) else failed 401

-- `authenticate` is the one of the two that the settings choose.
unfoldable pub get_current_user :
    (Str → Db → Response (Db × User)) → Option Str → Db → Response (Db × User)
get_current_user authenticate authorization db = token_of authorization >>= λ token.
    authenticate token db >>= λ (db', user).
    or_status 403 (enforce_authenticated user) >> done (db', user)

unfoldable pub get_current_user_active :
    Bool → (Str → Db → Response (Db × User)) → Option Str → Db → Response (Db × User)
unfolding get_current_user
get_current_user_active enabled_default authenticate authorization db =
    get_current_user authenticate authorization db >>= λ (db', user).
    or_status 503 (enforce_kill_switch enabled_default db') >> done (db', user)

-- The dependency that `require_role(*roles)` makes.
unfoldable pub get_current_user_with_role :
    List Str → (Str → Db → Response (Db × User)) → Option Str → Db → Response (Db × User)
unfolding get_current_user
get_current_user_with_role permitted authenticate authorization db =
    get_current_user authenticate authorization db >>= λ (db', user).
    or_status 403 (require_role user permitted) >> done (db', user)
