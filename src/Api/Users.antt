-- ===== src/Api/Users.antt =====
-- src/cranus/api/routers/admin_users.py, behind the check of the role. The new ids, the new key and its
-- hashes are arguments.
use cranus.Base.{
  true, false, Option, none, some, List, [], ◌∷◌, ◌++◌, Str, str_eq, str_in, if◌then◌else◌,
}
use cranus.Storage.Models.{User, ApiKey, roles}
use cranus.Storage.Table.{find_first, get_row, update_rows}
use cranus.Storage.Db.{Db}
use cranus.Api.Auth.{user_key}

abbrev pub revoked_user : User → User
revoked_user u = record u { revoked = true }

-- `for key in db.query(ApiKey).filter(ApiKey.user_id == user_id): key.revoked = True`
abbrev pub revoke_keys : Str → List ApiKey → List ApiKey
revoke_keys user_id [] = []
revoke_keys user_id (k ∷ ks) =
    (if str_eq k.user_id user_id then record k { revoked = true } else k) ∷ revoke_keys user_id ks

abbrev pub revoke_found : Option User → Db → Db
revoke_found none db = db
revoke_found (some u) db = record db {
  users = update_rows user_key u.id revoked_user db.users;
  api_keys = revoke_keys u.id db.api_keys;
}

unfoldable pub revoke_user : Str → Db → Db
revoke_user user_id db = revoke_found (get_row user_key user_id db.users) db

abbrev pub found_or_new : Str → Str → Str → Option User → Db → Db × User
found_or_new new_id email role (some user) db = (db, user)
found_or_new new_id email role none db =
    let user : User = record { id = new_id; email = email; role = role; revoked = false } in
    (record db { users = db.users ++ user ∷ [] }, user)

-- `none` is the answer that the role is not one of the roles.
unfoldable pub create_user :
    (new_id key_id plaintext key_hash lookup_hash : Str)
    → (email role : Str) → Db
    → Option (Db × User × Str)
create_user new_id key_id plaintext key_hash lookup_hash email role db =
    let (db', user) =
      found_or_new new_id email role (find_first (λ (u : User). str_eq u.email email) db.users)
        db in
    let key : ApiKey = record {
      id = key_id;
      user_id = user.id;
      key_hash = key_hash;
      lookup_hash = lookup_hash;
      revoked = false;
      last_used_at = none;
    } in
    if str_in role roles
    then some (record db' { api_keys = db'.api_keys ++ key ∷ [] }, user, plaintext)
    else none
