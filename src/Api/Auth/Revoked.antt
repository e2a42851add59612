-- ===== src/Api/Auth/Revoked.antt =====
-- What the revocation of a user by src/cranus/api/routers/admin_users.py does to the API keys of
-- src/cranus/api/deps.py.
use cranus.Base.{
  ℕ, ◌≡◌, refl, ap, sym, subst, ◌∙◌, ◌≢◌, inl, inr, true, false, Option, none, some, List, [], ◌∷◌,
  arith, Str, str_eq, str_eq→eq, str_eq_refl, Bool-cases,
}
use cranus.Storage.Models.{User, ApiKey}
use cranus.Storage.Table.{find_first, find_first-Has, get_row, update_rows}
use cranus.Storage.Db.{Db}
use cranus.Api.Http.{done}
use cranus.Api.Auth.{Hashing, user_key, get_current_user_api_key, get_current_user}
use cranus.Api.Users.{revoke_keys, revoke_found, revoke_user}
use cranus.Base.{◌⊎◌, All, All-append, All-Has, str_in, true_ne_false}
use cranus.Api.Users.{revoked_user, found_or_new, create_user}
use cranus.Storage.Models.{roles}
use cranus.Api.Auth.Keys.{IsKeyed, decided, get_current_user-Decision}

abbrev users_of : Option (Db × User × Str) → List User
users_of none = []
users_of (some (db, user, key)) = db.users

abbrev IsKeyRevoked : Str → ApiKey → Type 0
IsKeyRevoked user_id k = (k.user_id ≢ user_id) ⊎ (k.revoked ≡ true)

abbrev IsUserRevoked : Str → User → Type 0
IsUserRevoked user_id u = (u.id ≢ user_id) ⊎ (u.revoked ≡ true)

str_eq-ne : (a b : Str) → str_eq a b ≡ false → a ≢ b
str_eq-ne a b e same = ground (arith, e, str_eq_refl a, ap (str_eq a) same)

revoke_keys-IsKeyRevoked :
    (user_id : Str) (ks : List ApiKey) → All (IsKeyRevoked user_id) (revoke_keys user_id ks)
revoke_keys-IsKeyRevoked user_id [] = tt
revoke_keys-IsKeyRevoked user_id (k ∷ ks) = elim (Bool-cases (str_eq k.user_id user_id)) [
  | inl e ↦ rw e (inr refl, revoke_keys-IsKeyRevoked user_id ks)
  | inr e ↦ rw e (inl (str_eq-ne _ _ e), revoke_keys-IsKeyRevoked user_id ks)
]

update_rows-IsUserRevoked :
    (user_id : Str) (us : List User)
    → All (IsUserRevoked user_id) (update_rows user_key user_id revoked_user us)
update_rows-IsUserRevoked user_id [] = tt
update_rows-IsUserRevoked user_id (u ∷ us) = elim (Bool-cases (str_eq u.id user_id)) [
  | inl e ↦ rw e (inr refl, update_rows-IsUserRevoked user_id us)
  | inr e ↦ rw e (inl (str_eq-ne _ _ e), update_rows-IsUserRevoked user_id us)
]

get_row-key :
    (id : Str) (users : List User) (u : User) → get_row user_key id users ≡ some u → u.id ≡ id
get_row-key id users u e =
    str_eq→eq u.id id (find_first-Has (λ (x : User). str_eq x.id id) users u e).1

-- The database after users were created in it, none of them with this id: the ids of new users are
-- drawn at random.
pub data Later (user_id : Str) (db : Db) : Db → Type 0 where
  at_once : Later user_id db db
  created :
      (db1 db2 : Db) (made : User) (key : Str)
      (new_id key_id plaintext key_hash lookup_hash email role : Str)
      → Later user_id db db1
      → new_id ≢ user_id
      → create_user new_id key_id plaintext key_hash lookup_hash email role db1
        ≡ some (db2, made, key)
      → Later user_id db db2

module _ (user_id : Str) where
  abbrev IsShut : Db → Type 0
  IsShut db = All (IsUserRevoked user_id) db.users

  found_or_new-IsShut :
      (db : Db) (new_id email role : Str) (o : Option User)
      → new_id ≢ user_id
      → IsShut db
      → IsShut (found_or_new new_id email role o db).0
  found_or_new-IsShut db new_id email role (some u) ne h = h
  found_or_new-IsShut db new_id email role none ne h =
      All-append (IsUserRevoked user_id) db.users _ h (inl ne, tt)

  create_user-IsShut :
      (db db' : Db) (made : User)
      (key new_id key_id plaintext key_hash lookup_hash email role : Str)
      → new_id ≢ user_id
      → create_user new_id key_id plaintext key_hash lookup_hash email role db
        ≡ some (db', made, key)
      → IsShut db
      → IsShut db'
  unfolding create_user
  create_user-IsShut db db' made key new_id key_id plaintext key_hash lookup_hash email role ne e
        h =
      let o = find_first (λ (u : User). str_eq u.email email) db.users in
      elim (Bool-cases (str_in role roles)) [
        | inr q ↦ absurd (ground (arith, rw q at e))
        | inl q ↦
            subst (λ (us : List User). All (IsUserRevoked user_id) us)
              (ap (λ (p : Option (Db × User × Str)). users_of p) (rw q at e))
              (found_or_new-IsShut db new_id email role o ne h)
      ]

  Later-IsShut : (db db' : Db) → IsShut db → Later user_id db db' → IsShut db'
  Later-IsShut db _ h at_once = h
  Later-IsShut db _ h
        (created db1 db2 made key new_id key_id plaintext key_hash lookup_hash email role l ne e) =
      create_user-IsShut db1 db2 made key new_id key_id plaintext key_hash lookup_hash email role ne
        e (Later-IsShut db db1 h l)

  revoke_found-IsShut :
      (db : Db) (u : User) (o : Option User)
      → u.id ≡ user_id
      → o ≡ some u
      → All (IsKeyRevoked user_id) (revoke_found o db).api_keys × IsShut (revoke_found o db)
  revoke_found-IsShut db u none same e = absurd (cc)
  revoke_found-IsShut db u (some v) same e =
      let v_id : v.id ≡ user_id =
        let vu : v ≡ u = ground (arith, e) in ap (λ (x : User). x.id) vu ∙ same in
      subst
        (λ i.
          All (IsKeyRevoked i) (revoke_keys v.id db.api_keys)
          × All (IsUserRevoked i) (update_rows user_key v.id revoked_user db.users))
        v_id (revoke_keys-IsKeyRevoked v.id db.api_keys, update_rows-IsUserRevoked v.id db.users)

  keyed_user :
      (hashing : Hashing) (now : ℕ) (token : Str) (db db' : Db) (user : User)
      → IsShut db
      → IsKeyed hashing now db token db' user
      → user.revoked ≡ false
      → user.id ≢ user_id
  keyed_user hashing now token db db' user h k live same =
      elim (All-Has (IsUserRevoked user_id) user db.users h
        (find_first-Has (λ (x : User). str_eq x.id k.api_key.user_id) db.users user k.owned).0) [
          | inl ne ↦ ne same
          | inr r ↦ true_ne_false (sym r ∙ live)
        ]

module _ (hashing : Hashing) (now : ℕ) where
  -- When a user on record is revoked, each of its keys is revoked at once, and no API key lets the user in
  -- again: also not after any number of users were created, none of them with the id of the revoked one,
  -- where the call with the e-mail address of the revoked one makes it a new key.
  pub revoke_user-get_current_user :
      (user_id : Str) (db later db' : Db) (u : User) (authorization : Option Str) (user : User)
      → get_row user_key user_id db.users ≡ some u
      → Later user_id (revoke_user user_id db) later
      → get_current_user (get_current_user_api_key hashing now) authorization later
        ≡ done (db', user)
      → All
          (λ (k : ApiKey). (k.user_id ≢ user_id) ⊎ (k.revoked ≡ true))
          (revoke_user user_id db).api_keys
        × (user.id ≢ user_id)
  unfolding revoke_user
  revoke_user-get_current_user user_id db later db' u authorization user on_record l e =
      let (keys, shut) =
        revoke_found-IsShut user_id db u (get_row user_key user_id db.users)
          (get_row-key user_id db.users u on_record) on_record in
      let (token, keyed, live) =
        decided hashing now later authorization _ db' user
          (get_current_user-Decision hashing now later authorization) e in
      (
        keys,
        keyed_user user_id hashing now token later db' user
            (Later-IsShut user_id (revoke_found (get_row user_key user_id db.users) db) later shut
              l)
            keyed live,
      )
