-- ===== src/Api/Auth/Ratchet.antt =====
-- The kill switch against the dependencies of src/cranus/api/deps.py: it freezes the queries, and it
-- cannot lock administrators out.
use cranus.Base.{
  ℕ, ◌≡◌, refl, ap, sym, ◌∙◌, ◌≢◌, inl, inr, Bool, true, false, not, Option, List, Str, Bool-cases,
  Option-cases, str_in,
}
use cranus.Storage.Models.{User}
use cranus.Storage.Table.{find_first, get_row}
use cranus.Storage.Db.{Db}
use cranus.Governance.Errors.{access_denied, require}
use cranus.Governance.Access.{enforce_authenticated, require_role}
use cranus.Governance.KillSwitch.{set_enabled, enforce_kill_switch, is_enabled}
use cranus.Api.Http.{Response, done, failed, ◌>>=◌, ◌>>◌, or_status}
use cranus.Api.Auth.{
  Hashing, is_key_for, user_key, get_current_user_api_key, token_of, get_current_user,
  get_current_user_active, get_current_user_with_role,
}

abbrev pub map_db : (Db → Db) → Response (Db × User) → Response (Db × User)
map_db f (done (db, user)) = done (f db, user)
map_db f (failed code) = failed code

module _ (hashing : Hashing) (now : ℕ) (enabled : Bool) (time : ℕ) where
  abbrev switch : Db → Db
  switch db = set_enabled db enabled time

  api_key-switch :
      (token : Str) (db : Db)
      → get_current_user_api_key hashing now token (switch db)
        ≡ map_db switch (get_current_user_api_key hashing now token db)
  unfolding get_current_user_api_key set_enabled
  api_key-switch token db =
      elim (Option-cases (find_first (is_key_for hashing token) db.api_keys)) [
        | inl e ↦ rw e refl
        | inr (k, e) ↦ elim (Bool-cases (hashing.verify_api_key token k.key_hash)) [
          | inr v ↦ rw (e, v) refl
          | inl v ↦ elim (Option-cases (get_row user_key k.user_id db.users)) [
            | inl u ↦ rw (e, v, u) refl
            | inr (user, u) ↦ rw (e, v, u) refl
          ]
        ]
      ]

  map-check :
      (b : Bool) (db : Db) (user : User)
      → (or_status 403 (require b access_denied) >> done (switch db, user))
        ≡ map_db switch (or_status 403 (require b access_denied) >> done (db, user))
  map-check true db user = refl
  map-check false db user = refl

  user-switch :
      (r : Response (Db × User))
      → (map_db switch r >>= λ (db', user).
          or_status 403 (enforce_authenticated user) >> done (db', user))
        ≡ map_db switch
            (r >>= λ (db', user). or_status 403 (enforce_authenticated user) >> done (db', user))
  unfolding enforce_authenticated
  user-switch (done (db, user)) = map-check (not user.revoked) db user
  user-switch (failed code) = refl

  token-switch :
      (t : Response Str) (db : Db)
      → (t >>= λ token. get_current_user_api_key hashing now token (switch db) >>= λ (db', user).
          or_status 403 (enforce_authenticated user) >> done (db', user))
        ≡ map_db switch (
            t >>= λ token. get_current_user_api_key hashing now token db >>= λ (db', user).
            or_status 403 (enforce_authenticated user) >> done (db', user))
  token-switch (failed code) db = refl
  token-switch (done token) db =
      ap (λ r. r >>= λ (db', user). or_status 403 (enforce_authenticated user) >> done (db', user))
        (api_key-switch token db)
      ∙ user-switch (get_current_user_api_key hashing now token db)

  current-switch :
      (authorization : Option Str) (db : Db)
      → get_current_user (get_current_user_api_key hashing now) authorization (switch db)
        ≡ map_db switch (get_current_user (get_current_user_api_key hashing now) authorization db)
  unfolding get_current_user
  current-switch authorization db = token-switch (token_of authorization) db

  role-switch :
      (permitted : List Str) (r : Response (Db × User))
      → (map_db switch r >>= λ (db', user).
          or_status 403 (require_role user permitted) >> done (db', user))
        ≡ map_db switch
            (r >>= λ (db', user). or_status 403 (require_role user permitted) >> done (db', user))
  unfolding require_role
  role-switch permitted (done (db, user)) = map-check (str_in user.role permitted) db user
  role-switch permitted (failed code) = refl

  -- Whoever may use a route by role and API key may use it whatever the kill switch is set to: the
  -- answer is the same, but for the switch itself in the database.
  pub get_current_user_with_role-set_enabled :
      (permitted : List Str) (authorization : Option Str) (db : Db)
      → get_current_user_with_role permitted
          (get_current_user_api_key hashing now)
          authorization
          (set_enabled db enabled time)
        ≡ map_db
            (λ db'. set_enabled db' enabled time)
            (get_current_user_with_role permitted
              (get_current_user_api_key hashing now)
              authorization
              db)
  unfolding get_current_user_with_role
  get_current_user_with_role-set_enabled permitted authorization db =
      ap (λ r. r >>= λ (db', user). or_status 403 (require_role user permitted) >> done (db', user))
        (current-switch authorization db)
      ∙ role-switch permitted
          (get_current_user (get_current_user_api_key hashing now) authorization db)

module _ (hashing : Hashing) (now : ℕ) (time : ℕ) (enabled_default : Bool) where
  frozen :
      (r : Response (Db × User)) (answer : Db × User)
      → (map_db (λ db. set_enabled db true time) r >>= λ (db', user).
          or_status 503 (enforce_kill_switch enabled_default db') >> done (db', user))
        ≢ done answer
  unfolding enforce_kill_switch is_enabled set_enabled
  frozen (done (db, user)) answer e = cc
  frozen (failed code) answer e = cc

  -- While the kill switch is set, no API key gets through to the query routes.
  pub get_current_user_active-set_enabled :
      (authorization : Option Str) (db : Db) (answer : Db × User)
      → get_current_user_active enabled_default
          (get_current_user_api_key hashing now)
          authorization
          (set_enabled db true time)
        ≢ done answer
  unfolding get_current_user_active
  get_current_user_active-set_enabled authorization db answer e =
      frozen (get_current_user (get_current_user_api_key hashing now) authorization db) answer (
        ap
          (λ r. r >>= λ (db', user).
            or_status 503 (enforce_kill_switch enabled_default db') >> done (db', user))
          (sym (current-switch hashing now true time authorization db))
        ∙ e)
