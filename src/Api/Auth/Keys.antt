-- ===== src/Api/Auth/Keys.antt =====
-- Whom the API keys of src/cranus/api/deps.py let in.
use cranus.Base.{
  and_left, ℕ, ◌≡◌, refl, ap, sym, subst, ◌∙◌, inl, inr, Bool, true, false, not, ◌&&◌, Option, none,
  some, [], ◌∷◌, ◌++◌, arith, Str, str_eq, str_eq→eq, Bool-cases, Option-cases, Has, drop, length,
  ◌==◌, starts_with,
}
use cranus.Storage.Models.{User, ApiKey}
use cranus.Storage.Table.{find_first, find_first-Has, get_row, update_rows}
use cranus.Storage.Db.{Db}
use cranus.Governance.Access.{enforce_authenticated}
use cranus.Governance.Errors.{access_denied, require}
use cranus.Api.Http.{Response, done, failed, ◌>>=◌, ◌>>◌, or_status}
use cranus.Api.Auth.{
  Hashing, is_key_for, used_at, user_key, api_key_id, get_current_user_api_key, bearer,
  get_current_user,
}

starts_with-drop : (p s : Str) → starts_with p s ≡ true → s ≡ p ++ drop (length p) s
starts_with-drop [] s h = refl
starts_with-drop (c ∷ p) [] h = absurd (cc)
starts_with-drop (c ∷ p) (d ∷ s) h = elim (Bool-cases (c == d)) [
  | inl e ↦
      let same : c ≡ d = ground arith in
      ap (λ x. x ∷ s) (sym same) ∙ ap (λ t. c ∷ t) (starts_with-drop p s (rw e at h))
  | inr e ↦ absurd (ground arith)
]

module _ (hashing : Hashing) (now : ℕ) (db : Db) where
  -- A key on record that is not revoked, that the token verifies, and its user.
  pub record IsKeyed (token : Str) (db' : Db) (user : User) : Type 0 where
    pub api_key : ApiKey
    pub on_record : Has api_key db.api_keys
    pub indexed : api_key.lookup_hash ≡ hashing.lookup_key_for_index token
    pub key_live : api_key.revoked ≡ false
    pub verified : hashing.verify_api_key token api_key.key_hash ≡ true
    pub owned : get_row user_key api_key.user_id db.users ≡ some user
    pub used :
        db' ≡ record db { api_keys = update_rows api_key_id api_key.id (used_at now) db.api_keys }

  -- What an answer to a header says.
  pub data Decision (authorization : Option Str) : Response (Db × User) → Type 0 where
    unknown : Decision authorization (failed 401)
    shut_out :
        (token : Str) (db' : Db) (user : User)
        → authorization ≡ some (bearer ++ token)
        → IsKeyed token db' user
        → user.revoked ≡ true
        → Decision authorization (failed 403)
    let_in :
        (token : Str) (db' : Db) (user : User)
        → authorization ≡ some (bearer ++ token)
        → IsKeyed token db' user
        → user.revoked ≡ false
        → Decision authorization (done (db', user))

  abbrev Keyed : Str → Response (Db × User) → Type 0
  Keyed token (done (db', user)) = IsKeyed token db' user
  Keyed token (failed code) = code ≡ 401

  live : (a b : Bool) → (a && not b) ≡ true → b ≡ false
  live true true h = sym h
  live true false h = refl
  live false b h = ground (arith, h)

  api_key-Keyed : (token : Str) → Keyed token (get_current_user_api_key hashing now token db)
  unfolding get_current_user_api_key
  api_key-Keyed token = elim (Option-cases (find_first (is_key_for hashing token) db.api_keys)) [
    | inl e ↦ rw e refl
    | inr (k, e) ↦ elim (Bool-cases (hashing.verify_api_key token k.key_hash)) [
      | inr v ↦ rw (e, v) refl
      | inl v ↦ elim (Option-cases (get_row user_key k.user_id db.users)) [
        | inl u ↦ rw (e, v, u) refl
        | inr (user, u) ↦
            let (there, fits) = find_first-Has (is_key_for hashing token) db.api_keys k e in
            rw (e, v, u)
              (record {
                api_key = k;
                on_record = there;
                indexed =
                    str_eq→eq _ _
                      (and_left (str_eq k.lookup_hash (hashing.lookup_key_for_index token)) _ fits);
                key_live =
                    live (str_eq k.lookup_hash (hashing.lookup_key_for_index token)) k.revoked fits;
                verified = v;
                owned = u;
                used = refl;
              })
      ]
    ]
  ]

  judged :
      (s : Str) (db' : Db) (user : User)
      → s ≡ bearer ++ drop 7 s
      → IsKeyed (drop 7 s) db' user
      → (b : Bool) → user.revoked ≡ b
      → Decision (some s) (or_status 403 (require (not b) access_denied) >> done (db', user))
  judged s db' user e k true r = shut_out (drop 7 s) db' user (ap some e) k r
  judged s db' user e k false r = let_in (drop 7 s) db' user (ap some e) k r

  Keyed-Decision :
      (s : Str) (r : Response (Db × User))
      → s ≡ bearer ++ drop 7 s
      → Keyed (drop 7 s) r
      → Decision
          (some s)
          (r >>= λ (db', user). or_status 403 (enforce_authenticated user) >> done (db', user))
  unfolding enforce_authenticated
  Keyed-Decision s (failed code) e k = rw k unknown
  Keyed-Decision s (done (db', user)) e k = judged s db' user e k user.revoked refl

  -- In the mode of API keys every request is answered 401, 403 or with a user. A user is let in, and
  -- one that was revoked is answered 403, only if the header is a bearer token that verifies against a
  -- key on record that is not revoked and is the user's own; then only the time of the key's last use
  -- is written.
  pub get_current_user-Decision :
      (authorization : Option Str)
      → Decision authorization
          (get_current_user (get_current_user_api_key hashing now) authorization db)
  unfolding get_current_user
  get_current_user-Decision none = unknown
  get_current_user-Decision (some s) = elim (Bool-cases (starts_with bearer s)) [
    | inr e ↦ rw e unknown
    | inl e ↦ rw e (
        Keyed-Decision s (get_current_user_api_key hashing now (drop 7 s) db)
          (starts_with-drop bearer s e) (api_key-Keyed (drop 7 s)))
  ]

  pub decided :
      (authorization : Option Str) (r : Response (Db × User)) (db' : Db) (user : User)
      → Decision authorization r
      → r ≡ done (db', user)
      → (token : Str) × IsKeyed token db' user × (user.revoked ≡ false)
  decided authorization _ db' user unknown e = absurd (cc)
  decided authorization _ db' user (shut_out token d u h k r) e = absurd (cc)
  decided authorization _ db' user (let_in token d u h k r) e =
      let same : (d, u) ≡ (db', user) = ground (arith, e) in
      let (keyed, still) =
        subst (λ (p : Db × User). IsKeyed token p.0 p.1 × (p.1.revoked ≡ false)) same (k, r) in
      (token, keyed, still)
