-- ===== src/Api/Auth/Roles.antt =====
-- The roles that src/cranus/api/oidc_auth.py gives, and the users that src/cranus/api/deps.py keeps by them.
use cranus.Base.{
  ◌≡◌, refl, sym, ap, ◌∙◌, subst, ◌⊎◌, inl, inr, false, ◌++◌, All, Has→str_in, true_ne_false, not,
  ◌&&◌, Option, none, some, List, [], ◌∷◌, Str, str_eq, str_eq→eq, str_in, str_in→Has, Bool-cases,
  Option-cases, Has, is_empty,
}
use cranus.Storage.Json.{Json, Fields, obj}
use cranus.Storage.Models.{User, role_viewer, roles}
use cranus.Storage.Table.{find_first, update_rows}
use cranus.Storage.Db.{Db}
use cranus.Api.Http.{Response, done, failed, ◌>>=◌}
use cranus.Api.Auth.{
  user_key, Claims, OidcSettings, mapped_role, first_role, pick_role, raw_roles, get_claim_path,
  split_dots, resolve_role, some_text, validate_token, sync_user, email_of, get_current_user_oidc,
}

bind-done :
    {A B C : Type 0} (m : Response A) (f : A → B) (g : B → Response C)
    → ((m >>= λ a. done (f a)) >>= g) ≡ (m >>= λ a. g (f a))
bind-done (done a) f g = refl
bind-done (failed code) f g = refl

module _ (lower : Str → Str) (show : Json → Str) (role_map : List (Str × Str)) where
  -- The map takes the claim to this one of the program's roles.
  abbrev pub IsGranted : Str → Json → Type 0
  IsGranted role raw = (mapped_role role_map (lower (show raw)) ≡ some role) × Has role roles

  -- The map does not know the claim, or takes it to what is no role of the program.
  abbrev pub IsUngranted : Json → Type 0
  IsUngranted raw =
      (mapped_role role_map (lower (show raw)) ≡ none)
      ⊎ ((name : Str) × (mapped_role role_map (lower (show raw)) ≡ some name)
          × (¬ (Has name roles)))

  pub record FirstGranted (role : Str) (raws : List Json) : Type 0 where
    pub before : List Json
    pub raw : Json
    pub after : List Json
    pub split : raws ≡ before ++ raw ∷ after
    pub ungranted : All IsUngranted before
    pub granted : IsGranted role raw

  -- The role of the first claim that is granted one, or the lowest role if no claim is.
  abbrev pub IsPicked : Str → List Json → Type 0
  IsPicked role raws = FirstGranted role raws ⊎ (All IsUngranted raws × (role ≡ role_viewer))

  later :
      (role : Str) (raw : Json) (raws : List Json)
      → IsUngranted raw
      → IsPicked role raws
      → IsPicked role (raw ∷ raws)
  later role raw raws u (inl f) = inl (record {
    before = raw ∷ f.before;
    raw = f.raw;
    after = f.after;
    split = ap (λ l. raw ∷ l) f.split;
    ungranted = (u, f.ungranted);
    granted = f.granted;
  })
  later role raw raws u (inr (us, e)) = inr ((u, us), e)

  first_role-IsPicked :
      (raw : Json) (raws : List Json) (o : Option Str) (rest : Str)
      → mapped_role role_map (lower (show raw)) ≡ o
      → IsPicked rest raws
      → IsPicked (first_role o rest) (raw ∷ raws)
  first_role-IsPicked raw raws none rest e p = later rest raw raws (inl e) p
  first_role-IsPicked raw raws (some role) rest e p = elim (Bool-cases (str_in role roles)) [
    | inl m ↦ rw m (
        inl (record {
          before = [];
          raw = raw;
          after = raws;
          split = refl;
          ungranted = tt;
          granted = (e, str_in→Has role roles m);
        }))
    | inr m ↦ rw m (
        later rest raw raws (inr (role, e, λ h. true_ne_false (sym (Has→str_in role roles h) ∙ m)))
          p)
  ]

  pick_role-IsPicked : (raws : List Json) → IsPicked (pick_role lower show role_map raws) raws
  unfolding pick_role
  pick_role-IsPicked [] = inr (tt, refl)
  pick_role-IsPicked (raw ∷ raws) =
      first_role-IsPicked raw raws (mapped_role role_map (lower (show raw)))
        (pick_role lower show role_map raws) refl (pick_role-IsPicked raws)

module _ (lower : Str → Str) (show : Json → Str) (settings : OidcSettings) where
  -- What a token is given a role for.
  pub record IsResolved (claims : Fields) (role : Str) : Type 0 where
    pub raws : List Json
    pub read :
        raw_roles (get_claim_path (obj claims) (split_dots settings.oidc_role_claim)) ≡ done raws
    pub picked : IsPicked lower show settings.oidc_role_map role raws

  abbrev Resolves : Fields → Response Str → Type 0
  Resolves claims (done role) = IsResolved claims role
  Resolves claims (failed code) = Unit {0}

  picked-Resolves :
      (claims : Fields) (r : Response (List Json))
      → raw_roles (get_claim_path (obj claims) (split_dots settings.oidc_role_claim)) ≡ r
      → Resolves claims (r >>= λ raws. done (pick_role lower show settings.oidc_role_map raws))
  picked-Resolves claims (failed code) e = tt
  picked-Resolves claims (done raws) e = record {
    raws = raws;
    read = e;
    picked = pick_role-IsPicked lower show settings.oidc_role_map raws;
  }

  resolve_role-Resolves :
      (claims : Fields) → Resolves claims (resolve_role lower show claims settings)
  unfolding resolve_role
  resolve_role-Resolves claims =
      picked-Resolves claims
        (raw_roles (get_claim_path (obj claims) (split_dots settings.oidc_role_claim))) refl

  module _ (decode : Str → Option Claims) (new_id token : Str) (db : Db) where
    -- The first user of the e-mail address is given the role, in its row alone; if there is none, a
    -- user is added that has it and is not revoked.
    pub data IsSynced (email role : Str) (db' : Db) (user : User) : Type 0 where
      found :
          (u : User)
          → find_first (λ (x : User). str_eq x.email email) db.users ≡ some u
          → user ≡ record { id = u.id; email = u.email; role = role; revoked = u.revoked }
          → (db' ≡ db) × (u.role ≡ role)
            ⊎ (db' ≡ record db {
              users = update_rows user_key u.id (λ (x : User). record x { role = role }) db.users;
            })
          → IsSynced email role db' user
      added :
          find_first (λ (x : User). str_eq x.email email) db.users ≡ none
          → user ≡ record { id = new_id; email = email; role = role; revoked = false }
          → db' ≡ record db { users = db.users ++ user ∷ [] }
          → IsSynced email role db' user

    sync_user-IsSynced :
        (email role : Str) (o : Option User)
        → find_first (λ (x : User). str_eq x.email email) db.users ≡ o
        → let (db', user) = sync_user lower show new_id email role o db in
          IsSynced email role db' user
    sync_user-IsSynced email role none e = added e refl refl
    sync_user-IsSynced email role (some u) e = elim (Bool-cases (str_eq u.role role)) [
      | inl q ↦
          let same = str_eq→eq u.role role q in
          rw q (
            found u e
              (ap (λ r. record { id = u.id; email = u.email; role = r; revoked = u.revoked }) same)
              (inl (refl, same)))
      | inr q ↦ rw q (found u e refl (inr refl))
    ]

    -- The user stands for a token that passed, and has the role that its claims are given; the
    -- user of its e-mail address is made, or is given this role.
    pub record IsIdentified (db' : Db) (user : User) : Type 0 where
      pub claims : Claims
      pub subject : Str
      pub role : Str
      pub decoded : decode token ≡ some claims
      pub has_subject : claims.sub ≡ some subject
      pub resolved : IsResolved claims.all role
      pub user_role : user.role ≡ role
      pub synced : IsSynced (email_of lower show subject claims.email) role db' user

    abbrev Identified : Response (Db × User) → Type 0
    Identified (done (db', user)) = IsIdentified db' user
    Identified (failed code) = Unit {0}

    sync_user-role :
        (email role : Str) (o : Option User)
        → (sync_user lower show new_id email role o db).1.role ≡ role
    sync_user-role email role none = refl
    sync_user-role email role (some u) = elim (Bool-cases (str_eq u.role role)) [
      | inl e ↦ rw e (str_eq→eq u.role role e)
      | inr e ↦ rw e refl
    ]

    abbrev synced_as : Str → Option Str → Str → Response (Db × User)
    synced_as subject email_claim role =
        let email = email_of lower show subject email_claim in
        done (
          sync_user lower show new_id email role
            (find_first (λ (u : User). str_eq u.email email) db.users) db)

    resolved-Identified :
        (claims : Claims) (subject : Str) (r : Response Str)
        → decode token ≡ some claims
        → claims.sub ≡ some subject
        → Resolves claims.all r
        → Identified (r >>= synced_as subject claims.email)
    resolved-Identified claims subject (failed code) e h k = tt
    resolved-Identified claims subject (done role) e h k =
        let email = email_of lower show subject claims.email in
        record {
          claims = claims;
          subject = subject;
          role = role;
          decoded = e;
          has_subject = h;
          resolved = k;
          user_role =
              sync_user-role email role (find_first (λ (u : User). str_eq u.email email) db.users);
          synced = sync_user-IsSynced email role _ refl;
        }

    subject-Identified :
        (claims : Claims) (o : Option Str)
        → decode token ≡ some claims
        → claims.sub ≡ o
        → Identified (
            (some_text lower show o >>= λ subject.
            resolve_role lower show claims.all settings >>= λ role.
            done (subject, role, claims.email))
            >>= λ (subject, role, email_claim). synced_as subject email_claim role)
    subject-Identified claims none e h = tt
    subject-Identified claims (some []) e h = tt
    subject-Identified claims (some (c ∷ s)) e h =
        subst Identified
          (sym (
            bind-done (resolve_role lower show claims.all settings)
              (λ role. (c ∷ s, role, claims.email))
              (λ (subject, role, email_claim). synced_as subject email_claim role)))
          (resolved-Identified claims (c ∷ s) (resolve_role lower show claims.all settings) e h
            (resolve_role-Resolves claims.all))

    oidc-Identified : Identified (get_current_user_oidc lower show decode settings new_id token db)
    unfolding get_current_user_oidc validate_token
    oidc-Identified =
        elim (Bool-cases
          (not (is_empty settings.oidc_jwks_url) && not (is_empty settings.oidc_issuer))) [
            | inr e ↦ rw e tt
            | inl e ↦ elim (Option-cases (decode token)) [
              | inl d ↦ rw (e, d) tt
              | inr (claims, d) ↦ rw (e, d) (subject-Identified claims claims.sub d refl)
            ]
          ]

    -- In the mode of identity providers a user is returned only for a token that passed and that has a
    -- subject. Its role is the first that the claim and the map grant and that is a role of the program,
    -- or else the lowest; the user of the claimed e-mail address, made up from the subject if there is
    -- none, is made with this role or given it, and no other row is changed.
    pub get_current_user_oidc-IsIdentified :
        (db' : Db) (user : User)
        → get_current_user_oidc lower show decode settings new_id token db ≡ done (db', user)
        → IsIdentified db' user
    get_current_user_oidc-IsIdentified db' user e = subst Identified e oidc-Identified
