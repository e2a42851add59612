-- ===== src/Api/Connectors/Scoped.antt =====
-- Which jobs `run_connector` of src/cranus/api/routers/admin_connectors.py queues.
use cranus.Base.{
  ℕ, ◌≡◌, ◌≢◌, refl, sym, ap, subst, ◌∙◌, ◌↔◌, inl, inr, Bool, true, false, Option, none, some,
  List, [], ◌∷◌, ◌++◌, Str, codes, str_eq, str_eq_refl, Bool-cases, true_ne_false, if_cases,
  if◌then◌else◌,
}
use cranus.Storage.Json.{
  Json, Fields, null, bool, num, str, arr, obj, end, field, get_field, truthy,
}
use cranus.Storage.Models.{IngestionJob, pending}
use cranus.Storage.Table.{get_row}
use cranus.Storage.Db.{Db}
use cranus.Governance.Errors.{Result, ok, raise}
use cranus.Governance.Engagements.Scope.{IsAuthorized, enforce_engagement_scope-exact}
use cranus.Ingestion.Items.{register_source}
use cranus.Api.Http.{Response, done, failed, ◌>>=◌, ◌>>◌, or_status}
use cranus.Api.Auth.{or_failed}
use cranus.Api.Connectors.{
  Registered, registered_name, set_field, given_target, enforce_target, enforce_given, enforce_gate,
  with_engagement, Message, new_job, publish_if, run_connector,
}

-- Setting a field sets it.
get_field-set_field :
    (key : Str) (v : Json) (fs : Fields) → get_field key (set_field key v fs) ≡ some v
unfolding get_field set_field
get_field-set_field key v end = rw (str_eq_refl key)
get_field-set_field key v (field k w rest) = elim (Bool-cases (str_eq k key)) [
  | inl e ↦ rw (e, e)
  | inr e ↦ rw (e, e) (get_field-set_field key v rest)
]

or_failed-done :
    {A B : Type 0} (c : ℕ) (o : Option A) (f : A → Response B) (b : B)
    → (or_failed c o >>= f) ≡ done b
    → (a : A) × (o ≡ some a) × (f a ≡ done b)
or_failed-done c none f b h = absurd (cc)
or_failed-done c (some a) f b h = (a, refl, h)

bind-done :
    {A B : Type 0} (m : Response A) (f : A → Response B) (b : B)
    → (m >>= f) ≡ done b
    → (a : A) × (m ≡ done a) × (f a ≡ done b)
bind-done (done a) f b h = (a, refl, h)
bind-done (failed c) f b h = absurd (cc)

done_injective : {A : Type 0} (a b : A) → done a ≡ done b → a ≡ b
done_injective a b e = cc

module _ (lower : Str → Str) (db : Db) (now : ℕ) (engagement_id : Option Str) where
  -- The target is a text, and the engagement covers it.
  abbrev pub IsCovered : Option Json → Type 0
  IsCovered target =
      (t : Str) × (target ≡ some (str t)) × (t ≢ []) × IsAuthorized lower db now engagement_id t

  status-ok : (c : ℕ) (r : Result (Unit {0})) → or_status c r ≡ done tt → r ≡ ok tt
  status-ok c (ok tt) h = refl
  status-ok c (raise e) h = absurd (cc)

  failed_after : (m : Response (Unit {0})) (c : ℕ) → (m >> failed c) ≢ done tt
  failed_after (done a) c h = cc
  failed_after (failed d) c h = cc

  some_text : (s : Str) → truthy (str s) ≡ true → s ≢ []
  some_text s e q = true_ne_false (sym e ∙ ap (λ t. truthy (str t)) q)

  target-IsCovered :
      (v : Json)
      → truthy v ≡ true
      → enforce_target lower db now engagement_id v ≡ done tt
      → IsCovered (some v)
  target-IsCovered (str s) e h = (
    s,
    refl,
    some_text s e,
    (enforce_engagement_scope-exact lower db now engagement_id s).0 (status-ok 403 _ h),
  )
  target-IsCovered null e h = absurd (failed_after _ 500 h)
  target-IsCovered (bool b) e h = absurd (failed_after _ 500 h)
  target-IsCovered (num n) e h = absurd (failed_after _ 500 h)
  target-IsCovered (arr vs) e h = absurd (failed_after _ 500 h)
  target-IsCovered (obj fs) e h = absurd (failed_after _ 500 h)

  given-IsCovered :
      (target : Option Json)
      → enforce_given lower db now engagement_id (given_target target) ≡ done tt
      → IsCovered target
  given-IsCovered none h = absurd (cc)
  given-IsCovered (some v) h = elim (Bool-cases (truthy v)) [
    | inl e ↦ target-IsCovered v e (rw e at h)
    | inr e ↦ absurd (failed_not_done (rw e at h))
  ]
    where
      failed_not_done : ◌≢◌ {A = Response (Unit {0})} (failed 400) (done tt)
      failed_not_done h = cc

  IsCovered-given :
      (target : Option Json)
      → IsCovered target
      → enforce_given lower db now engagement_id (given_target target) ≡ done tt
  IsCovered-given target (t, e, ne, a) = rw e (covered t ne a)
    where
      covered :
          (t : Str)
          → t ≢ []
          → IsAuthorized lower db now engagement_id t
          → enforce_given lower db now engagement_id (given_target (some (str t))) ≡ done tt
      covered [] ne a = absurd (ne refl)
      covered (c ∷ s) ne a =
          rw ((enforce_engagement_scope-exact lower db now engagement_id (c ∷ s)).1 a) refl

  gate-IsCovered :
      (connector : Registered) (params : Fields)
      → enforce_gate lower db now connector params engagement_id ≡ done tt
      → connector.requires_engagement ≡ true
      → IsCovered (get_field (codes "target") params)
  gate-IsCovered connector params h e =
      given-IsCovered _ (gated connector.requires_engagement _ (done tt) (done tt) e h)
    where
      gated : (b : Bool) (x y a : Response (Unit {0})) → b ≡ true → (if b then x else y) ≡ a → x ≡ a
      gated true x y a e h = h
      gated false x y a e h = absurd (cc)

  -- The connector is registered, and where it looks targets up, the request's target is covered.
  pub record IsAllowed (registry : List Registered) (name : Str) (params : Fields) : Type 0 where
    pub connector : Registered
    pub registered : get_row registered_name name registry ≡ some connector
    pub covered :
        connector.requires_engagement ≡ true → IsCovered (get_field (codes "target") params)

  IsAllowed-gate :
      (connector : Registered) (params : Fields)
      → (connector.requires_engagement ≡ true → IsCovered (get_field (codes "target") params))
      → enforce_gate lower db now connector params engagement_id ≡ done tt
  IsAllowed-gate connector params covered =
      if_cases (λ r. r ≡ done tt) connector.requires_engagement _ _
        (λ e. IsCovered-given _ (covered e)) (λ e. refl)

  -- A pending job is added behind the others, which names the engagement if one was given, and the message for it is
  -- published exactly when jobs go by the broker.
  pub record IsQueued (is_kafka : Bool) (job_id name : Str)
      (out : Db × (IngestionJob × List Message)) : Type 0 where
    pub queued : out.0.ingestion_jobs ≡ db.ingestion_jobs ++ out.1.0 ∷ []
    pub id : out.1.0.id ≡ job_id
    pub status : out.1.0.status ≡ pending
    pub connector_name : out.1.0.connector_name ≡ name
    pub engagement :
        (id : Str)
        → engagement_id ≡ some id
        → id ≢ []
        → get_field (codes "engagement_id") out.1.0.params ≡ some (str id)
    pub published : out.1.1 ≡ publish_if is_kafka out.1.0

  recorded :
      (params : Fields) (given : Option Str) (id : Str)
      → given ≡ some id
      → id ≢ []
      → get_field (codes "engagement_id") (with_engagement given params) ≡ some (str id)
  recorded params given [] e ne = absurd (ne refl)
  recorded params given (c ∷ id) e ne = rw e (get_field-set_field (codes "engagement_id") _ params)

  module _ (registry : List Registered) (is_kafka : Bool) (job_id name : Str)
      (params : Fields) where
    abbrev ran : Response (Db × (IngestionJob × List Message))
    ran = run_connector lower registry is_kafka job_id now name params engagement_id db

    ran-IsQueued :
        (out : Db × (IngestionJob × List Message))
        → ran ≡ done out
        → IsAllowed registry name params × IsQueued is_kafka job_id name out
    unfolding run_connector
    ran-IsQueued out h =
        let (connector, found, k) = or_failed-done 500 _ _ out h in
        let (passed, gate, same) = bind-done _ _ out k in
        (
          record {
            connector = connector;
            registered = found;
            covered = gate-IsCovered connector params gate;
          },
          subst (IsQueued is_kafka job_id name) (done_injective _ _ same) (record {
            queued = refl;
            id = refl;
            status = refl;
            connector_name = refl;
            engagement = recorded params engagement_id;
            published = refl;
          }),
        )

    IsAllowed-ran :
        IsAllowed registry name params
        → (out : Db × (IngestionJob × List Message)) × (ran ≡ done out)
    unfolding run_connector
    IsAllowed-ran a =
        let job = new_job job_id now name (with_engagement engagement_id params) in
        (
          (
            record db {
              sources = register_source name a.connector.default_license db.sources;
              ingestion_jobs = db.ingestion_jobs ++ job ∷ [];
            },
            (job, publish_if is_kafka job),
          ),
          rw (a.registered, IsAllowed-gate a.connector params a.covered) refl,
        )

    -- A request queues a job exactly when its connector is registered and, if that one looks targets up, the
    -- request names a target that is a text and an engagement that is on record, in force and covers it. The job is
    -- then pending behind the others, records the engagement, and is published exactly when jobs go by the
    -- broker.
    pub run_connector-IsQueued :
        (((out : Db × (IngestionJob × List Message)) × (ran ≡ done out))
          ↔ IsAllowed registry name params)
        × ((out : Db × (IngestionJob × List Message))
            → ran ≡ done out
            → IsQueued is_kafka job_id name out)
    run_connector-IsQueued =
        ((λ h. (ran-IsQueued h.0 h.1).0, IsAllowed-ran), λ out h. (ran-IsQueued out h).1)
