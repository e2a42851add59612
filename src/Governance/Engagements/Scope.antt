-- ===== src/Governance/Engagements/Scope.antt =====
-- Which targets src/cranus/governance/engagements.py lets through, and what a revocation ends.
use cranus.Base.{
  ℕ, ◌≤◌, ◌≡◌, refl, sym, ap, subst, ◌∙◌, ◌≢◌, ◌↔◌, ◌⊎◌, inl, inr, Bool, true, ◌||◌, Option, none,
  some, [], ◌∷◌, ◌++◌, arith, Str, codes, str_eq, str_eq→eq, str_eq_refl, ends_with, Bool-cases,
  Option-cases,
}
use cranus.Storage.Models.{Engagement}
use cranus.Storage.Db.{Db}
use cranus.Governance.Errors.{access_denied, Result, ok, require, ◌>>=◌, ◌>>◌}
use cranus.Governance.Engagements.{
  normalize, target_in_scope, get_engagement, is_active, or_denied, enforce_engagement_scope,
}

ends_with→split : (p s : Str) → ends_with p s ≡ true → (q : Str) × (s ≡ q ++ p)
ends_with→split p [] h = ([], sym (str_eq→eq p [] h))
ends_with→split p (c ∷ s) h = elim (Bool-cases (str_eq p (c ∷ s))) [
  | inl e ↦ ([], sym (str_eq→eq p (c ∷ s) e))
  | inr e ↦
      let h' : ends_with p s ≡ true = subst (λ b. (b || ends_with p s) ≡ true) e h in
      let (q, k) = ends_with→split p s h' in (c ∷ q, ap (λ t. c ∷ t) k)
]

ends_with_self : (p : Str) → ends_with p p ≡ true
ends_with_self [] = refl
ends_with_self (c ∷ p) = rw (str_eq_refl (c ∷ p))

ends_with_behind : (q p : Str) → ends_with p (q ++ p) ≡ true
ends_with_behind [] p = ends_with_self p
ends_with_behind (c ∷ q) p = elim (Bool-cases (str_eq p (c ∷ (q ++ p)))) [
  | inl e ↦ rw e
  | inr e ↦ rw e (ends_with_behind q p)
]

module _ (lower : Str → Str) where
  -- The same name, or one below it: `www.acme.com` for `acme.com`.
  abbrev pub InScope : Str → Str → Type 0
  InScope target requested =
      (normalize lower requested ≡ normalize lower target)
      ⊎ ((q : Str) × (normalize lower requested ≡ q ++ (codes "." ++ normalize lower target)))

  -- A target is in scope exactly when, stripped and in lower case, it is the engagement's target or
  -- ends in a dot and that target.
  pub target_in_scope-exact :
      (target requested : Str)
      → (target_in_scope lower target requested ≡ true) ↔ InScope target requested
  unfolding target_in_scope
  target_in_scope-exact target requested =
      let e = normalize lower target in
      let r = normalize lower requested in
      (
        λ h. elim (Bool-cases (str_eq r e)) [
          | inl same ↦ inl (str_eq→eq r e same)
          | inr other ↦ inr (
              ends_with→split (codes "." ++ e) r
                (subst (λ b. (b || ends_with (codes "." ++ e) r) ≡ true) other h))
        ],
        λ d. elim d [
          | inl same ↦ rw (subst (λ t. str_eq r t ≡ true) same (str_eq_refl r))
          | inr (q, below) ↦ elim (Bool-cases (str_eq r e)) [
            | inl same ↦ rw same
            | inr other ↦ rw other (
                subst (λ t. ends_with (codes "." ++ e) t ≡ true) (sym below)
                  (ends_with_behind q (codes "." ++ e)))
          ]
        ],
      )

  -- What the code asks before a dual-use connector may look at the target.
  pub record IsAuthorized (db : Db) (now : ℕ) (engagement_id : Option Str) (target : Str)
      : Type 0 where
    pub id : Str
    pub engagement : Engagement
    pub given : engagement_id ≡ some id
    pub some_id : id ≢ []
    pub on_record : get_engagement db id ≡ some engagement
    pub not_revoked : engagement.revoked_at ≡ none
    pub begun : engagement.valid_from ≤ now
    pub not_over : now ≤ engagement.valid_until
    pub in_scope : InScope engagement.target target

  is_active-exact :
      (e : Engagement) (now : ℕ)
      → (is_active e now ≡ true)
        ↔ ((e.revoked_at ≡ none) × (e.valid_from ≤ now) × (now ≤ e.valid_until))
  unfolding is_active
  is_active-exact e now = elim (Option-cases e.revoked_at) [
    | inl q ↦ rw q (λ h. (refl, ground arith, ground arith), λ h. ground arith)
    | inr (t, q) ↦ rw q (λ h. absurd (cc), λ h. absurd (cc))
  ]

  require_both :
      (a b : Bool)
      → ((require a access_denied >> require b access_denied) ≡ ok tt)
      → (a ≡ true) × (b ≡ true)
  require_both a b h = ground arith

  -- The checks once the engagement has been looked up.
  abbrev pub checks : Option Engagement → ℕ → Str → Result (Unit {0})
  checks found now target = or_denied found >>= λ e.
      (require (is_active e now) access_denied
        >> require (target_in_scope lower e.target target) access_denied)

  pub enforce-eq-checks :
      (db : Db) (now c : ℕ) (id target : Str)
      → enforce_engagement_scope lower db now (some (c ∷ id)) target
        ≡ checks (get_engagement db (c ∷ id)) now target
  unfolding enforce_engagement_scope
  enforce-eq-checks db now c id target = refl

  pub enforce→IsAuthorized :
      (db : Db) (now : ℕ) (engagement_id : Option Str) (target : Str)
      → enforce_engagement_scope lower db now engagement_id target ≡ ok tt
      → IsAuthorized db now engagement_id target
  enforce→IsAuthorized db now none target h = absurd (unfold enforce_engagement_scope in cc)
  enforce→IsAuthorized db now (some []) target h = absurd (unfold enforce_engagement_scope in cc)
  enforce→IsAuthorized db now (some (c ∷ id)) target h =
      go (get_engagement db (c ∷ id)) refl (sym (enforce-eq-checks db now c id target) ∙ h)
    where
      go :
          (o : Option Engagement)
          → get_engagement db (c ∷ id) ≡ o
          → checks o now target ≡ ok tt
          → IsAuthorized db now (some (c ∷ id)) target
      go none q k = absurd (cc)
      go (some e) q k =
          let (active, inside) = require_both _ _ k in
          let (not_revoked, begun, not_over) = (is_active-exact e now).0 active in
          record {
            id = c ∷ id;
            engagement = e;
            given = refl;
            some_id = λ z. ground arith;
            on_record = q;
            not_revoked = not_revoked;
            begun = begun;
            not_over = not_over;
            in_scope = (target_in_scope-exact e.target target).0 inside;
          }

  IsAuthorized→enforce :
      (db : Db) (now : ℕ) (engagement_id : Option Str) (target : Str)
      → IsAuthorized db now engagement_id target
      → enforce_engagement_scope lower db now engagement_id target ≡ ok tt
  IsAuthorized→enforce db now engagement_id target a = go a.id a.given a.some_id a.on_record
    where
      go :
          (id : Str)
          → engagement_id ≡ some id
          → id ≢ []
          → get_engagement db id ≡ some a.engagement
          → enforce_engagement_scope lower db now engagement_id target ≡ ok tt
      go [] given ne found = absurd (ne refl)
      go (c ∷ id) given ne found =
          rw (given, enforce-eq-checks, found)
            (rw (
              (is_active-exact a.engagement now).1 (a.not_revoked, a.begun, a.not_over),
              (target_in_scope-exact a.engagement.target target).1 a.in_scope,
            ))

  -- A dual-use lookup is let through exactly when the caller names an engagement that is on record,
  -- has not been revoked, is within its validity window and covers the target.
  pub enforce_engagement_scope-exact :
      (db : Db) (now : ℕ) (engagement_id : Option Str) (target : Str)
      → (enforce_engagement_scope lower db now engagement_id target ≡ ok tt)
        ↔ IsAuthorized db now engagement_id target
  enforce_engagement_scope-exact db now engagement_id target = (
    enforce→IsAuthorized db now engagement_id target,
    IsAuthorized→enforce db now engagement_id target,
  )
