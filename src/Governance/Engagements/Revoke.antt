-- ===== src/Governance/Engagements/Revoke.antt =====
-- What the revocation of an engagement does: src/cranus/governance/engagements.py.
use cranus.Base.{
  option_map, ℕ, ◌≡◌, refl, sym, ap, ◌∙◌, ◌≢◌, inl, inr, Option, none, some, [], ◌∷◌, Str,
  Option-cases,
}
use cranus.Storage.Models.{Engagement}
use cranus.Storage.Table.{get_row, get_row-set_row, get_row-set_row_ne}
use cranus.Storage.Db.{Db}
use cranus.Governance.Errors.{ok}
use cranus.Governance.Engagements.{
  get_engagement, revoked_from, revoke_engagement, enforce_engagement_scope,
}
use cranus.Governance.Engagements.Scope.{enforce→IsAuthorized, checks, enforce-eq-checks}

get_engagement-revoke :
    (db : Db) (id : Str) (now : ℕ)
    → get_engagement (revoke_engagement db id now).0 id
      ≡ option_map (revoked_from now) (get_engagement db id)
unfolding revoke_engagement
get_engagement-revoke db id now =
    elim (Option-cases (get_row (λ (e : Engagement). e.id) id db.engagements)) [
      | inl q ↦ rw (q, revoke_engagement) (rw q)
      | inr (e, q) ↦
          rw (q, revoke_engagement)
            (get_row-set_row (λ (e : Engagement). e.id) id (revoked_from now) db.engagements
                (λ r. refl)
              ∙ ap (option_map (revoked_from now)) q)
    ]

get_engagement-revoke_ne :
    (db : Db) (id other : Str) (now : ℕ)
    → id ≢ other
    → get_engagement (revoke_engagement db id now).0 other ≡ get_engagement db other
unfolding revoke_engagement
get_engagement-revoke_ne db id other now ne =
    elim (Option-cases (get_row (λ (e : Engagement). e.id) id db.engagements)) [
      | inl q ↦ rw (q, revoke_engagement) refl
      | inr (e, q) ↦
          rw (q, revoke_engagement)
            (get_row-set_row_ne (λ (e : Engagement). e.id) id other (revoked_from now)
              db.engagements (λ r. refl) ne)
    ]

-- Once revoked, an engagement never lets a lookup through again, at any time and for any target.
pub revoke_engagement-enforce :
    (lower : Str → Str) (db : Db) (id target : Str) (now later : ℕ)
    → enforce_engagement_scope lower (revoke_engagement db id now).0 later (some id) target ≢ ok tt
revoke_engagement-enforce lower db id target now later h =
    let a = enforce→IsAuthorized lower (revoke_engagement db id now).0 later (some id) target h in
    go a.engagement a.not_revoked (get_engagement db id) refl (
      sym (get_engagement-revoke db id now)
      ∙ ap (get_engagement (revoke_engagement db id now).0) (cc)
      ∙ a.on_record)
  where
    go :
        (e : Engagement)
        → e.revoked_at ≡ none
        → (o : Option Engagement) → get_engagement db id ≡ o
        → option_map (revoked_from now) (get_engagement db id) ≡ some e
        → ⊥
    go e live none q k = let k' : none ≡ some e = rw q at k in cc
    go e live (some x) q k = let k' : some (revoked_from now x) ≡ some e = rw q at k in cc

-- A revocation changes nothing for the other engagements.
pub revoke_engagement-enforce_ne :
    (lower : Str → Str) (db : Db) (id other target : Str) (now later : ℕ)
    → id ≢ other
    → enforce_engagement_scope lower (revoke_engagement db id now).0 later (some other) target
      ≡ enforce_engagement_scope lower db later (some other) target
revoke_engagement-enforce_ne lower db id [] target now later ne =
    unfold enforce_engagement_scope in refl
revoke_engagement-enforce_ne lower db id (c ∷ other) target now later ne =
    enforce-eq-checks lower (revoke_engagement db id now).0 later c other target
    ∙ ap (λ o. checks lower o later target) (get_engagement-revoke_ne db id (c ∷ other) now ne)
    ∙ sym (enforce-eq-checks lower db later c other target)
