-- ===== src/Governance/Engagements.antt =====
-- src/cranus/governance/engagements.py, its enforcement in pep.py, and the engagement routes of
-- src/cranus/api/routers/admin_engagements.py. `lower` is `str.lower`.
pub mod Scope
pub mod Revoke
use cranus.Base.{
  ℕ, ◌≤◌, ◌≡◌, refl, Bool, true, false, not, ◌&&◌, ◌||◌, Option, none, some, List, [], ◌∷◌, ◌++◌,
  arith, leb, Str, codes, str_eq, ends_with, strip, is_empty, if◌then◌else◌,
}
use cranus.Storage.Models.{Engagement}
use cranus.Storage.Table.{get_row, set_row}
use cranus.Storage.Db.{Db}
use cranus.Governance.Errors.{PolicyError, access_denied, Result, ok, raise, require, ◌>>=◌, ◌>>◌}

module _ (lower : Str → Str) where
  abbrev pub normalize : Str → Str
  normalize s = lower (strip s)

  unfoldable pub target_in_scope : Str → Str → Bool
  target_in_scope engagement_target requested_target =
      str_eq (normalize requested_target) (normalize engagement_target)
      || ends_with (codes "." ++ normalize engagement_target) (normalize requested_target)

unfoldable pub get_engagement : Db → Str → Option Engagement
get_engagement db id = get_row (λ (e : Engagement). e.id) id db.engagements

abbrev pub is_none {ℓ} : {A : Type ℓ} → Option A → Bool
is_none none = true
is_none (some a) = false

unfoldable pub is_active : Engagement → ℕ → Bool
is_active e now = is_none e.revoked_at && (leb e.valid_from now && leb now e.valid_until)

abbrev pub revoked_from : ℕ → Engagement → Engagement
revoked_from now e = record e { revoked_at = some now }

-- Writes only when the engagement is there.
unfoldable pub revoke_engagement : Db → Str → ℕ → Db × Option Engagement
unfolding get_engagement
revoke_engagement db id now = elim (get_engagement db id) [
  | none ↦ (db, none)
  | some e ↦ (
    record db {
      engagements = set_row (λ (e : Engagement). e.id) id (revoked_from now) db.engagements;
    },
    some (revoked_from now e),
  )
]

-- `if not engagement_id`: no id and an empty one are refused alike.
abbrev pub id_given : Option Str → Result Str
id_given none = raise access_denied
id_given (some []) = raise access_denied
id_given (some (c ∷ id)) = ok (c ∷ id)

abbrev pub or_denied : Option Engagement → Result Engagement
or_denied none = raise access_denied
or_denied (some e) = ok e

unfoldable pub enforce_engagement_scope :
    (Str → Str) → Db → ℕ → Option Str → Str → Result (Unit {0})
unfolding get_engagement is_active target_in_scope
enforce_engagement_scope lower db now engagement_id target = do
  id ← id_given engagement_id
  engagement ← or_denied (get_engagement db id)
  require (is_active engagement now) access_denied
  require (target_in_scope lower engagement.target target) access_denied

-- The body of `create_engagement`, behind the role check: `none` is the answer 400.
unfoldable pub create_engagement :
    Db
    → (id target scope_note evidence_ref admin_id : Str) → (valid_from valid_until : ℕ)
    → Option (Db × Engagement)
create_engagement db id target scope_note evidence_ref admin_id valid_from valid_until =
    let e : Engagement = record {
      id = id;
      target = target;
      scope_note = scope_note;
      evidence_ref = evidence_ref;
      authorized_by_user_id = admin_id;
      valid_from = valid_from;
      valid_until = valid_until;
      revoked_at = none;
    } in
    if leb valid_until valid_from
    then none
    else some (record db { engagements = db.engagements ++ e ∷ [] }, e)
