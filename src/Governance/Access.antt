-- ===== src/Governance/Access.antt =====
-- Roles and licences: src/cranus/governance/rbac.py, abac.py and the source filter of pep.py.
use cranus.Base.{
  ◌≡◌, refl, sym, ap, ◌∙◌, ◌≢◌, ◌↔◌, ◌⊎◌, inl, inr, Bool, true, false, not, Option, none, some,
  List, [], ◌∷◌, Str, codes, str_in, str_in→Has, Has→str_in, keep_if, keep_if-Has, Has-keep_if, Has,
  Bool-cases, if◌then◌else◌,
}
use cranus.Storage.Models.{User, role_admin, role_analyst}
use cranus.Governance.Errors.{access_denied, Result, require}

-- `rbac.require_role`
unfoldable pub require_role : User → List Str → Result (Unit {0})
require_role user permitted = require (str_in user.role permitted) access_denied

abbrev pub internal_only : Str
internal_only = codes "internal-only"

-- `license not in _INTERNAL_ONLY_LICENSES`; no licence is in no set.
abbrev pub is_internal : Option Str → Bool
is_internal none = false
is_internal (some l) = str_in l (internal_only ∷ [])

unfoldable pub check_access : User → Option Str → Bool
check_access user license =
    if not (is_internal license) then true else str_in user.role (role_admin ∷ role_analyst ∷ [])

-- `pep.enforce_authenticated`
unfoldable pub enforce_authenticated : User → Result (Unit {0})
enforce_authenticated user = require (not user.revoked) access_denied

-- A source's dict; a missing key and a value of `None` are both `none`.
pub record SourceDict : Type 0 where
  pub id : Str
  pub text : Str
  pub kind : Str
  pub license : Option Str
  pub doc_id : Option Str
  pub uri : Option Str
  pub title : Option Str

unfoldable pub filter_sources_by_license : User → List SourceDict → List SourceDict
filter_sources_by_license user sources = keep_if (λ s. check_access user s.license) sources

-- Who may read internal material.
abbrev pub IsCleared : User → Type 0
IsCleared user = (user.role ≡ role_admin) ⊎ (user.role ≡ role_analyst)

false_ne_true : false ≢ true
false_ne_true h = cc

IsCleared-iff :
    (user : User) → (str_in user.role (role_admin ∷ role_analyst ∷ []) ≡ true) ↔ IsCleared user
IsCleared-iff user = (
  λ h. elim (str_in→Has user.role (role_admin ∷ role_analyst ∷ []) h) [
    | inl e ↦ inl e
    | inr (inl e) ↦ inr e
    | inr (inr m) ↦ absurd m
  ],
  λ c.
      Has→str_in user.role (role_admin ∷ role_analyst ∷ [])
        (elim c [ inl e ↦ inl e | inr e ↦ inr (inl e) ]),
)

internal_iff :
    (license : Option Str) → (is_internal license ≡ true) ↔ (license ≡ some internal_only)
internal_iff none = (λ h. absurd (cc), λ h. absurd (cc))
internal_iff (some l) = (
  λ h. elim (str_in→Has l (internal_only ∷ []) h) [ inl e ↦ ap some e | inr m ↦ absurd m ],
  λ h. Has→str_in l (internal_only ∷ []) (inl (cc)),
)

pub check_access_lem :
    (user : User) (license : Option Str)
    → (check_access user license ≡ true) ↔ ((license ≢ some internal_only) ⊎ IsCleared user)
unfolding check_access
check_access_lem user license = elim (Bool-cases (is_internal license)) [
  | inl e ↦ rw e (
    λ h. inr ((IsCleared-iff user).0 h),
    λ d. elim d [
      | inl ne ↦ absurd (ne ((internal_iff license).0 e))
      | inr c ↦ (IsCleared-iff user).1 c
    ],
  )
  | inr e ↦ rw e (λ h. inl (λ q. false_ne_true (sym e ∙ (internal_iff license).1 q)), λ d. refl)
]

-- The filter keeps a source exactly when it was there and it is not internal, or the user is an
-- admin or an analyst.
pub filter_sources-exact :
    (user : User) (sources : List SourceDict) (s : SourceDict)
    → Has s (filter_sources_by_license user sources)
      ↔ (Has s sources × ((s.license ≢ some internal_only) ⊎ IsCleared user))
unfolding filter_sources_by_license
filter_sources-exact user sources s = (
  λ m.
      let (there, allowed) = Has-keep_if (λ s. check_access user s.license) s sources m in
      (there, (check_access_lem user s.license).0 allowed),
  λ (there, allowed).
      keep_if-Has (λ s. check_access user s.license) s sources there
        ((check_access_lem user s.license).1 allowed),
)
