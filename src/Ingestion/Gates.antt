-- ===== src/Ingestion/Gates.antt =====
-- src/cranus/ingestion/quality_gates.py
use cranus.Base.{
  ℕ, ◌≤◌, ◌≡◌, refl, ◌↔◌, inl, inr, Bool, true, false, not, ◌&&◌, ◌||◌, Option, none, some, List,
  [], ◌∷◌, ◌++◌, arith, ltb, leb, ltb→ge, Str, codes, strip, length, is_empty, str_in, str_in→Has,
  Has→str_in, Has, All, Bool-cases, if◌then◌else◌,
}

abbrev pub known_licenses : List Str
known_licenses =
    codes "CC-BY-SA-4.0"
    ∷ codes "us-gov-open-data"
    ∷ codes "user-uploaded"
    ∷ codes "open-web-crawled"
    ∷ codes "public-archive-snapshot"
    ∷ codes "CC0-1.0"
    ∷ codes "odbl-opencorporates"
    ∷ codes "gov-open-data-v1"
    ∷ codes "internal-only"
    ∷ []

-- A surrogate, the only code point that UTF-8 does not encode.
abbrev pub is_surrogate : ℕ → Bool
is_surrogate c = leb 0xd800 c && leb c 0xdfff

abbrev pub encodes : Str → Bool
encodes [] = true
encodes (c ∷ s) = if is_surrogate c then false else encodes s

-- The reason for a refusal, or none: `passed` is that there is none.
unfoldable pub check_document : Str → Str → Option Str
check_document text license =
    if is_empty text || ltb (length (strip text)) 40
    then some (codes "empty_or_too_short")
    else if not (str_in license known_licenses)
    then some (codes "unknown_license:" ++ license)
    else if not (encodes text)
    then some (codes "invalid_encoding")
    else none

encodes-All : (s : Str) → (encodes s ≡ true) ↔ All (λ c. is_surrogate c ≡ false) s
encodes-All [] = (λ h. tt, λ h. refl)
encodes-All (c ∷ s) = elim (Bool-cases (is_surrogate c)) [
  | inl e ↦ rw e (λ h. absurd (cc), λ h. absurd (ground (arith, h.0)))
  | inr e ↦ rw e (λ h. (refl, (encodes-All s).0 h), λ h. (encodes-All s).1 h.1)
]

-- The text has forty characters inside its white space, its license is known and it can be encoded.
pub record IsSound (text license : Str) : Type 0 where
  pub long : 40 ≤ length (strip text)
  pub known : Has license known_licenses
  pub encodable : All (λ c. is_surrogate c ≡ false) text

-- The gate passes exactly the documents with at least forty characters between leading and trailing
-- white space, a known license and no surrogate.
pub check_document-exact :
    (text license : Str) → (check_document text license ≡ none) ↔ IsSound text license
unfolding check_document
check_document-exact [] license = (λ h. absurd (cc), λ h. absurd (ground (arith, h.long)))
check_document-exact (c ∷ s) license = elim (Bool-cases (ltb (length (strip (c ∷ s))) 40)) [
  | inl e ↦ rw e (λ h. absurd (cc), λ h. absurd (ground (arith, e, h.long)))
  | inr e ↦ elim (Bool-cases (str_in license known_licenses)) [
    | inr l ↦
        rw (e, l)
          (
            λ h. absurd (cc),
            λ h. absurd (ground (arith, l, Has→str_in license known_licenses h.known)),
          )
    | inl l ↦ elim (Bool-cases (encodes (c ∷ s))) [
      | inr n ↦
          rw (e, l, n)
            (λ h. absurd (cc), λ h. absurd (ground (arith, n, (encodes-All (c ∷ s)).1 h.encodable)))
      | inl n ↦
          rw (e, l, n)
            (
              λ h. record {
                long = ltb→ge _ _ e;
                known = str_in→Has license known_licenses l;
                encodable = (encodes-All (c ∷ s)).0 n;
              },
              λ h. refl,
            )
    ]
  ]
]
