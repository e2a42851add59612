-- ===== src/Base/Strip.antt =====
-- What `strip` keeps of a text, and how it cuts it.
use Prim.Native.Nat.{ℕ}
use mathlib.Core.Path.{◌≡◌, refl, ap, ◌∙◌, sym}
use mathlib.Core.Logic.{inl, inr}
use mathlib.Core.Bool.{true, false, not}
use mathlib.Core.List.{List, [], ◌∷◌, ◌++◌, map, append_assoc, append-nil}
use native.Mathlib.Omega.{arith}
use cranus.Base.Tests.{Bool-cases}
use cranus.Base.Lists.{keep_if, keep_if-append, All}
use cranus.Base.Text.{Str, is_space, lstrip, rstrip, rstrip_cons, strip}

abbrev pub visible : Str → Str
visible = keep_if (λ c. not (is_space c))

abbrev pub flat : List Str → Str
flat [] = []
flat (s ∷ ss) = s ++ flat ss

visible-lstrip : (s : Str) → visible (lstrip s) ≡ visible s
visible-lstrip [] = refl
visible-lstrip (c ∷ s) = ground (arith, visible-lstrip s)

visible-rstrip_cons : (c : ℕ) (s : Str) → visible (rstrip_cons c s) ≡ visible (c ∷ s)
visible-rstrip_cons c [] = ground arith
visible-rstrip_cons c (d ∷ s) = refl

visible-rstrip : (s : Str) → visible (rstrip s) ≡ visible s
visible-rstrip [] = refl
visible-rstrip (c ∷ s) = visible-rstrip_cons c (rstrip s) ∙ ground (arith, visible-rstrip s)

pub visible-strip : (s : Str) → visible (strip s) ≡ visible s
visible-strip s = visible-rstrip (lstrip s) ∙ visible-lstrip s

pub visible-strips : (ss : List Str) → visible (flat (map strip ss)) ≡ visible (flat ss)
visible-strips [] = refl
visible-strips (s ∷ ss) =
    keep_if-append (λ c. not (is_space c)) (strip s) (flat (map strip ss))
    ∙ cc (visible-strip s, visible-strips ss, keep_if-append (λ c. not (is_space c)) s (flat ss))

-- The text begins with a visible character, if it has one.
abbrev pub Starts : Str → Type 0
Starts [] = Unit
Starts (c ∷ s) = is_space c ≡ false

lstrip-Starts : (s : Str) → Starts (lstrip s)
lstrip-Starts [] = tt
lstrip-Starts (c ∷ s) = elim (Bool-cases (is_space c)) [
  | inl e ↦ rw e (lstrip-Starts s)
  | inr e ↦ rw e e
]

rstrip_cons-Starts : (c : ℕ) (s : Str) → is_space c ≡ false → Starts (rstrip_cons c s)
rstrip_cons-Starts c [] e = rw e e
rstrip_cons-Starts c (d ∷ s) e = e

rstrip-Starts : (s : Str) → Starts s → Starts (rstrip s)
rstrip-Starts [] h = tt
rstrip-Starts (c ∷ s) h = rstrip_cons-Starts c (rstrip s) h

pub strips-Starts : (ss : List Str) → All Starts (map strip ss)
strips-Starts [] = tt
strips-Starts (s ∷ ss) = (rstrip-Starts (lstrip s) (lstrip-Starts s), strips-Starts ss)

-- `strip` cuts white space off the left, and some text off the right.
lstrip-cut : (s : Str) → (w : Str) × (s ≡ w ++ lstrip s) × All (λ c. is_space c ≡ true) w
lstrip-cut [] = ([], refl, tt)
lstrip-cut (c ∷ s) = elim (Bool-cases (is_space c)) [
  | inl e ↦ let (w, q, h) = lstrip-cut s in rw e (c ∷ w, ap (λ t. c ∷ t) q, (e, h))
  | inr e ↦ rw e ([], refl, tt)
]

rstrip_cons-cut : (c : ℕ) (s : Str) → (w : Str) × (c ∷ s ≡ rstrip_cons c s ++ w)
rstrip_cons-cut c [] = elim (Bool-cases (is_space c)) [
  | inl e ↦ rw e (c ∷ [], refl)
  | inr e ↦ rw e ([], refl)
]
rstrip_cons-cut c (d ∷ s) = ([], ap (λ t. c ∷ d ∷ t) (sym (append-nil s)))

rstrip-cut : (s : Str) → (w : Str) × (s ≡ rstrip s ++ w)
rstrip-cut [] = ([], refl)
rstrip-cut (c ∷ s) =
    let (w, q) = rstrip-cut s in
    let (v, r) = rstrip_cons-cut c (rstrip s) in
    (v ++ w, ap (λ t. c ∷ t) q ∙ ap (λ t. t ++ w) r ∙ append_assoc (rstrip_cons c (rstrip s)) v w)

pub strip-cut : (s : Str) → (w v : Str) × (s ≡ w ++ (strip s ++ v)) × All (λ c. is_space c ≡ true) w
strip-cut s =
    let (w, q, h) = lstrip-cut s in
    let (v, r) = rstrip-cut (lstrip s) in (w, v, q ∙ ap (λ t. w ++ t) r, h)

pub strip-Starts : (s : Str) → Starts (strip s)
strip-Starts s = rstrip-Starts (lstrip s) (lstrip-Starts s)
