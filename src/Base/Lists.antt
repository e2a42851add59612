-- ===== src/Base/Lists.antt =====
-- Lists measured and indexed by native numbers, under the library's names, and predicates on
-- lists that compute to tuples and sums.
use Prim.Native.Nat.{ℕ, zero, suc, ◌+◌, ◌-◌, ◌<◌, ◌≤◌, min}
use mathlib.Core.Path.{◌≡◌, refl, ap, sym, subst, ◌∙◌}
use mathlib.Core.Logic.{◌⊎◌, inl, inr}
use mathlib.Core.Bool.{Bool, true, false}
use mathlib.Core.List.{List, [], ◌∷◌, ◌++◌, reverse, reverse-reverse}
use mathlib.Core.Option.{Option, none, some}
use native.Mathlib.Omega.{arith}
use cranus.Base.Tests.{if◌then◌else◌, Bool-cases}

module _ {ℓ} {A : Type ℓ} where
  abbrev pub length : List A → ℕ
  length [] = 0
  length (x ∷ xs) = suc (length xs)

  abbrev pub take : ℕ → List A → List A
  take zero xs = []
  take (suc n) [] = []
  take (suc n) (x ∷ xs) = x ∷ take n xs

  abbrev pub drop : ℕ → List A → List A
  drop zero xs = xs
  drop (suc n) [] = []
  drop (suc n) (x ∷ xs) = drop n xs

  abbrev pub get_elem? : List A → ℕ → Option A
  get_elem? [] i = none
  get_elem? (x ∷ xs) zero = some x
  get_elem? (x ∷ xs) (suc i) = get_elem? xs i

  -- `[x for x in xs if keep x]`
  abbrev pub keep_if : (A → Bool) → List A → List A
  keep_if p [] = []
  keep_if p (x ∷ xs) = if p x then x ∷ keep_if p xs else keep_if p xs

  abbrev pub is_empty : List A → Bool
  is_empty [] = true
  is_empty (x ∷ xs) = false

  abbrev pub All {κ} : (A → Type κ) → List A → Type κ
  All P [] = Unit
  All P (x ∷ xs) = P x × All P xs

-- `x` is an element of the list, with its place.
abbrev pub Has : {A : Type 0} → A → List A → Type 0
Has x [] = ⊥
Has x (y ∷ ys) = (x ≡ y) ⊎ Has x ys

module _ {ℓ} {A : Type ℓ} where
  pub length-append : (xs ys : List A) → length (xs ++ ys) ≡ length xs + length ys
  length-append [] ys = omega arith
  length-append (x ∷ xs) ys = omega (arith, length-append xs ys)

  pub length-take : (n : ℕ) (xs : List A) → length (take n xs) ≡ min n (length xs)
  length-take zero xs = omega arith
  length-take (suc n) [] = omega arith
  length-take (suc n) (x ∷ xs) = omega (arith, length-take n xs)

  pub length-drop : (n : ℕ) (xs : List A) → length (drop n xs) ≡ length xs - n
  length-drop zero xs = omega arith
  length-drop (suc n) [] = omega arith
  length-drop (suc n) (x ∷ xs) = omega (arith, length-drop n xs)

  pub take-append-drop : (n : ℕ) (xs : List A) → take n xs ++ drop n xs ≡ xs
  take-append-drop zero xs = refl
  take-append-drop (suc n) [] = refl
  take-append-drop (suc n) (x ∷ xs) = ap (λ l. x ∷ l) (take-append-drop n xs)

  pub drop-append : (xs ys : List A) → drop (length xs) (xs ++ ys) ≡ ys
  drop-append [] ys = refl
  drop-append (x ∷ xs) ys = drop-append xs ys

  pub take-append : (xs ys : List A) → take (length xs) (xs ++ ys) ≡ xs
  take-append [] ys = refl
  take-append (x ∷ xs) ys = ap (λ l. x ∷ l) (take-append xs ys)

module _ {κ} {A : Type 0} (P : A → Type κ) where
  pub All-append : (xs ys : List A) → All P xs → All P ys → All P (xs ++ ys)
  All-append [] ys hx hy = hy
  All-append (x ∷ xs) ys hx hy = (hx.0, All-append xs ys hx.1 hy)

  pub All-Has : (x : A) (xs : List A) → All P xs → Has x xs → P x
  All-Has x [] h m = absurd m
  All-Has x (y ∷ ys) h (inl e) = subst P (sym e) h.0
  All-Has x (y ∷ ys) h (inr m) = All-Has x ys h.1 m

module _ {ℓ κ μ} {A : Type ℓ} {P : A → Type κ} {Q : A → Type μ} (f : (x : A) → P x → Q x) where
  pub All-map : (xs : List A) → All P xs → All Q xs
  All-map [] h = tt
  All-map (x ∷ xs) h = (f x h.0, All-map xs h.1)

module _ {A : Type 0} where
  pub Has-append_left : (x : A) (xs ys : List A) → Has x xs → Has x (xs ++ ys)
  Has-append_left x [] ys m = absurd m
  Has-append_left x (y ∷ xs) ys (inl e) = inl e
  Has-append_left x (y ∷ xs) ys (inr m) = inr (Has-append_left x xs ys m)

  pub Has-append_right : (x : A) (xs ys : List A) → Has x ys → Has x (xs ++ ys)
  Has-append_right x [] ys m = m
  Has-append_right x (y ∷ xs) ys m = inr (Has-append_right x xs ys m)

  pub Has-append : (x : A) (xs ys : List A) → Has x (xs ++ ys) → Has x xs ⊎ Has x ys
  Has-append x [] ys m = inr m
  Has-append x (y ∷ xs) ys (inl e) = inl (inl e)
  Has-append x (y ∷ xs) ys (inr m) = elim (Has-append x xs ys m) [
    | inl h ↦ inl (inr h)
    | inr h ↦ inr h
  ]

module _ {A : Type 0} (p : A → Bool) where
  pub keep_if-append : (xs ys : List A) → keep_if p (xs ++ ys) ≡ keep_if p xs ++ keep_if p ys
  keep_if-append [] ys = refl
  keep_if-append (x ∷ xs) ys = ground (arith, keep_if-append xs ys)

  pub keep_if-All {κ} :
      (P : A → Type κ) (xs : List A) → All P xs → All (λ x. P x × (p x ≡ true)) (keep_if p xs)
  keep_if-All P [] h = tt
  keep_if-All P (x ∷ xs) h = elim (Bool-cases (p x)) [
    | inl e ↦ rw e ((h.0, e), keep_if-All P xs h.1)
    | inr e ↦ rw e (keep_if-All P xs h.1)
  ]

  pub keep_if-Has : (x : A) (xs : List A) → Has x xs → p x ≡ true → Has x (keep_if p xs)
  keep_if-Has x [] m e = absurd m
  keep_if-Has x (y ∷ ys) (inl q) e =
      let e' : p y ≡ true = subst (λ z. p z ≡ true) q e in rw e' (inl q)
  keep_if-Has x (y ∷ ys) (inr m) e = elim (Bool-cases (p y)) [
    | inl e' ↦ rw e' (inr (keep_if-Has x ys m e))
    | inr e' ↦ rw e' (keep_if-Has x ys m e)
  ]

  pub Has-keep_if : (x : A) (xs : List A) → Has x (keep_if p xs) → Has x xs × (p x ≡ true)
  Has-keep_if x [] m = absurd m
  Has-keep_if x (y ∷ ys) m = go (p y) refl (Has-keep_if x ys)
    where
      go :
          (b : Bool)
          → p y ≡ b
          → (Has x (keep_if p ys) → Has x ys × (p x ≡ true))
          → Has x (y ∷ ys) × (p x ≡ true)
      go true e ih = elim (rw e at m) [
        | inl q ↦ (inl q, subst (λ z. p z ≡ true) (sym q) e)
        | inr m' ↦ (inr (ih m').0, (ih m').1)
      ]
      go false e ih = let m' : Has x (keep_if p ys) = rw e at m in (inr (ih m').0, (ih m').1)

  pub length-keep_if-le : (xs : List A) → length (keep_if p xs) ≤ length xs
  length-keep_if-le [] = omega arith
  length-keep_if-le (x ∷ xs) = ground (arith, length-keep_if-le xs)

module _ {κ} {A : Type 0} (P : A → Type κ) where
  pub All-drop : (n : ℕ) (xs : List A) → All P xs → All P (drop n xs)
  All-drop zero xs h = h
  All-drop (suc n) [] h = tt
  All-drop (suc n) (x ∷ xs) h = All-drop n xs h.1

-- A list with an element is a head and a tail, read from either end.
pub split_nonempty :
    {A : Type 0} (xs : List A) → 0 < length xs → (x : A) × (rest : List A) × (xs ≡ x ∷ rest)
split_nonempty [] h = elim h [ ]
split_nonempty (x ∷ xs) h = (x, xs, refl)

pub split_reverse :
    {A : Type 0} (xs : List A) → 0 < length xs → (x : A) × (rest : List A) × (reverse xs ≡ x ∷ rest)
split_reverse {A} xs h = go (reverse xs) refl
  where
    go : (ys : List A) → reverse xs ≡ ys → (x : A) × (rest : List A) × (reverse xs ≡ x ∷ rest)
    go [] e =
        let none_left : xs ≡ [] = sym (reverse-reverse xs) ∙ ap reverse e in
        absurd (omega (arith, subst (λ l. 0 < length l) none_left h))
    go (y ∷ ys) e = (y, ys, e)

pub Has-All : {A : Type 0} (P : A → Type 0) (xs : List A) → ((x : A) → Has x xs → P x) → All P xs
Has-All P [] h = tt
Has-All P (x ∷ xs) h = (h x (inl refl), Has-All P xs (λ y m. h y (inr m)))
