-- ===== src/Base/Text.antt =====
-- Python's `str` as the list of its code points, and the methods of it that the program calls.
use Prim.Native.Nat.{ℕ, zero, suc, ◌+◌, ◌/◌, ◌%◌}
use Prim.Native.Char.{code}
use Prim.Native.String.{String}
use mathlib.Core.Path.{◌≡◌, refl, subst}
use mathlib.Core.Logic.{inl, inr, ◌↔◌}
use mathlib.Core.Bool.{Bool, true, false, ◌&&◌, ◌||◌}
use mathlib.Core.List.{List, [], ◌∷◌, ◌++◌}
use native.Mathlib.Omega.{arith}
use cranus.Base.Tests.{ltb, leb, ◌==◌, if◌then◌else◌, Bool-cases}
use cranus.Base.Lists.{Has}

abbrev pub Str : Type 0
Str = List ℕ

abbrev pub codes : String → Str
codes String.[] = []
codes (String.◌∷◌ c s) = code c ∷ codes s

-- `a == b`
abbrev pub str_eq : Str → Str → Bool
str_eq [] [] = true
str_eq [] (d ∷ t) = false
str_eq (c ∷ s) [] = false
str_eq (c ∷ s) (d ∷ t) = (c == d) && str_eq s t

pub str_eq→eq : (a b : Str) → str_eq a b ≡ true → a ≡ b
str_eq→eq [] [] h = refl
str_eq→eq [] (d ∷ t) h = cc
str_eq→eq (c ∷ s) [] h = cc
str_eq→eq (c ∷ s) (d ∷ t) h = ground (arith, str_eq→eq s t)

pub str_eq_refl : (a : Str) → str_eq a a ≡ true
str_eq_refl [] = refl
str_eq_refl (c ∷ s) = ground (arith, str_eq_refl s)

pub str_eq_iff : (a b : Str) → (str_eq a b ≡ true) ↔ (a ≡ b)
str_eq_iff a b = (str_eq→eq a b, λ e. subst (λ s. str_eq a s ≡ true) e (str_eq_refl a))

-- `x in xs`
abbrev pub str_in : Str → List Str → Bool
str_in x [] = false
str_in x (y ∷ ys) = str_eq x y || str_in x ys

pub str_in→Has : (x : Str) (xs : List Str) → str_in x xs ≡ true → Has x xs
str_in→Has x [] h = absurd (cc)
str_in→Has x (y ∷ ys) h = elim (Bool-cases (str_eq x y)) [
  | inl e ↦ inl (str_eq→eq x y e)
  | inr e ↦ inr (str_in→Has x ys (subst (λ b. (b || str_in x ys) ≡ true) e h))
]

pub Has→str_in : (x : Str) (xs : List Str) → Has x xs → str_in x xs ≡ true
Has→str_in x [] m = absurd m
Has→str_in x (y ∷ ys) (inl e) = ground (arith, str_eq_iff x y)
Has→str_in x (y ∷ ys) (inr m) = ground (arith, Has→str_in x ys m)

-- The characters that `str.strip`, `str.split` and the pattern `\s` take for white space.
unfoldable pub is_space : ℕ → Bool
is_space c =
    (leb 9 c && leb c 13)
    || (leb 28 c && leb c 32)
    || c == 0x85
    || c == 0xa0
    || c == 0x1680
    || (leb 0x2000 c && leb c 0x200a)
    || c == 0x2028
    || c == 0x2029
    || c == 0x202f
    || c == 0x205f
    || c == 0x3000

abbrev pub lstrip : Str → Str
lstrip [] = []
lstrip (c ∷ s) = if is_space c then lstrip s else c ∷ s

-- A space is dropped from the end when nothing but dropped text follows it.
abbrev pub rstrip_cons : ℕ → Str → Str
rstrip_cons c [] = if is_space c then [] else c ∷ []
rstrip_cons c (d ∷ s) = c ∷ d ∷ s

abbrev pub rstrip : Str → Str
rstrip [] = []
rstrip (c ∷ s) = rstrip_cons c (rstrip s)

abbrev pub strip : Str → Str
strip s = rstrip (lstrip s)

abbrev pub starts_with : Str → Str → Bool
starts_with [] s = true
starts_with (c ∷ p) [] = false
starts_with (c ∷ p) (d ∷ s) = (c == d) && starts_with p s

-- `s.endswith(p)`: `p` is what is left of `s` at some place.
abbrev pub ends_with : Str → Str → Bool
ends_with p [] = str_eq p []
ends_with p (c ∷ s) = str_eq p (c ∷ s) || ends_with p s

-- `sep.join(parts)`
abbrev pub join : Str → List Str → Str
join sep [] = []
join sep (p ∷ []) = p
join sep (p ∷ q ∷ ps) = p ++ (sep ++ join sep (q ∷ ps))

-- `str(n)`, on fuel above the number of digits.
pub digits_from : ℕ → ℕ → Str → Str
digits_from zero n acc = acc
digits_from (suc f) n acc =
    let rest = digits_from f (n / 10) ((48 + n % 10) ∷ acc) in
    if ltb n 10 then (48 + n) ∷ acc else rest

unfoldable pub decimal : ℕ → Str
unfolding digits_from
decimal n = digits_from (suc n) n []
