-- ===== src/Base/Sorting.antt =====
-- Lists without repetition, and the stable sort `sorted(xs, key=..., reverse=True)`.
use Prim.Native.Nat.{suc}
use mathlib.Core.Path.{◌≡◌, refl, ap, sym, subst, ◌∙◌}
use mathlib.Core.Logic.{◌⊎◌, inl, inr, ◌↔◌}
use mathlib.Core.Bool.{Bool, true, false}
use mathlib.Core.List.{List, [], ◌∷◌, ◌++◌, map}
use cranus.Base.Tests.{if◌then◌else◌, Bool-cases}
use cranus.Base.Lists.{length, Has, All}

-- No element stands at two places.
abbrev pub Distinct : {A : Type 0} → List A → Type 0
Distinct [] = Unit {0}
Distinct (x ∷ xs) = (¬ (Has x xs)) × Distinct xs

pub Has-snoc : {A : Type 0} (x y : A) (xs : List A) → Has x (xs ++ y ∷ []) → Has x xs ⊎ (x ≡ y)
Has-snoc x y [] (inl e) = inr e
Has-snoc x y [] (inr m) = absurd m
Has-snoc x y (z ∷ xs) (inl e) = inl (inl e)
Has-snoc x y (z ∷ xs) (inr m) = elim (Has-snoc x y xs m) [ inl m' ↦ inl (inr m') | inr e ↦ inr e ]

pub Distinct-snoc :
    {A : Type 0} (xs : List A) (y : A) → Distinct xs → (¬ (Has y xs)) → Distinct (xs ++ y ∷ [])
Distinct-snoc [] y d h = (λ m. m, tt)
Distinct-snoc (x ∷ xs) y d h = (
  λ m. elim (Has-snoc x y xs m) [ inl m' ↦ d.0 m' | inr e ↦ h (inl (sym e)) ],
  Distinct-snoc xs y d.1 (λ m. h (inr m)),
)

pub map-snoc :
    {A B : Type 0} (f : A → B) (xs : List A) (x : A) → map f (xs ++ x ∷ []) ≡ map f xs ++ f x ∷ []
map-snoc f [] x = refl
map-snoc f (y ∷ xs) x = ap (λ l. f y ∷ l) (map-snoc f xs x)

pub Has-map : {A B : Type 0} (f : A → B) (x : A) (xs : List A) → Has x xs → Has (f x) (map f xs)
Has-map f x [] m = absurd m
Has-map f x (y ∷ xs) (inl e) = inl (ap f e)
Has-map f x (y ∷ xs) (inr m) = inr (Has-map f x xs m)

pub map-Has :
    {A B : Type 0} (f : A → B) (y : B) (xs : List A)
    → Has y (map f xs)
    → (x : A) × Has x xs × (y ≡ f x)
map-Has f y [] m = absurd m
map-Has f y (x ∷ xs) (inl e) = (x, inl refl, e)
map-Has f y (x ∷ xs) (inr m) = let (z, h, e) = map-Has f y xs m in (z, inr h, e)

-- `less` says that the first key is the smaller one. Equal elements keep their order.
module _ {A : Type 0} (less : A → A → Bool) where
  abbrev pub insert_down : A → List A → List A
  insert_down x [] = x ∷ []
  insert_down x (y ∷ ys) = if less x y then y ∷ insert_down x ys else x ∷ y ∷ ys

  abbrev pub sort_down : List A → List A
  sort_down [] = []
  sort_down (x ∷ xs) = insert_down x (sort_down xs)

  insert_down-Has : (x z : A) (ys : List A) → Has z (insert_down x ys) ↔ ((z ≡ x) ⊎ Has z ys)
  insert_down-Has x z [] = (λ m. m, λ m. m)
  insert_down-Has x z (y ∷ ys) = elim (Bool-cases (less x y)) [
    | inr e ↦ rw e (λ m. m, λ m. m)
    | inl e ↦ rw e (
      λ m. elim m [
        | inl q ↦ inr (inl q)
        | inr m' ↦ elim ((insert_down-Has x z ys).0 m') [ inl q ↦ inl q | inr h ↦ inr (inr h) ]
      ],
      λ m. elim m [
        | inl q ↦ inr ((insert_down-Has x z ys).1 (inl q))
        | inr (inl q) ↦ inl q
        | inr (inr h) ↦ inr ((insert_down-Has x z ys).1 (inr h))
      ],
    )
  ]

  pub sort_down-Has : (z : A) (xs : List A) → Has z (sort_down xs) ↔ Has z xs
  sort_down-Has z [] = (λ m. m, λ m. m)
  sort_down-Has z (x ∷ xs) = (
    λ m. elim ((insert_down-Has x z (sort_down xs)).0 m) [
      | inl q ↦ inl q
      | inr h ↦ inr ((sort_down-Has z xs).0 h)
    ],
    λ m.
        (insert_down-Has x z (sort_down xs)).1
          (elim m [ inl q ↦ inl q | inr h ↦ inr ((sort_down-Has z xs).1 h) ]),
  )

  -- Sorting keeps the keys apart.
  module _ {B : Type 0} (key : A → B) where
    insert_down-Distinct :
        (x : A) (ys : List A)
        → (¬ (Has (key x) (map key ys)))
        → Distinct (map key ys)
        → Distinct (map key (insert_down x ys))
    insert_down-Distinct x [] new d = (λ m. m, tt)
    insert_down-Distinct x (y ∷ ys) new d = elim (Bool-cases (less x y)) [
      | inr e ↦ rw e (new, d)
      | inl e ↦ rw e (
        λ m.
            let (z, there, same) = map-Has key (key y) (insert_down x ys) m in
            elim ((insert_down-Has x z ys).0 there) [
              | inl q ↦ new (inl (sym (same ∙ ap key q)))
              | inr h ↦ d.0 (subst (λ k. Has k (map key ys)) (sym same) (Has-map key z ys h))
            ],
        insert_down-Distinct x ys (λ m. new (inr m)) d.1,
      )
    ]

    pub sort_down-Distinct :
        (xs : List A) → Distinct (map key xs) → Distinct (map key (sort_down xs))
    sort_down-Distinct [] d = tt
    sort_down-Distinct (x ∷ xs) d =
        insert_down-Distinct x (sort_down xs)
          (λ m.
            let (z, there, same) = map-Has key (key x) (sort_down xs) m in
            d.0 (
              subst (λ k. Has k (map key xs)) (sym same)
                (Has-map key z xs ((sort_down-Has z xs).0 there))))
          (sort_down-Distinct xs d.1)

  -- What `less` says of keys that a sort can order.
  pub record IsOrder : Type 0 where
    pub asym : (x y : A) → less x y ≡ true → less y x ≡ false
    pub trans : (x y z : A) → less x y ≡ false → less y z ≡ false → less x z ≡ false

  -- None of the elements behind is larger.
  abbrev pub Down : List A → Type 0
  Down [] = Unit {0}
  Down (x ∷ xs) = All (λ y. less x y ≡ false) xs × Down xs

  module _ (order : IsOrder) where
    All-below :
        (x y : A) (ys : List A)
        → less x y ≡ false
        → All (λ z. less y z ≡ false) ys
        → All (λ z. less x z ≡ false) ys
    All-below x y [] e h = tt
    All-below x y (z ∷ ys) e h = (order.trans x y z e h.0, All-below x y ys e h.1)

    insert_down-below :
        (x y : A) (ys : List A)
        → less y x ≡ false
        → All (λ z. less y z ≡ false) ys
        → All (λ z. less y z ≡ false) (insert_down x ys)
    insert_down-below x y [] e h = (e, tt)
    insert_down-below x y (z ∷ ys) e h = elim (Bool-cases (less x z)) [
      | inl q ↦ rw q (h.0, insert_down-below x y ys e h.1)
      | inr q ↦ rw q (e, h)
    ]

    insert_down-Down : (x : A) (ys : List A) → Down ys → Down (insert_down x ys)
    insert_down-Down x [] d = (tt, tt)
    insert_down-Down x (y ∷ ys) d = elim (Bool-cases (less x y)) [
      | inl q ↦ rw q (insert_down-below x y ys (order.asym x y q) d.0, insert_down-Down x ys d.1)
      | inr q ↦ rw q ((q, All-below x y ys q d.0), d)
    ]

    pub sort_down-Down : (xs : List A) → Down (sort_down xs)
    sort_down-Down [] = tt
    sort_down-Down (x ∷ xs) = insert_down-Down x (sort_down xs) (sort_down-Down xs)

pub length-map : {A B : Type 0} (f : A → B) (xs : List A) → length (map f xs) ≡ length xs
length-map f [] = refl
length-map f (x ∷ xs) = ap suc (length-map f xs)
