-- ===== src/Storage/Table.antt =====
-- A table as the list of its rows, in insertion order, and the session calls on it: `db.get`,
-- the assignment to a row's fields, and `db.add`.
use cranus.Base.{
  map, length, option_map, ◌≡◌, refl, sym, ap, ◌∙◌, inl, inr, Bool, true, false, Option, none, some,
  List, [], ◌∷◌, arith, Str, str_eq, str_eq→eq, if◌then◌else◌, All, Has, Bool-cases, ◌≢◌,
}

module _ {A : Type 0} where
  -- The first row that passes the test (`.filter(...).first()`).
  abbrev pub find_first : (A → Bool) → List A → Option A
  find_first p [] = none
  find_first p (r ∷ rows) = if p r then some r else find_first p rows

  -- `db.get(Model, id)`
  abbrev pub get_row : (A → Str) → Str → List A → Option A
  get_row key id = find_first (λ r. str_eq (key r) id)

  -- The row with this id is changed in place.
  abbrev pub set_row : (A → Str) → Str → (A → A) → List A → List A
  set_row key id f [] = []
  set_row key id f (r ∷ rows) = if str_eq (key r) id then f r ∷ rows else r ∷ set_row key id f rows

  -- `UPDATE ... WHERE id = ...`, which is what a changed row is written back by.
  abbrev pub update_rows : (A → Str) → Str → (A → A) → List A → List A
  update_rows key id f [] = []
  update_rows key id f (r ∷ rows) =
      (if str_eq (key r) id then f r else r) ∷ update_rows key id f rows

  pub All-update_rows {κ μ} :
      {P : A → Type κ} {Q : A → Type μ} (key : A → Str) (id : Str) (f : A → A) (rows : List A)
      → ((r : A) → P r → str_eq (key r) id ≡ true → Q (f r))
      → ((r : A) → P r → str_eq (key r) id ≡ false → Q r)
      → All P rows
      → All Q (update_rows key id f rows)
  All-update_rows key id f [] here there h = tt
  All-update_rows key id f (r ∷ rows) here there h = elim (Bool-cases (str_eq (key r) id)) [
    | inl e ↦ rw e (here r h.0 e, All-update_rows key id f rows here there h.1)
    | inr e ↦ rw e (there r h.0 e, All-update_rows key id f rows here there h.1)
  ]

  pub get_row-update_rows :
      (key : A → Str) (id : Str) (f : A → A) (rows : List A)
      → ((r : A) → key (f r) ≡ key r)
      → get_row key id (update_rows key id f rows) ≡ option_map f (get_row key id rows)
  get_row-update_rows key id f [] same = refl
  get_row-update_rows key id f (r ∷ rows) same = elim (Bool-cases (str_eq (key r) id)) [
    | inl e ↦ rw (e, same r, e) refl
    | inr e ↦ rw (e, e) (get_row-update_rows key id f rows same)
  ]

  pub get_row-update_rows_ne :
      (key : A → Str) (id other : Str) (f : A → A) (rows : List A)
      → ((r : A) → key (f r) ≡ key r)
      → id ≢ other
      → get_row key other (update_rows key id f rows) ≡ get_row key other rows
  get_row-update_rows_ne key id other f [] same ne = refl
  get_row-update_rows_ne key id other f (r ∷ rows) same ne = elim (Bool-cases (str_eq (key r) id)) [
    | inl e ↦
        let not_other : str_eq (key r) other ≡ false = elim (Bool-cases (str_eq (key r) other)) [
          | inl q ↦ absurd (ne (sym (str_eq→eq _ _ e) ∙ str_eq→eq _ _ q))
          | inr q ↦ q
        ] in
        rw (e, same r, not_other) (get_row-update_rows_ne key id other f rows same ne)
    | inr e ↦ elim (Bool-cases (str_eq (key r) other)) [
      | inl q ↦ rw (e, q)
      | inr q ↦ rw (e, q) (get_row-update_rows_ne key id other f rows same ne)
    ]
  ]

  pub find_first-Has :
      (p : A → Bool) (rows : List A) (r : A)
      → find_first p rows ≡ some r
      → Has r rows × (p r ≡ true)
  find_first-Has p [] r e = absurd (cc)
  find_first-Has p (x ∷ rows) r e = elim (Bool-cases (p x)) [
    | inl q ↦ let same : x ≡ r = ground arith in (inl (cc), ap p (cc) ∙ q)
    | inr q ↦ let (m, k) = find_first-Has p rows r (ground arith) in (inr m, k)
  ]

  pub get_row-set_row :
      (key : A → Str) (id : Str) (f : A → A) (rows : List A)
      → ((r : A) → key (f r) ≡ key r)
      → get_row key id (set_row key id f rows) ≡ option_map f (get_row key id rows)
  get_row-set_row key id f [] same = refl
  get_row-set_row key id f (r ∷ rows) same = elim (Bool-cases (str_eq (key r) id)) [
    | inl e ↦ rw (e, same r, e) refl
    | inr e ↦ rw (e, e) (get_row-set_row key id f rows same)
  ]

  -- Another id finds what it found before.
  pub get_row-set_row_ne :
      (key : A → Str) (id other : Str) (f : A → A) (rows : List A)
      → ((r : A) → key (f r) ≡ key r)
      → id ≢ other
      → get_row key other (set_row key id f rows) ≡ get_row key other rows
  get_row-set_row_ne key id other f [] same ne = refl
  get_row-set_row_ne key id other f (r ∷ rows) same ne = elim (Bool-cases (str_eq (key r) id)) [
    | inl e ↦
        let not_other : str_eq (key r) other ≡ false = elim (Bool-cases (str_eq (key r) other)) [
          | inl q ↦ absurd (ne (sym (str_eq→eq _ _ e) ∙ str_eq→eq _ _ q))
          | inr q ↦ q
        ] in
        rw (e, same r, not_other)
    | inr e ↦ elim (Bool-cases (str_eq (key r) other)) [
      | inl q ↦ rw (e, q)
      | inr q ↦ rw (e, q) (get_row-set_row_ne key id other f rows same ne)
    ]
  ]

module _ {A : Type 0} where
  pub map-update_rows :
      (key : A → Str) (id : Str) (f : A → A) (rows : List A)
      → ((r : A) → key (f r) ≡ key r)
      → map key (update_rows key id f rows) ≡ map key rows
  map-update_rows key id f [] same = refl
  map-update_rows key id f (r ∷ rows) same = elim (Bool-cases (str_eq (key r) id)) [
    | inl e ↦ rw (e, same r, map-update_rows key id f rows same) refl
    | inr e ↦ rw (e, map-update_rows key id f rows same) refl
  ]

  pub length-update_rows :
      (key : A → Str) (id : Str) (f : A → A) (rows : List A)
      → length (update_rows key id f rows) ≡ length rows
  length-update_rows key id f [] = refl
  length-update_rows key id f (r ∷ rows) = omega (arith, length-update_rows key id f rows)
