-- ===== src/Retrieval/Fusion/Ids.antt =====
-- The dicts of `rrf_merge` of src/cranus/retrieval/fusion.py: their keys and their values.
use cranus.Base.{
  ℕ, suc, ◌≡◌, refl, ap, sym, subst, Has-map, ◌∙◌, ◌⊎◌, ◌↔◌, inl, inr, Bool, true, false, Option,
  some, List, [], ◌∷◌, ◌++◌, arith, Str, str_eq, str_eq→eq, str_eq_refl, Bool-cases, Has, Distinct,
  if◌then◌else◌,
}
use cranus.Retrieval.Fusion.{
  RetrievedChunk, get, put, set_default, keys, Merging, merge_item, merge_ranked, merge_lists,
}

-- The key is added behind, if it is not there.
abbrev pub add_key : Str → List Str → List Str
add_key key [] = key ∷ []
add_key key (k ∷ ks) = if str_eq k key then k ∷ ks else k ∷ add_key key ks

pub add_key-Has : (key i : Str) (ks : List Str) → Has i (add_key key ks) ↔ ((i ≡ key) ⊎ Has i ks)
add_key-Has key i [] = (λ m. m, λ m. m)
add_key-Has key i (k ∷ ks) = elim (Bool-cases (str_eq k key)) [
  | inl e ↦ rw e (λ m. inr m, λ m. elim m [ inl q ↦ inl (q ∙ sym (str_eq→eq k key e)) | inr h ↦ h ])
  | inr e ↦ rw e (
    λ m. elim m [
      | inl q ↦ inr (inl q)
      | inr h ↦ elim ((add_key-Has key i ks).0 h) [ inl q ↦ inl q | inr h' ↦ inr (inr h') ]
    ],
    λ m. elim m [
      | inl q ↦ inr ((add_key-Has key i ks).1 (inl q))
      | inr (inl q) ↦ inl q
      | inr (inr h) ↦ inr ((add_key-Has key i ks).1 (inr h))
    ],
  )
]

pub add_key-Distinct : (key : Str) (ks : List Str) → Distinct ks → Distinct (add_key key ks)
add_key-Distinct key [] d = (λ m. m, tt)
add_key-Distinct key (k ∷ ks) d = elim (Bool-cases (str_eq k key)) [
  | inl e ↦ rw e d
  | inr e ↦ rw e (
    λ m. elim ((add_key-Has key k ks).0 m) [
      | inl q ↦ ground (arith, e, str_eq_refl k, ap (str_eq k) q)
      | inr h ↦ d.0 h
    ],
    add_key-Distinct key ks d.1,
  )
]

module _ {V : Type 0} where
  keys-put : (key : Str) (v : V) (d : List (Str × V)) → keys (put key v d) ≡ add_key key (keys d)
  keys-put key v [] = refl
  keys-put key v ((k, w) ∷ d) = elim (Bool-cases (str_eq k key)) [
    | inl e ↦ rw e refl
    | inr e ↦ rw e (ap (λ l. k ∷ l) (keys-put key v d))
  ]

  keys-set_default :
      (key : Str) (v : V) (d : List (Str × V)) → keys (set_default key v d) ≡ add_key key (keys d)
  keys-set_default key v [] = refl
  keys-set_default key v ((k, w) ∷ d) = elim (Bool-cases (str_eq k key)) [
    | inl e ↦ rw e refl
    | inr e ↦ rw e (ap (λ l. k ∷ l) (keys-set_default key v d))
  ]

  same_key :
      (b : Bool) (x y z : Option V) → (if b then x else z) ≡ (if b then x else (if b then y else z))
  same_key true x y z = refl
  same_key false x y z = refl

  other_key :
      (key i k : Str) (x y : Option V)
      → str_eq k key ≡ false
      → str_eq k i ≡ true
      → x ≡ (if str_eq key i then y else x)
  other_key key i k x y e q = elim (Bool-cases (str_eq key i)) [
    | inl h ↦
        ground (arith, e, ap (str_eq k) (str_eq→eq k i q ∙ sym (str_eq→eq key i h)), str_eq_refl k)
    | inr h ↦ rw h refl
  ]

  pub get-put :
      (key i : Str) (v : V) (d : List (Str × V))
      → get i (put key v d) ≡ (if str_eq key i then some v else get i d)
  get-put key i v [] = refl
  get-put key i v ((k, w) ∷ d) = elim (Bool-cases (str_eq k key)) [
    | inl e ↦ rw e (
        subst
          (λ j.
            (if str_eq j i then some v else get i d)
            ≡ (if str_eq key i then some v else (if str_eq j i then some w else get i d)))
          (sym (str_eq→eq k key e)) (same_key (str_eq key i) (some v) (some w) (get i d)))
    | inr e ↦ elim (Bool-cases (str_eq k i)) [
      | inl q ↦ rw (e, q) (other_key key i k (some w) (some v) e q)
      | inr q ↦ rw (e, q) (get-put key i v d)
    ]
  ]

  pub get_of_key : (i : Str) (d : List (Str × V)) → Has i (keys d) → (v : V) × (get i d ≡ some v)
  get_of_key i [] m = absurd m
  get_of_key i ((k, w) ∷ d) m = elim (Bool-cases (str_eq k i)) [
    | inl e ↦ rw e (w, refl)
    | inr e ↦ rw e (elim m [
      | inl q ↦ absurd (ground (arith, e, ap (str_eq k) q, str_eq_refl k))
      | inr h ↦ get_of_key i d h
    ])
  ]

  -- Distinct keys: the value of an item is what its key finds.
  pub get_of_item :
      (d : List (Str × V)) → Distinct (keys d) → (i : Str) (v : V) → Has (i, v) d → get i d ≡ some v
  get_of_item [] u i v m = absurd m
  get_of_item ((k, w) ∷ d) u i v (inl e) =
      rw (ap (str_eq k) (ap (λ x. x.0) e) ∙ str_eq_refl k) (ap some (sym (ap (λ x. x.1) e)))
  get_of_item ((k, w) ∷ d) u i v (inr m) = elim (Bool-cases (str_eq k i)) [
    | inl q ↦
        absurd (
          u.0 (subst (λ j. Has j (keys d)) (sym (str_eq→eq k i q)) (Has-map (λ x. x.0) (i, v) d m)))
    | inr q ↦ rw q (get_of_item d u.1 i v m)
  ]

-- The items of all lists, each with its rank.
abbrev pub rank_from : ℕ → List RetrievedChunk → List (ℕ × RetrievedChunk)
rank_from rank [] = []
rank_from rank (item ∷ items) = (rank, item) ∷ rank_from (suc rank) items

abbrev pub rank_all : List (List RetrievedChunk) → List (ℕ × RetrievedChunk)
rank_all [] = []
rank_all (ranked ∷ lists) = rank_from 1 ranked ++ rank_all lists

-- The ids in the order in which they first occur.
abbrev pub first_ids : List (ℕ × RetrievedChunk) → List Str → List Str
first_ids [] ids = ids
first_ids (e ∷ es) ids = first_ids es (add_key e.1.chunk_id ids)

pub first_ids-Distinct :
    (es : List (ℕ × RetrievedChunk)) (ids : List Str) → Distinct ids → Distinct (first_ids es ids)
first_ids-Distinct [] ids d = d
first_ids-Distinct (e ∷ es) ids d = first_ids-Distinct es _ (add_key-Distinct e.1.chunk_id ids d)

module _ (Score : Type 0) (zero_score : Score) (add : Score → Score → Score) (one_over : ℕ → Score)
    (k : ℕ) where
  abbrev pub merge_all : List (ℕ × RetrievedChunk) → Merging Score → Merging Score
  merge_all [] m = m
  merge_all ((rank, item) ∷ es) m =
      merge_all es (merge_item Score zero_score add one_over k rank item m)

  merge_all-append :
      (es fs : List (ℕ × RetrievedChunk)) (m : Merging Score)
      → merge_all (es ++ fs) m ≡ merge_all fs (merge_all es m)
  merge_all-append [] fs m = refl
  merge_all-append ((rank, item) ∷ es) fs m = merge_all-append es fs _

  merge_ranked-eq :
      (rank : ℕ) (items : List RetrievedChunk) (m : Merging Score)
      → merge_ranked Score zero_score add one_over k rank items m
        ≡ merge_all (rank_from rank items) m
  unfolding merge_ranked
  merge_ranked-eq rank [] m = refl
  merge_ranked-eq rank (item ∷ items) m = merge_ranked-eq (suc rank) items _

  pub merge_lists-eq :
      (lists : List (List RetrievedChunk)) (m : Merging Score)
      → merge_lists Score zero_score add one_over k lists m ≡ merge_all (rank_all lists) m
  unfolding merge_lists
  merge_lists-eq [] m = refl
  merge_lists-eq (ranked ∷ lists) m =
      merge_lists-eq lists _
      ∙ ap (merge_all (rank_all lists)) (merge_ranked-eq 1 ranked m)
      ∙ sym (merge_all-append (rank_from 1 ranked) (rank_all lists) m)

  pub keys-merge_all :
      (es : List (ℕ × RetrievedChunk)) (m : Merging Score)
      → (keys (merge_all es m).scores ≡ first_ids es (keys m.scores))
        × (keys (merge_all es m).meta ≡ first_ids es (keys m.meta))
  keys-merge_all [] m = (refl, refl)
  keys-merge_all ((rank, item) ∷ es) m =
      let (a, b) = keys-merge_all es (merge_item Score zero_score add one_over k rank item m) in
      (
        a ∙ ap (first_ids es) (keys-put item.chunk_id _ m.scores),
        b ∙ ap (first_ids es) (keys-set_default item.chunk_id item m.meta),
      )
