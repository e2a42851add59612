-- ===== src/Retrieval/Fusion/Scores.antt =====
-- What `rrf_merge` of src/cranus/retrieval/fusion.py returns.
use cranus.Base.{
  ℕ, ◌+◌, ◌≡◌, refl, ap, subst, ◌∙◌, ◌⊎◌, ◌↔◌, inl, inr, Bool, true, false, Option, none, some,
  List, [], ◌∷◌, map, Str, str_eq, str_eq→eq, Bool-cases, Has, All, All-map, if◌then◌else◌, or_else,
}
use cranus.Retrieval.Fusion.{
  RetrievedChunk, FusedResult, get, set_default, keys, or_value, Merging, merge_item, fused_results,
}
use cranus.Retrieval.Fusion.Ids.{add_key-Has, get-put, first_ids, merge_all}

pub or_else-none {ℓ} : {A : Type ℓ} (o : Option A) → o ≡ or_else o none
or_else-none none = refl
or_else-none (some a) = refl

-- Of two tries in a row the one that has been made counts.
or_else_if {ℓ} :
    {A : Type ℓ} (o p : Option A) (b : Bool) (x : A)
    → or_else (or_else o (if b then some x else none)) p ≡ or_else o (if b then some x else p)
or_else_if none p true x = refl
or_else_if none p false x = refl
or_else_if (some a) p b x = refl

abbrev pub ids_of : List (ℕ × RetrievedChunk) → List Str
ids_of = map (λ e. e.1.chunk_id)

-- The first item that has the id.
abbrev pub first_item : Str → List (ℕ × RetrievedChunk) → Option RetrievedChunk
first_item i [] = none
first_item i ((rank, item) ∷ es) = if str_eq item.chunk_id i then some item else first_item i es

pub first_ids-Has :
    (es : List (ℕ × RetrievedChunk)) (ids : List Str) (i : Str)
    → Has i (first_ids es ids) ↔ (Has i (ids_of es) ⊎ Has i ids)
first_ids-Has [] ids i = (λ m. inr m, λ m. elim m [ inl h ↦ absurd h | inr h ↦ h ])
first_ids-Has ((rank, item) ∷ es) ids i =
    let rec = first_ids-Has es _ i in
    let here = add_key-Has item.chunk_id i ids in
    (
      λ m. elim (rec.0 m) [
        | inl h ↦ inl (inr h)
        | inr h ↦ elim (here.0 h) [ inl q ↦ inl (inl q) | inr h' ↦ inr h' ]
      ],
      λ m. rec.1 (elim m [
        | inl (inl q) ↦ inr (here.1 (inl q))
        | inl (inr h) ↦ inl h
        | inr h ↦ inr (here.1 (inr h))
      ]),
    )

get-set_default :
    {V : Type 0} (key i : Str) (v : V) (d : List (Str × V))
    → get i (set_default key v d) ≡ or_else (get i d) (if str_eq key i then some v else none)
get-set_default key i v [] = refl
get-set_default key i v ((k, w) ∷ d) = elim (Bool-cases (str_eq k i)) [
  | inl q ↦ elim (Bool-cases (str_eq k key)) [ inl e ↦ rw (e, q) refl | inr e ↦ rw (e, q) refl ]
  | inr q ↦ elim (Bool-cases (str_eq k key)) [
    | inl e ↦
        rw (e, q, subst (λ j. str_eq j i ≡ false) (str_eq→eq k key e) q) (or_else-none (get i d))
    | inr e ↦ rw (e, q) (get-set_default key i v d)
  ]
]

module _ (Score : Type 0) (zero_score : Score) (add : Score → Score → Score) (one_over : ℕ → Score)
    (k : ℕ) where
  -- The sum of `1 / (k + rank)` over the places at which the id stands, added to a start.
  abbrev pub total : Str → Score → List (ℕ × RetrievedChunk) → Score
  total i s [] = s
  total i s ((rank, item) ∷ es) =
      total i (if str_eq item.chunk_id i then add s (one_over (k + rank)) else s) es

  abbrev pub all_merged : List (ℕ × RetrievedChunk) → Merging Score → Merging Score
  all_merged = merge_all Score zero_score add one_over k

  step_score :
      (b : Bool) (x y : Score) (o : Option Score)
      → (b ≡ true → x ≡ add (or_value o zero_score) y)
      → or_value (if b then some x else o) zero_score
        ≡ (if b then add (or_value o zero_score) y else or_value o zero_score)
  step_score true x y o h = h refl
  step_score false x y o h = refl

  pub score_lem :
      (i : Str) (es : List (ℕ × RetrievedChunk)) (m : Merging Score)
      → or_value (get i (all_merged es m).scores) zero_score
        ≡ total i (or_value (get i m.scores) zero_score) es
  score_lem i [] m = refl
  score_lem i ((rank, item) ∷ es) m =
      score_lem i es (merge_item Score zero_score add one_over k rank item m)
      ∙ ap (λ s. total i s es)
          (ap (λ o. or_value o zero_score) (get-put item.chunk_id i _ m.scores)
            ∙ step_score (str_eq item.chunk_id i) _ (one_over (k + rank)) (get i m.scores) (λ e.
              ap (λ j. add (or_value (get j m.scores) zero_score) (one_over (k + rank)))
                (str_eq→eq item.chunk_id i e)))

  pub meta_lem :
      (i : Str) (es : List (ℕ × RetrievedChunk)) (m : Merging Score)
      → get i (all_merged es m).meta ≡ or_else (get i m.meta) (first_item i es)
  meta_lem i [] m = or_else-none (get i m.meta)
  meta_lem i ((rank, item) ∷ es) m =
      meta_lem i es (merge_item Score zero_score add one_over k rank item m)
      ∙ ap (λ o. or_else o (first_item i es)) (get-set_default item.chunk_id i item m.meta)
      ∙ or_else_if (get i m.meta) (first_item i es) (str_eq item.chunk_id i) item

  -- A result stands for an entry of the scores and for the item that its id finds.
  abbrev pub IsFor : List (Str × Score) → List (Str × RetrievedChunk) → FusedResult Score → Type 0
  IsFor scores meta r =
      (item : RetrievedChunk) × Has (r.chunk_id, r.rrf_score) scores
      × (get r.chunk_id meta ≡ some item)
      × (r.doc_id ≡ item.doc_id)
      × (r.text ≡ item.text)

  IsFor-later :
      (e : Str × Score) (scores : List (Str × Score)) (meta : List (Str × RetrievedChunk))
      (r : FusedResult Score)
      → IsFor scores meta r
      → IsFor (e ∷ scores) meta r
  IsFor-later e scores meta r (item, there, found, doc, text) = (item, inr there, found, doc, text)

  pub fused_results_lem :
      (scores : List (Str × Score)) (meta : List (Str × RetrievedChunk))
      → ((i : Str) → Has i (keys scores) → (item : RetrievedChunk) × (get i meta ≡ some item))
      → (rs : List (FusedResult Score)) × (fused_results Score scores meta ≡ some rs)
        × (map (λ (r : FusedResult Score). r.chunk_id) rs ≡ keys scores)
        × All (IsFor scores meta) rs
  unfolding fused_results
  fused_results_lem [] meta found = ([], refl, refl, tt)
  fused_results_lem ((cid, score) ∷ scores) meta found =
      let (item, e) = found cid (inl refl) in
      let (rs, e', ids, rest) = fused_results_lem scores meta (λ i m. found i (inr m)) in
      (
        record { chunk_id = cid; doc_id = item.doc_id; text = item.text; rrf_score = score } ∷ rs,
        rw (e, e') refl,
        ap (λ l. cid ∷ l) ids,
        (
          (item, inl refl, e, refl, refl),
          All-map {Q = IsFor ((cid, score) ∷ scores) meta} (IsFor-later (cid, score) scores meta) rs
              rest,
        ),
      )
