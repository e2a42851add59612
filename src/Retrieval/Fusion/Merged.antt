-- ===== src/Retrieval/Fusion/Merged.antt =====
-- What `rrf_merge` of src/cranus/retrieval/fusion.py promises.
use cranus.Base.{
  ℕ, ◌≡◌, ap, sym, subst, ◌∙◌, ◌↔◌, inl, inr, Bool, option_map, some, List, [], map, Str, Has,
  Has-map, All, Distinct, sort_down, sort_down-Has, sort_down-Distinct, sort_down-Down, IsOrder,
  Down,
}
use cranus.Retrieval.Fusion.{
  RetrievedChunk, FusedResult, keys, or_value, Merging, fused_results, less_result, rrf_merge,
}
use cranus.Retrieval.Fusion.Ids.{
  get_of_key, get_of_item, rank_all, first_ids, first_ids-Distinct, merge_lists-eq, keys-merge_all,
}
use cranus.Base.{map-Has, Has-All, All-Has}
use cranus.Retrieval.Fusion.Scores.{
  ids_of, first_item, first_ids-Has, total, all_merged, score_lem, meta_lem, IsFor,
  fused_results_lem,
}

module _ (Score : Type 0) (zero_score : Score) (add : Score → Score → Score) (one_over : ℕ → Score)
    (less : Score → Score → Bool) (k : ℕ) where
  abbrev pub chunk_ids : List (FusedResult Score) → List Str
  chunk_ids = map (λ (r : FusedResult Score). r.chunk_id)

  -- The result has the sum of its id's reciprocal ranks, and the texts of its id's first item.
  abbrev pub IsFused : List (ℕ × RetrievedChunk) → FusedResult Score → Type 0
  IsFused es r =
      (r.rrf_score ≡ total Score zero_score add one_over k r.chunk_id zero_score es)
      × ((item : RetrievedChunk) × (first_item r.chunk_id es ≡ some item)
          × (r.doc_id ≡ item.doc_id)
          × (r.text ≡ item.text))

  -- One result for each id of the lists, fused from its items, and the highest score first.
  pub record IsFusion (es : List (ℕ × RetrievedChunk)) (rs : List (FusedResult Score))
      : Type 0 where
    pub distinct : Distinct (chunk_ids rs)
    pub covers : (i : Str) → Has i (chunk_ids rs) ↔ Has i (ids_of es)
    pub fused : All (IsFused es) rs
    pub ordered : Down (less_result Score less) rs

  nothing : Merging Score
  nothing = record { scores = []; meta = [] }

  module _ (es : List (ℕ × RetrievedChunk)) where
    abbrev merged : Merging Score
    merged = all_merged Score zero_score add one_over k es (record { scores = []; meta = [] })

    merged-keys : (keys merged.scores ≡ first_ids es []) × (keys merged.meta ≡ first_ids es [])
    merged-keys =
        keys-merge_all Score zero_score add one_over k es (record { scores = []; meta = [] })

    scores-Distinct : Distinct (keys merged.scores)
    scores-Distinct = subst Distinct (sym merged-keys.0) (first_ids-Distinct es [] tt)

    IsFor-IsFused :
        (r : FusedResult Score)
        → IsFor Score zero_score add one_over k merged.scores merged.meta r
        → IsFused es r
    IsFor-IsFused r (item, there, found, doc, text) = (
      sym (
            ap (λ o. or_value o zero_score)
              (get_of_item merged.scores scores-Distinct r.chunk_id r.rrf_score there))
          ∙ score_lem Score zero_score add one_over k r.chunk_id es
              (record { scores = []; meta = [] }),
      (
        item,
        sym (
              meta_lem Score zero_score add one_over k r.chunk_id es
                (record { scores = []; meta = [] }))
            ∙ found,
        doc,
        text,
      ),
    )

    sorted-IsFusion :
        (rs : List (FusedResult Score))
        → IsOrder (less_result Score less)
        → chunk_ids rs ≡ keys merged.scores
        → All (IsFor Score zero_score add one_over k merged.scores merged.meta) rs
        → IsFusion es (sort_down (less_result Score less) rs)
    sorted-IsFusion rs order ids for =
        let sorted = sort_down (less_result Score less) rs in
        let to_rs = λ (z : FusedResult Score). sort_down-Has (less_result Score less) z rs in
        let found = λ (i : Str). first_ids-Has es [] i in
        record {
          distinct =
              sort_down-Distinct (less_result Score less) (λ (r : FusedResult Score). r.chunk_id) rs
                (subst Distinct (sym ids) scores-Distinct);
          covers = λ i. (
            λ m.
                let (z, there, e) = map-Has (λ (r : FusedResult Score). r.chunk_id) i sorted m in
                let in_keys : Has i (first_ids es []) = subst (Has i) (ids ∙ merged-keys.0) (
                  subst (λ j. Has j (chunk_ids rs)) (sym e)
                    (Has-map (λ (r : FusedResult Score). r.chunk_id) z rs ((to_rs z).0 there))) in
                elim ((found i).0 in_keys) [ inl h ↦ h | inr h ↦ absurd h ],
            λ m.
                let in_rs : Has i (chunk_ids rs) =
                  subst (Has i) (sym (ids ∙ merged-keys.0)) ((found i).1 (inl m)) in
                let (z, there, e) = map-Has (λ (r : FusedResult Score). r.chunk_id) i rs in_rs in
                subst (λ j. Has j (chunk_ids sorted)) (sym e)
                  (Has-map (λ (r : FusedResult Score). r.chunk_id) z sorted ((to_rs z).1 there)),
          );
          fused = Has-All (IsFused es) sorted (λ z there. IsFor-IsFused z (
              All-Has (IsFor Score zero_score add one_over k merged.scores merged.meta) z rs for
                ((to_rs z).0 there)));
          ordered = sort_down-Down (less_result Score less) order rs;
        }

  -- Merging always has a result: one entry for each id that any list has and no other. Its score is
  -- the sum of `1 / (k + rank)` over all places of the id, from 0 on; its document and text are those
  -- of the first item with the id; no entry has a higher score than one before it. It is assumed that
  -- the comparison of the scores is an order.
  pub rrf_merge-IsFusion :
      (lists : List (List RetrievedChunk))
      → IsOrder (less_result Score less)
      → (rs : List (FusedResult Score)) × (rrf_merge Score zero_score add one_over less k lists
          ≡ some rs)
        × IsFusion (rank_all lists) rs
  unfolding rrf_merge
  rrf_merge-IsFusion lists order =
      let es = rank_all lists in
      let (rs, e, ids, for) =
        fused_results_lem Score zero_score add one_over k (merged es).scores (merged es).meta
          (λ i m.
            get_of_key i (merged es).meta
              (subst (Has i) ((merged-keys es).0 ∙ sym (merged-keys es).1) m)) in
      (
        sort_down (less_result Score less) rs,
        ap
              (λ (m : Merging Score).
                option_map (sort_down (less_result Score less))
                  (fused_results Score m.scores m.meta))
              (merge_lists-eq Score zero_score add one_over k lists
                (record { scores = []; meta = [] }))
            ∙ ap (option_map (sort_down (less_result Score less))) e,
        sorted-IsFusion es rs order ids for,
      )
