-- ===== src/Retrieval/Fusion/Best.antt =====
-- What `_dedupe` of src/cranus/query/pipeline.py promises.
use cranus.Base.{
  ◌≡◌, refl, ap, sym, subst, ◌∙◌, ◌⊎◌, inl, inr, Bool, false, List, [], ◌∷◌, map, Str, str_eq,
  str_eq→eq, Bool-cases, Has, Distinct, sort_down-Has, sort_down-Distinct, sort_down-Down, IsOrder,
  Down,
}
use cranus.Retrieval.Fusion.Ids.{add_key, add_key-Distinct}
use cranus.Retrieval.Fusion.{FusedResult, less_result, keep_best, best_of, dedupe}

module _ (Score : Type 0) (less : Score → Score → Bool) where
  abbrev pub ids : List (FusedResult Score) → List Str
  ids = map (λ (r : FusedResult Score). r.chunk_id)

  abbrev lower : FusedResult Score → FusedResult Score → Bool
  lower = less_result Score less

  -- A result of the candidate's id that is not lower.
  abbrev pub Covered : FusedResult Score → List (FusedResult Score) → Type 0
  Covered c rs =
      (r : FusedResult Score) × Has r rs
      × (r.chunk_id ≡ c.chunk_id)
      × (less_result Score less r c ≡ false)

  keep_best-Has :
      (c r : FusedResult Score) (seen : List (FusedResult Score))
      → Has r (keep_best Score less c seen)
      → (r ≡ c) ⊎ Has r seen
  keep_best-Has c r [] m = m
  keep_best-Has c r (s ∷ seen) m = elim (Bool-cases (str_eq s.chunk_id c.chunk_id)) [
    | inl e ↦ elim (Bool-cases (less s.rrf_score c.rrf_score)) [
      | inl l ↦ elim (rw (e, l) at m) [ inl q ↦ inl q | inr h ↦ inr (inr h) ]
      | inr l ↦ inr (rw (e, l) at m)
    ]
    | inr e ↦ elim (rw e at m) [
      | inl q ↦ inr (inl q)
      | inr h ↦ elim (keep_best-Has c r seen h) [ inl q ↦ inl q | inr h' ↦ inr (inr h') ]
    ]
  ]

  keep_best-ids :
      (c : FusedResult Score) (seen : List (FusedResult Score))
      → ids (keep_best Score less c seen) ≡ add_key c.chunk_id (ids seen)
  keep_best-ids c [] = refl
  keep_best-ids c (s ∷ seen) = elim (Bool-cases (str_eq s.chunk_id c.chunk_id)) [
    | inl e ↦ elim (Bool-cases (less s.rrf_score c.rrf_score)) [
      | inl l ↦ rw (e, l) (ap (λ i. i ∷ ids seen) (sym (str_eq→eq s.chunk_id c.chunk_id e)))
      | inr l ↦ rw (e, l) refl
    ]
    | inr e ↦ rw e (ap (λ l. s.chunk_id ∷ l) (keep_best-ids c seen))
  ]

  best_of-Distinct :
      (cs seen : List (FusedResult Score))
      → Distinct (ids seen)
      → Distinct (ids (best_of Score less cs seen))
  unfolding best_of
  best_of-Distinct [] seen d = d
  best_of-Distinct (c ∷ cs) seen d =
      best_of-Distinct cs (keep_best Score less c seen)
        (subst Distinct (sym (keep_best-ids c seen)) (add_key-Distinct c.chunk_id (ids seen) d))

  best_of-Has :
      (cs seen : List (FusedResult Score)) (r : FusedResult Score)
      → Has r (best_of Score less cs seen)
      → Has r cs ⊎ Has r seen
  unfolding best_of
  best_of-Has [] seen r m = inr m
  best_of-Has (c ∷ cs) seen r m = elim (best_of-Has cs (keep_best Score less c seen) r m) [
    | inl h ↦ inl (inr h)
    | inr h ↦ elim (keep_best-Has c r seen h) [ inl q ↦ inl (inl q) | inr h' ↦ inr h' ]
  ]

  module _ (order : IsOrder (less_result Score less)) where
    not_below_itself : (c : FusedResult Score) → lower c c ≡ false
    not_below_itself c = elim (Bool-cases (lower c c)) [ inl e ↦ order.asym c c e | inr e ↦ e ]

    keep_best-Covered :
        (c : FusedResult Score) (seen : List (FusedResult Score))
        → Covered c (keep_best Score less c seen)
    keep_best-Covered c [] = (c, inl refl, refl, not_below_itself c)
    keep_best-Covered c (s ∷ seen) = elim (Bool-cases (str_eq s.chunk_id c.chunk_id)) [
      | inl e ↦ elim (Bool-cases (less s.rrf_score c.rrf_score)) [
        | inl l ↦ rw (e, l) (c, inl refl, refl, not_below_itself c)
        | inr l ↦ rw (e, l) (s, inl refl, str_eq→eq s.chunk_id c.chunk_id e, l)
      ]
      | inr e ↦ rw e (let (r, m, same, l) = keep_best-Covered c seen in (r, inr m, same, l))
    ]

    keep_best-still :
        (c d : FusedResult Score) (seen : List (FusedResult Score))
        → Covered d seen
        → Covered d (keep_best Score less c seen)
    keep_best-still c d [] (r, m, same, l) = absurd m
    keep_best-still c d (s ∷ seen) (r, m, same, l) =
        elim (Bool-cases (str_eq s.chunk_id c.chunk_id)) [
          | inr e ↦ rw e (elim m [
            | inl q ↦ (r, inl q, same, l)
            | inr h ↦
                let (r', m', same', l') = keep_best-still c d seen (r, h, same, l) in
                (r', inr m', same', l')
          ])
          | inl e ↦ elim (Bool-cases (less s.rrf_score c.rrf_score)) [
            | inr n ↦ rw (e, n) (r, m, same, l)
            | inl n ↦
                rw (e, n)
                  (elim m [
                    | inr h ↦ (r, inr h, same, l)
                    | inl q ↦ (
                      c,
                      inl refl,
                      sym (str_eq→eq s.chunk_id c.chunk_id e)
                          ∙ sym (ap (λ (x : FusedResult Score). x.chunk_id) q)
                          ∙ same,
                      order.trans c s d (order.asym s c n)
                          (subst (λ (x : FusedResult Score). lower x d ≡ false) q l),
                    )
                  ])
          ]
        ]

    best_of-still :
        (cs seen : List (FusedResult Score)) (d : FusedResult Score)
        → Covered d seen
        → Covered d (best_of Score less cs seen)
    unfolding best_of
    best_of-still [] seen d h = h
    best_of-still (c ∷ cs) seen d h = best_of-still cs _ d (keep_best-still c d seen h)

    best_of-Covered :
        (cs seen : List (FusedResult Score)) (d : FusedResult Score)
        → Has d cs
        → Covered d (best_of Score less cs seen)
    unfolding best_of
    best_of-Covered [] seen d m = absurd m
    best_of-Covered (c ∷ cs) seen d (inl q) =
        best_of-still cs _ d
          (subst (λ x. Covered d (keep_best Score less x seen)) q (keep_best-Covered d seen))
    best_of-Covered (c ∷ cs) seen d (inr m) = best_of-Covered cs _ d m

  -- What `_dedupe` makes of candidates: some of them, one for each id, each as high as any candidate
  -- of its id, the highest score first.
  pub record IsDeduped (cs rs : List (FusedResult Score)) : Type 0 where
    pub chosen : (r : FusedResult Score) → Has r rs → Has r cs
    pub distinct : Distinct (ids rs)
    pub best : (c : FusedResult Score) → Has c cs → Covered c rs
    pub ordered : Down (less_result Score less) rs

  -- The results of deduplication are some of the candidates, one for each id; for every candidate
  -- there is a result of its id with no lower score; and no result has a higher score than one before
  -- it. It is assumed that the comparison of the scores is an order.
  pub dedupe-IsDeduped :
      (cs : List (FusedResult Score))
      → IsOrder (less_result Score less)
      → IsDeduped cs (dedupe Score less cs)
  unfolding dedupe
  dedupe-IsDeduped cs order =
      let best = best_of Score less cs [] in
      record {
        chosen = λ r m. elim (best_of-Has cs [] r ((sort_down-Has lower r best).0 m)) [
          | inl h ↦ h
          | inr h ↦ absurd h
        ];
        distinct =
            sort_down-Distinct lower (λ (r : FusedResult Score). r.chunk_id) best
              (best_of-Distinct cs [] tt);
        best = λ c m.
            let (r, there, same, l) = best_of-Covered order cs [] c m in
            (r, (sort_down-Has lower r best).1 there, same, l);
        ordered = sort_down-Down lower order best;
      }
