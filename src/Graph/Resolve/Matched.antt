-- ===== src/Graph/Resolve/Matched.antt =====
-- To which entity `_resolve_mention` of src/cranus/graph/pipeline.py resolves a mention.
use cranus.Base.{
  true_ne_false, ◌≡◌, refl, sym, ap, subst, ◌∙◌, ◌⊎◌, inl, inr, Bool, true, false, Option, none,
  some, List, [], ◌∷◌, Str, str_eq, keep_if, Has, Has-keep_if, keep_if-Has, Bool-cases, IsOrder,
}
use cranus.Storage.Table.{update_rows}
use cranus.Graph.Store.{Entity, Graph}
use cranus.Graph.Review.{entity_key, queue_for_review}
use cranus.Graph.Resolve.{
  Mention, Names, add_span, new_entity, may_match, score_of, best_candidate, add_entity, settle,
  Resolution, resolve_mention,
}

module _ (Score : Type 0) (names : Names Score) (less : Score → Score → Bool) where
  -- A best candidate is one that was offered and matches, and its score is the one reached.
  abbrev pub IsFound : Mention → List Entity → Score → Option Entity → Score → Type 0
  IsFound m cs zero_score none score = score ≡ zero_score
  IsFound m cs zero_score (some e) score =
      Has e cs × (may_match Score names m e ≡ true) × (score ≡ score_of Score names m e)

  module _ (order : IsOrder less) where
    reached :
        (m : Mention) (cs : List Entity) (best : Option Entity) (score : Score)
        → less (best_candidate Score names less m cs best score).1 score ≡ false
    unfolding best_candidate
    reached m [] best score = elim (Bool-cases (less score score)) [
      | inl e ↦ order.asym score score e
      | inr e ↦ e
    ]
    reached m (c ∷ cs) best score = elim (Bool-cases (may_match Score names m c)) [
      | inl e ↦ elim (Bool-cases (less score (score_of Score names m c))) [
        | inl l ↦
            rw (e, l)
              (order.trans
                (best_candidate Score names less m cs (some c) (score_of Score names m c)).1
                (score_of Score names m c) score (reached m cs (some c) (score_of Score names m c))
                (order.asym score (score_of Score names m c) l))
        | inr l ↦ rw (e, l) (reached m cs best score)
      ]
      | inr e ↦ rw e (reached m cs best score)
    ]

    first-Covers :
        (m : Mention) (c : Entity) (cs : List Entity) (best : Option Entity) (score : Score)
        → may_match Score names m c ≡ true
        → less (best_candidate Score names less m (c ∷ cs) best score).1 (score_of Score names m c)
          ≡ false
    unfolding best_candidate
    first-Covers m c cs best score q = elim (Bool-cases (less score (score_of Score names m c))) [
      | inl l ↦ rw (q, l) (reached m cs (some c) (score_of Score names m c))
      | inr l ↦
          rw (q, l)
            (order.trans (best_candidate Score names less m cs best score).1 score
              (score_of Score names m c) (reached m cs best score) l)
    ]

    -- Every candidate that matches has a score that is not above the one reached.
    best_candidate-Covers :
        (m : Mention) (cs : List Entity) (best : Option Entity) (score : Score) (c : Entity)
        → Has c cs
        → may_match Score names m c ≡ true
        → less (best_candidate Score names less m cs best score).1 (score_of Score names m c)
          ≡ false
    unfolding best_candidate
    best_candidate-Covers m [] best score c h q = absurd h
    best_candidate-Covers m (d ∷ cs) best score c (inl e) q =
        subst
          (λ x.
            less (best_candidate Score names less m (d ∷ cs) best score).1
              (score_of Score names m x)
            ≡ false)
          (sym e)
          (first-Covers m d cs best score (subst (λ x. may_match Score names m x ≡ true) e q))
    best_candidate-Covers m (d ∷ cs) best score c (inr h) q =
        elim (Bool-cases (may_match Score names m d)) [
          | inl e ↦ elim (Bool-cases (less score (score_of Score names m d))) [
            | inl l ↦
                rw (e, l) (best_candidate-Covers m cs (some d) (score_of Score names m d) c h q)
            | inr l ↦ rw (e, l) (best_candidate-Covers m cs best score c h q)
          ]
          | inr e ↦ rw e (best_candidate-Covers m cs best score c h q)
        ]

  best_candidate-IsFound :
      (m : Mention) (all cs : List Entity) (best : Option Entity) (score zero_score : Score)
      → ((c : Entity) → Has c cs → Has c all)
      → IsFound m all zero_score best score
      → IsFound m all zero_score
          (best_candidate Score names less m cs best score).0
          (best_candidate Score names less m cs best score).1
  unfolding best_candidate
  best_candidate-IsFound m all [] best score zero_score within f = f
  best_candidate-IsFound m all (c ∷ cs) best score zero_score within f =
      elim (Bool-cases (may_match Score names m c)) [
        | inl e ↦ elim (Bool-cases (less score (score_of Score names m c))) [
          | inl l ↦
              rw (e, l)
                (best_candidate-IsFound m all cs (some c) (score_of Score names m c) zero_score
                  (λ d h. within d (inr h)) (within c (inl refl), e, refl))
          | inr l ↦
              rw (e, l)
                (best_candidate-IsFound m all cs best score zero_score (λ d h. within d (inr h)) f)
        ]
        | inr e ↦
            rw e (best_candidate-IsFound m all cs best score zero_score (λ d h. within d (inr h)) f)
      ]

  module _ (zero_score high review : Score) where
    -- The entities that the mention may be resolved to.
    abbrev pub IsCandidate : Mention → Graph Score → Entity → Type 0
    IsCandidate m g c =
        Has c g.entities
        × (str_eq c.type_name m.ner_type ≡ true)
        × (may_match Score names m c ≡ true)

    abbrev pub AllBelow : Mention → Graph Score → Score → Type 0
    AllBelow m g limit =
        (c : Entity) → IsCandidate m g c → less (score_of Score names m c) limit ≡ true

    -- The mention is one more name of a candidate that scores high, or it is a new entity.
    abbrev pub IsKnown : Mention → Graph Score → Resolution Score → Type 0
    IsKnown m g r =
        (c : Entity) × IsCandidate m g c
        × (less (score_of Score names m c) high ≡ false)
        × (r.entity ≡ add_span m c)
        × (r.graph ≡ record g { entities = update_rows entity_key c.id (add_span m) g.entities })

    -- A review is queued exactly when a candidate reaches the lower limit.
    abbrev pub IsReviewed : Str → Str → Mention → Graph Score → Resolution Score → Type 0
    IsReviewed new_id review_id m g r =
        ((r.review_queued ≡ false)
          × AllBelow m g review
          × (r.graph ≡ add_entity Score (new_entity new_id m) g))
        ⊎ ((r.review_queued ≡ true)
            × ((c : Entity) × IsCandidate m g c
                × (less (score_of Score names m c) review ≡ false)
                × (r.graph
                    ≡ queue_for_review Score review_id new_id c.id (score_of Score names m c)
                        (add_entity Score (new_entity new_id m) g))))

    abbrev pub IsResolved : Str → Str → Mention → Graph Score → Resolution Score → Type 0
    IsResolved new_id review_id m g r =
        ((r.created ≡ false) × (r.review_queued ≡ false) × IsKnown m g r)
        ⊎ ((r.created ≡ true)
            × AllBelow m g high
            × (r.entity ≡ new_entity new_id m)
            × IsReviewed new_id review_id m g r)

    module _ (order : IsOrder less) where
      abbrev typed : Mention → Graph Score → List Entity
      typed m g = keep_if (λ (e : Entity). str_eq e.type_name m.ner_type) g.entities

      abbrev Best : Mention → Graph Score → Score → Type 0
      Best m g score =
          (c : Entity) → IsCandidate m g c → less score (score_of Score names m c) ≡ false

      below :
          (m : Mention) (g : Graph Score) (score limit : Score)
          → Best m g score
          → less score limit ≡ true
          → AllBelow m g limit
      below m g score limit best l c is =
          elim (Bool-cases (less (score_of Score names m c) limit)) [
            | inl e ↦ e
            | inr e ↦ absurd (
                true_ne_false
                  (sym l ∙ order.trans score (score_of Score names m c) limit (best c is) e))
          ]

      found-IsCandidate :
          (m : Mention) (g : Graph Score) (c : Entity)
          → Has c (typed m g)
          → may_match Score names m c ≡ true
          → IsCandidate m g c
      found-IsCandidate m g c h q =
          let (there, same) =
            Has-keep_if (λ (e : Entity). str_eq e.type_name m.ner_type) c g.entities h in
          (there, same, q)

      settle-IsResolved :
          (new_id review_id : Str) (m : Mention) (g : Graph Score) (best : Option Entity)
          (score : Score)
          → less zero_score review ≡ true
          → less zero_score high ≡ true
          → Best m g score
          → IsFound m (typed m g) zero_score best score
          → IsResolved new_id review_id m g
              (settle Score names less zero_score high review new_id review_id m best score g)
      settle-IsResolved new_id review_id m g none score low top b f = inr (
        refl,
        below m g score high b (rw f top),
        refl,
        inl (refl, below m g score review b (rw f low), refl),
      )
      settle-IsResolved new_id review_id m g (some c) score low top b (h, q, same) =
          elim (Bool-cases (less score high)) [
            | inr e ↦ rw e (
                inl (
                  refl,
                  refl,
                  (
                    c,
                    found-IsCandidate m g c h q,
                    subst (λ s. less s high ≡ false) same e,
                    refl,
                    refl,
                  ),
                ))
            | inl e ↦ elim (Bool-cases (less score review)) [
              | inl l ↦
                  rw (e, l)
                    (inr (
                      refl,
                      below m g score high b e,
                      refl,
                      inl (refl, below m g score review b l, refl),
                    ))
              | inr l ↦
                  rw (e, l)
                    (inr (
                      refl,
                      below m g score high b e,
                      refl,
                      inr (
                        refl,
                        (
                          c,
                          found-IsCandidate m g c h q,
                          subst (λ s. less s review ≡ false) same l,
                          ap
                              (λ s.
                                queue_for_review Score review_id new_id c.id s
                                  (add_entity Score (new_entity new_id m) g))
                              same,
                        ),
                      ),
                    ))
            ]
          ]

      -- A mention becomes one more name of an entity only if that entity has its type, matches it in its block
      -- or by an alias, and scores at least the high limit; otherwise no such entity scores that
      -- high, the mention is added as a new entity and the entities on record stay as they were, and a
      -- review is queued, of a candidate that reaches the lower limit, exactly when there is one. The
      -- scores are ordered, and both limits are above zero.
      pub resolve_mention-IsResolved :
          (new_id review_id : Str) (m : Mention) (g : Graph Score)
          → less zero_score review ≡ true
          → less zero_score high ≡ true
          → IsResolved new_id review_id m g
              (resolve_mention Score names less zero_score high review new_id review_id m g)
      unfolding resolve_mention
      resolve_mention-IsResolved new_id review_id m g low top =
          settle-IsResolved new_id review_id m g
            (best_candidate Score names less m (typed m g) none zero_score).0
            (best_candidate Score names less m (typed m g) none zero_score).1 low top
            (λ c is.
              best_candidate-Covers order m (typed m g) none zero_score c
                (keep_if-Has (λ (e : Entity). str_eq e.type_name m.ner_type) c g.entities is.0 is.1)
                is.2)
            (best_candidate-IsFound m (typed m g) (typed m g) none zero_score zero_score (λ c h. h)
              refl)
