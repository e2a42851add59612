-- ===== src/Agent/Tools/Named.antt =====
-- What `resolve_entity` of src/cranus/agent/tools.py returns.
use cranus.Base.{
  true_ne_false, ◌≡◌, refl, sym, subst, ◌∙◌, ◌⊎◌, inl, inr, true, false, Option, none, some, List,
  [], ◌∷◌, Str, Bool-cases, Has, All, All-map, IsOrder, if_cases,
}
use cranus.Graph.Store.{Entity}
use cranus.Graph.Resolve.{Names, score_pair}
use cranus.Graph.Lookup.{Scores}
use cranus.Agent.Loop.{Item}
use cranus.Agent.Tools.{best_entity, resolved, resolve_entity}

module _ (Score : Type 0) (scores : Scores Score) (names : Names Score) (name : Str) where
  abbrev score_of : Entity → Score
  score_of e = score_pair Score names name e.canonical_name

  -- The result for these entities: the first with the best score, if that one is high enough.
  pub data IsNamed (candidates : List Entity) : List Item → Type 0 where
    unnamed :
        All
          (λ (c : Entity).
            scores.less (score_pair Score names name c.canonical_name) scores.match_threshold
            ≡ true)
          candidates
        → IsNamed candidates []
    named :
        (e : Entity) (i : Item)
        → Has e candidates
        → i.id ≡ e.id
        → scores.less (score_pair Score names name e.canonical_name) scores.match_threshold ≡ false
        → All
            (λ (c : Entity).
              scores.less
                (score_pair Score names name e.canonical_name)
                (score_pair Score names name c.canonical_name)
              ≡ false)
            candidates
        → IsNamed candidates (i ∷ [])

  -- What the loop has reached: the best is one of the entities with its score, or what it was.
  abbrev IsBest : List Entity → Option Entity → Score → Option Entity × Score → Type 0
  IsBest cs best score r =
      (scores.less r.1 score ≡ false)
      × All (λ c. scores.less r.1 (score_of c) ≡ false) cs
      × ((r ≡ (best, score)) ⊎ ((e : Entity) × Has e cs × (r ≡ (some e, score_of e))))

  module _ (order : IsOrder scores.less) where
    same-less : (s : Score) → scores.less s s ≡ false
    same-less s = elim (Bool-cases (scores.less s s)) [ inl e ↦ order.asym s s e | inr e ↦ e ]

    best_entity-IsBest :
        (cs : List Entity) (best : Option Entity) (score : Score)
        → IsBest cs best score (best_entity Score scores names name cs best score)
    unfolding best_entity
    best_entity-IsBest [] best score = (same-less score, tt, inl refl)
    best_entity-IsBest (c ∷ cs) best score =
        if_cases (IsBest (c ∷ cs) best score) (scores.less score (score_of c)) _ _
          (λ l.
            let (above, all, which) = best_entity-IsBest cs (some c) (score_of c) in
            (
              order.trans _ (score_of c) score above (order.asym score (score_of c) l),
              (above, all),
              elim which [ inl e ↦ inr (c, inl refl, e) | inr (x, h, e) ↦ inr (x, inr h, e) ],
            ))
          (λ l.
            let (above, all, which) = best_entity-IsBest cs best score in
            (
              above,
              (order.trans _ score (score_of c) above l, all),
              elim which [ inl e ↦ inl e | inr (x, h, e) ↦ inr (x, inr h, e) ],
            ))

    -- What is not above a score below the threshold is below the threshold.
    below :
        (s t : Score)
        → scores.less s scores.match_threshold ≡ true
        → scores.less s t ≡ false
        → scores.less t scores.match_threshold ≡ true
    below s t low h = elim (Bool-cases (scores.less t scores.match_threshold)) [
      | inl e ↦ e
      | inr e ↦ absurd (true_ne_false (sym low ∙ order.trans s t scores.match_threshold h e))
    ]

    best-IsNamed :
        (cs : List Entity) (r : Option Entity × Score)
        → scores.less scores.zero_score scores.match_threshold ≡ true
        → IsBest cs none scores.zero_score r
        → IsNamed cs (resolved Score scores names name r)
    best-IsNamed cs r high (above, all, inl e) =
        subst (λ z. IsNamed cs (resolved Score scores names name z)) (sym e)
          (unnamed (
            All-map (λ c. below scores.zero_score (score_of c) high) cs
              (subst
                (λ (z : Option Entity × Score). All (λ c. scores.less z.1 (score_of c) ≡ false) cs)
                e all)))
    best-IsNamed cs r high (above, all, inr (x, there, e)) =
        let all' =
          subst (λ (z : Option Entity × Score). All (λ c. scores.less z.1 (score_of c) ≡ false) cs)
            e all in
        subst (λ z. IsNamed cs (resolved Score scores names name z)) (sym e)
          (elim (Bool-cases (scores.less (score_of x) scores.match_threshold)) [
            | inl l ↦ rw l (unnamed (All-map (λ c. below (score_of x) (score_of c) l) cs all'))
            | inr l ↦ rw l (named x _ there refl l all')
          ])

    -- The agent's resolution of a name returns nothing exactly when no entity's name has a score as high as the
    -- threshold; otherwise it returns one item, of an entity on record whose score no other exceeds. It is assumed that
    -- the comparison of scores is an order in which the threshold is above zero.
    pub resolve_entity-IsNamed :
        (candidates : List Entity)
        → scores.less scores.zero_score scores.match_threshold ≡ true
        → IsNamed candidates (resolve_entity Score scores names candidates name)
    unfolding resolve_entity
    resolve_entity-IsNamed candidates high =
        best-IsNamed candidates _ high (best_entity-IsBest candidates none scores.zero_score)
