-- ===== src/Graph/Batch/Passed.antt =====
-- What a pass of src/cranus/graph/entity_resolution/splink_batch.py over one type does, as a whole.
use cranus.Base.{
  ℕ, ◌≡◌, refl, sym, subst, ap, ◌⊎◌, inl, inr, Bool, true, false, not, Option, some, List, [], ◌∷◌,
  map, ltb, Str, str_eq, str_in, str_in→Has, Has→str_in, length, Has-keep_if, Has-map, map-Has,
  sort_down, sort_down-Has, Has-append_left, Has-append_right, Has, Bool-cases, if_cases, if_true,
  if_false, arith,
}
use cranus.Graph.Store.{Entity}
use cranus.Graph.Review.{entity_key}
use cranus.Graph.Resolve.Kept.{entity_ids}
use cranus.Graph.Batch.{
  Pair, Pass, less_pair, is_stale, batch_pair, batch_pairs, of_type, with_predicted, resolve_type,
}
use cranus.Graph.Batch.Left.{left_all}
use cranus.Graph.Batch.Merges.{IsHigh, IsPassing, batch_pairs-IsPassing}

module _ (Score : Type 0) (less : Score → Score → Bool) (high review : Score) (fresh : ℕ → Str)
    (predict_pairs : List (Str × Str) → Option (List (Pair Score))) where
  -- One side of the pair is merged away.
  abbrev pub IsDone : Pair Score → Pass Score → Type 0
  IsDone p t = Has p.id_a t.dropped ⊎ Has p.id_b t.dropped

  batch_pair-keeps :
      (ids : List Str) (p : Pair Score) (t : Pass Score) (d : Str)
      → Has d t.dropped
      → Has d (batch_pair Score less high review fresh predict_pairs ids p t).dropped
  unfolding batch_pair
  batch_pair-keeps ids p t d h =
      if_cases (λ (u : Pass Score). Has d u.dropped)
        (is_stale Score less high review fresh predict_pairs ids t.dropped p) t _ (λ e. h)
        (λ e.
          if_cases (λ (u : Pass Score). Has d u.dropped) (not (less p.prob high)) _ _
            (λ l. Has-append_left d t.dropped _ h)
            (λ l.
              if_cases (λ (u : Pass Score). Has d u.dropped) (not (less p.prob review)) _ t (λ q. h)
                (λ q. h)))

  stale_true :
      (ids dropped : List Str) (p : Pair Score)
      → str_in p.id_a ids ≡ true
      → str_in p.id_b ids ≡ true
      → is_stale Score less high review fresh predict_pairs ids dropped p ≡ true
      → Has p.id_a dropped ⊎ Has p.id_b dropped
  stale_true ids dropped p a b e = elim (Bool-cases (str_in p.id_a dropped)) [
    | inl q ↦ inl (str_in→Has p.id_a dropped q)
    | inr q ↦ inr (str_in→Has p.id_b dropped (ground arith))
  ]

  batch_pair-IsDone :
      (ids : List Str) (p : Pair Score) (t : Pass Score)
      → str_in p.id_a ids ≡ true
      → str_in p.id_b ids ≡ true
      → less p.prob high ≡ false
      → IsDone p (batch_pair Score less high review fresh predict_pairs ids p t)
  unfolding batch_pair
  batch_pair-IsDone ids p t a b l =
      if_cases (IsDone p) (is_stale Score less high review fresh predict_pairs ids t.dropped p) t _
        (stale_true ids t.dropped p a b)
        (λ e.
          if_true (IsDone p) (not (less p.prob high)) _ _ (ap not l)
            (inr (Has-append_right p.id_b t.dropped _ (inl refl))))

  batch_pairs-keeps :
      (ids : List Str) (ps : List (Pair Score)) (t : Pass Score) (d : Str)
      → Has d t.dropped
      → Has d (batch_pairs Score less high review fresh predict_pairs ids ps t).dropped
  unfolding batch_pairs
  batch_pairs-keeps ids [] t d h = h
  batch_pairs-keeps ids (p ∷ ps) t d h = batch_pairs-keeps ids ps _ d (batch_pair-keeps ids p t d h)

  batch_pairs-IsDone :
      (ids : List Str) (ps : List (Pair Score)) (t : Pass Score) (p : Pair Score)
      → Has p ps
      → Has p.id_a ids
      → Has p.id_b ids
      → less p.prob high ≡ false
      → IsDone p (batch_pairs Score less high review fresh predict_pairs ids ps t)
  unfolding batch_pairs
  batch_pairs-IsDone ids [] t p h a b l = absurd h
  batch_pairs-IsDone ids (q ∷ ps) t p (inr h) a b l = batch_pairs-IsDone ids ps _ p h a b l
  batch_pairs-IsDone ids (q ∷ ps) t p (inl e) a b l =
      let done = batch_pair-IsDone ids p t (Has→str_in p.id_a ids a) (Has→str_in p.id_b ids b) l in
      let moved =
        subst (λ x. IsDone p (batch_pair Score less high review fresh predict_pairs ids x t)) e
          done in
      elim moved [
        | inl h ↦ inl (batch_pairs-keeps ids ps _ p.id_a h)
        | inr h ↦ inr (batch_pairs-keeps ids ps _ p.id_b h)
      ]

  -- The pass over a type as a whole.
  abbrev pub IsPassed : List Str → List (Pair Score) → Pass Score → Pass Score → Type 0
  IsPassed ids pairs s t =
      IsPassing Score less high review fresh predict_pairs ids pairs s t
      × ((p : Pair Score)
          → IsHigh Score less high review fresh predict_pairs ids pairs p
          → IsDone p t)

  typed-ids :
      (entity_type : Str) (es : List Entity) (id : Str)
      → Has id (map entity_key (of_type Score less high review fresh predict_pairs entity_type es))
      → Has id (entity_ids es)
  typed-ids entity_type es id h =
      let (e, m, q) = map-Has entity_key id _ h in
      let (there, same) = Has-keep_if (λ (x : Entity). str_eq x.type_name entity_type) e es m in
      subst (λ x. Has x (entity_ids es)) (sym q) (Has-map entity_key e es there)

  -- A pass over a type with at least four entities leaves on record exactly the entities that it has not merged
  -- away. Each of these was the second of a pair of that type scored high, of every pair scored high one is merged
  -- away, and the numbers of merges and of reviews queued are right.
  pub resolve_type-IsPassed :
      (entity_type : Str) (s : Pass Score) (pairs : List (Pair Score))
      → let entities =
          of_type Score less high review fresh predict_pairs entity_type s.graph.entities in
        (ltb (length entities) 4 ≡ false)
        → predict_pairs (map (λ (e : Entity). (e.id, e.canonical_name)) entities) ≡ some pairs
        → IsPassed
            (map entity_key entities)
            pairs
            s
            (resolve_type Score less high review fresh predict_pairs entity_type s)
  unfolding resolve_type
  resolve_type-IsPassed entity_type s pairs many predicted =
      let entities =
        of_type Score less high review fresh predict_pairs entity_type s.graph.entities in
      let ids = map entity_key entities in
      let sorted = sort_down (less_pair Score less high review fresh predict_pairs) pairs in
      let in_pairs = λ (p : Pair Score).
        sort_down-Has (less_pair Score less high review fresh predict_pairs) p pairs in
      if_false (IsPassed ids pairs s) (ltb (length entities) 4) s _ many (
        subst
          (λ o.
            IsPassed ids pairs s
              (with_predicted Score less high review fresh predict_pairs ids o s))
          (sym predicted)
          (
            batch_pairs-IsPassing Score less high review fresh predict_pairs ids pairs s
                (typed-ids entity_type s.graph.entities) sorted _ (λ p h. (in_pairs p).0 h)
                (record {
                  left = left_all (entity_ids s.graph.entities);
                  merged = omega arith;
                  dropped = tt;
                  queued = refl;
                }),
            λ p (h, a, b, l). batch_pairs-IsDone ids sorted _ p ((in_pairs p).1 h) a b l,
          ))
