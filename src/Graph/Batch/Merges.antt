-- ===== src/Graph/Batch/Merges.antt =====
-- What the merges in a pass of src/cranus/graph/entity_resolution/splink_batch.py do.
use cranus.Base.{
  ℕ, ◌+◌, ◌≡◌, refl, sym, subst, ap, ◌∙◌, inl, inr, Bool, true, false, not, Option, List, [], ◌∷◌,
  Str, str_eq, str_in, str_in→Has, length, length-append, keep_if, keep_if-Has, All, All-append,
  Has, if_cases, arith,
}
use cranus.Graph.Review.{queue_for_review}
use cranus.Graph.Resolve.Kept.{entity_ids}
use cranus.Graph.Batch.{Pair, Pass, merge_pair_of, queue_pair, is_stale, batch_pair, batch_pairs}
use cranus.Graph.Batch.Left.{is_left, keep_if-snoc, merge_entities-ids, merge_entities-reviews}

module _ (Score : Type 0) (less : Score → Score → Bool) (high review : Score) (fresh : ℕ → Str)
    (predict_pairs : List (Str × Str) → Option (List (Pair Score))) where
  -- The pair is one that was scored for this type, and high.
  abbrev pub IsHigh : List Str → List (Pair Score) → Pair Score → Type 0
  IsHigh ids pairs p = Has p pairs × Has p.id_a ids × Has p.id_b ids × (less p.prob high ≡ false)

  -- Since a state before, with the ids of a type and the pairs scored: the entities dropped are off record and all
  -- others are on it; each was dropped as the second of a high pair, and each was counted; a review was
  -- added for each that was counted.
  pub record IsPassing (ids : List Str) (pairs : List (Pair Score)) (s t : Pass Score)
      : Type 0 where
    pub left :
        entity_ids t.graph.entities ≡ keep_if (is_left t.dropped) (entity_ids s.graph.entities)
    pub merged : t.merged ≡ s.merged + length t.dropped
    pub dropped : All (λ d. (p : Pair Score) × IsHigh ids pairs p × (p.id_b ≡ d)) t.dropped
    pub queued :
        length t.graph.reviews + s.queued_for_review ≡ length s.graph.reviews + t.queued_for_review

  stale_false :
      (ids dropped : List Str) (p : Pair Score)
      → is_stale Score less high review fresh predict_pairs ids dropped p ≡ false
      → (str_in p.id_a dropped ≡ false)
        × (str_in p.id_b dropped ≡ false)
        × (str_in p.id_a ids ≡ true)
        × (str_in p.id_b ids ≡ true)
  stale_false ids dropped p e = (ground arith, ground arith, ground arith, ground arith)

  module _ (ids : List Str) (pairs : List (Pair Score)) (s : Pass Score)
      (typed : (id : Str) → Has id ids → Has id (entity_ids s.graph.entities)) where
    still_left :
        (t : Pass Score) (id : Str)
        → IsPassing ids pairs s t
        → str_in id ids ≡ true
        → str_in id t.dropped ≡ false
        → Has id (entity_ids t.graph.entities)
    still_left t id h e q = subst (Has id) (sym h.left) (
        keep_if-Has (is_left t.dropped) id (entity_ids s.graph.entities)
          (typed id (str_in→Has id ids e)) (rw q refl))

    merge_pair-IsPassing :
        (p : Pair Score) (t : Pass Score)
        → Has p pairs
        → is_stale Score less high review fresh predict_pairs ids t.dropped p ≡ false
        → less p.prob high ≡ false
        → IsPassing ids pairs s t
        → IsPassing ids pairs s (merge_pair_of Score less high review fresh predict_pairs p t)
    merge_pair-IsPassing p t m e l h =
        let (na, nb, a, b) = stale_false ids t.dropped p e in
        record {
          left =
              merge_entities-ids Score p.id_a p.id_b t.graph (still_left t p.id_a h a na)
                (still_left t p.id_b h b nb)
              ∙ ap (keep_if (λ id. not (str_eq id p.id_b))) h.left
              ∙ keep_if-snoc p.id_b t.dropped (entity_ids s.graph.entities);
          merged = omega (arith, h.merged, length-append t.dropped (p.id_b ∷ []));
          dropped =
              All-append _ t.dropped _ h.dropped
                ((p, (m, str_in→Has p.id_a ids a, str_in→Has p.id_b ids b, l), refl), tt);
          queued = omega (arith, h.queued, merge_entities-reviews Score p.id_a p.id_b t.graph);
        }

    queue_pair-IsPassing :
        (p : Pair Score) (t : Pass Score)
        → IsPassing ids pairs s t
        → IsPassing ids pairs s (queue_pair Score less high review fresh predict_pairs p t)
    unfolding queue_for_review
    queue_pair-IsPassing p t h = record {
      left = h.left;
      merged = h.merged;
      dropped = h.dropped;
      queued = omega (arith, h.queued, length-append t.graph.reviews);
    }

    batch_pair-IsPassing :
        (p : Pair Score) (t : Pass Score)
        → Has p pairs
        → IsPassing ids pairs s t
        → IsPassing ids pairs s (batch_pair Score less high review fresh predict_pairs ids p t)
    unfolding batch_pair
    batch_pair-IsPassing p t m h =
        if_cases (IsPassing ids pairs s)
          (is_stale Score less high review fresh predict_pairs ids t.dropped p) t _ (λ e. h)
          (λ e.
            if_cases (IsPassing ids pairs s) (not (less p.prob high)) _ _
              (λ l. merge_pair-IsPassing p t m e (ground arith) h)
              (λ l.
                if_cases (IsPassing ids pairs s) (not (less p.prob review)) _ t
                  (λ q. queue_pair-IsPassing p t h) (λ q. h)))

    pub batch_pairs-IsPassing :
        (ps : List (Pair Score)) (t : Pass Score)
        → ((p : Pair Score) → Has p ps → Has p pairs)
        → IsPassing ids pairs s t
        → IsPassing ids pairs s (batch_pairs Score less high review fresh predict_pairs ids ps t)
    unfolding batch_pairs
    batch_pairs-IsPassing [] t within h = h
    batch_pairs-IsPassing (p ∷ ps) t within h =
        batch_pairs-IsPassing ps _ (λ q k. within q (inr k))
          (batch_pair-IsPassing p t (within p (inl refl)) h)
