-- ===== src/Graph/Batch/Left.antt =====
-- Which entities are left on record by the merges of src/cranus/graph/entity_resolution/splink_batch.py.
use cranus.Base.{
  length-map, true_ne_false, ◌≡◌, refl, sym, subst, ap, ◌∙◌, inl, inr, Bool, true, false, not, ◌||◌,
  Option, none, some, List, [], ◌∷◌, ◌++◌, Str, str_eq, str_eq_refl, str_in, length, keep_if, Has,
  Bool-cases, arith,
}
use cranus.Storage.Table.{get_row, update_rows, map-update_rows}
use cranus.Graph.Store.{Entity, Graph}
use cranus.Graph.Review.{entity_key, absorb, merge_found, merge_entities}
use cranus.Graph.Resolve.Kept.{entity_ids}

get_row-Has :
    (id : Str) (es : List Entity)
    → Has id (entity_ids es)
    → (e : Entity) × (get_row entity_key id es ≡ some e)
get_row-Has id [] h = absurd h
get_row-Has id (e ∷ es) h = elim (Bool-cases (str_eq e.id id)) [
  | inl q ↦ (e, rw q)
  | inr q ↦ elim h [
    | inl p ↦ absurd (differ id e.id q p)
    | inr k ↦ let (x, found) = get_row-Has id es k in (x, rw (q, found))
  ]
]
  where
    differ : (a b : Str) → str_eq b a ≡ false → a ≡ b → ⊥
    differ a b q p =
        true_ne_false (sym (subst (λ x. str_eq b x ≡ true) (sym p) (str_eq_refl b)) ∙ q)

keep_if-map :
    (p : Str → Bool) (es : List Entity)
    → entity_ids (keep_if (λ (e : Entity). p e.id) es) ≡ keep_if p (entity_ids es)
keep_if-map p [] = refl
keep_if-map p (e ∷ es) = elim (Bool-cases (p e.id)) [
  | inl q ↦ rw (q, keep_if-map p es)
  | inr q ↦ rw (q, keep_if-map p es)
]

module _ (Score : Type 0) where
  -- A merge takes the dropped entity's row away and leaves the other rows where they are.
  pub merge_entities-ids :
      (a b : Str) (g : Graph Score)
      → Has a (entity_ids g.entities)
      → Has b (entity_ids g.entities)
      → entity_ids (merge_entities Score a b g).entities
        ≡ keep_if (λ id. not (str_eq id b)) (entity_ids g.entities)
  unfolding merge_entities
  merge_entities-ids a b g ha hb =
      let (keep, k) = get_row-Has a g.entities ha in
      let (dropped, d) = get_row-Has b g.entities hb in
      rw (k, d)
        (keep_if-map (λ id. not (str_eq id b))
            (update_rows entity_key a (absorb dropped) g.entities)
          ∙ ap (keep_if (λ id. not (str_eq id b)))
              (map-update_rows entity_key a (absorb dropped) g.entities (λ r. refl)))

  pub merge_entities-reviews :
      (a b : Str) (g : Graph Score) → length (merge_entities Score a b g).reviews ≡ length g.reviews
  unfolding merge_entities
  merge_entities-reviews a b g =
      found-reviews (get_row entity_key a g.entities) (get_row entity_key b g.entities)
    where
      found-reviews :
          (keep dropped : Option Entity)
          → length (merge_found Score a b keep dropped g).reviews ≡ length g.reviews
      found-reviews none dropped = refl
      found-reviews (some k) none = refl
      found-reviews (some k) (some d) = length-map _ g.reviews

abbrev pub is_left : List Str → Str → Bool
is_left dropped id = not (str_in id dropped)

pub str_in-snoc :
    (id b : Str) (ds : List Str) → str_in id (ds ++ b ∷ []) ≡ (str_in id ds || str_eq id b)
str_in-snoc id b [] = ground arith
str_in-snoc id b (d ∷ ds) = ground (arith, str_in-snoc id b ds)

pub keep_if-snoc :
    (b : Str) (ds ids : List Str)
    → keep_if (λ id. not (str_eq id b)) (keep_if (is_left ds) ids)
      ≡ keep_if (is_left (ds ++ b ∷ [])) ids
keep_if-snoc b ds [] = refl
keep_if-snoc b ds (id ∷ ids) = elim (Bool-cases (str_in id ds)) [
  | inl e ↦ rw (str_in-snoc id b ds, e) (keep_if-snoc b ds ids)
  | inr e ↦ elim (Bool-cases (str_eq id b)) [
    | inl q ↦ rw (str_in-snoc id b ds, e, q) (keep_if-snoc b ds ids)
    | inr q ↦ rw (str_in-snoc id b ds, e, q) (ap (λ l. id ∷ l) (keep_if-snoc b ds ids))
  ]
]

pub left_all : (ids : List Str) → ids ≡ keep_if (is_left []) ids
left_all [] = refl
left_all (id ∷ ids) = ap (λ l. id ∷ l) (left_all ids)
