-- ===== src/Graph/Review/Merging.antt =====
-- What a merge in src/cranus/graph/entity_resolution/review.py leaves behind.
use cranus.Base.{
  ◌≡◌, refl, ap, sym, subst, ◌∙◌, ◌≢◌, ◌⊎◌, inl, inr, true, false, not, Option, none, some, List,
  [], ◌∷◌, map, arith, Str, str_eq, str_eq→eq, str_eq_refl, Bool-cases, keep_if, All, Has, Has-map,
  if◌then◌else◌,
}
use cranus.Storage.Table.{get_row, update_rows}
use cranus.Graph.Store.{Entity, EntityMention, Edge, EntityResolutionReview, Graph}
use cranus.Graph.Review.{
  entity_key, absorb, repoint, unless_deleted, repoint_mention, clear_mention, repoint_edge,
  outlives, clear_review, merge_entities,
}

str_eq-ne : (a b : Str) → a ≢ b → str_eq a b ≡ false
str_eq-ne a b ne = elim (Bool-cases (str_eq a b)) [
  | inl e ↦ absurd (ne (str_eq→eq a b e))
  | inr e ↦ e
]

module _ (keep_id drop_id : Str) (ne : keep_id ≢ drop_id) where
  repoint-ne : (id : Str) → repoint keep_id drop_id id ≢ drop_id
  repoint-ne id same = elim (Bool-cases (str_eq id drop_id)) [
    | inl e ↦ ne (subst (λ b. (if b then keep_id else id) ≡ drop_id) e same)
    | inr e ↦ ground (
      arith,
      e,
      str_eq_refl drop_id,
      ap (λ x. str_eq x drop_id) (subst (λ b. (if b then keep_id else id) ≡ drop_id) e same),
    )
  ]

  unless_deleted-ne : (o : Option Str) → unless_deleted drop_id o ≢ some drop_id
  unless_deleted-ne none e = cc
  unless_deleted-ne (some id) e = elim (Bool-cases (str_eq id drop_id)) [
    | inl q ↦ ground (arith, q, e)
    | inr q ↦
        let same : some id ≡ some drop_id = rw q at e in
        let is_drop : id ≡ drop_id = ground (arith, same) in
        ground (arith, q, str_eq_refl id, ap (str_eq id) is_drop)
  ]

  module _ (Score : Type 0) where
    no_row :
        (es : List Entity)
        → get_row entity_key drop_id (keep_if (λ (e : Entity). not (str_eq e.id drop_id)) es) ≡ none
    no_row [] = refl
    no_row (e ∷ es) = elim (Bool-cases (str_eq e.id drop_id)) [
      | inl q ↦ rw q (no_row es)
      | inr q ↦ rw (q, q) (no_row es)
    ]

    abbrev moved : Edge Score → Edge Score
    moved = repoint_edge Score keep_id drop_id

    moved-outlives : (e : Edge Score) → outlives Score drop_id (moved e) ≡ true
    moved-outlives e =
        rw
          (
            str_eq-ne (repoint keep_id drop_id e.from_entity_id) drop_id
                (repoint-ne e.from_entity_id),
            str_eq-ne (repoint keep_id drop_id e.to_entity_id) drop_id (repoint-ne e.to_entity_id),
          )
          refl

    all_outlive :
        (es : List (Edge Score)) → keep_if (outlives Score drop_id) (map moved es) ≡ map moved es
    all_outlive [] = refl
    all_outlive (e ∷ es) = rw (moved-outlives e) (ap (λ l. moved e ∷ l) (all_outlive es))

    mentions_ne :
        (ms : List EntityMention)
        → All
            (λ (m : EntityMention). m.suggested_entity_id ≢ some drop_id)
            (map (clear_mention drop_id) ms)
    mentions_ne [] = tt
    mentions_ne (m ∷ ms) = (unless_deleted-ne m.suggested_entity_id, mentions_ne ms)

    reviews_ne :
        (rs : List (EntityResolutionReview Score))
        → All
            (λ (r : EntityResolutionReview Score).
              (r.entity_a_id ≢ some drop_id) × (r.entity_b_id ≢ some drop_id))
            (map (clear_review Score drop_id) rs)
    reviews_ne [] = tt
    reviews_ne (r ∷ rs) =
        ((unless_deleted-ne r.entity_a_id, unless_deleted-ne r.entity_b_id), reviews_ne rs)

    edges_ne :
        (es : List (Edge Score))
        → All
            (λ (e : Edge Score). (e.from_entity_id ≢ drop_id) × (e.to_entity_id ≢ drop_id))
            (map moved es)
    edges_ne [] = tt
    edges_ne (e ∷ es) = ((repoint-ne e.from_entity_id, repoint-ne e.to_entity_id), edges_ne es)

    -- The dropped entity is gone and nothing refers to it; each edge is there, with the kept entity in
    -- its place.
    pub record IsMerged (g g' : Graph Score) : Type 0 where
      pub gone : get_row entity_key drop_id g'.entities ≡ none
      pub edges : g'.edges ≡ map moved g.edges
      pub edges_refer :
          All
            (λ (e : Edge Score). (e.from_entity_id ≢ drop_id) × (e.to_entity_id ≢ drop_id))
            g'.edges
      pub mentions_refer :
          All (λ (m : EntityMention). m.suggested_entity_id ≢ some drop_id) g'.mentions
      pub reviews_refer :
          All
            (λ (r : EntityResolutionReview Score).
              (r.entity_a_id ≢ some drop_id) × (r.entity_b_id ≢ some drop_id))
            g'.reviews

    -- When two different entities on record are merged, the dropped one is gone, no edge, mention or
    -- review refers to it, and no edge is lost: each that joined it joins the kept one instead.
    pub merge_entities-IsMerged :
        (g : Graph Score) (keep dropped : Entity)
        → get_row entity_key keep_id g.entities ≡ some keep
        → get_row entity_key drop_id g.entities ≡ some dropped
        → IsMerged g (merge_entities Score keep_id drop_id g)
    unfolding merge_entities
    merge_entities-IsMerged g keep dropped k d =
        rw (k, d)
          (record {
            gone = no_row (update_rows entity_key keep_id (absorb dropped) g.entities);
            edges = all_outlive g.edges;
            edges_refer =
                subst
                  (All
                    (λ (e : Edge Score). (e.from_entity_id ≢ drop_id) × (e.to_entity_id ≢ drop_id)))
                  (sym (all_outlive g.edges)) (edges_ne g.edges);
            mentions_refer = mentions_ne (map (repoint_mention keep_id drop_id) g.mentions);
            reviews_refer = reviews_ne g.reviews;
          })

    kept_end : {id : Str} → id ≡ keep_id → repoint keep_id drop_id id ≡ keep_id
    kept_end e = ap (repoint keep_id drop_id) e ∙ rw (str_eq-ne keep_id drop_id ne) refl

    dropped_end : {id : Str} → id ≡ drop_id → repoint keep_id drop_id id ≡ keep_id
    dropped_end e = ap (repoint keep_id drop_id) e ∙ rw (str_eq_refl drop_id) refl

    moved_there :
        (g : Graph Score) (keep dropped : Entity) (e : Edge Score)
        → get_row entity_key keep_id g.entities ≡ some keep
        → get_row entity_key drop_id g.entities ≡ some dropped
        → Has e g.edges
        → Has (moved e) (merge_entities Score keep_id drop_id g).edges
    moved_there g keep dropped e k d there =
        subst (Has (moved e)) (sym (merge_entities-IsMerged g keep dropped k d).edges)
          (Has-map moved e g.edges there)

    -- When two different entities on record are merged, every edge between them, in either direction,
    -- becomes an edge from the kept entity to itself.
    pub merge_entities-loop :
        (g : Graph Score) (keep dropped : Entity) (e : Edge Score)
        → get_row entity_key keep_id g.entities ≡ some keep
        → get_row entity_key drop_id g.entities ≡ some dropped
        → Has e g.edges
        → ((e.from_entity_id ≡ keep_id) × (e.to_entity_id ≡ drop_id))
          ⊎ ((e.from_entity_id ≡ drop_id) × (e.to_entity_id ≡ keep_id))
        → (e' : Edge Score) × Has e' (merge_entities Score keep_id drop_id g).edges
          × (e'.from_entity_id ≡ keep_id)
          × (e'.to_entity_id ≡ keep_id)
    merge_entities-loop g keep dropped e k d there (inl (from, to)) =
        (moved e, moved_there g keep dropped e k d there, kept_end from, dropped_end to)
    merge_entities-loop g keep dropped e k d there (inr (from, to)) =
        (moved e, moved_there g keep dropped e k d there, dropped_end from, kept_end to)
