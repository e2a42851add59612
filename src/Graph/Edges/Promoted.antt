-- ===== src/Graph/Edges/Promoted.antt =====
-- What the promotion of edge candidates in src/cranus/graph/pipeline.py keeps true of the edges.
use cranus.Base.{
  ℕ, ◌+◌, ◌≡◌, refl, ap, sym, ◌∙◌, ◌≢◌, ◌⊎◌, inl, inr, Bool, true, Option, none, some, List, [],
  ◌∷◌, map, arith, length, Str, str_eq, str_eq→eq, str_eq_refl, Bool-cases, All, Has, Distinct,
}
use cranus.Storage.Table.{get_row}
use cranus.Graph.Store.{EntityMention, Edge, EdgeCandidate}
use cranus.Graph.Edges.{
  mention_key, suggested, non_empty, two_ends, is_edge_of, put_edge, ends_of, promote_one,
  promote_edge_candidates,
}

module _ (Score : Type 0) (less : Score → Score → Bool) (threshold : Score) where
  abbrev pub triple : Edge Score → Str × Str × Str
  triple e = (e.from_entity_id, e.to_entity_id, e.type_name)

  -- No edge joins an entity to itself, and no two have the same ends and type.
  pub record AreSimple (edges : List (Edge Score)) : Type 0 where
    pub no_loops : All (λ (e : Edge Score). e.from_entity_id ≢ e.to_entity_id) edges
    pub unique : Distinct (map triple edges)

  same_edge :
      (a b t : Str) (e : Edge Score)
      → is_edge_of Score less threshold a b t e ≡ true
      → triple e ≡ (a, b, t)
  same_edge a b t e h =
      let from : e.from_entity_id ≡ a = str_eq→eq e.from_entity_id a (ground (arith, h)) in
      let to : e.to_entity_id ≡ b = str_eq→eq e.to_entity_id b (ground (arith, h)) in
      let kind : e.type_name ≡ t = str_eq→eq e.type_name t (ground (arith, h)) in
      ap (λ x. (x, e.to_entity_id, e.type_name)) from
      ∙ ap (λ x. (a, x, e.type_name)) to
      ∙ ap (λ x. (a, b, x)) kind

  is_edge_of_self :
      (e : Edge Score)
      → is_edge_of Score less threshold e.from_entity_id e.to_entity_id e.type_name e ≡ true
  is_edge_of_self e =
      ground
        (arith, str_eq_refl e.from_entity_id, str_eq_refl e.to_entity_id, str_eq_refl e.type_name)

  module _ (new_id a b : Str) (cand : EdgeCandidate Score) where
    abbrev is_it : Edge Score → Bool
    is_it = is_edge_of Score less threshold a b cand.type_name

    abbrev put : List (Edge Score) → List (Edge Score) × ℕ
    put = put_edge Score less threshold new_id a b cand

    put-triples :
        (t : Str × Str × Str) (edges : List (Edge Score))
        → Has t (map triple (put edges).0)
        → (t ≡ (a, b, cand.type_name)) ⊎ Has t (map triple edges)
    unfolding put_edge
    put-triples t [] m = m
    put-triples t (e ∷ edges) m = elim (Bool-cases (is_it e)) [
      | inl q ↦ inr (rw q at m)
      | inr q ↦ elim (rw q at m) [
        | inl h ↦ inr (inl h)
        | inr h ↦ elim (put-triples t edges h) [ inl h' ↦ inl h' | inr h' ↦ inr (inr h') ]
      ]
    ]

    put-AreSimple : (edges : List (Edge Score)) → a ≢ b → AreSimple edges → AreSimple (put edges).0
    unfolding put_edge
    put-AreSimple [] ne s = record { no_loops = (ne, tt); unique = (λ m. m, tt) }
    put-AreSimple (e ∷ edges) ne s = elim (Bool-cases (is_it e)) [
      | inl q ↦ rw q (record { no_loops = s.no_loops; unique = s.unique })
      | inr q ↦
          let rest =
            put-AreSimple edges ne (record { no_loops = s.no_loops.1; unique = s.unique.1 }) in
          rw q (record {
            no_loops = (s.no_loops.0, rest.no_loops);
            unique = (
              λ m. elim (put-triples (triple e) edges m) [
                | inl h ↦ ground (
                  arith,
                  q,
                  is_edge_of_self e,
                  ap (λ (t : Str × Str × Str). is_edge_of Score less threshold t.0 t.1 t.2 e) h,
                )
                | inr h ↦ s.unique.0 h
              ],
              rest.unique,
            );
          })
    ]

    length-put : (edges : List (Edge Score)) → length (put edges).0 ≡ length edges + (put edges).1
    unfolding put_edge
    length-put [] = omega arith
    length-put (e ∷ edges) = elim (Bool-cases (is_it e)) [
      | inl q ↦ rw q (omega arith)
      | inr q ↦ rw q (omega (arith, length-put edges))
    ]

  two_ends_ne : (x y : Option Str) (a b : Str) → two_ends x y ≡ some (a, b) → a ≢ b
  two_ends_ne none y a b e same = absurd (cc)
  two_ends_ne (some x) none a b e same = absurd (cc)
  two_ends_ne (some x) (some y) a b e same = elim (Bool-cases (str_eq x y)) [
    | inl q ↦ absurd (ground (arith, e, q))
    | inr q ↦
        let ends : ◌≡◌ {A = Str × Str} (x, y) (a, b) = ground (arith, e, q) in
        let left : x ≡ a = ap (λ (p : Str × Str). p.0) ends in
        let right : y ≡ b = ap (λ (p : Str × Str). p.1) ends in
        ground (arith, q, str_eq_refl x, ap (str_eq x) (left ∙ same ∙ sym right))
  ]

  ends_ne :
      (mentions : List EntityMention) (cand : EdgeCandidate Score) (a b : Str)
      → ends_of Score less threshold mentions cand ≡ some (a, b)
      → a ≢ b
  ends_ne mentions cand a b e = elim (Bool-cases (less cand.confidence threshold)) [
    | inl q ↦ absurd (ground (arith, e, q))
    | inr q ↦
        two_ends_ne (non_empty (suggested (get_row mention_key cand.from_mention_id mentions)))
          (non_empty (suggested (get_row mention_key cand.to_mention_id mentions))) a b (rw q at e)
  ]

  -- The edges stay simple, and the number counts those that are new.
  abbrev pub Promoted : List (Edge Score) → List (Edge Score) → ℕ → Type 0
  Promoted edges edges' promoted = AreSimple edges' × (length edges' ≡ length edges + promoted)

  one-Promoted :
      (new_id : Str) (o : Option (Str × Str)) (cand : EdgeCandidate Score)
      (edges : List (Edge Score))
      → ((a b : Str) → o ≡ some (a, b) → a ≢ b)
      → AreSimple edges
      → let r = promote_one Score less threshold new_id o cand edges in Promoted edges r.1 r.2
  one-Promoted new_id none cand edges ne s = (s, omega arith)
  one-Promoted new_id (some (a, b)) cand edges ne s =
      (put-AreSimple new_id a b cand edges (ne a b refl) s, length-put new_id a b cand edges)

  -- Promotion adds no edge from an entity to itself and no second edge of the same ends and type; the
  -- number it returns is that of the edges added.
  pub promote_edge_candidates-Promoted :
      (mentions : List EntityMention) (cands : List (Str × EdgeCandidate Score))
      (edges : List (Edge Score))
      → AreSimple edges
      → let r = promote_edge_candidates Score less threshold mentions cands edges in
        Promoted edges r.1 r.2
  unfolding promote_edge_candidates
  promote_edge_candidates-Promoted mentions [] edges s = (s, omega arith)
  promote_edge_candidates-Promoted mentions ((new_id, cand) ∷ cands) edges s =
      let o = ends_of Score less threshold mentions cand in
      let (s', added) = one-Promoted new_id o cand edges (ends_ne mentions cand) s in
      let (s'', promoted) = promote_edge_candidates-Promoted mentions cands _ s' in
      (s'', omega (arith, added, promoted))
