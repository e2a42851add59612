-- ===== src/Graph/Resolve/Kept.antt =====
-- What `_resolve_mention` of src/cranus/graph/pipeline.py adds to the rows, and what it keeps.
use cranus.Base.{
  ◌+◌, ◌≡◌, refl, sym, subst, inl, inr, Bool, not, Option, none, some, List, [], ◌∷◌, ◌++◌, map,
  map-snoc, Has-map, Str, str_eq, keep_if, length, length-append, Has, Has-append_left,
  Has-append_right, Has-keep_if, if_cases, if◌then◌else◌, arith,
}
use cranus.Storage.Table.{map-update_rows, length-update_rows}
use cranus.Graph.Store.{Entity, Graph}
use cranus.Graph.Review.{entity_key, queue_for_review}
use cranus.Graph.Resolve.{
  Mention, Names, Resolution, add_span, new_entity, may_match, score_of, best_candidate, settle,
  resolve_mention,
}

some_injective : {A : Type 0} (a b : A) → some a ≡ some b → a ≡ b
some_injective a b e = cc

abbrev pub entity_ids : List Entity → List Str
entity_ids = map entity_key

module _ (Score : Type 0) where
  -- The entity is on record, entities and reviews are only added, and as many as is said, and nothing else changes.
  pub record IsKept (g : Graph Score) (r : Resolution Score) : Type 0 where
    pub recorded : Has r.entity.id (entity_ids r.graph.entities)
    pub lasting : (id : Str) → Has id (entity_ids g.entities) → Has id (entity_ids r.graph.entities)
    pub entities : length r.graph.entities ≡ length g.entities + (if r.created then 1 else 0)
    pub reviews : length r.graph.reviews ≡ length g.reviews + (if r.review_queued then 1 else 0)
    pub mentions : r.graph.mentions ≡ g.mentions
    pub edges : r.graph.edges ≡ g.edges

  added-recorded : (g : Graph Score) (e : Entity) → Has e.id (entity_ids (g.entities ++ e ∷ []))
  added-recorded g e =
      Has-map entity_key e (g.entities ++ e ∷ [])
        (Has-append_right e g.entities (e ∷ []) (inl refl))

  added-lasting :
      (g : Graph Score) (e : Entity) (id : Str)
      → Has id (entity_ids g.entities)
      → Has id (entity_ids (g.entities ++ e ∷ []))
  added-lasting g e id h =
      subst (Has id) (sym (map-snoc entity_key g.entities e)) (Has-append_left id _ _ h)

module _ (Score : Type 0) (names : Names Score) (less : Score → Score → Bool)
    (zero_score high review : Score) (new_id review_id : Str) (m : Mention) (g : Graph Score) where
  abbrev settled : Option Entity → Score → Resolution Score
  settled best score =
      settle Score names less zero_score high review new_id review_id m best score g

  new-IsKept : IsKept Score g (settled none zero_score)
  new-IsKept = record {
    recorded = added-recorded Score g (new_entity new_id m);
    lasting = added-lasting Score g (new_entity new_id m);
    entities = length-append g.entities (new_entity new_id m ∷ []);
    reviews = omega arith;
    mentions = refl;
    edges = refl;
  }

  settled-IsKept :
      (best : Entity) (score : Score)
      → Has best g.entities
      → IsKept Score g (settled (some best) score)
  unfolding queue_for_review
  settled-IsKept best score h =
      let same = map-update_rows entity_key best.id (add_span m) g.entities (λ r. refl) in
      if_cases (IsKept Score g) (not (less score high)) _ _
        (λ e. record {
          recorded = subst (Has best.id) (sym same) (Has-map entity_key best g.entities h);
          lasting = λ id k. subst (Has id) (sym same) k;
          entities = omega (arith, length-update_rows entity_key best.id (add_span m) g.entities);
          reviews = omega arith;
          mentions = refl;
          edges = refl;
        })
        (λ e.
          if_cases (IsKept Score g) (not (less score review)) _ _
            (λ q. record {
              recorded = added-recorded Score g (new_entity new_id m);
              lasting = added-lasting Score g (new_entity new_id m);
              entities = length-append g.entities (new_entity new_id m ∷ []);
              reviews = length-append g.reviews _;
              mentions = refl;
              edges = refl;
            })
            (λ q. new-IsKept))

  found-IsKept :
      (best : Option Entity) (score : Score)
      → ((e : Entity) → best ≡ some e → Has e g.entities)
      → IsKept Score g (settled best score)
  found-IsKept none score h = new-IsKept
  found-IsKept (some e) score h = settled-IsKept e score (h e refl)

  typed-Has :
      (e : Entity)
      → Has e (keep_if (λ (c : Entity). str_eq c.type_name m.ner_type) g.entities)
      → Has e g.entities
  typed-Has e h = (Has-keep_if (λ (c : Entity). str_eq c.type_name m.ner_type) e g.entities h).0

  -- If there is an entity, it is on record.
  abbrev OnRecord : Option Entity → Type 0
  OnRecord best = (e : Entity) → best ≡ some e → Has e g.entities

  best_candidate-OnRecord :
      (cs : List Entity) (best : Option Entity) (score : Score)
      → ((c : Entity) → Has c cs → Has c g.entities)
      → OnRecord best
      → OnRecord (best_candidate Score names less m cs best score).0
  unfolding best_candidate
  best_candidate-OnRecord [] best score within h = h
  best_candidate-OnRecord (c ∷ cs) best score within h =
      if_cases (λ (r : Option Entity × Score). OnRecord r.0) (not (may_match Score names m c)) _ _
        (λ q. best_candidate-OnRecord cs best score (λ d k. within d (inr k)) h)
        (λ q.
          if_cases (λ (r : Option Entity × Score). OnRecord r.0)
            (less score (score_of Score names m c)) _ _
            (λ l.
              best_candidate-OnRecord cs (some c) (score_of Score names m c)
                (λ d k. within d (inr k))
                (λ e p. subst (λ x. Has x g.entities) (some_injective c e p) (within c (inl refl))))
            (λ l. best_candidate-OnRecord cs best score (λ d k. within d (inr k)) h))

  pub resolve_mention-IsKept :
      IsKept Score g (resolve_mention Score names less zero_score high review new_id review_id m g)
  unfolding resolve_mention
  resolve_mention-IsKept = found-IsKept _ _ (
      best_candidate-OnRecord (keep_if (λ (c : Entity). str_eq c.type_name m.ner_type) g.entities)
        none zero_score typed-Has (λ e q. cc))
