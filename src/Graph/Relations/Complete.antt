-- ===== src/Graph/Relations/Complete.antt =====
-- That `extract_relations` of src/cranus/graph/relation_extraction.py leaves no pattern out.
use cranus.Base.{
  arith, if_false, ◌≡◌, refl, sym, subst, Bool, true, false, not, ◌&&◌, ◌||◌, inl, inr, List, [],
  ◌∷◌, ◌++◌, Str, str_in, is_empty, Has, Has-append_left, Has-append_right, All-Has, if◌then◌else◌,
}
use cranus.Graph.Resolve.{Mention}
use cranus.Graph.Relations.Vocabulary.{
  Triggers, triggers_of, founded_lemmas, acquired_lemmas, own_lemmas, subsidiary_nouns,
}
use cranus.Graph.Relations.Mentions.{Parse, Sentence}
use cranus.Graph.Relations.Sound.{IsSound, HasSchema, scan_tokens-IsSound}
use cranus.Graph.Relations.Grounded.{KeysDistinct, Covered, dedupe-KeysDistinct, dedupe-Covered}
use cranus.Graph.Relations.{
  RelationCandidate, founded_pairs, active_pairs, passive_pairs, in_sentence, has_trigger,
  sentence_relations, all_relations, dedupe_relations, extract_relations,
}
use cranus.Base.{codes, keep_if, if_true, ◌⊎◌}
use cranus.Graph.Relations.Mentions.{is_person, person_pairs}
use cranus.Graph.Relations.Vocabulary.{person, organization}
use cranus.Graph.Relations.{is_many}
use cranus.Graph.Relations.Shown.{
  Shows, founds, founds_with, buys, is_bought, is_subsidiary, is_owned, founding, relation,
  as_is-Has, turned-Has, pairs-Has, person_pairs-Has, person_pairs-is_many,
}
use cranus.Graph.Relations.Steps.{
  founded_part, acquired_part, subsidiary_part, owned_part, token_patterns, nothing_found,
  scan_tokens-Has, with_fallbacks-Has,
}

module _ {Token : Type 0} (parse : Parse Token) (ms : List Mention) (evidence : Str)
    (has : Triggers) where
  both : (a b : Bool) → a ≡ true → b ≡ true → (a && b) ≡ true
  both a b e q = ground arith

  either_of : (a b c : Bool) → b ≡ true → c ≡ true → ((a || b) && c) ≡ true
  either_of a b c e q = ground arith

  first_of : (a b c : Bool) → a ≡ true → c ≡ true → ((a || b) && c) ≡ true
  first_of a b c e q = ground arith

  founded-Has :
      (tok : Token) (a b : Mention)
      → has.has_founded ≡ true
      → str_in (parse.lemma tok) founded_lemmas ≡ true
      → Has
          (relation parse ms evidence has (codes "FOUNDED") 85 a b)
          (founded_pairs parse ms evidence has tok)
      → Has
          (relation parse ms evidence has (codes "FOUNDED") 85 a b)
          (founded_part parse ms evidence has tok)
  founded-Has tok a b h l m =
      let c = relation parse ms evidence has (codes "FOUNDED") 85 a b in
      if_true (Has c)
        ((has.has_founded || has.has_cofounder) && str_in (parse.lemma tok) founded_lemmas) _ _
        (first_of _ has.has_cofounder _ h l)
        (Has-append_left c _ _ (if_true (Has c) has.has_founded _ _ h m))

  cofounded-Has :
      (tok : Token) (a b : Mention) (people : List Mention)
      → has.has_cofounder ≡ true
      → str_in (parse.lemma tok) founded_lemmas ≡ true
      → founding parse ms evidence has tok ≡ people
      → Has (a, b) (person_pairs (keep_if is_person people))
      → Has
          (relation parse ms evidence has (codes "CO_FOUNDED_WITH") 80 a b)
          (founded_part parse ms evidence has tok)
  cofounded-Has tok a b people h l same m =
      let c = relation parse ms evidence has (codes "CO_FOUNDED_WITH") 80 a b in
      let k : Has (a, b) (person_pairs (keep_if is_person (founding parse ms evidence has tok))) =
        subst (λ ps. Has (a, b) (person_pairs (keep_if is_person ps))) (sym same) m in
      if_true (Has c)
        ((has.has_founded || has.has_cofounder) && str_in (parse.lemma tok) founded_lemmas) _ _
        (either_of has.has_founded _ _ h l)
        (Has-append_right c
          (if has.has_founded then founded_pairs parse ms evidence has tok else []) _
          (if_true (Has c)
            (has.has_cofounder && is_many (keep_if is_person (founding parse ms evidence has tok)))
            _ _ (both _ _ h (person_pairs-is_many a b _ k))
            (as_is-Has parse ms evidence has (codes "CO_FOUNDED_WITH") 80 a b _ k)))

  acquired-Has :
      (tok : Token) (c : RelationCandidate)
      → has.has_acquired ≡ true
      → str_in (parse.lemma tok) acquired_lemmas ≡ true
      → Has c (active_pairs parse ms evidence has tok ++ passive_pairs parse ms evidence has tok)
      → Has c (acquired_part parse ms evidence has tok)
  acquired-Has tok c h l m =
      if_true (Has c) (has.has_acquired && str_in (parse.lemma tok) acquired_lemmas) _ _
        (both _ _ h l) m

  in_acquired :
      (tok : Token) (c : RelationCandidate)
      → Has c (acquired_part parse ms evidence has tok)
      → Has c (token_patterns parse ms evidence has tok)
  in_acquired tok c h =
      Has-append_right c (founded_part parse ms evidence has tok) _ (Has-append_left c _ _ h)

  in_subsidiary :
      (tok : Token) (c : RelationCandidate)
      → Has c (subsidiary_part parse ms evidence has tok)
      → Has c (token_patterns parse ms evidence has tok)
  in_subsidiary tok c h =
      Has-append_right c (founded_part parse ms evidence has tok) _
        (Has-append_right c (acquired_part parse ms evidence has tok) _ (Has-append_left c _ _ h))

  in_owned :
      (tok : Token) (c : RelationCandidate)
      → Has c (owned_part parse ms evidence has tok)
      → Has c (token_patterns parse ms evidence has tok)
  in_owned tok c h = Has-append_right c (founded_part parse ms evidence has tok) _ (
      Has-append_right c (acquired_part parse ms evidence has tok) _
        (Has-append_right c (subsidiary_part parse ms evidence has tok) _ h))

  child_of : (m : Mention) (xs ys : List Mention) → Has m xs ⊎ Has m ys → Has m (xs ++ ys)
  child_of m xs ys (inl h) = Has-append_left m xs ys h
  child_of m xs ys (inr h) = Has-append_right m xs ys h

  Shows-Has :
      (tok : Token) (c : RelationCandidate)
      → Shows parse ms evidence has tok c
      → Has c (token_patterns parse ms evidence has tok)
  Shows-Has tok _ (founds a b h l m k (p, o) e) = Has-append_left _ _ _ (
      founded-Has tok a b h l (
        as_is-Has parse ms evidence has (codes "FOUNDED") 85 a b _
          (pairs-Has a b _ _ person organization m k p o e)))
  Shows-Has tok _ (founds_with a b before between after h l same (p, q)) =
      Has-append_left _ _ _
        (cofounded-Has tok a b _ h l same (person_pairs-Has a b before between after p q))
  Shows-Has tok _ (buys a b h l m k (p, o) e) = in_acquired tok _ (
      acquired-Has tok _ h l (
        Has-append_left _ (active_pairs parse ms evidence has tok) _ (
          turned-Has parse ms evidence has (codes "ACQUIRED") 80 a b _
            (pairs-Has a b _ _ organization organization m k p o e))))
  Shows-Has tok _ (is_bought a b h l m k (p, o) e) = in_acquired tok _ (
      acquired-Has tok _ h l (
        Has-append_right _ (active_pairs parse ms evidence has tok) _ (
          turned-Has parse ms evidence has (codes "ACQUIRED") 80 a b _
            (pairs-Has a b _ _ organization organization m k p o e))))
  Shows-Has tok _ (is_subsidiary a b h l m k (p, o) e) = in_subsidiary tok _ (
      if_true (Has (relation parse ms evidence has (codes "SUBSIDIARY_OF") 75 a b))
        (has.has_subsidiary && str_in (parse.lemma tok) subsidiary_nouns) _ _ (both _ _ h l)
        (as_is-Has parse ms evidence has (codes "SUBSIDIARY_OF") 75 a b _
          (pairs-Has a b _ _ organization organization (child_of a _ _ m) k p o e)))
  Shows-Has tok _ (is_owned a b h l m k (p, o) e) = in_owned tok _ (
      if_true (Has (relation parse ms evidence has (codes "SUBSIDIARY_OF") 75 a b))
        (has.has_subsidiary && str_in (parse.lemma tok) own_lemmas) _ _ (both _ _ h l)
        (as_is-Has parse ms evidence has (codes "SUBSIDIARY_OF") 75 a b _
          (pairs-Has a b _ _ organization organization m k p o e)))

module _ {Token : Type 0} (parse : Parse Token) (lower : Str → Str) (mentions : List Mention) where
  Has-some : (m : Mention) (ms : List Mention) → Has m ms → is_empty ms ≡ false
  Has-some m [] h = absurd h
  Has-some m (x ∷ xs) h = refl

  schema-has_trigger :
      (has : Triggers) (type_name : Str) (s t : Mention)
      → HasSchema has type_name s t
      → has_trigger parse lower mentions has ≡ true
  schema-has_trigger has type_name s t (inl h) = let e = h.3 in ground arith
  schema-has_trigger has type_name s t (inr (inl h)) = let e = h.3 in ground arith
  schema-has_trigger has type_name s t (inr (inr (inl h))) = let e = h.3 in ground arith
  schema-has_trigger has type_name s t (inr (inr (inr h))) = let e = h.3 in ground arith

  not_skipped : (a b : Bool) → a ≡ false → b ≡ true → (a || not b) ≡ false
  not_skipped a b e q = ground arith

  sentence_relations-Has :
      (sent : Sentence Token) (tok : Token) (c : RelationCandidate)
      → Has tok sent.tokens
      → Has c (
          token_patterns parse
            (in_sentence parse lower mentions sent)
            sent.text
            (triggers_of (lower sent.text))
            tok)
      → Has c (sentence_relations parse lower mentions sent)
  unfolding sentence_relations
  sentence_relations-Has sent tok c h k =
      let ms = in_sentence parse lower mentions sent in
      let has = triggers_of (lower sent.text) in
      let found = scan_tokens-Has parse ms sent.text has tok sent.tokens c h k in
      let sound =
        All-Has (IsSound ms sent.text has) c _
          (scan_tokens-IsSound ms sent.text has parse sent.tokens
            (nothing_found parse ms sent.text has) tt)
          found in
      if_false (Has c) (is_empty ms || not (has_trigger parse lower mentions has)) [] _
        (not_skipped _ _ (Has-some c.from_mention ms sound.0)
          (schema-has_trigger has c.type_name c.from_mention c.to_mention sound.3))
        (with_fallbacks-Has parse ms sent.text has _ c found)

  Has-all_relations :
      (sent : Sentence Token) (sents : List (Sentence Token)) (c : RelationCandidate)
      → Has sent sents
      → Has c (sentence_relations parse lower mentions sent)
      → Has c (all_relations parse lower mentions sents)
  unfolding all_relations
  Has-all_relations sent [] c h k = absurd h
  Has-all_relations sent (s ∷ sents) c (inl e) k =
      Has-append_left c _ _ (subst (λ x. Has c (sentence_relations parse lower mentions x)) e k)
  Has-all_relations sent (s ∷ sents) c (inr h) k =
      Has-append_right c (sentence_relations parse lower mentions s) _
        (Has-all_relations sent sents c h k)

  -- No two of the relations extracted have the same ends and type; and whatever relation the parse shows at a
  -- token of a sentence, by its lemma, its dependents and a trigger in the sentence, is among them, or one of the
  -- same ends and type is. A founder is a subject of the verb, or an agent if it has no subject; what is founded
  -- is an object or a complement of it; an acquisition leads from the object to the subject, or from the passive
  -- subject to the agent; and a subsidiary is shown by its noun with "of", or by the passive of owning.
  pub extract_relations-IsComplete :
      (sents : List (Sentence Token)) (sent : Sentence Token) (tok : Token) (c : RelationCandidate)
      → Has sent sents
      → Has tok sent.tokens
      → Shows parse
          (in_sentence parse lower mentions sent)
          sent.text
          (triggers_of (lower sent.text))
          tok
          c
      → KeysDistinct (extract_relations parse lower sents mentions)
        × Covered (extract_relations parse lower sents mentions) c
  unfolding extract_relations
  extract_relations-IsComplete sents sent tok c h k m = (
    dedupe-KeysDistinct (all_relations parse lower mentions sents) [] tt,
    All-Has (Covered (dedupe_relations (all_relations parse lower mentions sents) [])) c
        (all_relations parse lower mentions sents)
        (dedupe-Covered (all_relations parse lower mentions sents) [])
        (Has-all_relations sent sents c h (
          sentence_relations-Has sent tok c k (
            Shows-Has parse (in_sentence parse lower mentions sent) sent.text
              (triggers_of (lower sent.text)) tok c m))),
  )
