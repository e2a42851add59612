-- ===== src/Graph/Relations/Shown.antt =====
-- What a parse shows by the dependents of a token, for src/cranus/graph/relation_extraction.py, apart from
-- how that code goes through it.
use cranus.Base.{
  ℕ, ◌≡◌, refl, ap, subst, ◌∙◌, ◌⊎◌, inl, inr, Bool, true, false, not, ◌||◌, arith, List, [], ◌∷◌,
  ◌++◌, Str, codes, str_eq, str_eq_refl, str_in, keep_if, keep_if-Has, Has, Has-append_left,
  Has-append_right, if_cases, if_true, if_false, if◌then◌else◌,
}
use cranus.Graph.Resolve.{Mention}
use cranus.Graph.Relations.Vocabulary.{
  Triggers, founded_lemmas, acquired_lemmas, own_lemmas, subsidiary_nouns, person, organization,
}
use cranus.Graph.Relations.Mentions.{
  Parse, mention_eq, is_person, mention_for_token, or_list, of_option, arg_mentions, verb_subjects,
  agent_mentions, parents_of, targets_for, pairs, with_each, person_pairs,
}
use cranus.Graph.Relations.{RelationCandidate, as_is, turned, is_many}

module _ {Token : Type 0} (parse : Parse Token) (ms : List Mention) (evidence : Str)
    (has : Triggers) where
  -- Who founds: the subjects of the verb, or its agents if it has no subject.
  abbrev pub founding : Token → List Mention
  founding tok = or_list (verb_subjects parse ms 3 tok) (agent_mentions parse ms tok)

  abbrev pub relation : Str → ℕ → Mention → Mention → RelationCandidate
  relation type_name confidence a b = record {
    from_mention = a;
    to_mention = b;
    type_name = type_name;
    confidence = confidence;
    evidence_text = evidence;
  }

  abbrev pub AreOrganizations : Mention → Mention → Type 0
  AreOrganizations a b = (a.ner_type ≡ organization) × (b.ner_type ≡ organization)

  -- The relations that a token shows. An acquisition leads from what is bought to the buyer.
  pub data Shows (tok : Token) : RelationCandidate → Type 0 where
    founds :
        (founder founded : Mention)
        → has.has_founded ≡ true
        → str_in (parse.lemma tok) founded_lemmas ≡ true
        → Has founder (founding tok)
        → Has founded (arg_mentions parse ms tok (codes "dobj" ∷ codes "attr" ∷ codes "oprd" ∷ []))
        → (founder.ner_type ≡ person) × (founded.ner_type ≡ organization)
        → mention_eq founded founder ≡ false
        → Shows tok (relation (codes "FOUNDED") 85 founder founded)
    founds_with :
        (founder other : Mention) (before between after : List Mention)
        → has.has_cofounder ≡ true
        → str_in (parse.lemma tok) founded_lemmas ≡ true
        → founding tok ≡ before ++ founder ∷ (between ++ other ∷ after)
        → (is_person founder ≡ true) × (is_person other ≡ true)
        → Shows tok (relation (codes "CO_FOUNDED_WITH") 80 founder other)
    buys :
        (buyer target : Mention)
        → has.has_acquired ≡ true
        → str_in (parse.lemma tok) acquired_lemmas ≡ true
        → Has buyer (arg_mentions parse ms tok (codes "nsubj" ∷ []))
        → Has target (arg_mentions parse ms tok (codes "dobj" ∷ []))
        → AreOrganizations buyer target
        → mention_eq target buyer ≡ false
        → Shows tok (relation (codes "ACQUIRED") 80 target buyer)
    is_bought :
        (buyer target : Mention)
        → has.has_acquired ≡ true
        → str_in (parse.lemma tok) acquired_lemmas ≡ true
        → Has buyer (agent_mentions parse ms tok)
        → Has target (arg_mentions parse ms tok (codes "nsubjpass" ∷ []))
        → AreOrganizations buyer target
        → mention_eq target buyer ≡ false
        → Shows tok (relation (codes "ACQUIRED") 80 target buyer)
    is_subsidiary :
        (child parent : Mention)
        → has.has_subsidiary ≡ true
        → str_in (parse.lemma tok) subsidiary_nouns ≡ true
        → Has child (of_option (mention_for_token parse ms (parse.head tok)))
          ⊎ Has child (arg_mentions parse ms (parse.head tok) (codes "nsubj" ∷ codes "appos" ∷ []))
        → Has parent (parents_of parse ms (parse.children tok))
        → AreOrganizations child parent
        → mention_eq parent child ≡ false
        → Shows tok (relation (codes "SUBSIDIARY_OF") 75 child parent)
    is_owned :
        (child owner : Mention)
        → has.has_subsidiary ≡ true
        → str_in (parse.lemma tok) own_lemmas ≡ true
        → Has child (arg_mentions parse ms tok (codes "nsubjpass" ∷ []))
        → Has owner (agent_mentions parse ms tok)
        → AreOrganizations child owner
        → mention_eq owner child ≡ false
        → Shows tok (relation (codes "SUBSIDIARY_OF") 75 child owner)

  pub as_is-Has :
      (type_name : Str) (confidence : ℕ) (a b : Mention) (ps : List (Mention × Mention))
      → Has (a, b) ps
      → Has (relation type_name confidence a b) (as_is type_name confidence evidence ps)
  as_is-Has type_name confidence a b [] h = absurd h
  as_is-Has type_name confidence a b ((x, y) ∷ ps) (inl e) =
      inl (ap (λ (p : Mention × Mention). relation type_name confidence p.0 p.1) e)
  as_is-Has type_name confidence a b ((x, y) ∷ ps) (inr h) =
      inr (as_is-Has type_name confidence a b ps h)

  pub turned-Has :
      (type_name : Str) (confidence : ℕ) (a b : Mention) (ps : List (Mention × Mention))
      → Has (a, b) ps
      → Has (relation type_name confidence b a) (turned type_name confidence evidence ps)
  turned-Has type_name confidence a b [] h = absurd h
  turned-Has type_name confidence a b ((x, y) ∷ ps) (inl e) =
      inl (ap (λ (p : Mention × Mention). relation type_name confidence p.1 p.0) e)
  turned-Has type_name confidence a b ((x, y) ∷ ps) (inr h) =
      inr (turned-Has type_name confidence a b ps h)

left_out : (a b : Bool) → a ≡ true → b ≡ false → (not a || b) ≡ false
left_out a b e q = ground arith

same_type : (a b : Str) → a ≡ b → str_eq a b ≡ true
same_type a b e = ap (λ x. str_eq x b) e ∙ str_eq_refl b

targets_for-Has :
    (s t : Mention) (ts : List Mention) (want_to : Str)
    → Has t ts
    → t.ner_type ≡ want_to
    → mention_eq t s ≡ false
    → Has (s, t) (targets_for s ts want_to)
targets_for-Has s t [] want_to h k e = absurd h
targets_for-Has s t (x ∷ ts) want_to (inl q) k e =
    subst (λ (y : Mention). Has (s, t) (targets_for s (y ∷ ts) want_to)) q
      (if_false (Has (s, t)) (not (str_eq t.ner_type want_to) || mention_eq t s) _ _
        (left_out _ _ (same_type t.ner_type want_to k) e) (inl refl))
targets_for-Has s t (x ∷ ts) want_to (inr h) k e =
    if_cases (Has (s, t)) (not (str_eq x.ner_type want_to) || mention_eq x s) _ _
      (λ q. targets_for-Has s t ts want_to h k e) (λ q. inr (targets_for-Has s t ts want_to h k e))

pub pairs-Has :
    (s t : Mention) (ss ts : List Mention) (want_from want_to : Str)
    → Has s ss
    → Has t ts
    → s.ner_type ≡ want_from
    → t.ner_type ≡ want_to
    → mention_eq t s ≡ false
    → Has (s, t) (pairs ss ts want_from want_to)
unfolding pairs
pairs-Has s t [] ts want_from want_to h m j k e = absurd h
pairs-Has s t (x ∷ ss) ts want_from want_to (inl q) m j k e =
    Has-append_left (s, t) _ _
      (subst
        (λ (y : Mention).
          Has (s, t) (if not (str_eq y.ner_type want_from) then [] else targets_for y ts want_to))
        q
        (if_false (Has (s, t)) (not (str_eq s.ner_type want_from)) _ _
          (ap not (same_type s.ner_type want_from j)) (targets_for-Has s t ts want_to m k e)))
pairs-Has s t (x ∷ ss) ts want_from want_to (inr h) m j k e =
    Has-append_right (s, t) _ _ (pairs-Has s t ss ts want_from want_to h m j k e)

with_each-Has : (a b : Mention) (bs : List Mention) → Has b bs → Has (a, b) (with_each a bs)
with_each-Has a b [] h = absurd h
with_each-Has a b (x ∷ bs) (inl e) = inl (ap (λ (y : Mention). (a, y)) e)
with_each-Has a b (x ∷ bs) (inr h) = inr (with_each-Has a b bs h)

pub person_pairs-Has :
    (a b : Mention) (before between after : List Mention)
    → is_person a ≡ true
    → is_person b ≡ true
    → Has (a, b) (person_pairs (keep_if is_person (before ++ a ∷ (between ++ b ∷ after))))
unfolding person_pairs
person_pairs-Has a b [] between after h k =
    if_true (λ l. Has (a, b) (person_pairs l)) (is_person a) _ _ h
      (Has-append_left (a, b) _ _
        (with_each-Has a b _ (
          keep_if-Has is_person b (between ++ b ∷ after)
            (Has-append_right b between (b ∷ after) (inl refl)) k)))
person_pairs-Has a b (x ∷ before) between after h k =
    if_cases (λ l. Has (a, b) (person_pairs l)) (is_person x) _ _
      (λ e. Has-append_right (a, b) _ _ (person_pairs-Has a b before between after h k))
      (λ e. person_pairs-Has a b before between after h k)

pub person_pairs-is_many :
    (a b : Mention) (ps : List Mention) → Has (a, b) (person_pairs ps) → is_many ps ≡ true
unfolding person_pairs
person_pairs-is_many a b [] h = absurd h
person_pairs-is_many a b (p ∷ []) h = absurd h
person_pairs-is_many a b (p ∷ q ∷ ps) h = refl
