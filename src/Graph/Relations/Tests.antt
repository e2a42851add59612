-- ===== src/Graph/Relations/Tests.antt =====
-- Short sentences read by src/cranus/graph/relation_extraction.py, and its theorems there. A token is its place
-- among the words.
use cranus.Base.{ℕ, zero, suc, ◌+◌, ◌≡◌, refl, List, [], ◌∷◌, map, Str, codes, All, length}
use cranus.Graph.Resolve.{Mention}
use cranus.Graph.Relations.Vocabulary.{organization}
use cranus.Graph.Relations.Mentions.{
  Parse, Sentence, mentions_in_span, mention_for_token, arg_mentions, verb_subjects, agent_mentions,
  pairs, person_pairs,
}
use cranus.Graph.Relations.{
  RelationCandidate, founded_step, acquired_step, subsidiary_step, owned_step, scan_tokens,
  with_fallbacks, sentence_relations, all_relations, dedupe_relations, extract_relations,
}
use cranus.Graph.Relations.Grounded.{KeysDistinct, IsGrounded, extract_relations-IsGrounded}
use cranus.Graph.Relations.Complete.{extract_relations-IsComplete}
use cranus.Graph.Relations.Shown.{Shows, buys}
use cranus.Graph.Relations.Vocabulary.{triggers_of}
use cranus.Graph.Relations.Grounded.{Covered}
use cranus.Graph.Relations.{in_sentence}
use cranus.Base.{inl, inr}

-- "Ann and Bob founded Acme."
abbrev pub at_place : {A : Type 0} → A → List A → ℕ → A
at_place other [] n = other
at_place other (x ∷ xs) zero = x
at_place other (x ∷ xs) (suc n) = at_place other xs n

abbrev pub founding : Parse ℕ
founding = record {
  idx = at_place 99 (0 ∷ 4 ∷ 8 ∷ 12 ∷ 20 ∷ []);
  dep = at_place [] (codes "nsubj" ∷ codes "cc" ∷ codes "conj" ∷ codes "ROOT" ∷ codes "dobj" ∷ []);
  lemma = at_place [] (codes "Ann" ∷ codes "and" ∷ codes "Bob" ∷ codes "found" ∷ codes "Acme" ∷ []);
  children = at_place [] ([] ∷ [] ∷ [] ∷ (0 ∷ 4 ∷ []) ∷ [] ∷ []);
  conjuncts = at_place [] ((2 ∷ []) ∷ [] ∷ (0 ∷ []) ∷ [] ∷ [] ∷ []);
  head = at_place 3 (3 ∷ 0 ∷ 0 ∷ 3 ∷ 3 ∷ []);
}

abbrev pub founding_sentence : Sentence ℕ
founding_sentence = record {
  text = codes "Ann and Bob founded Acme.";
  start_char = 0;
  end_char = 25;
  tokens = 0 ∷ 1 ∷ 2 ∷ 3 ∷ 4 ∷ [];
}

abbrev mention : Str → ℕ → Str → Mention
mention text start ner_type = record {
  span_text = text;
  span_start = start;
  span_end = start + length text;
  ner_type = ner_type;
}

abbrev ann : Mention
ann = mention (codes "Ann") 0 (codes "Person")

abbrev bob : Mention
bob = mention (codes "Bob") 8 (codes "Person")

abbrev acme : Mention
acme = mention (codes "Acme") 20 organization

abbrev same : Str → Str
same s = s

abbrev founding_mentions : List Mention
founding_mentions = ann ∷ bob ∷ acme ∷ []

abbrev ends : List RelationCandidate → List (Str × Str)
ends = map (λ (c : RelationCandidate). (c.from_mention.span_text, c.to_mention.span_text))

extract_relations-founding :
    ends (extract_relations founding same (founding_sentence ∷ []) founding_mentions)
    ≡ (codes "Ann", codes "Acme") ∷ (codes "Bob", codes "Acme") ∷ []
unfolding extract_relations dedupe_relations all_relations sentence_relations scan_tokens
    with_fallbacks founded_step acquired_step subsidiary_step owned_step pairs person_pairs
    arg_mentions verb_subjects agent_mentions mention_for_token mentions_in_span
extract_relations-founding = refl

extract_relations-IsGrounded_example :
    All
      (IsGrounded founding same founding_mentions (founding_sentence ∷ []))
      (extract_relations founding same (founding_sentence ∷ []) founding_mentions)
extract_relations-IsGrounded_example =
    extract_relations-IsGrounded founding same founding_mentions (founding_sentence ∷ [])

-- "Acme bought Bolt."
abbrev buying : Parse ℕ
buying = record {
  idx = at_place 99 (0 ∷ 5 ∷ 12 ∷ []);
  dep = at_place [] (codes "nsubj" ∷ codes "ROOT" ∷ codes "dobj" ∷ []);
  lemma = at_place [] (codes "Acme" ∷ codes "buy" ∷ codes "Bolt" ∷ []);
  children = at_place [] ([] ∷ (0 ∷ 2 ∷ []) ∷ [] ∷ []);
  conjuncts = λ t. [];
  head = λ t. 1;
}

abbrev buyer : Mention
buyer = mention (codes "Acme") 0 organization

abbrev bought : Mention
bought = mention (codes "Bolt") 12 organization

abbrev bought_sentence : Sentence ℕ
bought_sentence = record {
  text = codes "acme bought bolt.";
  start_char = 0;
  end_char = 17;
  tokens = 0 ∷ 1 ∷ 2 ∷ [];
}

abbrev shown : Mention → Mention → RelationCandidate
shown a b = record {
  from_mention = b;
  to_mention = a;
  type_name = codes "ACQUIRED";
  confidence = 80;
  evidence_text = codes "acme bought bolt.";
}

buying-Shows :
    Shows buying
      (in_sentence buying same (buyer ∷ bought ∷ []) bought_sentence)
      (codes "acme bought bolt.")
      (triggers_of (codes "acme bought bolt."))
      1
      (shown buyer bought)
unfolding arg_mentions mention_for_token mentions_in_span
buying-Shows = buys buyer bought refl refl (inl refl) (inl refl) (refl, refl) refl

extract_relations-IsComplete_example :
    KeysDistinct (extract_relations buying same (bought_sentence ∷ []) (buyer ∷ bought ∷ []))
    × Covered
        (extract_relations buying same (bought_sentence ∷ []) (buyer ∷ bought ∷ []))
        (shown buyer bought)
extract_relations-IsComplete_example =
    extract_relations-IsComplete buying same (buyer ∷ bought ∷ []) (bought_sentence ∷ [])
      bought_sentence 1 (shown buyer bought) (inl refl) (inr (inl refl)) buying-Shows

extract_relations-buying :
    ends (extract_relations buying same (bought_sentence ∷ []) (buyer ∷ bought ∷ []))
    ≡ (codes "Bolt", codes "Acme") ∷ []
unfolding extract_relations dedupe_relations all_relations sentence_relations scan_tokens
    with_fallbacks founded_step acquired_step subsidiary_step owned_step pairs person_pairs
    arg_mentions verb_subjects agent_mentions mention_for_token mentions_in_span
extract_relations-buying = refl

-- The same sentence, of which the parser shows no word's dependents: the relation leads the other way.
extract_relations-unparsed :
    ends (
      extract_relations
        (record buying { children = λ t. [] })
        same
        (bought_sentence ∷ [])
        (buyer ∷ bought ∷ []))
    ≡ (codes "Acme", codes "Bolt") ∷ []
unfolding extract_relations dedupe_relations all_relations sentence_relations scan_tokens
    with_fallbacks founded_step acquired_step subsidiary_step owned_step pairs person_pairs
    arg_mentions verb_subjects agent_mentions mention_for_token mentions_in_span
extract_relations-unparsed = refl
