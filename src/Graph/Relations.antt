-- ===== src/Graph/Relations.antt =====
-- src/cranus/graph/relation_extraction.py. The parse of a text is an argument: its sentences with their
-- tokens, and for each token what the parser says of it. A confidence counts in hundredths.
pub mod Mentions
pub mod Vocabulary
pub mod Patterns
pub mod Sound
pub mod Grounded
pub mod Shown
pub mod Steps
pub mod Complete
pub mod Tests
use cranus.Base.{
  ℕ, ◌==◌, Bool, true, false, not, ◌&&◌, ◌||◌, List, [], ◌∷◌, ◌++◌, map, Str, codes, str_eq, str_in,
  starts_with, keep_if, is_empty, length, if◌then◌else◌,
}
use cranus.Graph.Resolve.{Mention}
use cranus.Graph.Relations.Vocabulary.{
  founded_lemmas, acquired_lemmas, own_lemmas, subsidiary_nouns, Triggers, triggers_of, person,
  organization,
}
use cranus.Graph.Relations.Mentions.{
  Parse, Sentence, is_person, is_organization, mentions_in_span, mention_for_token, or_list,
  of_option, arg_mentions, verb_subjects, agent_mentions, parents_of, pairs, person_pairs,
}

pub record RelationCandidate : Type 0 where
  pub from_mention : Mention
  pub to_mention : Mention
  pub type_name : Str
  pub confidence : ℕ
  pub evidence_text : Str

-- The variables of the loop over the tokens of a sentence.
pub record Found : Type 0 where
  pub candidates : List RelationCandidate
  pub found_founded : Bool
  pub found_acquired : Bool

abbrev pub as_is : Str → ℕ → Str → List (Mention × Mention) → List RelationCandidate
as_is type_name confidence evidence [] = []
as_is type_name confidence evidence ((a, b) ∷ ps) =
    record {
      from_mention = a;
      to_mention = b;
      type_name = type_name;
      confidence = confidence;
      evidence_text = evidence;
    }
    ∷ as_is type_name confidence evidence ps

-- Of a pair of a buyer and a target: the relation leads from the target.
abbrev pub turned : Str → ℕ → Str → List (Mention × Mention) → List RelationCandidate
turned type_name confidence evidence [] = []
turned type_name confidence evidence ((buyer, target) ∷ ps) =
    record {
      from_mention = target;
      to_mention = buyer;
      type_name = type_name;
      confidence = confidence;
      evidence_text = evidence;
    }
    ∷ turned type_name confidence evidence ps

abbrev pub add_plain : List RelationCandidate → Found → Found
add_plain cs f = record f { candidates = f.candidates ++ cs }

abbrev pub add_founded : List RelationCandidate → Found → Found
add_founded cs f = record f {
  candidates = f.candidates ++ cs;
  found_founded = f.found_founded || not (is_empty cs);
}

abbrev pub add_acquired : List RelationCandidate → Found → Found
add_acquired cs f = record f {
  candidates = f.candidates ++ cs;
  found_acquired = f.found_acquired || not (is_empty cs);
}

abbrev pub is_many : List Mention → Bool
is_many [] = false
is_many (m ∷ []) = false
is_many (m ∷ m' ∷ ms) = true

module _ {Token : Type 0} (parse : Parse Token) (ms : List Mention) (evidence : Str)
    (has : Triggers) where
  abbrev pub founders : Token → List Mention
  founders tok = or_list (verb_subjects parse ms 3 tok) (agent_mentions parse ms tok)

  abbrev pub founded_pairs : Token → List RelationCandidate
  founded_pairs tok = as_is (codes "FOUNDED") 85 evidence (
      pairs (founders tok)
        (arg_mentions parse ms tok (codes "dobj" ∷ codes "attr" ∷ codes "oprd" ∷ [])) person
        organization)

  abbrev pub cofounder_pairs : Token → List RelationCandidate
  cofounder_pairs tok =
      let people = keep_if is_person (founders tok) in
      if has.has_cofounder && is_many people
      then as_is (codes "CO_FOUNDED_WITH") 80 evidence (person_pairs people)
      else []

  unfoldable pub founded_step : Token → Found → Found
  founded_step tok f =
      if (has.has_founded || has.has_cofounder) && str_in (parse.lemma tok) founded_lemmas
      then add_plain (cofounder_pairs tok)
          (if has.has_founded then add_founded (founded_pairs tok) f else f)
      else f

  abbrev pub active_pairs : Token → List RelationCandidate
  active_pairs tok = turned (codes "ACQUIRED") 80 evidence (
      pairs (arg_mentions parse ms tok (codes "nsubj" ∷ []))
        (arg_mentions parse ms tok (codes "dobj" ∷ [])) organization organization)

  abbrev pub passive_pairs : Token → List RelationCandidate
  passive_pairs tok = turned (codes "ACQUIRED") 80 evidence (
      pairs (agent_mentions parse ms tok) (arg_mentions parse ms tok (codes "nsubjpass" ∷ []))
        organization organization)

  unfoldable pub acquired_step : Token → Found → Found
  acquired_step tok f =
      if has.has_acquired && str_in (parse.lemma tok) acquired_lemmas
      then add_acquired (passive_pairs tok) (add_acquired (active_pairs tok) f)
      else f

  abbrev pub subsidiary_pairs : Token → List RelationCandidate
  subsidiary_pairs tok = as_is (codes "SUBSIDIARY_OF") 75 evidence (
      pairs
        (of_option (mention_for_token parse ms (parse.head tok))
          ++ arg_mentions parse ms (parse.head tok) (codes "nsubj" ∷ codes "appos" ∷ []))
        (parents_of parse ms (parse.children tok)) organization organization)

  unfoldable pub subsidiary_step : Token → Found → Found
  subsidiary_step tok f =
      if has.has_subsidiary && str_in (parse.lemma tok) subsidiary_nouns
      then add_plain (subsidiary_pairs tok) f
      else f

  abbrev pub owned_pairs : Token → List RelationCandidate
  owned_pairs tok = as_is (codes "SUBSIDIARY_OF") 75 evidence (
      pairs (arg_mentions parse ms tok (codes "nsubjpass" ∷ [])) (agent_mentions parse ms tok)
        organization organization)

  unfoldable pub owned_step : Token → Found → Found
  owned_step tok f =
      if has.has_subsidiary && str_in (parse.lemma tok) own_lemmas
      then add_plain (owned_pairs tok) f
      else f

  unfoldable pub scan_tokens : List Token → Found → Found
  scan_tokens [] f = f
  scan_tokens (tok ∷ toks) f =
      scan_tokens toks
        (owned_step tok (subsidiary_step tok (acquired_step tok (founded_step tok f))))

  abbrev pub only_pair : List Mention → List Mention → List (Mention × Mention)
  only_pair (p ∷ []) (o ∷ []) = (p, o) ∷ []
  only_pair people orgs = []

  abbrev pub two_orgs : List Mention → List (Mention × Mention)
  two_orgs (a ∷ b ∷ []) = (a, b) ∷ []
  two_orgs orgs = []

  abbrev pub founded_fallback : Found → List RelationCandidate
  founded_fallback f =
      if has.has_founded && not f.found_founded
      then as_is (codes "FOUNDED") 60 evidence
          (only_pair (keep_if is_person ms) (keep_if is_organization ms))
      else []

  abbrev pub acquired_fallback : Found → List RelationCandidate
  acquired_fallback f =
      if has.has_acquired && not f.found_acquired
      then as_is (codes "ACQUIRED") 55 evidence (two_orgs (keep_if is_organization ms))
      else []

  unfoldable pub with_fallbacks : Found → List RelationCandidate
  with_fallbacks f = f.candidates ++ founded_fallback f ++ acquired_fallback f

module _ {Token : Type 0} (parse : Parse Token) (lower : Str → Str) (mentions : List Mention) where
  abbrev pub has_trigger : Triggers → Bool
  has_trigger has =
      has.has_founded || (has.has_cofounder || (has.has_subsidiary || has.has_acquired))

  abbrev pub in_sentence : Sentence Token → List Mention
  in_sentence sent = mentions_in_span mentions sent.start_char sent.end_char

  -- What the body of the loop over the sentences adds.
  unfoldable pub sentence_relations : Sentence Token → List RelationCandidate
  sentence_relations sent =
      let ms = in_sentence sent in
      let has = triggers_of (lower sent.text) in
      if is_empty ms || not (has_trigger has)
      then []
      else with_fallbacks parse ms sent.text has (
          scan_tokens parse ms sent.text has sent.tokens
            (record { candidates = []; found_founded = false; found_acquired = false }))

  unfoldable pub all_relations : List (Sentence Token) → List RelationCandidate
  all_relations [] = []
  all_relations (sent ∷ sents) = sentence_relations sent ++ all_relations sents

-- The key by which candidates are the same.
abbrev pub same_key : RelationCandidate → RelationCandidate → Bool
same_key a b =
    (a.from_mention.span_start == b.from_mention.span_start)
    && ((a.from_mention.span_end == b.from_mention.span_end)
        && (str_eq a.type_name b.type_name
            && ((a.to_mention.span_start == b.to_mention.span_start)
                && (a.to_mention.span_end == b.to_mention.span_end))))

abbrev pub is_seen : RelationCandidate → List RelationCandidate → Bool
is_seen c [] = false
is_seen c (d ∷ ds) = same_key c d || is_seen c ds

-- The second argument is `deduped`, which has one candidate for each key seen.
unfoldable pub dedupe_relations :
    List RelationCandidate → List RelationCandidate → List RelationCandidate
dedupe_relations [] deduped = deduped
dedupe_relations (c ∷ cs) deduped =
    dedupe_relations cs (if is_seen c deduped then deduped else deduped ++ c ∷ [])

-- `sents` are the sentences of `_model()(text)`.
unfoldable pub extract_relations :
    {Token : Type 0}
    → Parse Token
    → (Str → Str)
    → List (Sentence Token)
    → List Mention
    → List RelationCandidate
extract_relations parse lower sents mentions =
    dedupe_relations (all_relations parse lower mentions sents) []
