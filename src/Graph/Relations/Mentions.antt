-- ===== src/Graph/Relations/Mentions.antt =====
-- The helpers of src/cranus/graph/relation_extraction.py that find the mentions a token governs.
use cranus.Base.{
  ℕ, zero, suc, ◌==◌, Bool, false, not, ◌&&◌, ◌||◌, Option, none, some, List, [], ◌∷◌, ◌++◌, Str,
  codes, str_eq, str_in, leb, ltb, keep_if, if◌then◌else◌, or_else,
}
use cranus.Storage.Table.{find_first}
use cranus.Graph.Resolve.{Mention}

-- What the parser gives: of a token its place in the text, its dependency, its lemma, its children, the
-- tokens coordinated with it and its head.
pub record Parse (Token : Type 0) : Type 0 where
  pub idx : Token → ℕ
  pub dep : Token → Str
  pub lemma : Token → Str
  pub children : Token → List Token
  pub conjuncts : Token → List Token
  pub head : Token → Token

pub record Sentence (Token : Type 0) : Type 0 where
  pub text : Str
  pub start_char : ℕ
  pub end_char : ℕ
  pub tokens : List Token

-- The equality of the dataclass; the confidence is the same for all.
abbrev pub mention_eq : Mention → Mention → Bool
mention_eq a b =
    str_eq a.span_text b.span_text
    && (a.span_start == b.span_start && (a.span_end == b.span_end && str_eq a.ner_type b.ner_type))

abbrev pub has_mention : Mention → List Mention → Bool
has_mention m [] = false
has_mention m (x ∷ xs) = mention_eq m x || has_mention m xs

abbrev pub is_person : Mention → Bool
is_person m = str_eq m.ner_type (codes "Person")

abbrev pub is_organization : Mention → Bool
is_organization m = str_eq m.ner_type (codes "Organization")

unfoldable pub mentions_in_span : List Mention → ℕ → ℕ → List Mention
mentions_in_span mentions start end =
    keep_if (λ (m : Mention). leb start m.span_start && leb m.span_end end) mentions

abbrev pub add_new : Option Mention → List Mention → List Mention
add_new none out = out
add_new (some m) out = if not (has_mention m out) then out ++ m ∷ [] else out

abbrev pub or_list : List Mention → List Mention → List Mention
or_list [] ys = ys
or_list (x ∷ xs) ys = x ∷ xs

abbrev pub of_option : Option Mention → List Mention
of_option none = []
of_option (some m) = m ∷ []

module _ {Token : Type 0} (parse : Parse Token) (mentions : List Mention) where
  unfoldable pub mention_for_token : Token → Option Mention
  mention_for_token token =
      find_first
        (λ (m : Mention). leb m.span_start (parse.idx token) && ltb (parse.idx token) m.span_end)
        mentions

  abbrev pub add_tokens : List Token → List Mention → List Mention
  add_tokens [] out = out
  add_tokens (t ∷ ts) out =
      add_tokens ts (add_new (or_else (mention_for_token t) (mention_for_token (parse.head t))) out)

  abbrev pub add_children : List Str → List Token → List Mention → List Mention
  add_children deps [] out = out
  add_children deps (child ∷ rest) out = add_children deps rest (
      if not (str_in (parse.dep child) deps)
      then out
      else add_tokens (child ∷ parse.conjuncts child) out)

  unfoldable pub arg_mentions : Token → List Str → List Mention
  arg_mentions token deps = add_children deps (parse.children token) []

  abbrev pub antecedent : Token → List Mention
  antecedent tok =
      if str_eq (parse.dep tok) (codes "relcl")
      then of_option (mention_for_token (parse.head tok))
      else []

  abbrev pub direct_subjects : Token → List Mention
  direct_subjects tok = arg_mentions tok (codes "nsubj" ∷ codes "nsubjpass" ∷ [])

  -- The first argument is `3 - _depth`.
  unfoldable pub verb_subjects : ℕ → Token → List Mention
  verb_subjects zero tok = or_list (direct_subjects tok) (antecedent tok)
  verb_subjects (suc left) tok = or_list (direct_subjects tok) (
      if str_eq (parse.dep tok) (codes "conj")
      then verb_subjects left (parse.head tok)
      else antecedent tok)

  abbrev pub agents_of : List Token → List Mention
  agents_of [] = []
  agents_of (child ∷ rest) =
      (if str_eq (parse.dep child) (codes "agent")
        then arg_mentions child (codes "pobj" ∷ [])
        else [])
      ++ agents_of rest

  unfoldable pub agent_mentions : Token → List Mention
  agent_mentions tok = agents_of (parse.children tok)

  -- The mentions in "a subsidiary of X".
  abbrev pub parents_of : List Token → List Mention
  parents_of [] = []
  parents_of (child ∷ rest) =
      (if str_eq (parse.dep child) (codes "prep") && str_eq (parse.lemma child) (codes "of")
        then arg_mentions child (codes "pobj" ∷ [])
        else [])
      ++ parents_of rest

-- A target that is the source itself is left out. Mentions of one text that are equal are the same.
abbrev pub targets_for : Mention → List Mention → Str → List (Mention × Mention)
targets_for s [] want_to = []
targets_for s (t ∷ ts) want_to =
    let rest = targets_for s ts want_to in
    if not (str_eq t.ner_type want_to) || mention_eq t s then rest else (s, t) ∷ rest

unfoldable pub pairs : List Mention → List Mention → Str → Str → List (Mention × Mention)
pairs [] targets want_from want_to = []
pairs (s ∷ ss) targets want_from want_to =
    (if not (str_eq s.ner_type want_from) then [] else targets_for s targets want_to)
    ++ pairs ss targets want_from want_to

abbrev pub with_each : Mention → List Mention → List (Mention × Mention)
with_each a [] = []
with_each a (b ∷ bs) = (a, b) ∷ with_each a bs

unfoldable pub person_pairs : List Mention → List (Mention × Mention)
person_pairs [] = []
person_pairs (a ∷ people) = with_each a people ++ person_pairs people
