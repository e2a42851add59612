-- ===== src/Graph/Relations/Patterns.antt =====
-- Which mentions the helpers of src/cranus/graph/relation_extraction.py join.
use cranus.Base.{
  ℕ, zero, suc, ◌≡◌, refl, Bool, true, ◌&&◌, inl, inr, Option, none, some, List, [], ◌∷◌, Str,
  codes, str_eq, str_in, keep_if, Has, All, All-append, Bool-cases, or_else,
}
use cranus.Storage.Table.{find_first}
use cranus.Graph.Resolve.{Mention}
use cranus.Graph.Relations.Mentions.{
  Parse, mention_eq, has_mention, add_new, or_list, of_option, mention_for_token, add_tokens,
  add_children, arg_mentions, antecedent, verb_subjects, agents_of, agent_mentions, parents_of,
  targets_for, pairs, with_each, person_pairs,
}

-- Some of the mentions, in any order.
abbrev pub Within : List Mention → List Mention → Type 0
Within ms = All (λ (m : Mention). Has m ms)

abbrev pub WithinOption : List Mention → Option Mention → Type 0
WithinOption ms none = Unit
WithinOption ms (some m) = Has m ms

-- Two of the mentions, of the types that are wanted.
abbrev pub Joined : List Mention → (want_from want_to : Str) → Mention × Mention → Type 0
Joined ms want_from want_to (s, t) =
    Has s ms × Has t ms × (str_eq s.ner_type want_from ≡ true) × (str_eq t.ner_type want_to ≡ true)

find_first-Within : (p : Mention → Bool) (ms : List Mention) → WithinOption ms (find_first p ms)
find_first-Within p [] = tt
find_first-Within p (m ∷ ms) = elim (Bool-cases (p m)) [
  | inl e ↦ rw e (inl refl)
  | inr e ↦ rw e (weaken m ms (find_first p ms) (find_first-Within p ms))
]
  where
    weaken :
        (m : Mention) (ms : List Mention) (o : Option Mention)
        → WithinOption ms o
        → WithinOption (m ∷ ms) o
    weaken m ms none h = tt
    weaken m ms (some x) h = inr h

or_else-Within :
    (ms : List Mention) (a b : Option Mention)
    → WithinOption ms a
    → WithinOption ms b
    → WithinOption ms (or_else a b)
or_else-Within ms none b h k = k
or_else-Within ms (some a) b h k = h

add_new-Within :
    (ms : List Mention) (o : Option Mention) (out : List Mention)
    → WithinOption ms o
    → Within ms out
    → Within ms (add_new o out)
add_new-Within ms none out h k = k
add_new-Within ms (some m) out h k = elim (Bool-cases (has_mention m out)) [
  | inl e ↦ rw e k
  | inr e ↦ rw e (All-append (λ (x : Mention). Has x ms) out (m ∷ []) k (h, tt))
]

pub or_list-Within :
    (ms xs ys : List Mention) → Within ms xs → Within ms ys → Within ms (or_list xs ys)
or_list-Within ms [] ys h k = k
or_list-Within ms (x ∷ xs) ys h k = h

pub of_option-Within :
    (ms : List Mention) (o : Option Mention) → WithinOption ms o → Within ms (of_option o)
of_option-Within ms none h = tt
of_option-Within ms (some m) h = (h, tt)

module _ {Token : Type 0} (parse : Parse Token) (ms : List Mention) where
  pub mention_for_token-Within : (t : Token) → WithinOption ms (mention_for_token parse ms t)
  unfolding mention_for_token
  mention_for_token-Within t = find_first-Within _ ms

  add_tokens-Within :
      (ts : List Token) (out : List Mention)
      → Within ms out
      → Within ms (add_tokens parse ms ts out)
  add_tokens-Within [] out h = h
  add_tokens-Within (t ∷ ts) out h = add_tokens-Within ts _ (
      add_new-Within ms _ out
        (or_else-Within ms _ _ (mention_for_token-Within t)
          (mention_for_token-Within (parse.head t)))
        h)

  add_children-Within :
      (deps : List Str) (cs : List Token) (out : List Mention)
      → Within ms out
      → Within ms (add_children parse ms deps cs out)
  add_children-Within deps [] out h = h
  add_children-Within deps (c ∷ cs) out h =
      add_children-Within deps cs _ (elim (Bool-cases (str_in (parse.dep c) deps)) [
        | inl e ↦ rw e (add_tokens-Within (c ∷ parse.conjuncts c) out h)
        | inr e ↦ rw e h
      ])

  pub arg_mentions-Within : (t : Token) (deps : List Str) → Within ms (arg_mentions parse ms t deps)
  unfolding arg_mentions
  arg_mentions-Within t deps = add_children-Within deps (parse.children t) [] tt

  antecedent-Within : (t : Token) → Within ms (antecedent parse ms t)
  antecedent-Within t = elim (Bool-cases (str_eq (parse.dep t) (codes "relcl"))) [
    | inl e ↦ rw e (of_option-Within ms _ (mention_for_token-Within (parse.head t)))
    | inr e ↦ rw e tt
  ]

  pub verb_subjects-Within : (left : ℕ) (t : Token) → Within ms (verb_subjects parse ms left t)
  unfolding verb_subjects
  verb_subjects-Within zero t =
      or_list-Within ms _ _ (arg_mentions-Within t _) (antecedent-Within t)
  verb_subjects-Within (suc left) t =
      or_list-Within ms _ _ (arg_mentions-Within t _)
        (elim (Bool-cases (str_eq (parse.dep t) (codes "conj"))) [
          | inl e ↦ rw e (verb_subjects-Within left (parse.head t))
          | inr e ↦ rw e (antecedent-Within t)
        ])

  agents_of-Within : (cs : List Token) → Within ms (agents_of parse ms cs)
  agents_of-Within [] = tt
  agents_of-Within (c ∷ cs) =
      All-append (λ (x : Mention). Has x ms) _ _
        (elim (Bool-cases (str_eq (parse.dep c) (codes "agent"))) [
          | inl e ↦ rw e (arg_mentions-Within c _)
          | inr e ↦ rw e tt
        ])
        (agents_of-Within cs)

  pub agent_mentions-Within : (t : Token) → Within ms (agent_mentions parse ms t)
  unfolding agent_mentions
  agent_mentions-Within t = agents_of-Within (parse.children t)

  pub parents_of-Within : (cs : List Token) → Within ms (parents_of parse ms cs)
  parents_of-Within [] = tt
  parents_of-Within (c ∷ cs) =
      All-append (λ (x : Mention). Has x ms) _ _
        (elim (Bool-cases
          (str_eq (parse.dep c) (codes "prep") && str_eq (parse.lemma c) (codes "of"))) [
            | inl e ↦ rw e (arg_mentions-Within c _)
            | inr e ↦ rw e tt
          ])
        (parents_of-Within cs)

module _ (ms : List Mention) (want_from want_to : Str) where
  targets_for-Joined :
      (s : Mention) (ts : List Mention)
      → Has s ms
      → str_eq s.ner_type want_from ≡ true
      → Within ms ts
      → All (Joined ms want_from want_to) (targets_for s ts want_to)
  targets_for-Joined s [] h e k = tt
  targets_for-Joined s (t ∷ ts) h e k =
      let rest = targets_for-Joined s ts h e k.1 in
      elim (Bool-cases (str_eq t.ner_type want_to)) [
        | inl q ↦ elim (Bool-cases (mention_eq t s)) [
          | inl r ↦ rw (q, r) rest
          | inr r ↦ rw (q, r) ((h, k.0, e, q), rest)
        ]
        | inr q ↦ rw q rest
      ]

  pub pairs-Joined :
      (ss ts : List Mention)
      → Within ms ss
      → Within ms ts
      → All (Joined ms want_from want_to) (pairs ss ts want_from want_to)
  unfolding pairs
  pairs-Joined [] ts h k = tt
  pairs-Joined (s ∷ ss) ts h k =
      let rest = pairs-Joined ss ts h.1 k in
      elim (Bool-cases (str_eq s.ner_type want_from)) [
        | inl e ↦
            rw e
              (All-append (Joined ms want_from want_to) _ _ (targets_for-Joined s ts h.0 e k) rest)
        | inr e ↦ rw e rest
      ]

module _ (ms : List Mention) (want : Str) where
  abbrev pub IsWanted : Mention → Type 0
  IsWanted m = Has m ms × (str_eq m.ner_type want ≡ true)

  with_each-Joined :
      (a : Mention) (bs : List Mention)
      → IsWanted a
      → All IsWanted bs
      → All (Joined ms want want) (with_each a bs)
  with_each-Joined a [] h k = tt
  with_each-Joined a (b ∷ bs) h k = ((h.0, k.0.0, h.1, k.0.1), with_each-Joined a bs h k.1)

  pub person_pairs-Joined :
      (people : List Mention)
      → All IsWanted people
      → All (Joined ms want want) (person_pairs people)
  unfolding person_pairs
  person_pairs-Joined [] h = tt
  person_pairs-Joined (a ∷ people) h =
      All-append (Joined ms want want) _ _ (with_each-Joined a people h.0 h.1)
        (person_pairs-Joined people h.1)

  pub keep_if-IsWanted :
      (xs : List Mention)
      → Within ms xs
      → All IsWanted (keep_if (λ (m : Mention). str_eq m.ner_type want) xs)
  keep_if-IsWanted [] h = tt
  keep_if-IsWanted (x ∷ xs) h = elim (Bool-cases (str_eq x.ner_type want)) [
    | inl e ↦ rw e ((h.0, e), keep_if-IsWanted xs h.1)
    | inr e ↦ rw e (keep_if-IsWanted xs h.1)
  ]
