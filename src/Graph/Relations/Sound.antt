-- ===== src/Graph/Relations/Sound.antt =====
-- What the relations of src/cranus/graph/relation_extraction.py rest on.
use cranus.Base.{
  and_left, if_cases, ℕ, ◌≡◌, refl, true, not, ◌&&◌, ◌||◌, ◌⊎◌, inl, inr, List, [], ◌∷◌, ◌++◌, Str,
  codes, str_in, keep_if, Has, All, All-append, Has-All,
}
use cranus.Graph.Resolve.{Mention}
use cranus.Graph.Relations.Vocabulary.{
  founded_lemmas, acquired_lemmas, own_lemmas, subsidiary_nouns, Triggers, person, organization,
}
use cranus.Graph.Relations.Mentions.{Parse, is_person, is_organization, pairs}
use cranus.Graph.Relations.Patterns
use cranus.Graph.Relations.Patterns.{Within, Joined}
use cranus.Graph.Relations.{
  RelationCandidate, Found, as_is, turned, is_many, founders, founded_pairs, cofounder_pairs,
  founded_step, acquired_step, subsidiary_step, owned_step, scan_tokens, only_pair, two_orgs,
  with_fallbacks,
}

-- The types of the two mentions are those of the relation, and the sentence has a trigger of it.
abbrev pub HasSchema : Triggers → Str → Mention → Mention → Type 0
HasSchema has type_name s t =
    ((type_name ≡ codes "FOUNDED")
      × (is_person s ≡ true)
      × (is_organization t ≡ true)
      × (has.has_founded ≡ true))
    ⊎ (((type_name ≡ codes "CO_FOUNDED_WITH")
          × (is_person s ≡ true)
          × (is_person t ≡ true)
          × (has.has_cofounder ≡ true))
        ⊎ (((type_name ≡ codes "SUBSIDIARY_OF")
              × (is_organization s ≡ true)
              × (is_organization t ≡ true)
              × (has.has_subsidiary ≡ true))
            ⊎ ((type_name ≡ codes "ACQUIRED")
                × (is_organization s ≡ true)
                × (is_organization t ≡ true)
                × (has.has_acquired ≡ true))))

module _ (ms : List Mention) (evidence : Str) (has : Triggers) where
  abbrev pub IsSound : RelationCandidate → Type 0
  IsSound c =
      Has c.from_mention ms
      × Has c.to_mention ms
      × (c.evidence_text ≡ evidence)
      × HasSchema has c.type_name c.from_mention c.to_mention

  as_is-IsSound :
      (type_name : Str) (confidence : ℕ) (want_from want_to : Str) (ps : List (Mention × Mention))
      → ((s t : Mention) → Joined ms want_from want_to (s, t) → HasSchema has type_name s t)
      → All (Joined ms want_from want_to) ps
      → All IsSound (as_is type_name confidence evidence ps)
  as_is-IsSound type_name confidence f t [] schema h = tt
  as_is-IsSound type_name confidence f t ((a, b) ∷ ps) schema h =
      ((h.0.0, h.0.1, refl, schema a b h.0), as_is-IsSound type_name confidence f t ps schema h.1)

  turned-IsSound :
      (type_name : Str) (confidence : ℕ) (want : Str) (ps : List (Mention × Mention))
      → ((s t : Mention) → Joined ms want want (t, s) → HasSchema has type_name s t)
      → All (Joined ms want want) ps
      → All IsSound (turned type_name confidence evidence ps)
  turned-IsSound type_name confidence want [] schema h = tt
  turned-IsSound type_name confidence want ((a, b) ∷ ps) schema h =
      ((h.0.1, h.0.0, refl, schema b a h.0), turned-IsSound type_name confidence want ps schema h.1)

  founded_schema :
      (s t : Mention)
      → has.has_founded ≡ true
      → Joined ms person organization (s, t)
      → HasSchema has (codes "FOUNDED") s t
  founded_schema s t e j = inl (refl, j.2, j.3, e)

  cofounded_schema :
      (s t : Mention)
      → has.has_cofounder ≡ true
      → Joined ms person person (s, t)
      → HasSchema has (codes "CO_FOUNDED_WITH") s t
  cofounded_schema s t e j = inr (inl (refl, j.2, j.3, e))

  subsidiary_schema :
      (s t : Mention)
      → has.has_subsidiary ≡ true
      → Joined ms organization organization (s, t)
      → HasSchema has (codes "SUBSIDIARY_OF") s t
  subsidiary_schema s t e j = inr (inr (inl (refl, j.2, j.3, e)))

  acquired_schema :
      (s t : Mention)
      → has.has_acquired ≡ true
      → (is_organization s ≡ true) × (is_organization t ≡ true)
      → HasSchema has (codes "ACQUIRED") s t
  acquired_schema s t e j = inr (inr (inr (refl, j.0, j.1, e)))

  module _ {Token : Type 0} (parse : Parse Token) where
    abbrev pub Kept : Found → Type 0
    Kept f = All IsSound f.candidates

    abbrev pub Keeps : (Found → Found) → Type 0
    Keeps step = (f : Found) → Kept f → Kept (step f)

    append-IsSound :
        (cs ds : List RelationCandidate) → All IsSound cs → All IsSound ds → All IsSound (cs ++ ds)
    append-IsSound = All-append IsSound

    founders-Within : (tok : Token) → Within ms (founders parse ms evidence has tok)
    founders-Within tok =
        Patterns.or_list-Within ms _ _ (Patterns.verb_subjects-Within parse ms 3 tok)
          (Patterns.agent_mentions-Within parse ms tok)

    founded_pairs-IsSound :
        (tok : Token)
        → has.has_founded ≡ true
        → All IsSound (founded_pairs parse ms evidence has tok)
    founded_pairs-IsSound tok e =
        as_is-IsSound _ 85 person organization _ (λ s t j. founded_schema s t e j)
          (Patterns.pairs-Joined ms person organization _ _ (founders-Within tok)
            (Patterns.arg_mentions-Within parse ms tok _))

    cofounder_pairs-IsSound :
        (tok : Token) → All IsSound (cofounder_pairs parse ms evidence has tok)
    cofounder_pairs-IsSound tok =
        if_cases (All IsSound)
          (has.has_cofounder && is_many (keep_if is_person (founders parse ms evidence has tok))) _
          []
          (λ e.
            as_is-IsSound _ 80 person person _
              (λ s t j. cofounded_schema s t (and_left has.has_cofounder _ e) j)
              (Patterns.person_pairs-Joined ms person _
                (Patterns.keep_if-IsWanted ms person _ (founders-Within tok))))
          (λ e. tt)

    founded_step-Keeps : (tok : Token) → Keeps (founded_step parse ms evidence has tok)
    unfolding founded_step
    founded_step-Keeps tok f h =
        if_cases Kept
          ((has.has_founded || has.has_cofounder) && str_in (parse.lemma tok) founded_lemmas) _ f
          (λ e.
            append-IsSound _ _
              (if_cases Kept has.has_founded _ f
                (λ q. append-IsSound f.candidates _ h (founded_pairs-IsSound tok q)) (λ q. h))
              (cofounder_pairs-IsSound tok))
          (λ e. h)

    turned-pairs-IsSound :
        (buyers targets : List Mention)
        → has.has_acquired ≡ true
        → Within ms buyers
        → Within ms targets
        → All IsSound
            (turned (codes "ACQUIRED") 80 evidence (pairs buyers targets organization organization))
    turned-pairs-IsSound buyers targets e h k =
        turned-IsSound _ 80 organization _ (λ s t j. acquired_schema s t e (j.3, j.2))
          (Patterns.pairs-Joined ms organization organization _ _ h k)

    subsidiary-IsSound :
        (children parents : List Mention)
        → has.has_subsidiary ≡ true
        → Within ms children
        → Within ms parents
        → All IsSound (
            as_is
              (codes "SUBSIDIARY_OF")
              75
              evidence
              (pairs children parents organization organization))
    subsidiary-IsSound children parents e h k =
        as_is-IsSound _ 75 organization organization _ (λ s t j. subsidiary_schema s t e j)
          (Patterns.pairs-Joined ms organization organization _ _ h k)

    acquired_step-Keeps : (tok : Token) → Keeps (acquired_step parse ms evidence has tok)
    unfolding acquired_step
    acquired_step-Keeps tok f h =
        if_cases Kept (has.has_acquired && str_in (parse.lemma tok) acquired_lemmas) _ f
          (λ e.
            append-IsSound _ _
              (append-IsSound f.candidates _ h (
                turned-pairs-IsSound _ _ (and_left has.has_acquired _ e)
                  (Patterns.arg_mentions-Within parse ms tok _)
                  (Patterns.arg_mentions-Within parse ms tok _)))
              (turned-pairs-IsSound _ _ (and_left has.has_acquired _ e)
                (Patterns.agent_mentions-Within parse ms tok)
                (Patterns.arg_mentions-Within parse ms tok _)))
          (λ e. h)

    subsidiary_step-Keeps : (tok : Token) → Keeps (subsidiary_step parse ms evidence has tok)
    unfolding subsidiary_step
    subsidiary_step-Keeps tok f h =
        if_cases Kept (has.has_subsidiary && str_in (parse.lemma tok) subsidiary_nouns) _ f
          (λ e. append-IsSound f.candidates _ h (
            subsidiary-IsSound _ _ (and_left has.has_subsidiary _ e)
              (All-append (λ (x : Mention). Has x ms) _ _
                (Patterns.of_option-Within ms _
                  (Patterns.mention_for_token-Within parse ms (parse.head tok)))
                (Patterns.arg_mentions-Within parse ms (parse.head tok) _))
              (Patterns.parents_of-Within parse ms (parse.children tok))))
          (λ e. h)

    owned_step-Keeps : (tok : Token) → Keeps (owned_step parse ms evidence has tok)
    unfolding owned_step
    owned_step-Keeps tok f h =
        if_cases Kept (has.has_subsidiary && str_in (parse.lemma tok) own_lemmas) _ f
          (λ e. append-IsSound f.candidates _ h (
            subsidiary-IsSound _ _ (and_left has.has_subsidiary _ e)
              (Patterns.arg_mentions-Within parse ms tok _)
              (Patterns.agent_mentions-Within parse ms tok)))
          (λ e. h)

    pub scan_tokens-IsSound : (toks : List Token) → Keeps (scan_tokens parse ms evidence has toks)
    unfolding scan_tokens
    scan_tokens-IsSound [] f h = h
    scan_tokens-IsSound (tok ∷ toks) f h = scan_tokens-IsSound toks _ (
        owned_step-Keeps tok _
          (subsidiary_step-Keeps tok _ (acquired_step-Keeps tok _ (founded_step-Keeps tok f h))))

    only_pair-Joined :
        (people orgs : List Mention)
        → All (Patterns.IsWanted ms person) people
        → All (Patterns.IsWanted ms organization) orgs
        → All (Joined ms person organization) (only_pair parse ms evidence has people orgs)
    only_pair-Joined [] orgs h k = tt
    only_pair-Joined (p ∷ []) [] h k = tt
    only_pair-Joined (p ∷ []) (o ∷ []) h k = ((h.0.0, k.0.0, h.0.1, k.0.1), tt)
    only_pair-Joined (p ∷ []) (o ∷ o' ∷ os) h k = tt
    only_pair-Joined (p ∷ p' ∷ ps) orgs h k = tt

    two_orgs-Joined :
        (orgs : List Mention)
        → All (Patterns.IsWanted ms organization) orgs
        → All (Joined ms organization organization) (two_orgs parse ms evidence has orgs)
    two_orgs-Joined [] k = tt
    two_orgs-Joined (a ∷ []) k = tt
    two_orgs-Joined (a ∷ b ∷ []) k = ((k.0.0, k.1.0.0, k.0.1, k.1.0.1), tt)
    two_orgs-Joined (a ∷ b ∷ c ∷ cs) k = tt

    all-Within : Within ms ms
    all-Within = Has-All (λ (x : Mention). Has x ms) ms (λ x h. h)

    pub with_fallbacks-IsSound :
        (f : Found)
        → All IsSound f.candidates
        → All IsSound (with_fallbacks parse ms evidence has f)
    unfolding with_fallbacks
    with_fallbacks-IsSound f h =
        append-IsSound _ _
          (append-IsSound f.candidates _ h (
            if_cases (All IsSound) (has.has_founded && not f.found_founded) _ []
              (λ e.
                as_is-IsSound _ 60 person organization _
                  (λ s t j. founded_schema s t (and_left has.has_founded _ e) j)
                  (only_pair-Joined _ _ (Patterns.keep_if-IsWanted ms person ms all-Within)
                    (Patterns.keep_if-IsWanted ms organization ms all-Within)))
              (λ e. tt)))
          (if_cases (All IsSound) (has.has_acquired && not f.found_acquired) _ []
            (λ e.
              as_is-IsSound _ 55 organization organization _
                (λ s t j. acquired_schema s t (and_left has.has_acquired _ e) (j.2, j.3))
                (two_orgs-Joined _ (Patterns.keep_if-IsWanted ms organization ms all-Within)))
            (λ e. tt))
