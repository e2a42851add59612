-- ===== src/Graph/Relations/Steps.antt =====
-- What each token of a sentence adds to the relations in src/cranus/graph/relation_extraction.py.
use cranus.Base.{
  ◌≡◌, refl, sym, ap, subst, ◌∙◌, append-nil, append_assoc, Bool, true, false, ◌&&◌, ◌||◌, inl, inr,
  List, [], ◌∷◌, ◌++◌, Str, str_in, Has, Has-append_left, Has-append_right, if◌then◌else◌,
}
use cranus.Graph.Resolve.{Mention}
use cranus.Graph.Relations.Vocabulary.{
  Triggers, founded_lemmas, acquired_lemmas, own_lemmas, subsidiary_nouns,
}
use cranus.Graph.Relations.Mentions.{Parse}
use cranus.Graph.Relations.{
  RelationCandidate, Found, add_plain, add_founded, add_acquired, founded_pairs, cofounder_pairs,
  active_pairs, passive_pairs, subsidiary_pairs, owned_pairs, founded_step, acquired_step,
  subsidiary_step, owned_step, scan_tokens, with_fallbacks,
}

module _ {Token : Type 0} (parse : Parse Token) (ms : List Mention) (evidence : Str)
    (has : Triggers) where
  abbrev pub founded_part : Token → List RelationCandidate
  founded_part tok =
      if (has.has_founded || has.has_cofounder) && str_in (parse.lemma tok) founded_lemmas
      then (if has.has_founded then founded_pairs parse ms evidence has tok else [])
        ++ cofounder_pairs parse ms evidence has tok
      else []

  abbrev pub acquired_part : Token → List RelationCandidate
  acquired_part tok =
      if has.has_acquired && str_in (parse.lemma tok) acquired_lemmas
      then active_pairs parse ms evidence has tok ++ passive_pairs parse ms evidence has tok
      else []

  abbrev pub subsidiary_part : Token → List RelationCandidate
  subsidiary_part tok =
      if has.has_subsidiary && str_in (parse.lemma tok) subsidiary_nouns
      then subsidiary_pairs parse ms evidence has tok
      else []

  abbrev pub owned_part : Token → List RelationCandidate
  owned_part tok =
      if has.has_subsidiary && str_in (parse.lemma tok) own_lemmas
      then owned_pairs parse ms evidence has tok
      else []

  -- The relations that the parse shows at a token.
  abbrev pub token_patterns : Token → List RelationCandidate
  token_patterns tok =
      founded_part tok ++ (acquired_part tok ++ (subsidiary_part tok ++ owned_part tok))

  abbrev Adds : (Found → Found) → List RelationCandidate → Type 0
  Adds step cs = (f : Found) → (step f).candidates ≡ f.candidates ++ cs

  Adds-if :
      (b : Bool) (step : Found → Found) (cs : List RelationCandidate)
      → Adds step cs
      → Adds (λ f. if b then step f else f) (if b then cs else [])
  Adds-if true step cs h f = h f
  Adds-if false step cs h f = sym (append-nil f.candidates)

  founded_step-Adds :
      (tok : Token) → Adds (founded_step parse ms evidence has tok) (founded_part tok)
  unfolding founded_step
  founded_step-Adds tok =
      let founded = founded_pairs parse ms evidence has tok in
      let cofounded = cofounder_pairs parse ms evidence has tok in
      Adds-if ((has.has_founded || has.has_cofounder) && str_in (parse.lemma tok) founded_lemmas)
        (λ f. add_plain cofounded (if has.has_founded then add_founded founded f else f))
        ((if has.has_founded then founded else []) ++ cofounded)
        (λ f.
          ap (λ cs. cs ++ cofounded)
            (Adds-if has.has_founded (add_founded founded) founded (λ g. refl) f)
          ∙ append_assoc f.candidates (if has.has_founded then founded else []) cofounded)

  acquired_step-Adds :
      (tok : Token) → Adds (acquired_step parse ms evidence has tok) (acquired_part tok)
  unfolding acquired_step
  acquired_step-Adds tok =
      let active = active_pairs parse ms evidence has tok in
      let passive = passive_pairs parse ms evidence has tok in
      Adds-if (has.has_acquired && str_in (parse.lemma tok) acquired_lemmas)
        (λ f. add_acquired passive (add_acquired active f)) (active ++ passive)
        (λ f. append_assoc f.candidates active passive)

  subsidiary_step-Adds :
      (tok : Token) → Adds (subsidiary_step parse ms evidence has tok) (subsidiary_part tok)
  unfolding subsidiary_step
  subsidiary_step-Adds tok =
      let pairs = subsidiary_pairs parse ms evidence has tok in
      Adds-if (has.has_subsidiary && str_in (parse.lemma tok) subsidiary_nouns) (add_plain pairs)
        pairs (λ f. refl)

  owned_step-Adds : (tok : Token) → Adds (owned_step parse ms evidence has tok) (owned_part tok)
  unfolding owned_step
  owned_step-Adds tok =
      let pairs = owned_pairs parse ms evidence has tok in
      Adds-if (has.has_subsidiary && str_in (parse.lemma tok) own_lemmas) (add_plain pairs) pairs
        (λ f. refl)

  abbrev pub all_patterns : List Token → List RelationCandidate
  all_patterns [] = []
  all_patterns (tok ∷ toks) = token_patterns tok ++ all_patterns toks

  scan_tokens-Adds :
      (toks : List Token) → Adds (scan_tokens parse ms evidence has toks) (all_patterns toks)
  unfolding scan_tokens
  scan_tokens-Adds [] f = sym (append-nil f.candidates)
  scan_tokens-Adds (tok ∷ toks) f =
      scan_tokens-Adds toks _
      ∙ ap (λ cs. cs ++ all_patterns toks)
          (owned_step-Adds tok _
            ∙ ap (λ cs. cs ++ owned_part tok)
                (subsidiary_step-Adds tok _
                  ∙ ap (λ cs. cs ++ subsidiary_part tok)
                      (acquired_step-Adds tok _
                        ∙ ap (λ cs. cs ++ acquired_part tok) (founded_step-Adds tok f))))
      ∙ simp append_assoc

  Has-all_patterns :
      (tok : Token) (toks : List Token) (c : RelationCandidate)
      → Has tok toks
      → Has c (token_patterns tok)
      → Has c (all_patterns toks)
  Has-all_patterns tok [] c h k = absurd h
  Has-all_patterns tok (t ∷ toks) c (inl e) k =
      Has-append_left c _ _ (subst (λ x. Has c (token_patterns x)) e k)
  Has-all_patterns tok (t ∷ toks) c (inr h) k =
      Has-append_right c (token_patterns t) _ (Has-all_patterns tok toks c h k)

  abbrev pub nothing_found : Found
  nothing_found = record { candidates = []; found_founded = false; found_acquired = false }

  pub scan_tokens-Has :
      (tok : Token) (toks : List Token) (c : RelationCandidate)
      → Has tok toks
      → Has c (token_patterns tok)
      → Has c (scan_tokens parse ms evidence has toks nothing_found).candidates
  scan_tokens-Has tok toks c h k =
      subst (Has c) (sym (scan_tokens-Adds toks nothing_found)) (Has-all_patterns tok toks c h k)

  pub with_fallbacks-Has :
      (f : Found) (c : RelationCandidate)
      → Has c f.candidates
      → Has c (with_fallbacks parse ms evidence has f)
  unfolding with_fallbacks
  with_fallbacks-Has f c h = Has-append_left c _ _ (Has-append_left c f.candidates _ h)
