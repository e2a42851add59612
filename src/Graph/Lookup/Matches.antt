-- ===== src/Graph/Lookup/Matches.antt =====
-- Which entities `graph_lookup_for_question` of src/cranus/graph/query_support.py takes for matched.
use cranus.Base.{◌≡◌, refl, subst, inl, inr, false, List, [], ◌∷◌, Str, str_in, Has}
use cranus.Graph.Store.{Entity}
use cranus.Graph.Resolve.{Names}
use cranus.Graph.Lookup.{Fact, Scores, match_phrases}
use cranus.Base.{Option, none, some, All, All-append, if_cases}
use cranus.Graph.Resolve.{score_pair}
use cranus.Graph.Edges.{non_empty}
use cranus.Graph.Lookup.{best_match, add_match}

module _ (Score : Type 0) (scores : Scores Score) (names : Names Score)
    (traverse : Str → List (Fact Score)) where
  -- An entity of the candidates that a phrase matches well enough.
  abbrev pub IsMatch : List Entity → List Str → Str → Type 0
  IsMatch candidates phrases id =
      (e : Entity) × Has e candidates
      × (e.id ≡ id)
      × ((phrase : Str) × Has phrase phrases
          × (scores.less (score_pair Score names phrase e.canonical_name) scores.match_threshold
              ≡ false))

  -- The best match so far is of a candidate, and its score is that of the phrase with it.
  abbrev IsBest : List Entity → Str → Option Str × Score → Type 0
  IsBest candidates phrase (none, score) = Unit {0}
  IsBest candidates phrase (some id, score) =
      (e : Entity) × Has e candidates
      × (e.id ≡ id)
      × (score ≡ score_pair Score names phrase e.canonical_name)

  best_match-IsBest :
      (candidates : List Entity) (phrase : Str) (es : List Entity) (o : Option Str) (score : Score)
      → ((e : Entity) → Has e es → Has e candidates)
      → IsBest candidates phrase (o, score)
      → IsBest candidates phrase (best_match Score scores names traverse phrase es o score)
  unfolding best_match
  best_match-IsBest candidates phrase [] o score h b = b
  best_match-IsBest candidates phrase (e ∷ es) o score h b =
      if_cases (IsBest candidates phrase)
        (scores.less score (score_pair Score names phrase e.canonical_name)) _ _
        (λ q.
          best_match-IsBest candidates phrase es (some e.id) _ (λ x m. h x (inr m))
            (e, h e (inl refl), refl, refl))
        (λ q. best_match-IsBest candidates phrase es o score (λ x m. h x (inr m)) b)

  add_match-IsMatch :
      (candidates : List Entity) (phrases : List Str) (phrase : Str) (o : Option Str)
      (score : Score) (matched : List Str)
      → Has phrase phrases
      → IsBest candidates phrase (o, score)
      → All (IsMatch candidates phrases) matched
      → All
          (IsMatch candidates phrases)
          (add_match Score scores names traverse (non_empty o) score matched)
  add_match-IsMatch candidates phrases phrase none score matched m b h = h
  add_match-IsMatch candidates phrases phrase (some []) score matched m b h = h
  add_match-IsMatch candidates phrases phrase (some (c ∷ id)) score matched m (e, there, same, s)
        h =
      if_cases (All (IsMatch candidates phrases)) (scores.less score scores.match_threshold) _ _
        (λ q. h)
        (λ q.
          if_cases (All (IsMatch candidates phrases)) (str_in (c ∷ id) matched) _ _ (λ k. h)
            (λ k. All-append (IsMatch candidates phrases) matched _ h (
              (
                e,
                there,
                same,
                (phrase, m, subst (λ x. scores.less x scores.match_threshold ≡ false) s q),
              ),
              tt,
            )))

  pub match_phrases-IsMatch :
      (candidates : List Entity) (all phrases matched : List Str)
      → ((p : Str) → Has p phrases → Has p all)
      → All (IsMatch candidates all) matched
      → All
          (IsMatch candidates all)
          (match_phrases Score scores names traverse candidates phrases matched)
  unfolding match_phrases
  match_phrases-IsMatch candidates all [] matched sub h = h
  match_phrases-IsMatch candidates all (p ∷ ps) matched sub h =
      let (o, score) = best_match Score scores names traverse p candidates none scores.zero_score in
      match_phrases-IsMatch candidates all ps _ (λ q m. sub q (inr m))
        (add_match-IsMatch candidates all p o score matched (sub p (inl refl))
          (best_match-IsBest candidates p candidates none scores.zero_score (λ e m. m) tt) h)
