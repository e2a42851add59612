-- ===== src/Query/Verify/Citations.antt =====
-- The scanner for `\[([\w\-]+)\]` of src/cranus/query/verify.py finds exactly the bracketed ids.
use cranus.Base.{
  ℕ, ◌≡◌, refl, ap, subst, ◌∙◌, ◌≢◌, ◌↔◌, inl, inr, Bool, true, false, Option, none, some, List, [],
  ◌∷◌, ◌++◌, append-nil, append_assoc, arith, Bool-cases, ◌==◌, is_empty, All, All-append, All-Has,
  Has, Str, not, ◌&&◌,
}
use cranus.Query.Verify.{id_char, advance, emit, find_citations}

module _ (unicode_word : ℕ → Bool) where
  -- The id is not empty, consists of `[\w\-]`, and stands in the text in square brackets.
  pub record Cites (i text : Str) : Type 0 where
    pub before : Str
    pub after : Str
    pub bracketed : text ≡ before ++ (b'[' ∷ (i ++ (b']' ∷ after)))
    pub some_id : i ≢ []
    pub id_chars : All (λ c. id_char unicode_word c ≡ true) i

  -- An open group ends the text read so far.
  abbrev Fits : Option Str → Str → Type 0
  Fits none before = Unit
  Fits (some run) before =
      (p : Str) × (before ≡ p ++ (b'[' ∷ run)) × All (λ c. id_char unicode_word c ≡ true) run

  is_bracket : (c : ℕ) → (c == b'[') ≡ true → c ≡ b'['
  is_bracket c e = ground arith

  Fits-advance :
      (group : Option Str) (before : Str) (c : ℕ)
      → Fits group before
      → Fits (advance unicode_word group c) (before ++ c ∷ [])
  unfolding advance
  Fits-advance none before c h = elim (Bool-cases (c == b'[')) [
    | inl e ↦ rw e (before, ap (λ d. before ++ d ∷ []) (is_bracket c e), tt)
    | inr e ↦ rw e tt
  ]
  Fits-advance (some run) before c h = elim (Bool-cases (c == b'[')) [
    | inl e ↦ rw e (before, ap (λ d. before ++ d ∷ []) (is_bracket c e), tt)
    | inr e ↦ elim (Bool-cases (id_char unicode_word c)) [
      | inl w ↦
          rw (e, w)
            (
              h.0,
              ap (λ t. t ++ c ∷ []) h.1 ∙ append_assoc h.0 (b'[' ∷ run) (c ∷ []),
              All-append (λ d. id_char unicode_word d ≡ true) run (c ∷ []) h.2 (w, tt),
            )
      | inr w ↦ rw (e, w) tt
    ]
  ]

  -- What `emit` adds is cited, when the rest is.
  emit-Cites :
      (group : Option Str) (before s : Str) (c : ℕ) (rest : List Str)
      → Fits group before
      → All (λ i. Cites i (before ++ c ∷ s)) rest
      → All (λ i. Cites i (before ++ c ∷ s)) (emit unicode_word group c rest)
  unfolding emit
  emit-Cites none before s c rest h k = k
  emit-Cites (some []) before s c rest h k = ground arith
  emit-Cites (some (r ∷ run)) before s c rest h k = elim (Bool-cases (c == b']')) [
    | inl e ↦ rw e (
      record {
        before = h.0;
        after = s;
        bracketed = cc (h.1, closing c e, append_assoc h.0 (b'[' ∷ r ∷ run) (c ∷ s));
        some_id = cons_ne;
        id_chars = h.2;
      },
      k,
    )
    | inr e ↦ rw e k
  ]
    where
      closing : (d : ℕ) → (d == b']') ≡ true → d ≡ b']'
      closing d q = ground arith

      cons_ne : ◌≢◌ {A = Str} (r ∷ run) []
      cons_ne = λ q. ground arith

  -- From any place in the text: every id that is found from there on is cited.
  find-Cites :
      (group : Option Str) (before s : Str)
      → Fits group before
      → All (λ i. Cites i (before ++ s)) (find_citations unicode_word group s)
  unfolding find_citations
  find-Cites group before [] h = tt
  find-Cites group before (c ∷ s) h = emit-Cites group before s c _ h (
      subst
        (λ t. All (λ i. Cites i t) (find_citations unicode_word (advance unicode_word group c) s))
        (append_assoc before (c ∷ []) s)
        (find-Cites (advance unicode_word group c) (before ++ c ∷ []) s
          (Fits-advance group before c h)))

  emit-Has :
      (i : Str) (group : Option Str) (c : ℕ) (rest : List Str)
      → Has i rest
      → Has i (emit unicode_word group c rest)
  unfolding emit
  emit-Has i none c rest m = m
  emit-Has i (some run) c rest m = elim (Bool-cases (c == b']' && not (is_empty run))) [
    | inl e ↦ rw e (inr m)
    | inr e ↦ rw e m
  ]

  not_bracket : (c : ℕ) → id_char unicode_word c ≡ true → (c == b'[') ≡ false
  not_bracket c w = elim (Bool-cases (c == b'[')) [
    | inl e ↦ absurd (bracket_class (subst (λ d. id_char unicode_word d ≡ true) (is_bracket c e) w))
    | inr e ↦ e
  ]
    where
      bracket_class : id_char unicode_word b'[' ≢ true
      bracket_class = unfold id_char in λ q. cc

  advance-id_char :
      (run : Str) (c : ℕ)
      → id_char unicode_word c ≡ true
      → advance unicode_word (some run) c ≡ some (run ++ c ∷ [])
  unfolding advance
  advance-id_char run c w = rw (not_bracket c w, w)

  snoc_ne : (run : Str) (c : ℕ) (i : Str) → (run ++ c ∷ []) ++ i ≢ []
  snoc_ne [] c i q = ground arith
  snoc_ne (r ∷ run) c i q = ground arith

  -- The scanner reads on to the end of an id whose characters are all in the class.
  find_run-Has :
      (run i after : Str)
      → run ++ i ≢ []
      → All (λ c. id_char unicode_word c ≡ true) i
      → Has (run ++ i) (find_citations unicode_word (some run) (i ++ (b']' ∷ after)))
  unfolding find_citations
  find_run-Has [] [] after ne w = absurd (ne refl)
  find_run-Has (r ∷ run) [] after ne w = unfold emit in inl (append-nil (r ∷ run))
  find_run-Has run (c ∷ i) after ne w = emit-Has (run ++ c ∷ i) (some run) c _ (
      rw (advance-id_char run c w.0) (
        subst
          (λ t. Has t (find_citations unicode_word (some (run ++ c ∷ [])) (i ++ (b']' ∷ after))))
          (append_assoc run (c ∷ []) i)
          (find_run-Has (run ++ c ∷ []) i after (snoc_ne run c i) w.1)))

  advance_bracket : (group : Option Str) → advance unicode_word group b'[' ≡ some []
  unfolding advance
  advance_bracket none = refl
  advance_bracket (some run) = refl

  find-Has :
      (group : Option Str) (before i after : Str)
      → i ≢ []
      → All (λ c. id_char unicode_word c ≡ true) i
      → Has i (find_citations unicode_word group (before ++ (b'[' ∷ (i ++ (b']' ∷ after)))))
  unfolding find_citations
  find-Has group [] i after ne w =
      emit-Has i group b'[' _ (rw (advance_bracket group) (find_run-Has [] i after ne w))
  find-Has group (c ∷ before) i after ne w =
      emit-Has i group c _ (find-Has (advance unicode_word group c) before i after ne w)

  -- An id is found in a text exactly when it stands there in brackets.
  pub find_citations-exact :
      (i text : Str) → Has i (find_citations unicode_word none text) ↔ Cites i text
  find_citations-exact i text = (
    λ m. All-Has (λ j. Cites j text) i _ (find-Cites none [] text tt) m,
    λ h. rw h.bracketed (find-Has none h.before i h.after h.some_id h.id_chars),
  )
