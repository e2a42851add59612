-- ===== src/Query/Verify/Grounding.antt =====
-- No claim of src/cranus/query/verify.py stands without a source in context, and no sentence that
-- has one is lost.
use cranus.Base.{
  ℕ, ◌≡◌, refl, ap, ◌≢◌, ◌↔◌, inl, Bool, true, not, none, List, [], ◌∷◌, arith, keep_if-Has,
  Has-keep_if, is_empty, All, Has, Has-All, Str, str_in, str_in→Has, Has→str_in,
}
use cranus.Query.Verify.{
  Claim, VerifiedAnswer, sentences, find_citations, cited_ids, add_claim, count_claim,
  collect_claims, kept_sentences, verify_citations,
}
use cranus.Query.Verify.Citations.{Cites, find_citations-exact}
use cranus.Query.Verify.Answer.{
  cites_source, claims-assemble, verify_citations-Shape, verify_citations-eq-assemble,
}

module _ (unicode_word : ℕ → Bool) (valid : List Str) where
  -- Some id is given, and each is a source in context that the text cites.
  pub record IsGrounded (c : Claim) : Type 0 where
    pub some_source : c.supported_by ≢ []
    pub sources : All (λ i. Has i valid × Cites unicode_word i c.text) c.supported_by

  pub cited_ids_lem :
      (s i : Str) → Has i (cited_ids unicode_word valid s) ↔ (Has i valid × Cites unicode_word i s)
  unfolding cited_ids
  cited_ids_lem s i = (
    λ m.
        let (found, known) =
          Has-keep_if (λ j. str_in j valid) i (find_citations unicode_word none s) m in
        (str_in→Has i valid known, (find_citations-exact unicode_word i s).0 found),
    λ h.
        keep_if-Has (λ j. str_in j valid) i (find_citations unicode_word none s)
          ((find_citations-exact unicode_word i s).1 h.1) (Has→str_in i valid h.0),
  )

  add-IsGrounded :
      (ids : List Str) (n : ℕ) (s : Str) (rest : List Claim)
      → All (λ i. Has i valid × Cites unicode_word i s) ids
      → All IsGrounded rest
      → All IsGrounded (add_claim ids n s rest)
  add-IsGrounded [] n s rest h k = k
  add-IsGrounded (i ∷ ids) n s rest h k =
      (record { some_source = λ e. ground arith; sources = h }, k)

  collect-IsGrounded :
      (n : ℕ) (ss : List Str) → All IsGrounded (collect_claims unicode_word valid n ss)
  unfolding collect_claims
  collect-IsGrounded n [] = tt
  collect-IsGrounded n (s ∷ ss) =
      let cited = cited_ids unicode_word valid s in
      add-IsGrounded cited n s _ (Has-All _ cited (λ i. (cited_ids_lem s i).0))
        (collect-IsGrounded (count_claim cited n) ss)

  -- Every claim of a verified answer names at least one source, and each source that it names is
  -- in context and is cited in brackets by the claim's own text.
  pub verify_citations-IsGrounded :
      (raw : Str) → All IsGrounded (verify_citations unicode_word raw valid).claims
  verify_citations-IsGrounded raw =
      rw
        (
          ap (λ (a : VerifiedAnswer). a.claims)
              (verify_citations-eq-assemble unicode_word valid raw),
          claims-assemble,
        )
        (collect-IsGrounded 0 (sentences raw))

  some_cited :
      (s : Str) (ids : List Str)
      → cited_ids unicode_word valid s ≡ ids
      → not (is_empty ids) ≡ true
      → (i : Str) × Has i valid × Cites unicode_word i s
  some_cited s [] e h = absurd (cc)
  some_cited s (i ∷ ids) e h =
      let (known, cites) = (cited_ids_lem s i).0 (rw e (inl refl)) in (i, known, cites)

  cites_source_of_Has : (ids : List Str) (i : Str) → Has i ids → not (is_empty ids) ≡ true
  cites_source_of_Has [] i m = absurd m
  cites_source_of_Has (j ∷ ids) i m = refl

  -- A sentence of the raw answer is kept exactly when it cites, in brackets, a source in context.
  pub verify_citations-keeps :
      (raw s : Str)
      → Has s (kept_sentences (verify_citations unicode_word raw valid).claims)
        ↔ (Has s (sentences raw) × ((i : Str) × Has i valid × Cites unicode_word i s))
  verify_citations-keeps raw s = rw ((verify_citations-Shape unicode_word valid raw).1) (
    λ m.
        let (is_sentence, cites) =
          Has-keep_if (cites_source unicode_word valid) s (sentences raw) m in
        (is_sentence, some_cited s (cited_ids unicode_word valid s) refl cites),
    λ (is_sentence, (i, known, cites)).
        keep_if-Has (cites_source unicode_word valid) s (sentences raw) is_sentence
          (cites_source_of_Has _ i ((cited_ids_lem s i).1 (known, cites))),
  )
