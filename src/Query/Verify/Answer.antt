-- ===== src/Query/Verify/Answer.antt =====
-- The answer of src/cranus/query/verify.py: its text, its claims and its counts.
use cranus.Base.{
  ℕ, suc, ◌+◌, ◌≤◌, ◌≡◌, refl, ap, inl, inr, Bool, true, not, List, [], ◌∷◌, arith, Bool-cases,
  length, keep_if, is_empty, Str, codes, strip, join, if◌then◌else◌,
}
use cranus.Query.Verify.{
  Claim, VerifiedAnswer, sentences, cited_ids, collect_claims, add_claim, count_claim, assemble,
  kept_sentences, verify_citations,
}
use cranus.Query.Verify.Sentences.{sentences_blank}

kept-add :
    (ids : List Str) (n : ℕ) (s : Str) (rest : List Claim) (tail : List Str)
    → kept_sentences rest ≡ tail
    → kept_sentences (add_claim ids n s rest) ≡ (if not (is_empty ids) then s ∷ tail else tail)
kept-add [] n s rest tail h = h
kept-add (i ∷ ids) n s rest tail h = ap (λ t. s ∷ t) h

pub claims-assemble : (all : List Str) (cs : List Claim) → (assemble all cs).claims ≡ cs
claims-assemble all [] = refl
claims-assemble all (c ∷ cs) = refl

empty : (s : Str) → is_empty s ≡ true → s ≡ []
empty [] e = refl
empty (c ∷ s) e = absurd (cc)

length-kept : (cs : List Claim) → length (kept_sentences cs) ≡ length cs
length-kept [] = refl
length-kept (c ∷ cs) = ap suc (length-kept cs)

abbrev pub Shape : List Str → List Str → VerifiedAnswer → Type 0
Shape all kept a =
    (a.text ≡ join (codes " ") (kept_sentences a.claims))
    × (kept_sentences a.claims ≡ kept)
    × (a.insufficient_evidence ≡ is_empty a.claims)
    × (a.confidence ≡ (length a.claims, if is_empty a.claims then 0 else length all))
    × (length a.claims ≤ length all)

assemble-Shape :
    (all kept : List Str) (cs : List Claim)
    → kept_sentences cs ≡ kept
    → length cs ≤ length all
    → Shape all kept (assemble all cs)
assemble-Shape all kept [] e h = (refl, e, refl, refl, h)
assemble-Shape all kept (c ∷ cs) e h =
    (refl, e, refl, ap (λ n. (suc n, length all)) (length-kept cs), h)

module _ (unicode_word : ℕ → Bool) (valid : List Str) where
  -- `bool(cited_ids)` for a sentence
  abbrev pub cites_source : Str → Bool
  cites_source s = not (is_empty (cited_ids unicode_word valid s))

  pub kept-collect :
      (n : ℕ) (ss : List Str)
      → kept_sentences (collect_claims unicode_word valid n ss) ≡ keep_if cites_source ss
  unfolding collect_claims
  kept-collect n [] = refl
  kept-collect n (s ∷ ss) =
      let cited = cited_ids unicode_word valid s in
      kept-add cited n s _ _ (kept-collect (count_claim cited n) ss)

  pub length-collect-le :
      (n : ℕ) (ss : List Str) → length (collect_claims unicode_word valid n ss) ≤ length ss
  unfolding collect_claims
  length-collect-le n [] = omega arith
  length-collect-le n (s ∷ ss) =
      ground (arith, length-collect-le n ss, length-collect-le (n + 1) ss)

  -- The early return for a blank answer gives what the loop would give.
  pub verify_citations-eq-assemble :
      (raw : Str)
      → verify_citations unicode_word raw valid
        ≡ assemble (sentences raw) (collect_claims unicode_word valid 0 (sentences raw))
  unfolding verify_citations
  verify_citations-eq-assemble raw = elim (Bool-cases (is_empty (strip raw))) [
    | inl e ↦ rw (e, sentences_blank raw (empty (strip raw) e)) (unfold collect_claims in refl)
    | inr e ↦ rw e
  ]

  -- What every verified answer looks like: its text is the kept sentences joined by spaces, they
  -- are the sentences that cite a source in context, in order; the evidence is declared
  -- insufficient exactly when nothing was kept; the confidence counts kept and all sentences.
  pub verify_citations-Shape :
      (raw : Str)
      → Shape
          (sentences raw)
          (keep_if cites_source (sentences raw))
          (verify_citations unicode_word raw valid)
  verify_citations-Shape raw = rw (verify_citations-eq-assemble raw) (
      assemble-Shape (sentences raw) _ _ (kept-collect 0 (sentences raw))
        (length-collect-le 0 (sentences raw)))
