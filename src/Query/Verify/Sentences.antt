-- ===== src/Query/Verify/Sentences.antt =====
-- The sentences that src/cranus/query/verify.py splits an answer into.
use cranus.Base.{
  ℕ, ◌≡◌, refl, sym, ap, ◌∙◌, inl, inr, not, List, [], ◌∷◌, ◌++◌, map, arith, Bool-cases, keep_if,
  is_empty, All, Str, is_space, strip, visible, flat, visible-strip, visible-strips, Starts,
  strips-Starts,
}
use cranus.Query.Verify.{
  Mode, within, after_stop, between, push, place, next_mode, split_sentences, sentences,
}

visible-push : (c : ℕ) (ss : List Str) → flat (push c ss) ≡ c ∷ flat ss
visible-push c [] = refl
visible-push c (s ∷ ss) = refl

visible-place :
    (m : Mode) (c : ℕ) (ss : List Str) → visible (flat (place m c ss)) ≡ visible (c ∷ flat ss)
unfolding place
visible-place within c ss = ap visible (visible-push c ss)
visible-place after_stop c ss = elim (Bool-cases (is_space c)) [
  | inl e ↦ rw e
  | inr e ↦ rw (e, visible-push, e)
]
visible-place between c ss = elim (Bool-cases (is_space c)) [
  | inl e ↦ rw e
  | inr e ↦ rw (e, visible-push, e)
]

visible-split : (m : Mode) (s : Str) → visible (flat (split_sentences m s)) ≡ visible s
unfolding split_sentences
visible-split m [] = refl
visible-split m (c ∷ s) =
    visible-place m c (split_sentences (next_mode m c) s)
    ∙ ground (arith, visible-split (next_mode m c) s)

flat-keep_if : (ss : List Str) → flat (keep_if (λ s. not (is_empty s)) ss) ≡ flat ss
flat-keep_if [] = refl
flat-keep_if ([] ∷ ss) = flat-keep_if ss
flat-keep_if ((c ∷ s) ∷ ss) = ap (λ t. (c ∷ s) ++ t) (flat-keep_if ss)

-- The sentences hold the visible characters of the answer, all of them and in their order.
pub visible-sentences : (raw : Str) → visible (flat (sentences raw)) ≡ visible raw
unfolding sentences
visible-sentences raw =
    ap visible (flat-keep_if (map strip (split_sentences within raw)))
    ∙ visible-strips (split_sentences within raw)
    ∙ visible-split within raw

no_sentence :
    (ss : List Str)
    → All Starts ss
    → visible (flat ss) ≡ []
    → keep_if (λ s. not (is_empty s)) ss ≡ []
no_sentence [] h e = refl
no_sentence ([] ∷ ss) h e = no_sentence ss h.1 e
no_sentence ((c ∷ s) ∷ ss) h e = absurd (ground (arith, h.0))

-- A blank answer has no sentence.
pub sentences_blank : (raw : Str) → strip raw ≡ [] → sentences raw ≡ []
unfolding sentences
sentences_blank raw e =
    no_sentence (map strip (split_sentences within raw))
      (strips-Starts (split_sentences within raw))
      (visible-strips (split_sentences within raw)
        ∙ visible-split within raw
        ∙ sym (visible-strip raw)
        ∙ ap visible e)
