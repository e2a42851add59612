-- ===== src/Graph/Relations/Grounded.antt =====
-- What `extract_relations` of src/cranus/graph/relation_extraction.py returns.
use cranus.Base.{
  arith, if_cases, ◌≡◌, refl, true, false, not, ◌||◌, inl, inr, List, [], ◌∷◌, ◌++◌, Str,
  str_eq_refl, is_empty, Has, Has-append_left, Has-append_right, All, All-append, All-map,
  Bool-cases, if◌then◌else◌,
}
use cranus.Graph.Resolve.{Mention}
use cranus.Graph.Relations.Vocabulary.{triggers_of}
use cranus.Graph.Relations.Mentions.{Parse, Sentence}
use cranus.Graph.Relations.Sound.{IsSound, scan_tokens-IsSound, with_fallbacks-IsSound}
use cranus.Graph.Relations.{
  RelationCandidate, in_sentence, has_trigger, sentence_relations, all_relations, same_key, is_seen,
  dedupe_relations, extract_relations,
}

module _ {Token : Type 0} (parse : Parse Token) (lower : Str → Str) (mentions : List Mention) where
  -- The relation rests on a sentence: its ends are mentions there.
  abbrev pub IsGrounded : List (Sentence Token) → RelationCandidate → Type 0
  IsGrounded sents c =
      (sent : Sentence Token) × Has sent sents
      × IsSound (in_sentence parse lower mentions sent) sent.text (triggers_of (lower sent.text)) c

  sentence_relations-IsSound :
      (sent : Sentence Token)
      → All
          (IsSound
            (in_sentence parse lower mentions sent)
            sent.text
            (triggers_of (lower sent.text)))
          (sentence_relations parse lower mentions sent)
  unfolding sentence_relations
  sentence_relations-IsSound sent =
      let ms = in_sentence parse lower mentions sent in
      let has = triggers_of (lower sent.text) in
      if_cases (All (IsSound ms sent.text has))
        (is_empty ms || not (has_trigger parse lower mentions has)) [] _ (λ e. tt)
        (λ e.
          with_fallbacks-IsSound ms sent.text has parse _
            (scan_tokens-IsSound ms sent.text has parse sent.tokens _ tt))

  all_relations-IsGrounded :
      (all sents : List (Sentence Token))
      → ((sent : Sentence Token) → Has sent sents → Has sent all)
      → All (IsGrounded all) (all_relations parse lower mentions sents)
  unfolding all_relations
  all_relations-IsGrounded all [] h = tt
  all_relations-IsGrounded all (sent ∷ sents) h =
      All-append (IsGrounded all) _ _
        (All-map (λ c s. (sent, h sent (inl refl), s)) _ (sentence_relations-IsSound sent))
        (all_relations-IsGrounded all sents (λ s k. h s (inr k)))

-- No two have the same key.
abbrev pub KeysDistinct : List RelationCandidate → Type 0
KeysDistinct [] = Unit {0}
KeysDistinct (c ∷ cs) = All (λ (d : RelationCandidate). same_key d c ≡ false) cs × KeysDistinct cs

-- One of the list has the key of the candidate.
abbrev pub Covered : List RelationCandidate → RelationCandidate → Type 0
Covered cs c = (d : RelationCandidate) × Has d cs × (same_key c d ≡ true)

KeysDistinct-snoc :
    (c : RelationCandidate) (ds : List RelationCandidate)
    → is_seen c ds ≡ false
    → KeysDistinct ds
    → KeysDistinct (ds ++ c ∷ [])
KeysDistinct-snoc c [] e h = (tt, tt)
KeysDistinct-snoc c (d ∷ ds) e h = (
  All-append (λ (x : RelationCandidate). same_key x d ≡ false) ds (c ∷ []) h.0 (ground arith, tt),
  KeysDistinct-snoc c ds (ground arith) h.1,
)

seen-Covered :
    (c : RelationCandidate) (ds : List RelationCandidate) → is_seen c ds ≡ true → Covered ds c
seen-Covered c [] e = absurd (cc)
seen-Covered c (d ∷ ds) e = elim (Bool-cases (same_key c d)) [
  | inl q ↦ (d, inl refl, q)
  | inr q ↦ let (x, h, k) = seen-Covered c ds (ground arith) in (x, inr h, k)
]

same_key_refl : (c : RelationCandidate) → same_key c c ≡ true
same_key_refl c = rw (str_eq_refl c.type_name) (ground arith)

dedupe-All {κ} :
    (P : RelationCandidate → Type κ) (cs ds : List RelationCandidate)
    → All P cs
    → All P ds
    → All P (dedupe_relations cs ds)
unfolding dedupe_relations
dedupe-All P [] ds h k = k
dedupe-All P (c ∷ cs) ds h k =
    dedupe-All P cs _ h.1
      (if_cases (All P) (is_seen c ds) ds _ (λ e. k) (λ e. All-append P ds (c ∷ []) k (h.0, tt)))

pub dedupe-KeysDistinct :
    (cs ds : List RelationCandidate) → KeysDistinct ds → KeysDistinct (dedupe_relations cs ds)
unfolding dedupe_relations
dedupe-KeysDistinct [] ds k = k
dedupe-KeysDistinct (c ∷ cs) ds k =
    dedupe-KeysDistinct cs _
      (if_cases KeysDistinct (is_seen c ds) ds _ (λ e. k) (λ e. KeysDistinct-snoc c ds e k))

dedupe-keeps :
    (cs ds : List RelationCandidate) (d : RelationCandidate)
    → Has d ds
    → Has d (dedupe_relations cs ds)
unfolding dedupe_relations
dedupe-keeps [] ds d h = h
dedupe-keeps (c ∷ cs) ds d h =
    dedupe-keeps cs _ d
      (if_cases (Has d) (is_seen c ds) ds _ (λ e. h) (λ e. Has-append_left d ds (c ∷ []) h))

Covered-next :
    (c : RelationCandidate) (ds : List RelationCandidate)
    → Covered (if is_seen c ds then ds else ds ++ c ∷ []) c
Covered-next c ds =
    if_cases (λ xs. Covered xs c) (is_seen c ds) ds _ (seen-Covered c ds)
      (λ e. (c, Has-append_right c ds (c ∷ []) (inl refl), same_key_refl c))

pub dedupe-Covered : (cs ds : List RelationCandidate) → All (Covered (dedupe_relations cs ds)) cs
unfolding dedupe_relations
dedupe-Covered [] ds = tt
dedupe-Covered (c ∷ cs) ds =
    let next = if is_seen c ds then ds else ds ++ c ∷ [] in
    let (d, h, k) = Covered-next c ds in ((d, dedupe-keeps cs next d h, k), dedupe-Covered cs next)

-- Each relation extracted rests on a sentence: both ends are mentions that lie in it, its evidence is the
-- sentence's text, the types of the ends are those of the relation, and the text has a trigger of it.
pub extract_relations-IsGrounded :
    {Token : Type 0} (parse : Parse Token) (lower : Str → Str) (mentions : List Mention)
    (sents : List (Sentence Token))
    → All (IsGrounded parse lower mentions sents) (extract_relations parse lower sents mentions)
unfolding extract_relations
extract_relations-IsGrounded parse lower mentions sents =
    dedupe-All (IsGrounded parse lower mentions sents) _ []
      (all_relations-IsGrounded parse lower mentions sents sents (λ s h. h)) tt
