-- ===== src/Query/Verify.antt =====
-- src/cranus/query/verify.py: an answer keeps only the sentences that cite a source in context.
-- The two patterns are written as scanners, one character at a time.
pub mod Citations
pub mod Sentences
pub mod Answer
pub mod Grounding
mod Tests
use cranus.Base.{
  ℕ, suc, ◌+◌, ◌≡◌, Bool, true, false, not, ◌&&◌, ◌||◌, Option, none, some, List, [], ◌∷◌, ◌++◌,
  map, leb, ◌==◌, if◌then◌else◌, length, keep_if, is_empty, Str, codes, str_in, is_space, strip,
  join, decimal,
}

pub record Claim : Type 0 where
  pub id : Str
  pub text : Str
  pub supported_by : List Str

-- `confidence` holds the two counts whose quotient the code takes.
pub record VerifiedAnswer : Type 0 where
  pub text : Str
  pub claims : List Claim
  pub confidence : ℕ × ℕ
  pub insufficient_evidence : Bool

-- Where `(?<=[.!?])\s+` stands: in a sentence, right behind a stop, or in the space behind one.
pub data Mode : Type 0 where
  within after_stop between : Mode

pub is_stop : ℕ → Bool
is_stop c = c == b'.' || c == b'!' || c == b'?'

pub space_mode : Mode → Mode
space_mode within = within
space_mode after_stop = between
space_mode between = between

unfoldable pub next_mode : Mode → ℕ → Mode
unfolding is_stop space_mode
next_mode m c = if is_space c then space_mode m else if is_stop c then after_stop else within

abbrev pub push : ℕ → List Str → List Str
push c [] = (c ∷ []) ∷ []
push c (s ∷ ss) = (c ∷ s) ∷ ss

unfoldable pub place : Mode → ℕ → List Str → List Str
place within c rest = push c rest
place after_stop c rest = if is_space c then [] ∷ rest else push c rest
place between c rest = if is_space c then rest else push c rest

-- `_SENTENCE_SPLIT_RE.split(s)`
unfoldable pub split_sentences : Mode → Str → List Str
unfolding next_mode place
split_sentences m [] = [] ∷ []
split_sentences m (c ∷ s) = place m c (split_sentences (next_mode m c) s)

unfoldable pub sentences : Str → List Str
unfolding split_sentences
sentences raw = keep_if (λ s. not (is_empty s)) (map strip (split_sentences within raw))

-- One sentence of the loop: a claim for it if it cites a source in context.
abbrev pub add_claim : List Str → ℕ → Str → List Claim → List Claim
add_claim [] n sentence rest = rest
add_claim (i ∷ ids) n sentence rest =
    record { id = codes "c" ++ decimal (n + 1); text = sentence; supported_by = i ∷ ids } ∷ rest

abbrev pub count_claim : List Str → ℕ → ℕ
count_claim [] n = n
count_claim (i ∷ ids) n = n + 1

abbrev pub kept_sentences : List Claim → List Str
kept_sentences = map (λ c. c.text)

abbrev pub no_evidence : VerifiedAnswer
no_evidence = record { text = []; claims = []; confidence = (0, 0); insufficient_evidence = true }

abbrev pub assemble : List Str → List Claim → VerifiedAnswer
assemble all [] = no_evidence
assemble all (c ∷ cs) = record {
  text = join (codes " ") (kept_sentences (c ∷ cs));
  claims = c ∷ cs;
  confidence = (length (kept_sentences (c ∷ cs)), length all);
  insufficient_evidence = false;
}

-- `unicode_word` is the part of the class `\w` beyond ASCII.
module _ (unicode_word : ℕ → Bool) where
  -- `[\w\-]`
  unfoldable pub id_char : ℕ → Bool
  id_char c =
      (leb b'0' c && leb c b'9')
      || (leb b'A' c && leb c b'Z')
      || (leb b'a' c && leb c b'z')
      || c == b'_'
      || c == b'-'
      || (leb 128 c && unicode_word c)

  -- The text of an open bracket group, if one is open.
  unfoldable pub advance : Option Str → ℕ → Option Str
  advance none c = if c == b'[' then some [] else none
  advance (some run) c =
      if c == b'[' then some [] else if id_char c then some (run ++ c ∷ []) else none

  unfoldable pub emit : Option Str → ℕ → List Str → List Str
  emit none c rest = rest
  emit (some run) c rest = if c == b']' && not (is_empty run) then run ∷ rest else rest

  -- `_CITATION_RE.findall(s)`
  unfoldable pub find_citations : Option Str → Str → List Str
  unfolding advance emit
  find_citations group [] = []
  find_citations group (c ∷ s) = emit group c (find_citations (advance group c) s)

  unfoldable pub cited_ids : List Str → Str → List Str
  cited_ids valid sentence = keep_if (λ i. str_in i valid) (find_citations none sentence)

  -- The loop, from `n` claims on. `kept_sentences` are the texts of the claims.
  unfoldable pub collect_claims : List Str → ℕ → List Str → List Claim
  collect_claims valid n [] = []
  collect_claims valid n (s ∷ ss) =
      let cited = cited_ids valid s in
      add_claim cited n s (collect_claims valid (count_claim cited n) ss)

  unfoldable pub verify_citations : Str → List Str → VerifiedAnswer
  verify_citations raw valid =
      if is_empty (strip raw)
      then no_evidence
      else assemble (sentences raw) (collect_claims valid 0 (sentences raw))
