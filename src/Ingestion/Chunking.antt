-- ===== src/Ingestion/Chunking.antt =====
-- src/cranus/ingestion/chunking.py: a text is cut into units, oversized units are cut by tokens,
-- and the units are packed into overlapping windows. The tokenizer is not under src: its `encode`,
-- which raises on the text of a special token, and `decode` are arguments. `none` is an exception.
pub mod Lines
pub mod Units
pub mod Visible
pub mod Windows
pub mod Whole
mod Tests
use mathlib.Core.Option
use cranus.Base.{
  ℕ, zero, suc, ◌+◌, ◌-◌, ◌≡◌, Bool, true, false, ◌&&◌, Option, none, some, List, [], ◌∷◌, ◌++◌,
  map, reverse, min, ltb, leb, ◌==◌, if◌then◌else◌, length, take, drop, is_empty, Str, codes,
  starts_with, strip, join,
}

pub record ChunkSpan : Type 0 where
  pub text : Str
  pub ordinal : ℕ
  pub char_start : ℕ
  pub char_end : ℕ

-- `(text, start, end)`
pub record TextUnit : Type 0 where
  pub text : Str
  pub start : ℕ
  pub end : ℕ

infixl 5 ◌>>=◌
abbrev pub ◌>>=◌ : {A B : Type 0} → Option A → (A → Option B) → Option B
none >>= f = none
some a >>= f = f a

-- `s.index(p)`
unfoldable pub index : Str → Str → Option ℕ
index p [] = if is_empty p then some 0 else none
index p (c ∷ s) = if starts_with p (c ∷ s) then some 0 else Option.map suc (index p s)

-- `s.index(p, pos)`
unfoldable pub index_from : Str → Str → ℕ → Option ℕ
unfolding index
index_from p s pos = Option.map (λ k. pos + k) (index p (drop pos s))

abbrev pub push_char : ℕ → List Str → List Str
push_char c [] = (c ∷ []) ∷ []
push_char c (l ∷ ls) = (c ∷ l) ∷ ls

-- Inside a run of newlines another one cuts nothing.
abbrev pub place_char : Bool → ℕ → List Str → List Str
place_char in_run c rest =
    if c == b'\n' then if in_run then rest else [] ∷ rest else push_char c rest

-- `_LINE_RE.split(s)`, for the pattern `\n+`
unfoldable pub split_lines : Bool → Str → List Str
split_lines in_run [] = [] ∷ []
split_lines in_run (c ∷ s) = place_char in_run c (split_lines (c == b'\n') s)

-- One round of the loop of `_split_units`, for the line at `start`.
abbrev pub add_unit : Str → ℕ → List TextUnit → Str → Option (List TextUnit)
add_unit line start rest [] = some rest
add_unit line start rest (c ∷ s) = index (c ∷ s) line >>= λ k.
    some (record { text = c ∷ s; start = start + k; end = start + k + length (c ∷ s) } ∷ rest)

unfoldable pub units_of_lines : Str → ℕ → List Str → Option (List TextUnit)
unfolding index_from index
units_of_lines text pos [] = some []
units_of_lines text pos (line ∷ lines) =
    (if is_empty line then some pos else index_from line text pos) >>= λ start.
    units_of_lines text (start + length line) lines >>= λ rest.
    add_unit line start rest (strip line)

unfoldable pub split_units : Str → Option (List TextUnit)
unfolding units_of_lines split_lines
split_units text = units_of_lines text 0 (split_lines false text)

-- The settings that the chunker reads. `over_overlap tokens n` is the comparison of `n` with
-- `tokens * chunk_overlap_ratio`, in floats.
pub record ChunkSettings : Type 0 where
  pub chunk_max_tokens : ℕ
  pub chunk_target_tokens : ℕ
  pub over_overlap : ℕ → ℕ → Bool

module _ {Token : Type 0} (encode : Str → Option (List Token)) where
  unfoldable pub token_count : Str → Option ℕ
  token_count s = Option.map length (encode s)

  -- The count of a text that is encoded.
  abbrev pub count_or_zero : Option ℕ → ℕ
  count_or_zero none = 0
  count_or_zero (some n) = n

  abbrev pub counted : Str → ℕ
  counted s = count_or_zero (token_count s)

  -- The counts of units, or an exception if one of them is not encoded.
  unfoldable pub counts : List TextUnit → Option (List ℕ)
  counts [] = some []
  counts (u ∷ us) = token_count u.text >>= λ n. counts us >>= λ ns. some (n ∷ ns)

module _ {Token : Type 0} (encode : Str → Option (List Token)) (decode : List Token → Str) where
  -- The loop of `_hard_split` over `i = k * max_tokens`, with `prev` for `prev_char_len`; the rounds
  -- left are those of `range(0, len(tokens), max_tokens)`.
  unfoldable pub hard_split_loop : ℕ → List Token → ℕ → ℕ → ℕ → ℕ → List TextUnit
  hard_split_loop zero tokens max i prev offset = []
  hard_split_loop (suc rounds) tokens max i prev offset =
      let end_token = min (i + max) (length tokens) in
      let decoded = decode (take end_token tokens) in
      let rest = hard_split_loop rounds tokens max (i + max) (length decoded) offset in
      if ltb i (length tokens)
      then record { text = drop prev decoded; start = offset + prev; end = offset + length decoded }
        ∷ rest
      else []

  -- `range` refuses a step of zero. The number of tokens bounds the rounds.
  unfoldable pub hard_split : Str → ℕ → ℕ → Option (List TextUnit)
  unfolding hard_split_loop
  hard_split unit_text offset max = encode unit_text >>= λ tokens.
      if max == 0 then none else some (hard_split_loop (length tokens) tokens max 0 0 offset)

module _ (tokens_of : Str → ℕ) (settings : ChunkSettings) where
  open settings use {chunk_max_tokens, chunk_target_tokens, over_overlap}

  -- The inner loop: the window that begins at the head of the list, and its token count.
  unfoldable pub fill_window : ℕ → List TextUnit → List TextUnit × ℕ
  fill_window tokens [] = ([], tokens)
  fill_window tokens (u ∷ us) =
      let total = tokens + tokens_of u.text in
      let (window, sum) = fill_window total us in
      if ltb 0 tokens && ltb chunk_max_tokens total
      then ([], tokens)
      else if leb chunk_target_tokens total
      then (u ∷ [], total)
      else (u ∷ window, sum)

  -- The `for u in reversed(window)` loop.
  unfoldable pub back_up : ℕ → ℕ → ℕ → ℕ → List TextUnit → ℕ
  back_up tokens max_back back overlap [] = back
  back_up tokens max_back back overlap (u ∷ us) =
      let overlap' = overlap + tokens_of u.text in
      let rest = back_up tokens max_back (back + 1) overlap' us in
      if leb max_back back
      then back
      else if over_overlap tokens overlap' && ltb 0 back
      then back
      else rest

  abbrev pub last_end : ℕ → List TextUnit → ℕ
  last_end e [] = e
  last_end e (u ∷ us) = last_end u.end us

  -- `window[0]` and `window[-1]` raise on an empty window.
  unfoldable pub render : ℕ → List TextUnit → Option ChunkSpan
  render ordinal [] = none
  render ordinal (u ∷ us) = some (record {
    text = join (codes "\n") (map (λ (v : TextUnit). v.text) (u ∷ us));
    ordinal = ordinal;
    char_start = u.start;
    char_end = last_end u.end us;
  })

  -- The outer loop from unit `i` on, on fuel: `none` is also "out of fuel".
  unfoldable pub pack : ℕ → List TextUnit → ℕ → ℕ → Option (List ChunkSpan)
  unfolding fill_window back_up render
  pack zero units ordinal i = none
  pack (suc fuel) units ordinal i =
      let (window, tokens) = fill_window 0 (drop i units) in
      let j = i + length window in
      let back = back_up tokens (length window - 1) 0 0 (reverse window) in
      let rest = pack fuel units (ordinal + 1) (j - back) in
      if ltb i (length units)
      then render ordinal window
        >>= (λ c. if leb (length units) j then some (c ∷ []) else (rest >>= λ cs. some (c ∷ cs)))
      else some []

module _ {Token : Type 0} (encode : Str → Option (List Token)) (decode : List Token → Str)
    (settings : ChunkSettings) where
  -- The loop that hard-splits each unit above the maximum.
  unfoldable pub fit_units : List TextUnit → Option (List TextUnit)
  unfolding token_count hard_split
  fit_units [] = some []
  fit_units (u ∷ us) = token_count encode u.text >>= λ n.
      (if ltb settings.chunk_max_tokens n
        then hard_split encode decode u.text u.start settings.chunk_max_tokens
        else some (u ∷ []))
      >>= λ pieces. fit_units us >>= λ rest. some (pieces ++ rest)

  -- The packing counts every unit, and raises, with nothing returned, if one of them is not encoded.
  unfoldable pub chunk_text : Str → Option (List ChunkSpan)
  unfolding split_units fit_units pack counts token_count
  chunk_text text = split_units text >>= λ raw.
      if is_empty raw
      then some []
      else (fit_units raw >>= λ units.
          counts encode units >>= λ ns. pack (counted encode) settings (length units + 1) units 0 0)
