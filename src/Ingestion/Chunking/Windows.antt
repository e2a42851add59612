-- ===== src/Ingestion/Chunking/Windows.antt =====
-- The packing loop of src/cranus/ingestion/chunking.py ends, and its chunks are windows that
-- leave no unit out.
use cranus.Base.{
  ℕ, zero, suc, ◌+◌, ◌-◌, ◌≤◌, ◌<◌, ◌≡◌, refl, sym, ap, subst, ◌∙◌, ◌⊎◌, inl, inr, true, ◌&&◌,
  Option, some, List, [], ◌∷◌, map, reverse, arith, ltb, leb, length, length-take, length-drop,
  take, drop, All, Str, codes, join, Bool-cases, leb→le, leb→gt, All-drop, split_nonempty,
  split_reverse,
}
use native.Mathlib.Decide.{dec_lt}
use cranus.Ingestion.Chunking.{
  ChunkSpan, TextUnit, ChunkSettings, fill_window, back_up, last_end, render, pack,
}

module _ (tokens_of : Str → ℕ) (settings : ChunkSettings) where
  open settings use {chunk_max_tokens, chunk_target_tokens}

  abbrev pub tokens_in : List TextUnit → ℕ
  tokens_in [] = 0
  tokens_in (u ∷ us) = tokens_of u.text + tokens_in us

  -- Why a window ends in front of the units that follow it.
  abbrev pub Stops : ℕ → List TextUnit → Type 0
  Stops sum [] = Unit
  Stops sum (u ∷ us) = (chunk_target_tokens ≤ sum) ⊎ (chunk_max_tokens < sum + tokens_of u.text)

  abbrev pub Fits : TextUnit → Type 0
  Fits u = tokens_of u.text ≤ chunk_max_tokens

  fill-take :
      (tokens : ℕ) (us : List TextUnit)
      → let w = (fill_window tokens_of settings tokens us).0 in w ≡ take (length w) us
  unfolding fill_window
  fill-take tokens [] = refl
  fill-take tokens (u ∷ us) = ground (arith, fill-take (tokens + tokens_of u.text) us)

  fill-tokens :
      (tokens : ℕ) (us : List TextUnit)
      → let (w, sum) = fill_window tokens_of settings tokens us in sum ≡ tokens + tokens_in w
  unfolding fill_window
  fill-tokens tokens [] = omega arith
  fill-tokens tokens (u ∷ us) = ground (arith, fill-tokens (tokens + tokens_of u.text) us)

  fill-le :
      (tokens : ℕ) (us : List TextUnit)
      → tokens ≤ chunk_max_tokens
      → All Fits us
      → (fill_window tokens_of settings tokens us).1 ≤ chunk_max_tokens
  unfolding fill_window
  fill-le tokens [] h fits = h
  fill-le tokens (u ∷ us) h fits = ground (arith, fill-le (tokens + tokens_of u.text) us)

  Stops-of_target : (sum : ℕ) (us : List TextUnit) → chunk_target_tokens ≤ sum → Stops sum us
  Stops-of_target sum [] h = tt
  Stops-of_target sum (u ∷ us) h = inl h

  fill-Stops :
      (tokens : ℕ) (us : List TextUnit)
      → let (w, sum) = fill_window tokens_of settings tokens us in Stops sum (drop (length w) us)
  unfolding fill_window
  fill-Stops tokens [] = tt
  fill-Stops tokens (u ∷ us) =
      let total = tokens + tokens_of u.text in
      elim (Bool-cases (ltb 0 tokens && ltb chunk_max_tokens total)) [
        | inl full ↦ rw full (inr (ground arith))
        | inr room ↦ elim (Bool-cases (leb chunk_target_tokens total)) [
          | inl enough ↦ rw (room, enough) (Stops-of_target total us (leb→le _ _ enough))
          | inr more ↦ rw (room, more) (fill-Stops total us)
        ]
      ]

  fill_nonempty :
      (u : TextUnit) (us : List TextUnit) → 0 < length (fill_window tokens_of settings 0 (u ∷ us)).0
  unfolding fill_window
  fill_nonempty u us = ground arith

  -- One unit is repeated at least, where the cap allows any, and the cap is kept.
  back_up_bounds :
      (tokens cap back overlap : ℕ) (us : List TextUnit)
      → back ≤ cap
      → (back ≤ back_up tokens_of settings tokens cap back overlap us)
        × (back_up tokens_of settings tokens cap back overlap us ≤ cap)
  unfolding back_up
  back_up_bounds tokens cap back overlap [] h = omega arith
  back_up_bounds tokens cap back overlap (u ∷ us) h =
      ground (arith, back_up_bounds tokens cap (back + 1) (overlap + tokens_of u.text) us)

  back_up_pos :
      (tokens cap : ℕ) (u : TextUnit) (us : List TextUnit)
      → 0 < cap
      → 0 < back_up tokens_of settings tokens cap 0 0 (u ∷ us)
  unfolding back_up
  back_up_pos tokens cap u us h =
      ground (arith, back_up_bounds tokens cap (0 + 1) (0 + tokens_of u.text) us)

  -- The chunk is made of the window: its text is the units' texts on lines of their own, and it
  -- runs from the start of the first to the end of the last.
  pub record Renders (ordinal : ℕ) (window : List TextUnit) (c : ChunkSpan) : Type 0 where
    pub first : TextUnit
    pub others : List TextUnit
    pub split : window ≡ first ∷ others
    pub text : c.text ≡ join (codes "\n") (map (λ (u : TextUnit). u.text) window)
    pub numbered : c.ordinal ≡ ordinal
    pub from_first : c.char_start ≡ first.start
    pub to_last : c.char_end ≡ last_end tokens_of settings first.end others

  render-Renders :
      (ordinal : ℕ) (w : List TextUnit)
      → 0 < length w
      → (c : ChunkSpan) × (render tokens_of settings ordinal w ≡ some c) × Renders ordinal w c
  unfolding render
  render-Renders ordinal [] h = elim h [ ]
  render-Renders ordinal (u ∷ us) h = (
    _,
    refl,
    record {
      first = u;
      others = us;
      split = refl;
      text = refl;
      numbered = refl;
      from_first = refl;
      to_last = refl;
    },
  )

  module _ (units : List TextUnit) where
    -- The window of `len` units from unit `i` on: not empty, within the maximum, and ended by the
    -- target, by the maximum or by the end of the units.
    pub record IsWindow (i len ordinal : ℕ) (c : ChunkSpan) : Type 0 where
      pub some_unit : 0 < len
      pub inside : i + len ≤ length units
      pub within_max : tokens_in (take len (drop i units)) ≤ chunk_max_tokens
      pub stops : Stops (tokens_in (take len (drop i units))) (drop len (drop i units))
      pub rendered : Renders ordinal (take len (drop i units)) c

    -- The chunks from unit `i` on: each next window begins after its predecessor does and no later
    -- than where it ends, strictly before that if it has two units or more; the last one ends the
    -- units.
    pub data IsChunking : ℕ → ℕ → List ChunkSpan → Type 0 where
      last :
          {i ordinal : ℕ} {c : ChunkSpan} (len : ℕ)
          → IsWindow i len ordinal c
          → i + len ≡ length units
          → IsChunking i ordinal (c ∷ [])
      more :
          {i ordinal : ℕ} {c : ChunkSpan} {cs : List ChunkSpan} (len i' : ℕ)
          → IsWindow i len ordinal c
          → i < i'
          → i' ≤ i + len
          → (len ≡ 1) ⊎ (i' < i + len)
          → IsChunking i' (ordinal + 1) cs
          → IsChunking i ordinal (c ∷ cs)

    fill-IsWindow :
        (fits : All Fits units) (i ordinal : ℕ)
        → i < length units
        → let w = (fill_window tokens_of settings 0 (drop i units)).0 in
          (c : ChunkSpan) × (render tokens_of settings ordinal w ≡ some c)
          × IsWindow i (length w) ordinal c
    fill-IsWindow fits i ordinal k =
        let us = drop i units in
        let (w, sum) = fill_window tokens_of settings 0 us in
        let (u, rest, e) = split_nonempty us (omega (arith, length-drop i units)) in
        let pos : 0 < length w =
          subst (λ l. 0 < length (fill_window tokens_of settings 0 l).0) (sym e)
            (fill_nonempty u rest) in
        let cut : w ≡ take (length w) us = fill-take 0 us in
        let summed : sum ≡ tokens_in (take (length w) us) =
          fill-tokens 0 us ∙ omega (arith, ap tokens_in cut) in
        let (c, r, shape) = render-Renders ordinal w pos in
        (
          c,
          r,
          record {
            some_unit = pos;
            inside = omega (arith, ap length cut, length-take (length w) us, length-drop i units);
            within_max =
                omega (arith, summed, fill-le 0 us (omega arith) (All-drop Fits i units fits));
            stops = subst (λ n. Stops n (drop (length w) us)) summed (fill-Stops 0 us);
            rendered = subst (λ l. Renders ordinal l c) cut shape;
          },
        )

    -- Where the next window begins.
    next_start :
        (i : ℕ) (w : List TextUnit) (tokens : ℕ)
        → 0 < length w
        → let i' =
            i + length w - back_up tokens_of settings tokens (length w - 1) 0 0 (reverse w) in
          (i < i') × (i' ≤ i + length w) × ((length w ≡ 1) ⊎ (i' < i + length w))
    next_start i w tokens h =
        let (u, us, e) = split_reverse w h in
        let back = back_up tokens_of settings tokens (length w - 1) 0 0 (reverse w) in
        let cap : (0 ≤ back) × (back ≤ length w - 1) =
          back_up_bounds tokens (length w - 1) 0 0 (reverse w) (omega arith) in
        let pos : (0 < length w - 1) → 0 < back = λ p.
          subst (λ l. 0 < back_up tokens_of settings tokens (length w - 1) 0 0 l) (sym e)
            (back_up_pos tokens (length w - 1) u us p) in
        (
          omega arith,
          omega arith,
          elim (dec_lt 0 (length w - 1)) [
            | yes p ↦ inr (omega (arith, pos p))
            | no n ↦ inl (omega arith)
          ],
        )

    abbrev pub Packs : Option (List ChunkSpan) → ℕ → ℕ → Type 0
    Packs result i ordinal = (cs : List ChunkSpan) × (result ≡ some cs) × IsChunking i ordinal cs

    -- When each unit fits, packing has a result on more fuel than there are units left: numbered
    -- windows of the units, from the place `i` on, that leave none out.
    pub pack-Packs :
        (fits : All Fits units) (fuel ordinal i : ℕ)
        → length units - i < fuel
        → i < length units
        → Packs (pack tokens_of settings fuel units ordinal i) i ordinal
    unfolding pack
    pack-Packs fits zero ordinal i h k = elim h [ ]
    pack-Packs fits (suc fuel) ordinal i h k =
        let (w, tokens) = fill_window tokens_of settings 0 (drop i units) in
        let j = i + length w in
        let i' = j - back_up tokens_of settings tokens (length w - 1) 0 0 (reverse w) in
        let (c, r, win) = fill-IsWindow fits i ordinal k in
        let (later, near, overlap) = next_start i w tokens win.some_unit in
        let started : ltb i (length units) ≡ true = ground arith in
        elim (Bool-cases (leb (length units) j)) [
          | inl done ↦ (
            c ∷ [],
            rw (started, r, done),
            last (length w) win (omega (arith, leb→le _ _ done, win.inside)),
          )
          | inr more_units ↦
              let left : j < length units = leb→gt _ _ more_units in
              let (cs, e, rest) =
                pack-Packs fits fuel (ordinal + 1) i' (omega arith) (omega arith) in
              (
                c ∷ cs,
                rw (started, r, more_units, e),
                more (length w) i' win later near overlap rest,
              )
        ]
