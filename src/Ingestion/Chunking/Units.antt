-- ===== src/Ingestion/Chunking/Units.antt =====
-- The units of src/cranus/ingestion/chunking.py carry their exact places in the text.
use mathlib.Core.Option
use cranus.Base.{
  ℕ, ◌+◌, ◌≤◌, ◌≡◌, refl, sym, ap, subst, ◌∙◌, ◌≢◌, inl, inr, true, false, Option, some, List, [],
  ◌∷◌, ◌++◌, append-nil, append_assoc, arith, Bool-cases, ◌==◌, length, length-append, drop,
  drop-append, All, All-append, Str, starts_with, is_space, strip, strip-cut, strip-Starts, Starts,
}
use cranus.Ingestion.Chunking.{TextUnit, index, index_from, add_unit, units_of_lines, split_units}
use cranus.Ingestion.Chunking.Lines.{Plain, Newlines, Layout, final, more, split_lines-Layout}

starts_with-append : (p s : Str) → starts_with p (p ++ s) ≡ true
starts_with-append [] s = refl
starts_with-append (c ∷ p) s = ground (arith, starts_with-append p s)

-- The search passes over what cannot begin the pattern.
pub index-behind :
    (c : ℕ) (p gap after : Str)
    → All (λ d. (c == d) ≡ false) gap
    → index (c ∷ p) (gap ++ ((c ∷ p) ++ after)) ≡ some (length gap)
unfolding index
index-behind c p [] after h = ground (arith, starts_with-append p after)
index-behind c p (d ∷ gap) after h = rw (h.0, index-behind c p gap after h.1)

-- The unit's text is the slice of the text that its bounds name.
pub record IsSlice (text : Str) (u : TextUnit) : Type 0 where
  pub before : Str
  pub after : Str
  pub found : text ≡ before ++ (u.text ++ after)
  pub starts : u.start ≡ length before
  pub ends : u.end ≡ u.start + length u.text

abbrev pub IsUnit : Str → TextUnit → Type 0
IsUnit text u = IsSlice text u × (u.text ≢ [])

-- From place `lo` on the units follow one another and do not overlap.
abbrev pub Ordered : ℕ → List TextUnit → Type 0
Ordered lo [] = Unit
Ordered lo (u ∷ us) = (lo ≤ u.start) × Ordered u.end us

pub Ordered-weaken : (lo hi : ℕ) (us : List TextUnit) → lo ≤ hi → Ordered hi us → Ordered lo us
Ordered-weaken lo hi [] h o = tt
Ordered-weaken lo hi (u ∷ us) h o = (omega arith, o.1)

abbrev Exact : Str → ℕ → Option (List TextUnit) → Type 0
Exact text lo result =
    (us : List TextUnit) × (result ≡ some us) × All (IsUnit text) us × Ordered lo us

space_apart :
    (c : ℕ) (w : Str)
    → is_space c ≡ false
    → All (λ d. is_space d ≡ true) w
    → All (λ d. (c == d) ≡ false) w
space_apart c [] e h = tt
space_apart c (d ∷ w) e h = (apart, space_apart c w e h.1)
  where
    apart : (c == d) ≡ false
    apart = elim (Bool-cases (c == d)) [
      | inl q ↦ let same : c ≡ d = ground arith in absurd (cc (ap is_space same, h.0))
      | inr q ↦ q
    ]

newline_apart :
    (c : ℕ) (gap : Str) → (c == b'\n') ≡ false → Newlines gap → All (λ d. (c == d) ≡ false) gap
newline_apart c [] e h = tt
newline_apart c (d ∷ gap) e h = (ground arith, newline_apart c gap e h.1)

-- The unit of a line that stands at `start`.
add_unit-Exact :
    (text before line after : Str) (start : ℕ) (rest : List TextUnit) (s : Str)
    → text ≡ before ++ (line ++ after)
    → start ≡ length before
    → strip line ≡ s
    → All (IsUnit text) rest
    → Ordered (start + length line) rest
    → Exact text start (add_unit line start rest s)
add_unit-Exact text before line after start rest [] t b e slices o =
    (rest, refl, slices, Ordered-weaken start _ rest (omega arith) o)
add_unit-Exact text before line after start rest (c ∷ s) t b e slices o =
    let (w, v, cut, spaces) = strip-cut line in
    let cut' : line ≡ w ++ ((c ∷ s) ++ v) = cut ∙ ap (λ t. w ++ (t ++ v)) e in
    let visible : is_space c ≡ false = subst Starts e (strip-Starts line) in
    let place : index (c ∷ s) line ≡ some (length w) =
      ap (index (c ∷ s)) cut' ∙ index-behind c s w v (space_apart c w visible spaces) in
    let unit : TextUnit = record {
      text = c ∷ s;
      start = start + length w;
      end = start + length w + length (c ∷ s);
    } in
    (
      unit ∷ rest,
      rw place refl,
      (
        (
          record {
            before = before ++ w;
            after = v ++ after;
            found = t ∙ ap (λ l. before ++ (l ++ after)) cut' ∙ simp append_assoc;
            starts = omega (arith, length-append before w);
            ends = refl;
          },
          λ q. ground arith,
        ),
        slices,
      ),
      (
        omega arith,
        Ordered-weaken _ _ rest
            (omega (arith, ap length cut', length-append w ((c ∷ s) ++ v), length-append (c ∷ s) v))
            o,
      ),
    )

-- A line that is not empty is found behind the newlines in front of it.
line-place :
    (text before gap : Str) (d : ℕ) (l after : Str) (pos : ℕ)
    → pos ≡ length before
    → Newlines gap
    → Plain (d ∷ l)
    → text ≡ before ++ (gap ++ ((d ∷ l) ++ after))
    → index_from (d ∷ l) text pos ≡ some (pos + length gap)
unfolding index_from
line-place text before gap d l after pos b g p t =
    let left : drop pos text ≡ gap ++ ((d ∷ l) ++ after) =
      ap (λ n. drop n text) b
      ∙ ap (drop (length before)) t
      ∙ drop-append before (gap ++ ((d ∷ l) ++ after)) in
    ap (λ r. Option.map (λ k. pos + k) (index (d ∷ l) r)) left
    ∙ ap (Option.map (λ k. pos + k)) (index-behind d l gap after (newline_apart d gap p.0 g))

-- One round of the loop over the lines, from the rounds that follow.
round-Exact :
    (text before gap : Str) (d : ℕ) (l after : Str) (lines : List Str) (pos : ℕ)
    → pos ≡ length before
    → Newlines gap
    → Plain (d ∷ l)
    → text ≡ before ++ (gap ++ ((d ∷ l) ++ after))
    → Exact text
        (pos + length gap + length (d ∷ l))
        (units_of_lines text (pos + length gap + length (d ∷ l)) lines)
    → Exact text pos (units_of_lines text pos ((d ∷ l) ∷ lines))
unfolding units_of_lines
round-Exact text before gap d l after lines pos b g p t (us, e, slices, o) =
    let (all, e', slices', o') =
      add_unit-Exact text (before ++ gap) (d ∷ l) after (pos + length gap) us (strip (d ∷ l))
        (t ∙ sym (append_assoc before gap ((d ∷ l) ++ after)))
        (omega (arith, length-append before gap)) refl slices o in
    (
      all,
      rw (line-place text before gap d l after pos b g p t, e) e',
      slices',
      Ordered-weaken pos (pos + length gap) all (omega arith) o',
    )

lines-Exact :
    {s : Str} {ls : List Str}
    → Layout s ls
    → (text before gap : Str) (pos : ℕ) → pos ≡ length before
    → Newlines gap
    → text ≡ before ++ (gap ++ s)
    → Exact text pos (units_of_lines text pos ls)
unfolding units_of_lines
lines-Exact (final [] p q r) text before gap pos b g t = rw r ([], refl, tt, tt)
lines-Exact (final (d ∷ l) p q r) text before gap pos b g t = rw r (
    round-Exact text before gap d l [] [] pos b g p
      (t ∙ ap (λ u. before ++ (gap ++ u)) (q ∙ sym (append-nil (d ∷ l)))) ([], refl, tt, tt))
lines-Exact (more [] run rest lines p g' q r next) text before gap pos b g t =
    let (us, e, slices, o) =
      lines-Exact next text before (gap ++ run) (pos + 0) (omega (arith, b))
        (All-append (λ c. (c == b'\n') ≡ true) gap run g g')
        (t
          ∙ ap (λ u. before ++ (gap ++ u)) q
          ∙ ap (λ u. before ++ u) (sym (append_assoc gap run rest))) in
    rw r (us, rw e refl, slices, Ordered-weaken pos (pos + 0) us (omega arith) o)
lines-Exact (more (d ∷ l) run rest lines p g' q r next) text before gap pos b g t =
    let t' : text ≡ before ++ (gap ++ ((d ∷ l) ++ (run ++ rest))) =
      t ∙ ap (λ u. before ++ (gap ++ u)) q in
    rw r (
      round-Exact text before gap d l (run ++ rest) lines pos b g p t' (
        lines-Exact next text (before ++ (gap ++ (d ∷ l))) run (pos + length gap + length (d ∷ l))
          (omega (arith, length-append before (gap ++ (d ∷ l)), length-append gap (d ∷ l))) g'
          (t' ∙ simp append_assoc)))

-- Splitting never fails: `str.index` finds every line and every unit. Each unit is the slice of the
-- text that its bounds name, is not empty, and the units stand in order without overlapping.
pub split_units-Exact :
    (text : Str)
    → (us : List TextUnit) × (split_units text ≡ some us) × All (IsUnit text) us × Ordered 0 us
unfolding split_units
split_units-Exact text = lines-Exact (split_lines-Layout text) text [] [] 0 refl tt refl
