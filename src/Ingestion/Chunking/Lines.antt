-- ===== src/Ingestion/Chunking/Lines.antt =====
-- How `\n+` of src/cranus/ingestion/chunking.py cuts a text: lines with gaps of newlines between.
use cranus.Base.{
  ℕ, ◌≡◌, refl, ap, inl, inr, true, false, List, [], ◌∷◌, ◌++◌, Bool-cases, ◌==◌, All, Str,
}
use cranus.Ingestion.Chunking.{split_lines, push_char}

abbrev pub Plain : Str → Type 0
Plain = All (λ c. (c == b'\n') ≡ false)

abbrev pub Newlines : Str → Type 0
Newlines = All (λ c. (c == b'\n') ≡ true)

pub data Layout : Str → List Str → Type 0 where
  final :
      {s : Str} {ls : List Str} (line : Str) → Plain line → s ≡ line → ls ≡ line ∷ [] → Layout s ls
  more :
      {s : Str} {ls : List Str} (line gap rest : Str) (lines : List Str)
      → Plain line
      → Newlines gap
      → s ≡ line ++ (gap ++ rest)
      → ls ≡ line ∷ lines
      → Layout rest lines
      → Layout s ls

Layout-push :
    {s : Str} {ls : List Str} (c : ℕ)
    → (c == b'\n') ≡ false
    → Layout s ls
    → Layout (c ∷ s) (push_char c ls)
Layout-push c e (final line p q r) =
    final (c ∷ line) (e, p) (ap (λ t. c ∷ t) q) (ap (push_char c) r)
Layout-push c e (more line gap rest lines p g q r l) =
    more (c ∷ line) gap rest lines (e, p) g (ap (λ t. c ∷ t) q) (ap (push_char c) r) l

-- Inside a run the rest of the run comes first.
abbrev Behind : Str → List Str → Type 0
Behind s ls = (gap rest : Str) × Newlines gap × (s ≡ gap ++ rest) × Layout rest ls

mutual
  unfolding split_lines

  layout : (s : Str) → Layout s (split_lines false s)
  layout [] = final [] tt refl refl
  layout (c ∷ s) = elim (Bool-cases (c == b'\n')) [
    | inl e ↦
        let (gap, rest, g, q, l) = layout_run s in
        rw e (more [] (c ∷ gap) rest _ tt (e, g) (ap (λ t. c ∷ t) q) refl l)
    | inr e ↦ rw e (Layout-push c e (layout s))
  ]

  layout_run : (s : Str) → Behind s (split_lines true s)
  layout_run [] = ([], [], tt, refl, final [] tt refl refl)
  layout_run (c ∷ s) = elim (Bool-cases (c == b'\n')) [
    | inl e ↦
        let (gap, rest, g, q, l) = layout_run s in
        rw e (c ∷ gap, rest, (e, g), ap (λ t. c ∷ t) q, l)
    | inr e ↦ rw e ([], c ∷ s, tt, refl, Layout-push c e (layout s))
  ]

pub split_lines-Layout : (s : Str) → Layout s (split_lines false s)
split_lines-Layout s = layout s
