-- ===== src/Ingestion/Chunking/Visible.antt =====
-- The units of src/cranus/ingestion/chunking.py hold what can be seen of the text.
use cranus.Base.{
  ℕ, ◌+◌, ◌≡◌, refl, sym, ap, subst, ◌∙◌, true, false, Option, some, none, List, [], ◌∷◌, ◌++◌,
  append-nil, arith, ◌==◌, length, Str, is_empty, is_space, strip, if◌then◌else◌, visible,
  visible-strip, keep_if-append, not, flat,
}
use cranus.Ingestion.Chunking.{
  TextUnit, ◌>>=◌, index, index_from, split_lines, add_unit, units_of_lines, split_units,
}
use cranus.Ingestion.Chunking.Lines.{Newlines, Layout, final, more, split_lines-Layout}

abbrev pub texts : List TextUnit → Str
texts [] = []
texts (u ∷ us) = u.text ++ texts us

add_unit-visible :
    (line : Str) (start : ℕ) (rest us : List TextUnit) (s : Str)
    → strip line ≡ s
    → add_unit line start rest s ≡ some us
    → visible (texts us) ≡ visible line ++ visible (texts rest)
add_unit-visible line start rest us [] t e =
    let same : rest ≡ us = cc in
    ap (λ l. visible (texts l)) (sym same)
    ∙ ap (λ v. v ++ visible (texts rest)) (sym (ap visible t) ∙ visible-strip line)
add_unit-visible line start rest us (c ∷ s) t e = go (index (c ∷ s) line) refl
  where
    unit : ℕ → TextUnit
    unit k = record { text = c ∷ s; start = start + k; end = start + k + length (c ∷ s) }

    go :
        (o : Option ℕ)
        → index (c ∷ s) line ≡ o
        → visible (texts us) ≡ visible line ++ visible (texts rest)
    go none q = let stuck : none ≡ some us = rw q at e in absurd (cc)
    go (some k) q =
        let made : some (unit k ∷ rest) ≡ some us = rw q at e in
        let same : unit k ∷ rest ≡ us = cc in
        ap (λ l. visible (texts l)) (sym same)
        ∙ keep_if-append (λ d. not (is_space d)) (c ∷ s) (texts rest)
        ∙ ap (λ v. v ++ visible (texts rest)) (sym (ap visible t) ∙ visible-strip line)

units_of_lines-visible :
    (text : Str) (pos : ℕ) (ls : List Str) (us : List TextUnit)
    → units_of_lines text pos ls ≡ some us
    → visible (texts us) ≡ visible (flat ls)
unfolding units_of_lines
units_of_lines-visible text pos [] us e =
    let same : [] ≡ us = cc in ap (λ l. visible (texts l)) (sym same)
units_of_lines-visible text pos (line ∷ ls) us e =
    from_start (if is_empty line then some pos else index_from line text pos) e
      (λ start. units_of_lines-visible text (start + length line) ls)
  where
    from_start :
        (o : Option ℕ)
        → (o >>= λ start. units_of_lines text (start + length line) ls >>= λ rest.
            add_unit line start rest (strip line))
          ≡ some us
        → ((start : ℕ) (rest : List TextUnit)
            → units_of_lines text (start + length line) ls ≡ some rest
            → visible (texts rest) ≡ visible (flat ls))
        → visible (texts us) ≡ visible (flat (line ∷ ls))
    from_start none q ih = absurd (cc)
    from_start (some start) q ih = go (units_of_lines text (start + length line) ls) refl q
      where
        go :
            (r : Option (List TextUnit))
            → units_of_lines text (start + length line) ls ≡ r
            → (r >>= λ rest. add_unit line start rest (strip line)) ≡ some us
            → visible (texts us) ≡ visible (flat (line ∷ ls))
        go none p q' = absurd (cc)
        go (some rest) p q' =
            add_unit-visible line start rest us (strip line) refl q'
            ∙ ap (λ v. visible line ++ v) (ih start rest p)
            ∙ sym (keep_if-append (λ d. not (is_space d)) line (flat ls))

newline-is_space : (c : ℕ) → (c == b'\n') ≡ true → is_space c ≡ true
newline-is_space c e =
    let same : c ≡ b'\n' = ground arith in
    subst (λ d. is_space d ≡ true) (sym same) (unfold is_space in refl)

visible-Newlines : (gap : Str) → Newlines gap → visible gap ≡ []
visible-Newlines [] h = refl
visible-Newlines (c ∷ gap) h = rw (newline-is_space c h.0) (visible-Newlines gap h.1)

Layout-visible : {s : Str} {ls : List Str} → Layout s ls → visible (flat ls) ≡ visible s
Layout-visible (final line p q r) =
    ap (λ l. visible (flat l)) r ∙ ap visible (append-nil line) ∙ ap visible (sym q)
Layout-visible (more line gap rest lines p g q r next) =
    ap (λ l. visible (flat l)) r
    ∙ keep_if-append (λ d. not (is_space d)) line (flat lines)
    ∙ ap (λ v. visible line ++ v) (Layout-visible next)
    ∙ sym (
        ap visible q
        ∙ keep_if-append (λ d. not (is_space d)) line (gap ++ rest)
        ∙ ap (λ v. visible line ++ v)
            (keep_if-append (λ d. not (is_space d)) gap rest
              ∙ ap (λ v. v ++ visible rest) (visible-Newlines gap g)))

-- The units hold the visible characters of the text, all of them and in their order.
pub split_units-visible :
    (text : Str) (us : List TextUnit)
    → split_units text ≡ some us
    → visible (texts us) ≡ visible text
unfolding split_units
split_units-visible text us e =
    units_of_lines-visible text 0 (split_lines false text) us e
    ∙ Layout-visible (split_lines-Layout text)
