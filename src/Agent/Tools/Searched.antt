-- ===== src/Agent/Tools/Searched.antt =====
-- What `search_text` of src/cranus/agent/tools.py returns.
use cranus.Base.{
  ℕ, suc, zero, ◌≡◌, refl, sym, ap, subst, ◌∙◌, ◌⊎◌, ◌↔◌, ◌<◌, ◌≤◌, inl, inr, Bool, option_map,
  some, List, [], ◌∷◌, ◌++◌, map, take, length, length-take, length-map, arith, Str, str_eq,
  str_eq→eq, Bool-cases, Has, All, Distinct, IsOrder, Has-append, Has-append_left, Has-append_right,
}
use cranus.Retrieval.Fusion.{RetrievedChunk, FusedResult, less_result}
use cranus.Retrieval.Fusion.Ids.{rank_from, rank_all}
use cranus.Retrieval.Fusion.Scores.{ids_of, first_item}
use cranus.Retrieval.Fusion.Merged.{chunk_ids, IsFused, IsFusion, rrf_merge-IsFusion}
use cranus.Agent.Loop.{Item}
use cranus.Agent.Tools.{item_of, search_text}

take-Has : {A : Type 0} (n : ℕ) (x : A) (xs : List A) → Has x (take n xs) → Has x xs
take-Has zero x xs m = absurd m
take-Has (suc n) x [] m = m
take-Has (suc n) x (y ∷ xs) (inl e) = inl e
take-Has (suc n) x (y ∷ xs) (inr m) = inr (take-Has n x xs m)

take-All : {A : Type 0} (P : A → Type 0) (n : ℕ) (xs : List A) → All P xs → All P (take n xs)
take-All P zero xs h = tt
take-All P (suc n) [] h = tt
take-All P (suc n) (x ∷ xs) h = (h.0, take-All P n xs h.1)

take-Distinct : {A : Type 0} (n : ℕ) (xs : List A) → Distinct xs → Distinct (take n xs)
take-Distinct zero xs h = tt
take-Distinct (suc n) [] h = tt
take-Distinct (suc n) (x ∷ xs) h = (λ m. h.0 (take-Has n x xs m), take-Distinct n xs h.1)

map-take : {A B : Type 0} (f : A → B) (n : ℕ) (xs : List A) → map f (take n xs) ≡ take n (map f xs)
map-take f zero xs = refl
map-take f (suc n) [] = refl
map-take f (suc n) (x ∷ xs) = ap (λ l. f x ∷ l) (map-take f n xs)

-- A list that is cut short by less than the limit is whole.
take-whole : {A : Type 0} (n : ℕ) (xs : List A) → length (take n xs) < n → take n xs ≡ xs
take-whole zero xs h = absurd (omega (arith, h))
take-whole (suc n) [] h = refl
take-whole (suc n) (x ∷ xs) h = ap (λ l. x ∷ l) (take-whole n xs (omega (arith, h)))

-- The item is a chunk of the list.
abbrev pub IsChunkOf : List RetrievedChunk → Item → Type 0
IsChunkOf chunks i = (c : RetrievedChunk) × Has c chunks × (i.id ≡ c.chunk_id) × (i.text ≡ c.text)

pub record AreSearched (found : List RetrievedChunk) (k : ℕ) (items : List Item) : Type 0 where
  pub bounded : length items ≤ k
  pub distinct : Distinct (map (λ (i : Item). i.id) items)
  pub chunks : All (IsChunkOf found) items
  pub all_found :
      (c : RetrievedChunk)
      → Has c found
      → length items < k
      → Has c.chunk_id (map (λ (i : Item). i.id) items)

first_item-Has :
    (i : Str) (es : List (ℕ × RetrievedChunk)) (item : RetrievedChunk)
    → first_item i es ≡ some item
    → Has item (map (λ e. e.1) es) × (item.chunk_id ≡ i)
first_item-Has i [] item e = absurd (cc)
first_item-Has i ((rank, c) ∷ es) item e = elim (Bool-cases (str_eq c.chunk_id i)) [
  | inl q ↦
      let same : c ≡ item = ground (arith, e, q) in
      (inl (sym same), ap (λ (r : RetrievedChunk). r.chunk_id) (sym same) ∙ str_eq→eq _ _ q)
  | inr q ↦ let (there, h) = first_item-Has i es item (ground (arith, e, q)) in (inr there, h)
]

rank_from-Has :
    (rank : ℕ) (c : RetrievedChunk) (cs : List RetrievedChunk) (es : List (ℕ × RetrievedChunk))
    → Has c (map (λ e. e.1) (rank_from rank cs ++ es)) ↔ (Has c cs ⊎ Has c (map (λ e. e.1) es))
rank_from-Has rank c [] es = (λ m. inr m, λ m. elim m [ inl h ↦ absurd h | inr h ↦ h ])
rank_from-Has rank c (d ∷ cs) es =
    let rest = rank_from-Has (suc rank) c cs es in
    (
      λ m. elim m [
        | inl e ↦ inl (inl e)
        | inr h ↦ elim (rest.0 h) [ inl k ↦ inl (inr k) | inr k ↦ inr k ]
      ],
      λ m. elim m [
        | inl (inl e) ↦ inl e
        | inl (inr h) ↦ inr (rest.1 (inl h))
        | inr h ↦ inr (rest.1 (inr h))
      ],
    )

-- The chunks that are ranked are those of the two lists.
rank_all-Has :
    (c : RetrievedChunk) (lex vec : List RetrievedChunk)
    → Has c (map (λ e. e.1) (rank_all (lex ∷ vec ∷ []))) ↔ (Has c lex ⊎ Has c vec)
rank_all-Has c lex vec =
    let outer = rank_from-Has 1 c lex (rank_from 1 vec ++ []) in
    let inner = rank_from-Has 1 c vec [] in
    (
      λ m. elim (outer.0 m) [
        | inl h ↦ inl h
        | inr h ↦ elim (inner.0 h) [ inl k ↦ inr k | inr k ↦ absurd k ]
      ],
      λ m. elim m [ inl h ↦ outer.1 (inl h) | inr h ↦ outer.1 (inr (inner.1 (inl h))) ],
    )

ids_of-Has :
    (c : RetrievedChunk) (es : List (ℕ × RetrievedChunk))
    → Has c (map (λ e. e.1) es)
    → Has c.chunk_id (ids_of es)
ids_of-Has c [] m = m
ids_of-Has c (e ∷ es) (inl q) = inl (ap (λ (r : RetrievedChunk). r.chunk_id) q)
ids_of-Has c (e ∷ es) (inr m) = inr (ids_of-Has c es m)

module _ (Score : Type 0) (zero_score : Score) (add : Score → Score → Score) (one_over : ℕ → Score)
    (less : Score → Score → Bool) (rrf_k : ℕ) where
  ids-items :
      (rs : List (FusedResult Score))
      → map (λ (i : Item). i.id) (map (item_of Score) rs)
        ≡ chunk_ids Score zero_score add one_over less rrf_k rs
  ids-items [] = refl
  ids-items (r ∷ rs) = ap (λ l. r.chunk_id ∷ l) (ids-items rs)

  module _ (lex vec : List RetrievedChunk) where
    fused-IsChunkOf :
        (r : FusedResult Score)
        → IsFused Score zero_score add one_over less rrf_k (rank_all (lex ∷ vec ∷ [])) r
        → IsChunkOf (lex ++ vec) (item_of Score r)
    fused-IsChunkOf r (score, (item, found, doc, text)) =
        let (there, same) = first_item-Has r.chunk_id (rank_all (lex ∷ vec ∷ [])) item found in
        (
          item,
          elim ((rank_all-Has item lex vec).0 there) [
            | inl h ↦ Has-append_left item lex vec h
            | inr h ↦ Has-append_right item lex vec h
          ],
          sym same,
          text,
        )

    items-All :
        (rs : List (FusedResult Score))
        → All (IsFused Score zero_score add one_over less rrf_k (rank_all (lex ∷ vec ∷ []))) rs
        → All (IsChunkOf (lex ++ vec)) (map (item_of Score) rs)
    items-All [] h = tt
    items-All (r ∷ rs) h = (fused-IsChunkOf r h.0, items-All rs h.1)

    taken-AreSearched :
        (k : ℕ) (rs : List (FusedResult Score))
        → IsFusion Score zero_score add one_over less rrf_k (rank_all (lex ∷ vec ∷ [])) rs
        → AreSearched (lex ++ vec) k (map (item_of Score) (take k rs))
    taken-AreSearched k rs f =
        let shorter = length-map (item_of Score) (take k rs) in
        let ids = ids-items (take k rs) ∙ map-take (λ (r : FusedResult Score). r.chunk_id) k rs in
        record {
          bounded = omega (arith, shorter, length-take k rs);
          distinct = subst Distinct (sym ids) (take-Distinct k _ f.distinct);
          chunks = items-All (take k rs) (take-All _ k rs f.fused);
          all_found = λ c m few.
              let whole = take-whole k rs (omega (arith, shorter, few)) in
              subst (Has c.chunk_id) (sym (ids-items (take k rs))) (
                subst (λ l. Has c.chunk_id (map (λ (r : FusedResult Score). r.chunk_id) l))
                  (sym whole)
                  ((f.covers c.chunk_id).1 (
                    ids_of-Has c (rank_all (lex ∷ vec ∷ []))
                      ((rank_all-Has c lex vec).1 (Has-append c lex vec m)))));
        }

  module _ (lexical_search vector_search : Str → ℕ → List RetrievedChunk) where
    -- A search for text returns a result: at most `k` items, no two of one id, each of them a chunk that one of the
    -- two searches finds; and if it returns fewer than `k`, all chunks that they find are among them. It is assumed
    -- that the comparison of scores is an order.
    pub search_text-AreSearched :
        (query : Str) (k : ℕ)
        → IsOrder (less_result Score less)
        → (items : List Item) × (search_text Score zero_score add one_over less rrf_k lexical_search
              vector_search query k
            ≡ some items)
          × AreSearched (lexical_search query k ++ vector_search query k) k items
    unfolding search_text
    search_text-AreSearched query k order =
        let (rs, e, fusion) =
          rrf_merge-IsFusion Score zero_score add one_over less rrf_k
            (lexical_search query k ∷ vector_search query k ∷ []) order in
        (
          map (item_of Score) (take k rs),
          ap (option_map (λ fused. map (item_of Score) (take k fused))) e,
          taken-AreSearched (lexical_search query k) (vector_search query k) k rs fusion,
        )
