-- ===== src/Api/Upload/Bounded.antt =====
-- How much of a file `_read_bounded` of src/cranus/api/routers/upload.py reads.
use cranus.Base.{
  ℕ, zero, suc, ◌+◌, ◌≤◌, ◌<◌, ◌≡◌, refl, sym, ap, subst, ◌∙◌, ◌⊎◌, inl, inr, Option, some, List,
  [], ◌∷◌, ◌++◌, append-nil, append_assoc, arith, Str, length, length-take, length-drop, take, drop,
  take-append-drop, ltb, if_cases, ltb→lt, ltb→ge, length-append,
}
use cranus.Api.Http.{Response, done, failed}
use cranus.Ingestion.Items.{Indexing, Corpus, ingest_item}
use cranus.Connectors.Upload.{SourceItem, Extractors, upload_connector}
use cranus.Api.Upload.{
  UploadFile, join_all, read_loop, read_bounded, item_of, answered, ingest_read, with_source,
  upload_document,
}

join_all-snoc :
    (chunks : List Str) (chunk : Str) → join_all (chunks ++ chunk ∷ []) ≡ join_all chunks ++ chunk
join_all-snoc [] chunk = append-nil chunk
join_all-snoc (c ∷ chunks) chunk =
    ap (λ l. c ++ l) (join_all-snoc chunks chunk) ∙ sym (append_assoc c (join_all chunks) chunk)

module _ (s max_bytes : ℕ) where
  -- Behind `total` bytes: the rest is read, or the answer is 413 before much more than the limit is.
  abbrev pub IsRead : List Str → ℕ → Str → Option (Response Str × ℕ) → Type 0
  IsRead chunks total body r =
      ((total + length body ≤ max_bytes)
        × (r ≡ some (done (join_all chunks ++ body), total + length body)))
      ⊎ ((max_bytes < total + length body)
          × ((n : ℕ) × (r ≡ some (failed 413, n)) × (n ≤ max_bytes + suc s)))

  -- A chunk read is either before or behind.
  IsRead-chunk :
      (chunks : List Str) (total : ℕ) (chunk rest : Str) (r : Option (Response Str × ℕ))
      → IsRead (chunks ++ chunk ∷ []) (total + length chunk) rest r
      → IsRead chunks total (chunk ++ rest) r
  IsRead-chunk chunks total chunk rest r (inl (fits, e)) =
      let len = length-append chunk rest in
      let joined =
        ap (λ l. l ++ rest) (join_all-snoc chunks chunk)
        ∙ append_assoc (join_all chunks) chunk rest in
      let sums : total + length chunk + length rest ≡ total + length (chunk ++ rest) =
        omega (arith, len) in
      inl (
        omega (arith, fits, len),
        e
            ∙ ap (λ (c : Str). some (done c, total + length chunk + length rest)) joined
            ∙ ap (λ n. some (done (join_all chunks ++ (chunk ++ rest)), n)) sums,
      )
  IsRead-chunk chunks total chunk rest r (inr (over, (n, e, few))) =
      inr (omega (arith, over, length-append chunk rest), (n, e, few))

  read_loop-IsRead :
      (fuel : ℕ) (chunks : List Str) (total : ℕ) (body : Str)
      → length body < fuel
      → total ≤ max_bytes
      → IsRead chunks total body (read_loop (suc s) max_bytes fuel chunks total body)
  unfolding read_loop
  read_loop-IsRead zero chunks total body more fits = absurd (omega (arith, more))
  read_loop-IsRead (suc fuel) chunks total [] more fits =
      let sums : total ≡ total + 0 = omega arith in
      inl (
        omega (arith, fits),
        ap (λ (c : Str). some (done c, total)) (sym (append-nil (join_all chunks)))
            ∙ ap (λ n. some (done (join_all chunks ++ []), n)) sums,
      )
  read_loop-IsRead (suc fuel) chunks total (b ∷ bs) more fits =
      let chunk = b ∷ take s bs in
      let len = length-take s bs in
      if_cases (IsRead chunks total (b ∷ bs)) (ltb max_bytes (total + suc (length (take s bs)))) _ _
        (λ e. inr (
          omega (arith, ltb→lt _ _ e, len),
          (total + suc (length (take s bs)), refl, omega (arith, fits, len)),
        ))
        (λ e.
          let rest =
            read_loop (suc s) max_bytes fuel (chunks ++ chunk ∷ [])
              (total + suc (length (take s bs))) (drop s bs) in
          subst (λ l. IsRead chunks total l rest) (ap (λ l. b ∷ l) (take-append-drop s bs))
            (IsRead-chunk chunks total chunk (drop s bs) _ (
              read_loop-IsRead fuel (chunks ++ chunk ∷ []) (total + suc (length (take s bs)))
                (drop s bs) (omega (arith, more, length-drop s bs)) (ltb→ge _ _ e))))

module _ (extractors : Extractors) (now : ℕ) (fix_text detect_language : Str → Str)
    (index_and_graph : ℕ → Str → Str → Indexing) where
  -- The reading of an upload always ends. A file that is no longer than the limit is read whole, and the item ingested
  -- has all its bytes; for a longer one the answer is 413, at most the limit and one more read of its bytes have been
  -- read, and nothing is written but the source. A read asks for at least one byte.
  pub upload_document-IsBounded :
      (s max_bytes : ℕ) (new_id : Str) (file : UploadFile) (license : Option Str) (corpus : Corpus)
      → let r =
          upload_document extractors now fix_text detect_language index_and_graph
            (suc s)
            max_bytes
            new_id
            file
            license
            corpus in
        let registered =
          with_source extractors now fix_text detect_language index_and_graph corpus in
        ((length file.body ≤ max_bytes)
          × (r
              ≡ some (
                  answered extractors now fix_text detect_language index_and_graph (
                    ingest_item SourceItem
                      (upload_connector extractors now)
                      fix_text
                      detect_language
                      index_and_graph
                      new_id
                      (item_of extractors now fix_text detect_language index_and_graph file license
                        file.body)
                      registered))))
        ⊎ ((max_bytes < length file.body)
            × (r ≡ some (registered, failed 413))
            × ((n : ℕ) × (read_bounded (suc s) max_bytes file.body ≡ some (failed 413, n))
                × (n ≤ max_bytes + suc s)))
  unfolding upload_document read_bounded
  upload_document-IsBounded s max_bytes new_id file license corpus =
      let registered = with_source extractors now fix_text detect_language index_and_graph corpus in
      let go_on =
        ingest_read extractors now fix_text detect_language index_and_graph new_id file license
          registered in
      elim (read_loop-IsRead s max_bytes (suc (length file.body)) [] 0 file.body (omega arith)
        (omega arith)) [
          | inl (fits, e) ↦ inl (omega (arith, fits), ap go_on e)
          | inr (over, (n, e, few)) ↦ inr (omega (arith, over), ap go_on e, (n, e, few))
        ]
