-- ===== src/Connectors/Edgar/Address.antt =====
-- The way from a filing that `discover` of src/cranus/connectors/sec_edgar.py yields to the url that `fetch` asks for.
use cranus.Base.{
  ℕ, zero, suc, ◌+◌, ◌-◌, ◌*◌, ◌≡◌, refl, sym, ap, subst, ◌∙◌, true, false, ◌==◌, ◌||◌, some, [],
  ◌∷◌, ◌++◌, append_assoc, arith, Str, codes, decimal, length, All,
}
use cranus.Connectors.Edgar.{
  Submissions, SourceItem, zeros, zfill, item_of, split_once, split_rest, split_ref, is_digit,
  digits_value, int_of, archives_base, no_dashes, address_of_parts, filing_address, address_of,
  second_split,
}

-- A text in front of the first slash is what is split off.
split_once-append :
    (a s : Str) → All (λ c. (c == 47) ≡ false) a → split_once (a ++ codes "/" ++ s) ≡ some (a, s)
unfolding split_once
split_once-append [] s h = refl
split_once-append (c ∷ a) s h = rw (h.0, split_once-append a s h.1) refl

zeros-All :
    (n : ℕ) (s : Str) → All (λ c. (c == 47) ≡ false) s → All (λ c. (c == 47) ≡ false) (zeros n s)
zeros-All zero s h = h
zeros-All (suc n) s h = (refl, zeros-All n s h)

digit-no_slash : (c : ℕ) → is_digit c ≡ true → (c == 47) ≡ false
digit-no_slash c h = ground (arith, h)

digit-no_sign : (c : ℕ) → is_digit c ≡ true → ((c == 43) || (c == 45)) ≡ false
digit-no_sign c h = ground (arith, h)

digits-no_slash : (s : Str) → All (λ c. is_digit c ≡ true) s → All (λ c. (c == 47) ≡ false) s
digits-no_slash [] h = tt
digits-no_slash (c ∷ s) h = (digit-no_slash c h.0, digits-no_slash s h.1)

-- Leading zeros do not change a number.
zeros-value : (n : ℕ) (s : Str) → digits_value 0 (zeros n s) ≡ digits_value 0 s
unfolding digits_value
zeros-value zero s = refl
zeros-value (suc n) s = zeros-value n s

digits_value-some :
    (n : ℕ) (s : Str) → All (λ c. is_digit c ≡ true) s → (v : ℕ) × (digits_value n s ≡ some v)
unfolding digits_value
digits_value-some n [] h = (n, refl)
digits_value-some n (c ∷ s) h =
    let (v, e) = digits_value-some (n * 10 + (c - 48)) s h.1 in (v, rw h.0 e)

int_some :
    (c : ℕ) (s : Str) → All (λ d. is_digit d ≡ true) (c ∷ s) → (v : ℕ) × (int_of (c ∷ s) ≡ some v)
unfolding int_of
int_some c s h = digits_value-some 0 (c ∷ s) h

int_of-zeros : (n c : ℕ) (s : Str) → int_of (zeros n (c ∷ s)) ≡ int_of (c ∷ s)
unfolding int_of
int_of-zeros zero c s = refl
int_of-zeros (suc n) c s = zeros-value (suc n) (c ∷ s)

zfill-zeros :
    (width c : ℕ) (s : Str)
    → is_digit c ≡ true
    → zfill width (c ∷ s) ≡ zeros (width - length (c ∷ s)) (c ∷ s)
unfolding zfill
zfill-zeros width c s h = rw (digit-no_sign c h) refl

split_ref-parts :
    (a b rest : Str)
    → All (λ c. (c == 47) ≡ false) a
    → All (λ c. (c == 47) ≡ false) b
    → split_ref (a ++ codes "/" ++ b ++ codes "/" ++ rest) ≡ some (a, b, rest)
unfolding split_ref
split_ref-parts a b rest ha hb =
    ap split_ref (
      ap (λ l. l ++ rest) (append_assoc (a ++ codes "/") b (codes "/"))
      ∙ append_assoc (a ++ codes "/") (b ++ codes "/") rest)
    ∙ ap split_rest (split_once-append a (b ++ codes "/" ++ rest) ha)
    ∙ ap (second_split a) (split_once-append b rest hb)

module _ (submissions : Submissions) where
  -- What is fetched for a filing that was yielded is its own document: the url names the number of the company without
  -- the zeros in front, the accession number without its dashes, and the document. The id of the company is a text of
  -- digits with at least one, and the accession number has no slash; the name of the document may have some.
  pub item_of-filing_address :
      (c : ℕ) (cik accession form primary_doc filing_date : Str) (item : SourceItem)
      → All (λ d. is_digit d ≡ true) (c ∷ cik)
      → All (λ d. (d == 47) ≡ false) accession
      → item_of
          (zfill 10 (c ∷ cik))
          submissions
          accession
          form
          (some primary_doc)
          (some filing_date)
        ≡ some item
      → (n : ℕ) × (int_of (c ∷ cik) ≡ some n)
        × (filing_address item.ref
            ≡ some (
              archives_base
                  ++ codes "/"
                  ++ decimal n
                  ++ codes "/"
                  ++ no_dashes accession
                  ++ codes "/"
                  ++ primary_doc,
              primary_doc,
            ))
  unfolding filing_address
  item_of-filing_address c cik accession form primary_doc filing_date item digits no_slash e =
      let (n, v) = int_some c cik digits in
      let padded = zfill 10 (c ∷ cik) in
      let zs = zfill-zeros 10 c cik digits.0 in
      let number : int_of padded ≡ some n =
        ap int_of zs ∙ int_of-zeros (10 - length (c ∷ cik)) c cik ∙ v in
      let clean : All (λ d. (d == 47) ≡ false) padded =
        subst (All (λ d. (d == 47) ≡ false)) (sym zs)
          (zeros-All (10 - length (c ∷ cik)) (c ∷ cik) (digits-no_slash (c ∷ cik) digits)) in
      let same : padded ++ codes "/" ++ accession ++ codes "/" ++ primary_doc ≡ item.ref =
        ground (arith, e) in
      (
        n,
        v,
        ap filing_address (sym same)
            ∙ ap address_of_parts (split_ref-parts padded accession primary_doc clean no_slash)
            ∙ ap (λ o. address_of o accession primary_doc) number,
      )
