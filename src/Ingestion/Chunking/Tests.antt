-- ===== src/Ingestion/Chunking/Tests.antt =====
-- Runs of src/cranus/ingestion/chunking.py with one token for each character, and its theorems
-- there.
use cranus.Base.{
  Option, none, map, str_in, if◌then◌else◌, ℕ, ◌+◌, ◌≡◌, refl, some, List, [], ◌∷◌, ltb, Str, codes,
  is_space,
}
use cranus.Ingestion.Chunking.{TextUnit, ChunkSettings, split_units, chunk_text}

abbrev chars : Str → Option (List ℕ)
chars s = some s

abbrev small : ChunkSettings
small = record {
  chunk_max_tokens = 8;
  chunk_target_tokens = 5;
  over_overlap = λ tokens n. ltb tokens (n + n);
}

abbrev page : Str
page = codes " one\n\ntwo \nthree\nfour\nthe-longest-line\n"

abbrev same : List ℕ → Str
same s = s

split_units-page :
    split_units page
    ≡ some (
        record { text = codes "one"; start = 1; end = 4 }
        ∷ record { text = codes "two"; start = 6; end = 9 }
        ∷ record { text = codes "three"; start = 11; end = 16 }
        ∷ record { text = codes "four"; start = 17; end = 21 }
        ∷ record { text = codes "the-longest-line"; start = 22; end = 38 }
        ∷ [])
unfolding split_units is_space
split_units-page = refl

-- Whenever a window has two units the second of them is repeated in the next one.
chunk_text-page :
    chunk_text chars same small page
    ≡ some (
        record { text = codes "one\ntwo"; ordinal = 0; char_start = 1; char_end = 9 }
        ∷ record { text = codes "two\nthree"; ordinal = 1; char_start = 6; char_end = 16 }
        ∷ record { text = codes "three"; ordinal = 2; char_start = 11; char_end = 16 }
        ∷ record { text = codes "four"; ordinal = 3; char_start = 17; char_end = 21 }
        ∷ record { text = codes "the-long"; ordinal = 4; char_start = 22; char_end = 30 }
        ∷ record { text = codes "est-line"; ordinal = 5; char_start = 30; char_end = 38 }
        ∷ [])
unfolding chunk_text is_space
chunk_text-page = refl

-- A tokenizer that raises on a vertical bar, as one does on the text of a special token.
abbrev no_bar : Str → Option (List ℕ)
no_bar s = if str_in (codes "|") (map (λ c. c ∷ []) s) then none else some s

chunk_text-special : chunk_text no_bar same small (codes "one\n|two") ≡ none
unfolding chunk_text is_space
chunk_text-special = refl

abbrev short_page : Str
short_page = codes " one\n\ntwo \nthree"

abbrev short_units : List TextUnit
short_units =
    record { text = codes "one"; start = 1; end = 4 }
    ∷ record { text = codes "two"; start = 6; end = 9 }
    ∷ record { text = codes "three"; start = 11; end = 16 }
    ∷ []
