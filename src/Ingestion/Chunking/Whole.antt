-- ===== src/Ingestion/Chunking/Whole.antt =====
-- `chunk_text` of src/cranus/ingestion/chunking.py, from the text to the chunks.
use cranus.Base.{ℕ, ◌≤◌, ◌≡◌, Option, some, List, [], ◌∷◌, All, Str, visible}
use cranus.Ingestion.Chunking.{ChunkSpan, TextUnit, ChunkSettings, token_count, counted}
use cranus.Ingestion.Chunking.Units.{IsUnit, Ordered}
use cranus.Ingestion.Chunking.Visible.{texts}
use cranus.Ingestion.Chunking.Windows.{IsChunking}

module _ {Token : Type 0} (encode : Str → Option (List Token)) (decode : List Token → Str)
    (settings : ChunkSettings) where
  -- The unit's text is encoded, and in no more tokens than the maximum.
  abbrev pub IsFit : TextUnit → Type 0
  IsFit u = (n : ℕ) × (token_count encode u.text ≡ some n) × (n ≤ settings.chunk_max_tokens)

  -- The chunks of no units are none.
  abbrev pub Chunks : List TextUnit → List ChunkSpan → Type 0
  Chunks [] cs = cs ≡ []
  Chunks (u ∷ us) cs = IsChunking (counted encode) settings (u ∷ us) 0 0 cs

  -- What is shown of the result for these units.
  abbrev pub Chunked : Str → List TextUnit → Option (List ChunkSpan) → Type 0
  Chunked text units result =
      (cs : List ChunkSpan) × (result ≡ some cs)
      × (visible (texts units) ≡ visible text)
      × Ordered 0 units
      × All (IsUnit text) units
      × Chunks units cs
