-- ===== src/Retrieval/Fusion.antt =====
-- src/cranus/retrieval/fusion.py, and `_dedupe` of src/cranus/query/pipeline.py. The scores are of
-- an arbitrary type, with `0.0`, `a + b`, `1.0 / n` and `a < b` as arguments.
pub mod Ids
pub mod Scores
pub mod Merged
pub mod Best
pub mod Tests
use cranus.Base.{
  ℕ, suc, ◌+◌, ◌≡◌, Bool, true, false, Option, option_map, none, some, List, [], ◌∷◌, ◌++◌, map,
  Str, str_eq, sort_down, if◌then◌else◌,
}

pub record RetrievedChunk : Type 0 where
  pub chunk_id : Str
  pub doc_id : Str
  pub text : Str

-- A dict: its items in the order in which their keys were first set.
module _ {V : Type 0} where
  -- `d.get(key)`
  abbrev pub get : Str → List (Str × V) → Option V
  get key [] = none
  get key ((k, v) ∷ d) = if str_eq k key then some v else get key d

  -- `d[key] = value`
  abbrev pub put : Str → V → List (Str × V) → List (Str × V)
  put key value [] = (key, value) ∷ []
  put key value ((k, v) ∷ d) = if str_eq k key then (k, value) ∷ d else (k, v) ∷ put key value d

  abbrev pub set_default : Str → V → List (Str × V) → List (Str × V)
  set_default key value [] = (key, value) ∷ []
  set_default key value ((k, v) ∷ d) =
      if str_eq k key then (k, v) ∷ d else (k, v) ∷ set_default key value d

  abbrev pub keys : List (Str × V) → List Str
  keys = map (λ e. e.0)

  abbrev pub or_value : Option V → V → V
  or_value none v = v
  or_value (some w) v = w

module _ (Score : Type 0) where
  pub record FusedResult : Type 0 where
    pub chunk_id : Str
    pub doc_id : Str
    pub text : Str
    pub rrf_score : Score

  pub record Merging : Type 0 where
    pub scores : List (Str × Score)
    pub meta : List (Str × RetrievedChunk)

  module _ (zero_score : Score) (add : Score → Score → Score) (one_over : ℕ → Score) (k : ℕ) where
    abbrev pub merge_item : ℕ → RetrievedChunk → Merging → Merging
    merge_item rank item m = record {
      scores =
          put item.chunk_id
            (add (or_value (get item.chunk_id m.scores) zero_score) (one_over (k + rank))) m.scores;
      meta = set_default item.chunk_id item m.meta;
    }

    -- The loop over one list, from a rank on.
    unfoldable pub merge_ranked : ℕ → List RetrievedChunk → Merging → Merging
    merge_ranked rank [] m = m
    merge_ranked rank (item ∷ items) m = merge_ranked (suc rank) items (merge_item rank item m)

    unfoldable pub merge_lists : List (List RetrievedChunk) → Merging → Merging
    unfolding merge_ranked
    merge_lists [] m = m
    merge_lists (ranked ∷ lists) m = merge_lists lists (merge_ranked 1 ranked m)

  -- `meta[cid]` raises `KeyError` on a missing key: `none`.
  abbrev pub result_of : Str → Score → Option RetrievedChunk → Option FusedResult
  result_of cid score none = none
  result_of cid score (some item) =
      some (record { chunk_id = cid; doc_id = item.doc_id; text = item.text; rrf_score = score })

  abbrev pub cons_both : Option FusedResult → Option (List FusedResult) → Option (List FusedResult)
  cons_both none rest = none
  cons_both (some r) none = none
  cons_both (some r) (some rest) = some (r ∷ rest)

  unfoldable pub fused_results :
      List (Str × Score) → List (Str × RetrievedChunk) → Option (List FusedResult)
  fused_results [] meta = some []
  fused_results ((cid, score) ∷ scores) meta =
      cons_both (result_of cid score (get cid meta)) (fused_results scores meta)

  abbrev pub less_result : (Score → Score → Bool) → FusedResult → FusedResult → Bool
  less_result less a b = less a.rrf_score b.rrf_score

  unfoldable pub rrf_merge :
      (zero_score : Score) (add : Score → Score → Score) (one_over : ℕ → Score)
      (less : Score → Score → Bool) (k : ℕ)
      → List (List RetrievedChunk)
      → Option (List FusedResult)
  unfolding merge_lists fused_results
  rrf_merge zero_score add one_over less k lists =
      let m = merge_lists zero_score add one_over k lists (record { scores = []; meta = [] }) in
      option_map (sort_down (less_result less)) (fused_results m.scores m.meta)

  -- One candidate of `_dedupe`: it replaces a lower one of its id in its place.
  abbrev pub keep_best : (Score → Score → Bool) → FusedResult → List FusedResult → List FusedResult
  keep_best less c [] = c ∷ []
  keep_best less c (s ∷ seen) =
      if str_eq s.chunk_id c.chunk_id
      then if less s.rrf_score c.rrf_score then c ∷ seen else s ∷ seen
      else s ∷ keep_best less c seen

  unfoldable pub best_of :
      (Score → Score → Bool) → List FusedResult → List FusedResult → List FusedResult
  best_of less [] seen = seen
  best_of less (c ∷ cs) seen = best_of less cs (keep_best less c seen)

  unfoldable pub dedupe : (Score → Score → Bool) → List FusedResult → List FusedResult
  unfolding best_of
  dedupe less candidates = sort_down (less_result less) (best_of less candidates [])
