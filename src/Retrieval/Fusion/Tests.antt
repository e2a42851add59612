-- ===== src/Retrieval/Fusion/Tests.antt =====
-- Fusions of small lists by src/cranus/retrieval/fusion.py, and its theorems there. A score counts
-- in thousandths.
use cranus.Base.{ℕ, ◌+◌, ◌/◌, ◌≡◌, refl, some, List, [], ◌∷◌, arith, Str, codes, ltb, IsOrder}
use cranus.Retrieval.Fusion.{RetrievedChunk, FusedResult, less_result, rrf_merge, dedupe}
use cranus.Retrieval.Fusion.Ids.{rank_all}
use cranus.Retrieval.Fusion.Merged.{IsFusion, rrf_merge-IsFusion}
use cranus.Retrieval.Fusion.Best.{IsDeduped, dedupe-IsDeduped}

abbrev pub sum : ℕ → ℕ → ℕ
sum a b = a + b

abbrev pub thousandths : ℕ → ℕ
thousandths n = 1000 / n

pub ℕ-IsOrder : IsOrder (less_result ℕ ltb)
ℕ-IsOrder = record { asym = λ x y h. ground (arith, h); trans = λ x y z h k. ground (arith, h, k) }

abbrev chunk : Str → RetrievedChunk
chunk id = record { chunk_id = id; doc_id = codes "d"; text = id }

abbrev lists : List (List RetrievedChunk)
lists =
    (chunk (codes "a") ∷ chunk (codes "b") ∷ []) ∷ (chunk (codes "b") ∷ chunk (codes "c") ∷ []) ∷ []

abbrev fused : Str → ℕ → FusedResult ℕ
fused id score = record { chunk_id = id; doc_id = codes "d"; text = id; rrf_score = score }

rrf_merge-lists :
    rrf_merge ℕ 0 sum thousandths ltb 9 lists
    ≡ some (fused (codes "b") 190 ∷ fused (codes "a") 100 ∷ fused (codes "c") 90 ∷ [])
unfolding rrf_merge
rrf_merge-lists = refl

abbrev candidates : List (FusedResult ℕ)
candidates = fused (codes "a") 1 ∷ fused (codes "b") 2 ∷ fused (codes "a") 3 ∷ []

dedupe-candidates : dedupe ℕ ltb candidates ≡ fused (codes "a") 3 ∷ fused (codes "b") 2 ∷ []
unfolding dedupe
dedupe-candidates = refl

rrf_merge-IsFusion_example :
    (rs : List (FusedResult ℕ)) × (rrf_merge ℕ 0 sum thousandths ltb 9 lists ≡ some rs)
    × IsFusion ℕ 0 sum thousandths ltb 9 (rank_all lists) rs
rrf_merge-IsFusion_example = rrf_merge-IsFusion ℕ 0 sum thousandths ltb 9 lists ℕ-IsOrder

dedupe-IsDeduped_example : IsDeduped ℕ ltb candidates (dedupe ℕ ltb candidates)
dedupe-IsDeduped_example = dedupe-IsDeduped ℕ ltb candidates ℕ-IsOrder
