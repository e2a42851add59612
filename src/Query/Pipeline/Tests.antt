-- ===== src/Query/Pipeline/Tests.antt =====
-- A query of src/cranus/query/pipeline.py on two chunks, one of them internal, and its theorem there.
use cranus.Base.{
  ℕ, ◌+◌, ◌/◌, ◌≡◌, refl, Bool, true, false, Option, some, none, List, [], ◌∷◌, arith, Str, codes,
  str_eq, ltb, IsOrder, length, if◌then◌else◌,
}
use cranus.Storage.Models.{User, role_viewer}
use cranus.Governance.Access.{SourceDict, internal_only}
use cranus.Governance.Audit.{AuditLog, open_session}
use cranus.Retrieval.Fusion.{RetrievedChunk, less_result}
use cranus.Query.Pipeline.{Services, Scoring, SourceMetadata, QueryAnswer, find_sources, answer}
use cranus.Query.Pipeline.Allowed.{Found, IsAllowed, answer-IsAllowed, source_limit}

abbrev viewer : User
viewer = record { id = codes "u1"; email = codes "v@x"; role = role_viewer; revoked = false }

abbrev scoring : Scoring ℕ
scoring = record { zero_score = 0; add = λ a b. a + b; one_over = λ n. 1000 / n; less = ltb }

abbrev chunk : Str → RetrievedChunk
chunk id = record { chunk_id = id; doc_id = codes "d"; text = id }

abbrev meta : Str → SourceMetadata
meta license = record {
  doc_id = some (codes "d");
  uri = none;
  title = none;
  license = some license;
}

abbrev services : Services ℕ
services = record {
  decompose = λ q. record { q = q; route = codes "both" } ∷ [];
  lexical_search = λ q. chunk (codes "c1") ∷ chunk (codes "c2") ∷ [];
  vector_search = λ q. chunk (codes "c2") ∷ [];
  graph_lookup = λ q. [];
  relevance = λ q text. length text;
  catalog =
      λ id. some (if str_eq id (codes "c2") then meta internal_only else meta (codes "cc-by"));
  synthesize = λ q sources. codes "It grew [c1]. It fell [c2].";
}

abbrev ascii_only : ℕ → Bool
ascii_only c = false

abbrev hash : Str → Str
hash s = s

abbrev asked : Option (QueryAnswer × AuditLog)
asked =
    answer ℕ scoring services ascii_only hash (codes "s1") 7 3 60 8 viewer (codes "q")
      (codes "auto") 12 []

abbrev facts : Option (QueryAnswer × AuditLog) → Str × ℕ × ℕ × ℕ
facts none = ([], 0, 0, 0)
facts (some (r, log)) = (r.answer, length r.claims, length r.sources, length log)

asked-facts : facts asked ≡ (codes "It grew [c1].\n\n— session s1", 1, 1, 2)
unfolding answer cranus.Retrieval.Fusion.rrf_merge cranus.Query.Verify.verify_citations
    cranus.Governance.Access.filter_sources_by_license cranus.Governance.Audit.close_session
    cranus.Base.is_space cranus.Retrieval.Fusion.dedupe open_session
    cranus.Query.Verify.collect_claims cranus.Governance.Access.check_access
    cranus.Query.Verify.sentences cranus.Query.Verify.cited_ids cranus.Query.Verify.find_citations
    cranus.Query.Verify.id_char cranus.Query.Render.watermark
asked-facts = refl

ℕ-IsOrder : IsOrder (less_result ℕ scoring.less)
ℕ-IsOrder = record { asym = λ x y h. ground (arith, h); trans = λ x y z h k. ground (arith, h, k) }

answer-IsAllowed_example :
    (found : List SourceDict) × (r : QueryAnswer) × (log : AuditLog) × (find_sources ℕ scoring
        services 60 8
        (codes "q")
        (codes "auto")
        12
      ≡ some found)
    × (asked ≡ some (r, log))
    × Found ℕ scoring services ascii_only hash (codes "s1") 7 3 (source_limit 12 8) found
    × IsAllowed ℕ scoring services ascii_only hash
        (codes "s1")
        7
        3
        viewer
        (codes "q")
        found
        (open_session [] (codes "s1") (some (codes "u1")) (codes "q") (codes "auto") 7)
        r
        log
answer-IsAllowed_example =
    answer-IsAllowed ℕ scoring services ascii_only hash (codes "s1") 7 3 60 8 viewer (codes "q")
      (codes "auto") 12 [] ℕ-IsOrder
