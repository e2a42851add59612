-- ===== src/Query/Pipeline.antt =====
-- `answer` of src/cranus/query/pipeline.py, with `rerank` of src/cranus/retrieval/rerank.py. The two
-- searches, the graph lookup, the models, the catalog of documents and the hash are arguments.
pub mod Allowed
mod Tests
use cranus.Base.{
  ℕ, suc, ◌+◌, ◌≡◌, Bool, true, false, not, ◌&&◌, ◌||◌, Option, option_map, none, some, List, [],
  ◌∷◌, ◌++◌, map, Str, codes, str_in, starts_with, take, keep_if, is_empty, sort_down, ◌==◌,
  if◌then◌else◌,
}
use cranus.Storage.Models.{User}
use cranus.Governance.Access.{SourceDict, filter_sources_by_license}
use cranus.Governance.Audit.{AuditLog, open_session, close_session}
use cranus.Query.Verify.{Claim, VerifiedAnswer, verify_citations}
use cranus.Query.Render.{watermark, source_kind}
use cranus.Retrieval.Fusion.{RetrievedChunk, FusedResult, rrf_merge, dedupe}

pub record SubQuestion : Type 0 where
  pub q : Str
  pub route : Str

pub record SourceMetadata : Type 0 where
  pub doc_id : Option Str
  pub uri : Option Str
  pub title : Option Str
  pub license : Option Str

-- What the pipeline calls to find evidence and to write the answer. The filters are merged already.
pub record Services (Score : Type 0) : Type 0 where
  pub decompose : Str → List SubQuestion
  pub lexical_search : Str → List RetrievedChunk
  pub vector_search : Str → List RetrievedChunk
  pub graph_lookup : Str → List (FusedResult Score)
  pub relevance : Str → Str → Score
  pub catalog : Str → Option SourceMetadata
  pub synthesize : Str → List SourceDict → Str

-- The arithmetic of the scores.
pub record Scoring (Score : Type 0) : Type 0 where
  pub zero_score : Score
  pub add : Score → Score → Score
  pub one_over : ℕ → Score
  pub less : Score → Score → Bool

pub record QueryAnswer : Type 0 where
  pub session_id : Str
  pub answer : Str
  pub claims : List Claim
  pub sources : List SourceDict
  pub confidence : ℕ × ℕ
  pub insufficient_evidence : Bool
  pub latency_ms : ℕ

abbrev pub source_ids : List SourceDict → List Str
source_ids = map (λ (s : SourceDict). s.id)

abbrev pub cited_by : List Claim → List Str
cited_by [] = []
cited_by (c ∷ cs) = c.supported_by ++ cited_by cs

abbrev pub is_route : Str → Str → Bool
is_route route wanted = str_in route (wanted ∷ codes "both" ∷ [])

-- `meta.get(key)` on the entry of a chunk, or on `{}`.
abbrev pub meta_key : (SourceMetadata → Option Str) → Option SourceMetadata → Option Str
meta_key key none = none
meta_key key (some m) = key m

-- Only the ids of chunks are looked up.
abbrev pub is_edge : Str → Bool
is_edge id = starts_with (codes "edge_") id

abbrev pub metadata_of : (Str → Option SourceMetadata) → Str → Option SourceMetadata
metadata_of catalog id = if is_edge id then none else catalog id

module _ (Score : Type 0) (scoring : Scoring Score) (services : Services Score) where
  -- The loop over the sub-questions.
  unfoldable pub ranked_lists : List SubQuestion → List (List RetrievedChunk)
  ranked_lists [] = []
  ranked_lists (sq ∷ sqs) =
      if is_route sq.route (codes "text")
      then services.lexical_search sq.q ∷ services.vector_search sq.q ∷ ranked_lists sqs
      else ranked_lists sqs

  unfoldable pub graph_candidates : Str → List SubQuestion → List (FusedResult Score)
  graph_candidates mode [] = []
  graph_candidates mode (sq ∷ sqs) =
      if is_route sq.route (codes "graph") && str_in mode (codes "auto" ∷ codes "research" ∷ [])
      then services.graph_lookup sq.q ++ graph_candidates mode sqs
      else graph_candidates mode sqs

  -- `top_n or default_top_n`
  unfoldable pub rerank : Str → List (FusedResult Score) → ℕ → ℕ → List (FusedResult Score)
  rerank query candidates top_n default_top_n = take (if top_n == 0 then default_top_n else top_n) (
      sort_down
        (λ a b. scoring.less (services.relevance query a.text) (services.relevance query b.text))
        candidates)

  abbrev pub source_of : FusedResult Score → SourceDict
  source_of r =
      let meta = metadata_of services.catalog r.chunk_id in
      record {
        id = r.chunk_id;
        text = r.text;
        kind = source_kind r.chunk_id;
        license = meta_key (λ m. m.license) meta;
        doc_id = meta_key (λ m. m.doc_id) meta;
        uri = meta_key (λ m. m.uri) meta;
        title = meta_key (λ m. m.title) meta;
      }

  -- The sources as found, before the policy: `none` is an error raised.
  unfoldable pub find_sources : ℕ → ℕ → Str → Str → ℕ → Option (List SourceDict)
  unfolding ranked_lists graph_candidates rerank
  find_sources rrf_k default_top_n question mode max_sources =
      let subquestions = services.decompose question in
      option_map
        (λ fused. map source_of (
          rerank question (dedupe Score scoring.less (fused ++ graph_candidates mode subquestions))
            max_sources default_top_n))
        (rrf_merge Score scoring.zero_score scoring.add scoring.one_over scoring.less rrf_k
          (ranked_lists subquestions))

  module _ (unicode_word : ℕ → Bool) (sha256 : Str → Str) (session_id : Str)
      (now latency_ms : ℕ) where
    -- What follows the policy: `shown` are the sources given to the model.
    unfoldable pub answer_from : User → Str → List SourceDict → AuditLog → QueryAnswer × AuditLog
    answer_from user question shown log =
        let verified =
          verify_citations unicode_word (services.synthesize question shown) (source_ids shown) in
        let final_text =
          if is_empty verified.text then [] else watermark session_id verified.text in
        (
          record {
            session_id = session_id;
            answer =
                if not verified.insufficient_evidence
                then final_text
                else codes "The available sources do not answer this question.";
            claims = verified.claims;
            sources = keep_if (λ (s : SourceDict). str_in s.id (cited_by verified.claims)) shown;
            confidence = verified.confidence;
            insufficient_evidence = verified.insufficient_evidence;
            latency_ms = latency_ms;
          },
          close_session log session_id (some user.id) (source_ids shown) latency_ms
              (sha256 final_text) none now,
        )

    unfoldable pub answer :
        (rrf_k default_top_n : ℕ) (user : User) (question mode : Str) (max_sources : ℕ)
        → AuditLog
        → Option (QueryAnswer × AuditLog)
    unfolding answer_from find_sources
    answer rrf_k default_top_n user question mode max_sources log =
        let opened = open_session log session_id (some user.id) question mode now in
        option_map
          (λ sources. answer_from user question (filter_sources_by_license user sources) opened)
          (find_sources rrf_k default_top_n question mode max_sources)
