-- ===== src/Query/Pipeline/Allowed.antt =====
-- What `answer` of src/cranus/query/pipeline.py shows to the model and to the user.
use cranus.Base.{
  ℕ, zero, suc, ◌≤◌, ◌≡◌, refl, ap, sym, subst, ◌≢◌, ◌⊎◌, ◌↔◌, inl, inr, Bool, option_map, none,
  some, List, [], ◌∷◌, ◌++◌, map, arith, Str, str_in, str_in→Has, take, length, length-take,
  Has-keep_if, sort_down, sort_down-Distinct, All, Has-All, Has, Has-map, map-Has, Distinct,
  IsOrder, ◌==◌, if◌then◌else◌,
}
use cranus.Storage.Models.{User}
use cranus.Governance.Access.{
  SourceDict, filter_sources_by_license, filter_sources-exact, IsCleared, internal_only,
}
use cranus.Governance.Audit.{AuditLog, open_session, close_session}
use cranus.Query.Verify.{verify_citations}
use cranus.Query.Verify.Grounding.{IsGrounded, verify_citations-IsGrounded}
use cranus.Retrieval.Fusion.{FusedResult, less_result, dedupe}
use cranus.Retrieval.Fusion.Merged.{rrf_merge-IsFusion}
use cranus.Retrieval.Fusion.Best.{dedupe-IsDeduped}
use cranus.Query.Pipeline.{
  Services, Scoring, QueryAnswer, source_ids, cited_by, source_of, rerank, ranked_lists,
  graph_candidates, find_sources, answer_from, answer,
}

Has-take : {A : Type 0} (n : ℕ) (x : A) (xs : List A) → Has x (take n xs) → Has x xs
Has-take zero x xs m = absurd m
Has-take (suc n) x [] m = m
Has-take (suc n) x (y ∷ xs) (inl e) = inl e
Has-take (suc n) x (y ∷ xs) (inr m) = inr (Has-take n x xs m)

Distinct-take :
    {A B : Type 0} (f : A → B) (n : ℕ) (xs : List A)
    → Distinct (map f xs)
    → Distinct (map f (take n xs))
Distinct-take f zero xs d = tt
Distinct-take f (suc n) [] d = tt
Distinct-take f (suc n) (x ∷ xs) d = (
  λ m.
      let (z, there, e) = map-Has f (f x) (take n xs) m in
      d.0 (subst (λ y. Has y (map f xs)) (sym e) (Has-map f z xs (Has-take n z xs there))),
  Distinct-take f n xs d.1,
)

-- The user may read the source.
abbrev pub IsPermitted : User → SourceDict → Type 0
IsPermitted user s = (s.license ≢ some internal_only) ⊎ IsCleared user

abbrev pub source_limit : ℕ → ℕ → ℕ
source_limit max_sources default_top_n = if max_sources == 0 then default_top_n else max_sources

module _ (Score : Type 0) (scoring : Scoring Score) (services : Services Score)
    (unicode_word : ℕ → Bool) (sha256 : Str → Str) (session_id : Str) (now latency_ms : ℕ) where
  ids-source_of :
      (rs : List (FusedResult Score))
      → source_ids (map (source_of Score scoring services) rs)
        ≡ map (λ (r : FusedResult Score). r.chunk_id) rs
  ids-source_of [] = refl
  ids-source_of (r ∷ rs) = ap (λ l. r.chunk_id ∷ l) (ids-source_of rs)

  -- What is found: no id twice, and no more than the limit.
  abbrev pub Found : ℕ → List SourceDict → Type 0
  Found limit found = Distinct (source_ids found) × (length found ≤ limit)

  length-map :
      (rs : List (FusedResult Score))
      → length (map (source_of Score scoring services) rs) ≡ length rs
  length-map [] = refl
  length-map (r ∷ rs) = ap suc (length-map rs)

  found_lem :
      (rrf_k default_top_n : ℕ) (question mode : Str) (max_sources : ℕ)
      → IsOrder (less_result Score scoring.less)
      → (found : List SourceDict) × (find_sources Score scoring services rrf_k default_top_n
            question mode max_sources
          ≡ some found)
        × Found (source_limit max_sources default_top_n) found
  unfolding find_sources rerank
  found_lem rrf_k default_top_n question mode max_sources order =
      let sqs = services.decompose question in
      let (fused, e, _) =
        rrf_merge-IsFusion Score scoring.zero_score scoring.add scoring.one_over scoring.less rrf_k
          (ranked_lists Score scoring services sqs) order in
      let best =
        dedupe Score scoring.less (fused ++ graph_candidates Score scoring services mode sqs) in
      let below = λ (a b : FusedResult Score).
        scoring.less (services.relevance question a.text) (services.relevance question b.text) in
      let ranked = rerank Score scoring services question best max_sources default_top_n in
      (
        map (source_of Score scoring services) ranked,
        ap (option_map _) e,
        (
          subst Distinct (sym (ids-source_of ranked)) (
              Distinct-take (λ (r : FusedResult Score). r.chunk_id)
                (source_limit max_sources default_top_n) (sort_down below best)
                (sort_down-Distinct below (λ (r : FusedResult Score). r.chunk_id) best
                  (dedupe-IsDeduped Score scoring.less
                    (fused ++ graph_candidates Score scoring services mode sqs) order).distinct)),
          omega (
            arith,
            length-map ranked,
            length-take (source_limit max_sources default_top_n) (sort_down below best),
          ),
        ),
      )

  -- What holds of a run on the sources that were found.
  pub record IsAllowed (user : User) (question : Str) (found : List SourceDict) (opened : AuditLog)
      (r : QueryAnswer) (log : AuditLog) : Type 0 where
    pub shown : List SourceDict
    pub permitted : (s : SourceDict) → Has s shown ↔ (Has s found × IsPermitted user s)
    pub written :
        r.claims
        ≡ (verify_citations unicode_word
            (services.synthesize question shown)
            (source_ids shown)).claims
    pub grounded : All (IsGrounded unicode_word (source_ids shown)) r.claims
    pub listed : All (λ (s : SourceDict). Has s shown × Has s.id (cited_by r.claims)) r.sources
    pub answer_hash : Str
    pub logged :
        log
        ≡ close_session opened session_id
            (some user.id)
            (source_ids shown)
            latency_ms
            answer_hash
            none
            now

  answer_from-IsAllowed :
      (user : User) (question : Str) (found : List SourceDict) (opened : AuditLog)
      → let (r, log) =
          answer_from Score scoring services unicode_word sha256 session_id now latency_ms user
            question
            (filter_sources_by_license user found)
            opened in
        IsAllowed user question found opened r log
  unfolding answer_from
  answer_from-IsAllowed user question found opened =
      let shown = filter_sources_by_license user found in
      let raw = services.synthesize question shown in
      let claims = (verify_citations unicode_word raw (source_ids shown)).claims in
      record {
        shown = shown;
        permitted = filter_sources-exact user found;
        written = refl;
        grounded = verify_citations-IsGrounded unicode_word (source_ids shown) raw;
        listed =
            Has-All (λ (s : SourceDict). Has s shown × Has s.id (cited_by claims)) _
              (λ s m.
                let (there, cited) =
                  Has-keep_if (λ (s : SourceDict). str_in s.id (cited_by claims)) s shown m in
                (there, str_in→Has s.id (cited_by claims) cited));
        answer_hash = _;
        logged = refl;
      }

  -- A query always has an answer, from no more sources than the limit and no two with the same id.
  -- The sources shown to the model are exactly those found that the user may read. Every claim names
  -- some of their ids and cites each in brackets; a source is listed only if it was shown and a claim
  -- names it; and the log records the ids of the sources shown. It is assumed that the comparison of
  -- the scores is an order.
  pub answer-IsAllowed :
      (rrf_k default_top_n : ℕ) (user : User) (question mode : Str) (max_sources : ℕ)
      (log : AuditLog)
      → IsOrder (less_result Score scoring.less)
      → (found : List SourceDict) × (r : QueryAnswer) × (log' : AuditLog) × (find_sources Score
            scoring services rrf_k default_top_n question mode max_sources
          ≡ some found)
        × (answer Score scoring services unicode_word sha256 session_id now latency_ms rrf_k
              default_top_n user question mode max_sources log
            ≡ some (r, log'))
        × Found (source_limit max_sources default_top_n) found
        × IsAllowed user question found
            (open_session log session_id (some user.id) question mode now)
            r
            log'
  unfolding answer
  answer-IsAllowed rrf_k default_top_n user question mode max_sources log order =
      let (found, e, limits) = found_lem rrf_k default_top_n question mode max_sources order in
      let opened = open_session log session_id (some user.id) question mode now in
      (
        found,
        _,
        _,
        e,
        ap
            (option_map (λ sources.
              answer_from Score scoring services unicode_word sha256 session_id now latency_ms user
                question (filter_sources_by_license user sources) opened))
            e,
        limits,
        answer_from-IsAllowed user question found opened,
      )
