-- ===== src/Agent/Loop/Evidence.antt =====
-- Where the claims and the sources come from that `run_agent` of src/cranus/agent/loop.py returns.
use cranus.Base.{
  Option, none, ℕ, suc, ◌≡◌, refl, ap, inl, inr, Bool, option_map, some, List, [], ◌∷◌, map, arith,
  Str, All, Has, str_in, str_in→Has, Has-keep_if,
}
use cranus.Storage.Json.{Fields}
use cranus.Storage.Models.{User}
use cranus.Governance.Audit.{AuditLog}
use cranus.Governance.Access.{SourceDict}
use cranus.Agent.Loop.{
  Action, Item, HistoryStep, Tools, LoopState, fresh_state, finish_run, run_agent, ids, AgentResult,
  verified_answer, conclude, all_cited,
}
use cranus.Query.Verify.{Claim, VerifiedAnswer, verify_citations}
use cranus.Query.Verify.Grounding.{IsGrounded, verify_citations-IsGrounded}
use cranus.Agent.Loop.Final.{IsMalformed, Finished, raises, concludes, finish_run-Finished}
use cranus.Agent.Loop.Rounds.{EndsIn, logged, run_loop_rule}
use cranus.Agent.Loop.Bounds.{either}
use cranus.Base.{All-map, Has-All}
use cranus.Governance.Access.{filter_sources_by_license, check_access, filter_sources-exact}
use cranus.Query.Verify.Citations.{Cites}
use cranus.Agent.Loop.{source_dict}
use cranus.Agent.Loop.Gathered.{found_ids}
use cranus.Agent.Loop.Sourced.{FromTool, IsSourced, Acted-IsSourced}

module _ (next_action : Str → List HistoryStep → Action) (tools : Tools)
    (show_action : Action → Str) (dumps : Fields → Str) (now : ℕ) (session_id question : Str)
    (user : User) (unicode_word : ℕ → Bool) (sha256 : Str → Str) (latency_ms : ℕ) where
  abbrev Sourced : LoopState → Type 0
  Sourced = IsSourced next_action tools show_action dumps now session_id question user

  IsGrounded-map :
      (valid valid' : List Str)
      → ((i : Str) → Has i valid → Has i valid')
      → (c : Claim) → IsGrounded unicode_word valid c
      → IsGrounded unicode_word valid' c
  IsGrounded-map valid valid' f c g = record {
    some_source = g.some_source;
    sources =
        All-map {Q = λ i. Has i valid' × Cites unicode_word i c.text}
          (λ i (m, cites). (f i m, cites)) c.supported_by g.sources;
  }

  Has-source_dict :
      (d : SourceDict) (gs : List Item) → Has d (map source_dict gs) → Has d.id (ids gs)
  Has-source_dict d [] m = absurd m
  Has-source_dict d (g ∷ gs) (inl e) = inl (ap (λ (x : SourceDict). x.id) e)
  Has-source_dict d (g ∷ gs) (inr m) = inr (Has-source_dict d gs m)

  -- A source that is returned is cited by a claim, and its id is one of `found`.
  abbrev pub IsUsed : List Str → List Claim → SourceDict → Type 0
  IsUsed found claims d = Has d.id (all_cited claims) × Has d.id found

  -- What is shown of a result: each claim names a source, and each source it names was returned by
  -- a call and is cited in brackets by the claim's own text; each source listed is used.
  pub record IsEvidenced (s : LoopState) (r : AgentResult) : Type 0 where
    pub claims : All (IsGrounded unicode_word (found_ids s.history)) r.claims
    pub sources : All (IsUsed (found_ids s.history) r.claims) r.sources

  conclude-IsEvidenced :
      (s : LoopState) (raw : Str)
      → Sourced s
      → IsEvidenced s
          (conclude sha256 session_id user now latency_ms s
            (verify_citations unicode_word raw (ids s.gathered))).0
  unfolding conclude
  conclude-IsEvidenced s raw i =
      let payload = map source_dict s.gathered in
      let verified = verify_citations unicode_word raw (ids s.gathered) in
      record {
        claims =
            All-map (IsGrounded-map (ids s.gathered) (found_ids s.history) (λ j. (i.gathered j).0))
              _ (verify_citations-IsGrounded unicode_word (ids s.gathered) raw);
        sources = Has-All (IsUsed (found_ids s.history) verified.claims) _ (λ d m.
            let (there, used) =
              Has-keep_if (λ (d : SourceDict). str_in d.id (all_cited verified.claims)) d
                (filter_sources_by_license user payload) m in
            (
              str_in→Has d.id (all_cited verified.claims) used,
              (i.gathered d.id).0
                  (Has-source_dict d s.gathered ((filter_sources-exact user payload d).0 there).0),
            ));
      }

  -- What a run shows: an error for an answer that is malformed, or a result that is evidenced.
  abbrev pub Shows : LoopState → Option (AgentResult × AuditLog) → Type 0
  Shows s none = IsMalformed s
  Shows s (some (r, log)) = IsEvidenced s r

  Finished-Shows :
      (s : LoopState) (o : Option (AgentResult × AuditLog))
      → Sourced s
      → Finished unicode_word sha256 session_id user now latency_ms s o
      → Shows s o
  Finished-Shows s _ i (raises m) = m
  Finished-Shows s _ i (concludes raw c) = conclude-IsEvidenced s raw i

  -- The agent's loop ends. Behind it an error is raised only if the answer that came with citations is
  -- neither empty nor a text; otherwise the agent returns a result whose claims all rest on evidence:
  -- each claim names at least one source, each source that it names was returned by an executed tool
  -- call of the run and is cited in brackets by the claim's own text, and a source is listed only if a
  -- claim names it and a call returned it. Every executed call has the name of a tool and the items that
  -- this tool returns.
  pub run_agent-IsEvidenced :
      (max_steps max_total_tokens : ℕ) (log : AuditLog)
      → (s : LoopState) × (o : Option (AgentResult × AuditLog)) × EndsIn next_action tools
          show_action dumps now session_id question user max_steps max_total_tokens log s
        × (run_agent next_action tools show_action dumps unicode_word sha256 now latency_ms
              session_id max_steps max_total_tokens log user question
            ≡ some o)
        × All (FromTool next_action tools show_action dumps now session_id question user) s.history
        × Shows s o
  run_agent-IsEvidenced max_steps max_total_tokens log =
      let (s, ended, i) =
        run_loop_rule next_action tools show_action dumps now session_id question user Sourced
          Sourced
          (λ s i e r acted. either r.1 (Sourced r.0) (
            Acted-IsSourced next_action tools show_action dumps now session_id question user
              (logged next_action tools show_action dumps now session_id question user s) _ r
              (record { history = i.history; gathered = i.gathered }) acted))
          (λ s i e. i) (suc max_steps)
          (fresh_state next_action tools show_action dumps now session_id question user max_steps
            max_total_tokens log)
          (omega arith) (omega arith) (record { history = tt; gathered = λ j. (λ m. m, λ m. m) }) in
      (
        s,
        finish_run unicode_word sha256 session_id user now latency_ms s,
        ended,
        ap (option_map (finish_run unicode_word sha256 session_id user now latency_ms)) ended,
        i.history,
        Finished-Shows s _ i
            (finish_run-Finished unicode_word sha256 session_id user now latency_ms s),
      )

module _ (unicode_word : ℕ → Bool) (sha256 : Str → Str) (session_id : Str)
    (now latency_ms : ℕ) where
  keep_all :
      (user : User) (gs : List Item)
      → filter_sources_by_license user (map source_dict gs) ≡ map source_dict gs
  unfolding filter_sources_by_license check_access
  keep_all user [] = refl
  keep_all user (g ∷ gs) = ap (λ l. source_dict g ∷ l) (keep_all user gs)

  concluded :
      (s : LoopState) (user other : User) (o : Option VerifiedAnswer)
      → option_map
          (λ (p : AgentResult × AuditLog). p.0)
          (option_map (conclude sha256 session_id user now latency_ms s) o)
        ≡ option_map
            (λ (p : AgentResult × AuditLog). p.0)
            (option_map (conclude sha256 session_id other now latency_ms s) o)
  unfolding conclude
  concluded s user other none = refl
  concluded s user other (some v) = rw (keep_all user s.gathered, keep_all other s.gathered) refl

  -- In research mode the policy on licenses has no effect: what any two users get for the same loop
  -- state is the same, their roles notwithstanding.
  pub finish_run-any_user :
      (s : LoopState) (user other : User)
      → option_map
          (λ (p : AgentResult × AuditLog). p.0)
          (finish_run unicode_word sha256 session_id user now latency_ms s)
        ≡ option_map
            (λ (p : AgentResult × AuditLog). p.0)
            (finish_run unicode_word sha256 session_id other now latency_ms s)
  unfolding finish_run
  finish_run-any_user s user other = concluded s user other (verified_answer unicode_word s)
