-- ===== src/Agent/Loop/Closing.antt =====
-- What `run_agent` of src/cranus/agent/loop.py logs behind its loop, and so in a whole run.
use cranus.Base.{
  Option, none, ℕ, suc, ◌≡◌, refl, ap, ◌∙◌, inl, Bool, true, false, not, option_map, some, List, [],
  ◌∷◌, ◌++◌, append_assoc, arith, Str, codes, strip, is_empty, if◌then◌else◌,
}
use cranus.Storage.Json.{Fields}
use cranus.Storage.Models.{User, AuditEvent, agent_stopped, closed}
use cranus.Governance.Audit.{AuditLog, event, log_event, close_session}
use cranus.Agent.Loop.{
  Action, HistoryStep, Tools, LoopState, fresh_state, finish_run, run_agent, ids, AgentResult,
  conclude,
}
use cranus.Query.Verify.{
  Claim, VerifiedAnswer, assemble, no_evidence, verify_citations, sentences, collect_claims,
}
use cranus.Query.Render.{watermark}
use cranus.Agent.Loop.Final.{IsMalformed, Finished, raises, concludes, finish_run-Finished}
use cranus.Agent.Loop.Rounds.{EndsIn, run_loop_rule}
use cranus.Agent.Loop.Trail.{InProgress, Ended, round, fresh-InProgress}

module _ (next_action : Str → List HistoryStep → Action) (tools : Tools)
    (show_action : Action → Str) (dumps : Fields → Str) (unicode_word : ℕ → Bool)
    (sha256 : Str → Str) (now latency_ms : ℕ) (session_id question : Str) (user : User) where
  assemble-insufficient :
      (all : List Str) (cs : List Claim)
      → (assemble all cs).insufficient_evidence ≡ true
      → (assemble all cs).text ≡ []
  assemble-insufficient all [] h = refl
  assemble-insufficient all (c ∷ cs) h = absurd (ground (arith, h))

  checked-insufficient :
      (blank : Bool) (all : List Str) (cs : List Claim)
      → (if blank then no_evidence else assemble all cs).insufficient_evidence ≡ true
      → (if blank then no_evidence else assemble all cs).text ≡ []
  checked-insufficient true all cs h = refl
  checked-insufficient false all cs h = assemble-insufficient all cs h

  abbrev Empties : VerifiedAnswer → Type 0
  Empties v = v.insufficient_evidence ≡ true → v.text ≡ []

  verify-Empties :
      (raw : Str) (valid : List Str) → Empties (verify_citations unicode_word raw valid)
  unfolding verify_citations
  verify-Empties raw valid =
      checked-insufficient (is_empty (strip raw)) (sentences raw)
        (collect_claims unicode_word valid 0 (sentences raw))

  answered :
      (insufficient : Bool) (final other : Str)
      → (insufficient ≡ true → final ≡ [])
      → final ≡ (if insufficient then [] else (if not insufficient then final else other))
  answered true final other h = h refl
  answered false final other h = refl

  empty_text :
      (text : Str) → text ≡ [] → (if is_empty text then [] else watermark session_id text) ≡ []
  empty_text text e = rw e refl

  -- What is logged behind the loop: why it stopped and after how many steps, and all ids gathered.
  abbrev pub closing : Str → LoopState → List AuditEvent
  closing answer_hash s =
      event session_id (codes "agent_stopped") (some user.id)
        (agent_stopped s.stop_reason s.budget.steps_used) now
      ∷ event session_id (codes "query_closed") (some user.id)
          (closed (ids s.gathered) latency_ms answer_hash (some s.budget.tokens_used)) now
      ∷ []

  -- The text that was answered, or none.
  abbrev pub answered_text : AgentResult → Str
  answered_text r = if r.insufficient_evidence then [] else r.answer

  conclude-events :
      (s : LoopState) (v : VerifiedAnswer)
      → Empties v
      → let (r, log) = conclude sha256 session_id user now latency_ms s v in
        log ≡ s.log ++ closing (sha256 (answered_text r)) s
  unfolding conclude close_session log_event
  conclude-events s v empties =
      append_assoc s.log _ _
      ∙ ap (λ t. s.log ++ closing (sha256 t) s)
          (answered v.insufficient_evidence
            (if is_empty v.text then [] else watermark session_id v.text)
            (codes "The agent found insufficient evidence to answer this question.")
            (λ h. empty_text v.text (empties h)))

  -- The log of a run that returned; where an error is raised nothing is logged behind the loop.
  abbrev pub Closes : LoopState → Option (AgentResult × AuditLog) → Type 0
  Closes s none = IsMalformed s
  Closes s (some (r, log)) = log ≡ s.log ++ closing (sha256 (answered_text r)) s

  Finished-Closes :
      (s : LoopState) (o : Option (AgentResult × AuditLog))
      → Finished unicode_word sha256 session_id user now latency_ms s o
      → Closes s o
  Finished-Closes s _ (raises m) = m
  Finished-Closes s _ (concludes raw c) = conclude-events s _ (verify-Empties raw (ids s.gathered))

  -- A run's loop only adds to the log: the opening of its session and one event for each call in the
  -- order of the calls. There are as many calls as steps; the last is a call of `finish` unless a budget
  -- was exhausted. Behind it, if the answer that came with citations is neither empty nor a text, the run
  -- raises an error and logs neither stop nor closing; otherwise it logs the reason for the stop with the
  -- number of steps, and the closing with all ids gathered, the tokens used and the hash of the text
  -- answered.
  pub run_agent-events :
      (max_steps max_total_tokens : ℕ) (log : AuditLog)
      → (s : LoopState) × (o : Option (AgentResult × AuditLog)) × EndsIn next_action tools
          show_action dumps now session_id question user max_steps max_total_tokens log s
        × (run_agent next_action tools show_action dumps unicode_word sha256 now latency_ms
              session_id max_steps max_total_tokens log user question
            ≡ some o)
        × Closes s o
        × Ended next_action tools show_action dumps now session_id question user log s
  run_agent-events max_steps max_total_tokens log =
      let (s, ended, trail) =
        run_loop_rule next_action tools show_action dumps now session_id question user
          (InProgress next_action tools show_action dumps now session_id question user log)
          (Ended next_action tools show_action dumps now session_id question user log)
          (λ s i e r acted.
            round next_action tools show_action dumps now session_id question user log s i r acted)
          (λ s i e. inl (i, e)) (suc max_steps)
          (fresh_state next_action tools show_action dumps now session_id question user max_steps
            max_total_tokens log)
          (omega arith) (omega arith)
          (fresh-InProgress next_action tools show_action dumps now session_id question user log
            max_steps max_total_tokens) in
      (
        s,
        finish_run unicode_word sha256 session_id user now latency_ms s,
        ended,
        ap (option_map (finish_run unicode_word sha256 session_id user now latency_ms)) ended,
        Finished-Closes s _
            (finish_run-Finished unicode_word sha256 session_id user now latency_ms s),
        trail,
      )
