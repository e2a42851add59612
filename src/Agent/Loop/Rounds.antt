-- ===== src/Agent/Loop/Rounds.antt =====
-- The rounds of the loop of src/cranus/agent/loop.py: what a round can do, and a rule for what holds
-- when the loop ends.
use cranus.Base.{
  ℕ, zero, suc, ◌+◌, ◌≤◌, ◌<◌, ◌≡◌, refl, subst, inl, inr, Bool, true, false, ◌||◌, Option, some,
  List, [], ◌∷◌, ◌++◌, arith, Str, codes, str_eq, str_in, Bool-cases, if◌then◌else◌,
}
use cranus.Storage.Json.{Fields, str, arr, nil, obj, get_field, truthy}
use cranus.Storage.Models.{User, tool_call}
use cranus.Governance.Audit.{AuditLog, log_event}
use cranus.Agent.Guardrails.{
  steps_exhausted, tokens_exhausted, record_step, call_key, estimate_tokens,
}
use cranus.Agent.Loop.{
  Action, Outcome, result, unknown_tool, duplicate_call, HistoryStep, Tools, LoopState, take_action,
  run_step, run_loop, fresh_state, is_dispatched, dispatch, gather, or_empty_text, or_json,
}

abbrev pub recorded : LoopState → Action → Outcome → List HistoryStep
recorded s a o = s.history ++ record { tool = a.tool; args = a.args; outcome = o } ∷ []

abbrev pub finished : LoopState → Action → LoopState
finished s a = record s {
  final_answer = or_empty_text (or_json (get_field (codes "answer") a.args) (str []));
  final_citations = truthy (or_json (get_field (codes "citations") a.args) (arr nil));
  stop_reason = codes "finished";
}

abbrev pub skipped : LoopState → Action → Outcome → LoopState
skipped s a o = record s { history = recorded s a o }

module _ (next_action : Str → List HistoryStep → Action) (tools : Tools)
    (show_action : Action → Str) (dumps : Fields → Str) (now : ℕ) (session_id question : Str)
    (user : User) where
  abbrev pub step : LoopState → LoopState × Bool
  step = run_step next_action tools show_action dumps now session_id question user

  abbrev pub loop : ℕ → LoopState → Option LoopState
  loop = run_loop next_action tools show_action dumps now session_id question user

  abbrev pub act : LoopState → Action → LoopState × Bool
  act = take_action next_action tools show_action dumps now session_id question user

  abbrev pub executed : LoopState → Action → LoopState
  executed s a = record s {
    budget = record s.budget {
      seen_calls = s.budget.seen_calls ++ call_key dumps a.tool a.args ∷ [];
    };
    history = recorded s a (result (dispatch tools question a.tool a.args));
    gathered = gather (dispatch tools question a.tool a.args) s.gathered;
  }

  -- The four things that acting can do.
  pub data Acted (s : LoopState) (a : Action) : LoopState × Bool → Type 0 where
    stops : str_eq a.tool (codes "finish") ≡ true → Acted s a (finished s a, false)
    rejects : is_dispatched a.tool ≡ false → Acted s a (skipped s a unknown_tool, true)
    repeats :
        str_in (call_key dumps a.tool a.args) s.budget.seen_calls ≡ true
        → Acted s a (skipped s a duplicate_call, true)
    executes :
        is_dispatched a.tool ≡ true
        → str_in (call_key dumps a.tool a.args) s.budget.seen_calls ≡ false
        → Acted s a (executed s a, true)

  pub take_action-Acted : (s : LoopState) (a : Action) → Acted s a (act s a)
  unfolding take_action
  take_action-Acted s a = elim (Bool-cases (str_eq a.tool (codes "finish"))) [
    | inl e ↦ rw e (stops e)
    | inr e ↦ elim (Bool-cases (is_dispatched a.tool)) [
      | inr u ↦ rw (e, u) (rejects u)
      | inl u ↦ elim (Bool-cases (str_in (call_key dumps a.tool a.args) s.budget.seen_calls)) [
        | inl d ↦ rw (e, u, d) (repeats d)
        | inr d ↦ rw (e, u, d) (executes u d)
      ]
    ]
  ]

  abbrev pub asked : LoopState → Action
  asked s = next_action question s.history

  -- The state in which a round acts: the step is counted and the call is logged.
  abbrev pub logged : LoopState → LoopState
  logged s = record s {
    budget = record_step s.budget (estimate_tokens (show_action (asked s)));
    log =
        log_event s.log session_id (codes "tool_call") (some user.id)
          (tool_call (asked s).tool (obj (asked s).args)) now;
  }

  pub step-Acted : (s : LoopState) → Acted (logged s) (asked s) (step s)
  unfolding run_step
  step-Acted s = take_action-Acted (logged s) (asked s)

  abbrev pub exhausted : LoopState → Bool
  exhausted s = steps_exhausted s.budget || tokens_exhausted s.budget

  -- The state in which the loop of `run_agent` ends.
  abbrev pub EndsIn : (max_steps max_total_tokens : ℕ) → AuditLog → LoopState → Type 0
  EndsIn max_steps max_total_tokens log s =
      loop (suc max_steps) (
        fresh_state next_action tools show_action dumps now session_id question user max_steps
          max_total_tokens log)
      ≡ some s

  Counted : LoopState → LoopState → Type 0
  Counted s s' =
      (s'.budget.steps_used ≡ suc s.budget.steps_used) × (s'.budget.max_steps ≡ s.budget.max_steps)

  Acted-Counted :
      (s : LoopState) (a : Action) (r : LoopState × Bool) → Acted (logged s) a r → Counted s r.0
  unfolding Counted
  Acted-Counted s a _ (stops e) = (omega arith, refl)
  Acted-Counted s a _ (rejects u) = (omega arith, refl)
  Acted-Counted s a _ (repeats d) = (omega arith, refl)
  Acted-Counted s a _ (executes u d) = (omega arith, refl)

  module _ (Running Done : LoopState → Type 0)
      (keeps : (s : LoopState)
        → Running s
        → exhausted s ≡ false
        → (r : LoopState × Bool) → Acted (logged s) (asked s) r
        → if r.1 then Running r.0 else Done r.0)
      (ends : (s : LoopState) → Running s → exhausted s ≡ true → Done s) where
    -- On enough fuel the loop ends in a state that is done, when rounds keep the first predicate.
    pub run_loop_rule :
        (fuel : ℕ) (s : LoopState)
        → s.budget.steps_used ≤ s.budget.max_steps
        → s.budget.max_steps < s.budget.steps_used + fuel
        → Running s
        → (s' : LoopState) × (loop fuel s ≡ some s') × Done s'
    unfolding run_loop Counted
    run_loop_rule zero s within h r = absurd (omega arith)
    run_loop_rule (suc fuel) s within h r = elim (Bool-cases (exhausted s)) [
      | inl e ↦ rw e (s, refl, ends s r e)
      | inr e ↦
          let kept = keeps s r e (step s) (step-Acted s) in
          let (one_more, same) = Acted-Counted s (asked s) (step s) (step-Acted s) in
          elim (Bool-cases (step s).1) [
            | inr stop ↦
                rw (e, stop)
                  (
                    (step s).0,
                    refl,
                    subst (λ b. if b then Running (step s).0 else Done (step s).0) stop kept,
                  )
            | inl go ↦
                let (s', ended, done) =
                  run_loop_rule fuel (step s).0 (ground arith) (omega arith)
                    (subst (λ b. if b then Running (step s).0 else Done (step s).0) go kept) in
                rw (e, go) (s', ended, done)
          ]
    ]
