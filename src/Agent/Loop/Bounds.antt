-- ===== src/Agent/Loop/Bounds.antt =====
-- The loop of src/cranus/agent/loop.py ends within its budget, and executes no call twice.
use cranus.Base.{
  Distinct, Distinct-snoc, ℕ, suc, ◌+◌, ◌≤◌, ◌<◌, ◌≡◌, refl, sym, ap, subst, ◌∙◌, ◌⊎◌, inl, inr,
  Bool, true, false, option_map, some, List, [], ◌∷◌, ◌++◌, append-nil, arith, Str, Has→str_in, Has,
  if◌then◌else◌,
}
use cranus.Storage.Json.{Fields}
use cranus.Storage.Models.{User}
use cranus.Governance.Audit.{AuditLog}
use cranus.Agent.Guardrails.{call_key, estimate_tokens}
use cranus.Agent.Loop.{
  Action, Outcome, result, unknown_tool, duplicate_call, HistoryStep, Tools, LoopState, fresh_state,
  dispatch, finish_run, run_agent,
}
use cranus.Agent.Loop.Final.{Finished, finish_run-Finished}
use cranus.Agent.Loop.Rounds.{
  Acted, stops, rejects, repeats, executes, recorded, asked, logged, exhausted, EndsIn,
  run_loop_rule,
}

pub either : (b : Bool) (P : Type 0) → P → if b then P else P
either true P p = p
either false P p = p

module _ (next_action : Str → List HistoryStep → Action) (tools : Tools)
    (show_action : Action → Str) (dumps : Fields → Str) (now : ℕ) (session_id question : Str)
    (user : User) where
  abbrev pub outcome_key : Str → Outcome → List Str → List Str
  outcome_key key (result items) rest = key ∷ rest
  outcome_key key unknown_tool rest = rest
  outcome_key key duplicate_call rest = rest

  -- The keys of the calls that were executed, in order.
  abbrev pub executed_keys : List HistoryStep → List Str
  executed_keys [] = []
  executed_keys (h ∷ hs) = outcome_key (call_key dumps h.tool h.args) h.outcome (executed_keys hs)

  outcome_key-append :
      (key : Str) (o : Outcome) (ks ls : List Str)
      → outcome_key key o (ks ++ ls) ≡ outcome_key key o ks ++ ls
  outcome_key-append key (result items) ks ls = refl
  outcome_key-append key unknown_tool ks ls = refl
  outcome_key-append key duplicate_call ks ls = refl

  executed_keys-append :
      (hs gs : List HistoryStep) → executed_keys (hs ++ gs) ≡ executed_keys hs ++ executed_keys gs
  executed_keys-append [] gs = refl
  executed_keys-append (h ∷ hs) gs =
      ap (outcome_key (call_key dumps h.tool h.args) h.outcome) (executed_keys-append hs gs)
      ∙ outcome_key-append (call_key dumps h.tool h.args) h.outcome (executed_keys hs)
          (executed_keys gs)

  -- The step budget is respected. All tokens but those of the last action were below the token
  -- budget. The calls that were executed are those noted as seen, and no two have the same key.
  pub record InBudget (max_steps max_total_tokens : ℕ) (s : LoopState) : Type 0 where
    pub step_limit : s.budget.max_steps ≡ max_steps
    pub token_limit : s.budget.max_total_tokens ≡ max_total_tokens
    pub steps : s.budget.steps_used ≤ max_steps
    pub tokens :
        (s.budget.tokens_used ≡ 0)
        ⊎ ((earlier : ℕ) × (last : Action) × (earlier < max_total_tokens)
            × (s.budget.tokens_used ≡ earlier + estimate_tokens (show_action last)))
    pub seen : s.budget.seen_calls ≡ executed_keys s.history
    pub distinct : Distinct (executed_keys s.history)

  abbrev logs : LoopState → LoopState
  logs = logged next_action tools show_action dumps now session_id question user

  abbrev Acts : LoopState → Action → LoopState × Bool → Type 0
  Acts = Acted next_action tools show_action dumps now session_id question user

  abbrev spent : LoopState → Bool
  spent = exhausted next_action tools show_action dumps now session_id question user

  abbrev start : ℕ → ℕ → AuditLog → LoopState
  start = fresh_state next_action tools show_action dumps now session_id question user

  module _ (max_steps max_total_tokens : ℕ) where
    logged-InBudget :
        (s : LoopState)
        → InBudget max_steps max_total_tokens s
        → spent s ≡ false
        → InBudget max_steps max_total_tokens (logs s)
    logged-InBudget s i e = record {
      step_limit = i.step_limit;
      token_limit = i.token_limit;
      steps = subst (λ m. s.budget.steps_used + 1 ≤ m) i.step_limit (ground arith);
      tokens = inr (
        s.budget.tokens_used,
        asked next_action tools show_action dumps now session_id question user s,
        subst (λ m. s.budget.tokens_used < m) i.token_limit (ground arith),
        refl,
      );
      seen = i.seen;
      distinct = i.distinct;
    }

    -- A history step that executes nothing.
    skipped-InBudget :
        (s : LoopState) (a : Action) (o : Outcome)
        → executed_keys (recorded s a o) ≡ executed_keys s.history
        → InBudget max_steps max_total_tokens s
        → InBudget max_steps max_total_tokens (record s { history = recorded s a o })
    skipped-InBudget s a o same i = record {
      step_limit = i.step_limit;
      token_limit = i.token_limit;
      steps = i.steps;
      tokens = i.tokens;
      seen = i.seen ∙ sym same;
      distinct = subst Distinct (sym same) i.distinct;
    }

    Acted-InBudget :
        (s : LoopState) (a : Action) (r : LoopState × Bool)
        → InBudget max_steps max_total_tokens s
        → Acts s a r
        → InBudget max_steps max_total_tokens r.0
    Acted-InBudget s a _ i (stops e) = record {
      step_limit = i.step_limit;
      token_limit = i.token_limit;
      steps = i.steps;
      tokens = i.tokens;
      seen = i.seen;
      distinct = i.distinct;
    }
    Acted-InBudget s a _ i (rejects u) =
        skipped-InBudget s a unknown_tool (executed_keys-append s.history _ ∙ append-nil _) i
    Acted-InBudget s a _ i (repeats d) =
        skipped-InBudget s a duplicate_call (executed_keys-append s.history _ ∙ append-nil _) i
    Acted-InBudget s a _ i (executes u new) =
        let key = call_key dumps a.tool a.args in
        let keys = executed_keys-append s.history (
          record {
            tool = a.tool;
            args = a.args;
            outcome = result (dispatch tools question a.tool a.args);
          }
          ∷ []) in
        record {
          step_limit = i.step_limit;
          token_limit = i.token_limit;
          steps = i.steps;
          tokens = i.tokens;
          seen = ap (λ ks. ks ++ key ∷ []) i.seen ∙ sym keys;
          distinct = subst Distinct (sym keys) (
              Distinct-snoc (executed_keys s.history) key i.distinct (λ m.
                ground (
                  arith,
                  new,
                  Has→str_in key s.budget.seen_calls (subst (Has key) (sym i.seen) m),
                )));
        }

    fresh-InBudget :
        (log : AuditLog)
        → InBudget max_steps max_total_tokens (start max_steps max_total_tokens log)
    fresh-InBudget log = record {
      step_limit = refl;
      token_limit = refl;
      steps = omega arith;
      tokens = inl refl;
      seen = refl;
      distinct = tt;
    }

  -- The agent's loop always ends, in a state that has used no more steps than allowed; the tokens used
  -- before its last action were below the token budget; the calls it executed have distinct keys. Behind
  -- it the run raises an error if the answer that came with citations is neither empty nor a text, and
  -- otherwise returns what the check of that text says, or of no text where it came without citations.
  pub run_agent-InBudget :
      (unicode_word : ℕ → Bool) (sha256 : Str → Str) (latency_ms max_steps max_total_tokens : ℕ)
      (log : AuditLog)
      → (s : LoopState) × EndsIn next_action tools show_action dumps now session_id question user
          max_steps max_total_tokens log s
        × (run_agent next_action tools show_action dumps unicode_word sha256 now latency_ms
              session_id max_steps max_total_tokens log user question
            ≡ some (finish_run unicode_word sha256 session_id user now latency_ms s))
        × InBudget max_steps max_total_tokens s
        × Finished unicode_word sha256 session_id user now latency_ms s
            (finish_run unicode_word sha256 session_id user now latency_ms s)
  run_agent-InBudget unicode_word sha256 latency_ms max_steps max_total_tokens log =
      let (s, ended, i) =
        run_loop_rule next_action tools show_action dumps now session_id question user
          (InBudget max_steps max_total_tokens) (InBudget max_steps max_total_tokens)
          (λ s i e r acted. either r.1 (InBudget max_steps max_total_tokens r.0) (
            Acted-InBudget max_steps max_total_tokens (logs s) _ r
              (logged-InBudget max_steps max_total_tokens s i e) acted))
          (λ s i e. i) (suc max_steps) (start max_steps max_total_tokens log) (omega arith)
          (omega arith) (fresh-InBudget max_steps max_total_tokens log) in
      (
        s,
        ended,
        ap (option_map (finish_run unicode_word sha256 session_id user now latency_ms)) ended,
        i,
        finish_run-Finished unicode_word sha256 session_id user now latency_ms s,
      )
