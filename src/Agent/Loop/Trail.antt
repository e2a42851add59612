-- ===== src/Agent/Loop/Trail.antt =====
-- What `run_agent` of src/cranus/agent/loop.py leaves in the audit log.
use cranus.Base.{
  map-snoc, ℕ, suc, ◌≡◌, refl, sym, ap, ◌∙◌, ◌⊎◌, inr, Bool, true, some, List, [], ◌∷◌, ◌++◌,
  append_assoc, append-nil, length, length-append, map, arith, Str, codes, str_eq→eq, if◌then◌else◌,
}
use cranus.Storage.Json.{Fields, obj}
use cranus.Storage.Models.{User, AuditEvent, tool_call, opened}
use cranus.Governance.Audit.{AuditLog, event, open_session, log_event}
use cranus.Agent.Loop.{
  Action, Outcome, HistoryStep, Tools, LoopState, result, dispatch, unknown_tool, duplicate_call,
  fresh_state,
}
use cranus.Agent.Loop.Rounds.{
  Acted, stops, rejects, repeats, executes, recorded, asked, logged, exhausted,
}

module _ (next_action : Str → List HistoryStep → Action) (tools : Tools)
    (show_action : Action → Str) (dumps : Fields → Str) (now : ℕ) (session_id question : Str)
    (user : User) where
  abbrev pub call_event : Str → Fields → AuditEvent
  call_event tool args =
      event session_id (codes "tool_call") (some user.id) (tool_call tool (obj args)) now

  abbrev pub calls : List HistoryStep → List AuditEvent
  calls = map (λ (h : HistoryStep). call_event h.tool h.args)

  abbrev pub opening : AuditLog → AuditLog
  opening log =
      log
      ++ event session_id (codes "query_opened") (some user.id) (opened question (codes "research"))
          now
        ∷ []

  -- The log before the run, the opening of the session, and a call for each step of the history.
  pub record InProgress (log : AuditLog) (s : LoopState) : Type 0 where
    pub events : s.log ≡ opening log ++ calls s.history
    pub counted : s.budget.steps_used ≡ length s.history
    pub reason : s.stop_reason ≡ codes "max_steps_exhausted"

  -- Behind these, the call of `finish`.
  pub record HasFinished (log : AuditLog) (s : LoopState) : Type 0 where
    pub args : Fields
    pub events : s.log ≡ opening log ++ (calls s.history ++ call_event (codes "finish") args ∷ [])
    pub counted : s.budget.steps_used ≡ suc (length s.history)
    pub reason : s.stop_reason ≡ codes "finished"

  abbrev pub Ended : AuditLog → LoopState → Type 0
  Ended log s =
      (InProgress log s
        × (exhausted next_action tools show_action dumps now session_id question user s ≡ true))
      ⊎ HasFinished log s

  module _ (log : AuditLog) where
    abbrev logs : LoopState → LoopState
    logs = logged next_action tools show_action dumps now session_id question user

    abbrev asks : LoopState → Action
    asks = asked next_action tools show_action dumps now session_id question user

    abbrev asked_event : LoopState → List AuditEvent
    asked_event s = call_event (asks s).tool (asks s).args ∷ []

    logged-events :
        (s : LoopState)
        → InProgress log s
        → (logs s).log ≡ opening log ++ (calls s.history ++ asked_event s)
    unfolding log_event
    logged-events s i =
        ap (λ l. l ++ asked_event s) i.events
        ∙ append_assoc (opening log) (calls s.history) (asked_event s)

    recorded-InProgress :
        (s : LoopState) (o : Outcome) (s' : LoopState)
        → InProgress log s
        → s'.log ≡ (logs s).log
        → s'.budget.steps_used ≡ suc s.budget.steps_used
        → s'.stop_reason ≡ s.stop_reason
        → s'.history ≡ recorded s (asks s) o
        → InProgress log s'
    recorded-InProgress s o s' i same one_more unstopped longer =
        let last : HistoryStep = record {
          tool = (asks s).tool;
          args = (asks s).args;
          outcome = o;
        } in
        record {
          events =
              same
              ∙ logged-events s i
              ∙ ap (λ l. opening log ++ l)
                  (sym (map-snoc (λ (h : HistoryStep). call_event h.tool h.args) s.history last)
                    ∙ ap calls (sym longer));
          counted =
              rw longer (omega (arith, one_more, i.counted, length-append s.history (last ∷ [])));
          reason = unstopped ∙ i.reason;
        }

    pub round :
        (s : LoopState)
        → InProgress log s
        → (r : LoopState × Bool)
        → Acted next_action tools show_action dumps now session_id question user (logs s) (asks s) r
        → if r.1 then InProgress log r.0 else Ended log r.0
    round s i _ (stops e) = inr (record {
      args = (asks s).args;
      events =
          logged-events s i
          ∙ ap (λ t. opening log ++ (calls s.history ++ call_event t (asks s).args ∷ []))
              (str_eq→eq (asks s).tool (codes "finish") e);
      counted = omega (arith, i.counted);
      reason = refl;
    })
    round s i _ (rejects u) = recorded-InProgress s unknown_tool _ i refl (omega arith) refl refl
    round s i _ (repeats d) = recorded-InProgress s duplicate_call _ i refl (omega arith) refl refl
    round s i _ (executes u d) =
        recorded-InProgress s (result (dispatch tools question (asks s).tool (asks s).args)) _ i
          refl (omega arith) refl refl

    pub fresh-InProgress :
        (max_steps max_total_tokens : ℕ)
        → InProgress log (
            fresh_state next_action tools show_action dumps now session_id question user max_steps
              max_total_tokens log)
    unfolding open_session
    fresh-InProgress m t = record {
      events = sym (append-nil (opening log));
      counted = refl;
      reason = refl;
    }
