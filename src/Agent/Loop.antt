-- ===== src/Agent/Loop.antt =====
-- `run_agent` of src/cranus/agent/loop.py. The model (`next_action`), the tools, Python's `str` and
-- `json.dumps`, the hash and the clock are arguments.
pub mod Rounds
pub mod Bounds
pub mod Trail
pub mod Closing
pub mod Gathered
pub mod Sourced
pub mod Evidence
pub mod Final
mod Tests
use cranus.Base.{
  ℕ, zero, suc, ◌+◌, ◌≡◌, Bool, true, false, not, ◌&&◌, ◌||◌, Option, option_map, none, some, List,
  [], ◌∷◌, ◌++◌, map, Str, codes, str_eq, str_in, is_empty, keep_if, ◌==◌, if◌then◌else◌,
}
use cranus.Storage.Json.{
  Json, Items, Fields, null, bool, num, str, arr, obj, nil, cons, end, field, get_field, truthy,
}
use cranus.Storage.Models.{User, tool_call, agent_stopped}
use cranus.Governance.Access.{SourceDict, filter_sources_by_license}
use cranus.Governance.Audit.{AuditLog, open_session, log_event, close_session}
use cranus.Query.Verify.{Claim, VerifiedAnswer, verify_citations}
use cranus.Query.Render.{watermark, source_kind}
use cranus.Agent.Guardrails.{
  AgentBudget, steps_exhausted, tokens_exhausted, record_step, is_duplicate_call, estimate_tokens,
}

-- What the model asks for: its JSON object's `tool`, for an object that has a text there, and its `args`
-- with `or {}` applied, for `args` that are an object.
pub record Action : Type 0 where
  pub tool : Str
  pub args : Fields

-- A dict with the keys `id` and `text`.
pub record Item : Type 0 where
  pub id : Str
  pub text : Str

pub data Outcome : Type 0 where
  result : List Item → Outcome
  unknown_tool duplicate_call : Outcome

pub record HistoryStep : Type 0 where
  pub tool : Str
  pub args : Fields
  pub outcome : Outcome

-- The three functions of src/cranus/agent/tools.py, at the values that the loop passes them.
pub record Tools : Type 0 where
  pub search_text : (query k : Json) → List Item
  pub graph_lookup : (entity relation hops : Json) → List Item
  pub resolve_entity : (name context : Json) → List Item

abbrev pub or_json : Option Json → Json → Json
or_json none default = default
or_json (some v) default = v

-- `v or ""`
abbrev pub or_empty_text : Json → Json
or_empty_text v = if truthy v then v else str []

abbrev pub is_dispatched : Str → Bool
is_dispatched tool =
    str_in tool (codes "search_text" ∷ codes "graph_lookup" ∷ codes "resolve_entity" ∷ [])

unfoldable pub dispatch : Tools → Str → Str → Fields → List Item
dispatch tools question tool args =
    if str_eq tool (codes "search_text")
    then tools.search_text (or_json (get_field (codes "query") args) (str question))
        (or_json (get_field (codes "k") args) (num 10))
    else if str_eq tool (codes "graph_lookup")
    then tools.graph_lookup (or_json (get_field (codes "entity") args) (str question))
        (or_json (get_field (codes "relation") args) null)
        (or_json (get_field (codes "hops") args) (num 1))
    else tools.resolve_entity (or_json (get_field (codes "name") args) (str question))
        (or_json (get_field (codes "context") args) (str []))

-- `gathered[item["id"]] = item`: a known id keeps its place.
unfoldable pub put_item : Item → List Item → List Item
put_item item [] = item ∷ []
put_item item (g ∷ gs) = if str_eq g.id item.id then item ∷ gs else g ∷ put_item item gs

unfoldable pub gather : List Item → List Item → List Item
unfolding put_item
gather [] gathered = gathered
gather (item ∷ items) gathered = gather items (put_item item gathered)

pub record LoopState : Type 0 where
  pub budget : AgentBudget
  pub history : List HistoryStep
  pub gathered : List Item
  pub final_answer : Json
  pub final_citations : Bool
  pub stop_reason : Str
  pub log : AuditLog

module _ (next_action : Str → List HistoryStep → Action) (tools : Tools)
    (show_action : Action → Str) (dumps : Fields → Str) (now : ℕ) (session_id question : Str)
    (user : User) where
  -- Behind the logging of the call: `true` if the loop goes on.
  unfoldable pub take_action : LoopState → Action → LoopState × Bool
  unfolding dispatch gather
  take_action s action =
      let step = λ (o : Outcome).
        s.history ++ record { tool = action.tool; args = action.args; outcome = o } ∷ [] in
      let (duplicate, budget) = is_duplicate_call dumps s.budget action.tool action.args in
      let items = dispatch tools question action.tool action.args in
      if str_eq action.tool (codes "finish")
      then (
        record s {
          final_answer = or_empty_text (or_json (get_field (codes "answer") action.args) (str []));
          final_citations = truthy (or_json (get_field (codes "citations") action.args) (arr nil));
          stop_reason = codes "finished";
        },
        false,
      )
      else if not (is_dispatched action.tool)
      then (record s { history = step unknown_tool }, true)
      else if duplicate
      then (record s { history = step duplicate_call }, true)
      else (
        record s {
          budget = budget;
          history = step (result items);
          gathered = gather items s.gathered;
        },
        true,
      )

  -- One round: ask the model, count the step, log the call, act on it.
  unfoldable pub run_step : LoopState → LoopState × Bool
  unfolding take_action estimate_tokens
  run_step s =
      let action = next_action question s.history in
      take_action
        (record s {
          budget = record_step s.budget (estimate_tokens (show_action action));
          log =
              log_event s.log session_id (codes "tool_call") (some user.id)
                (tool_call action.tool (obj action.args)) now;
        })
        action

  -- The `while` loop, on fuel.
  unfoldable pub run_loop : ℕ → LoopState → Option LoopState
  unfolding run_step
  run_loop zero s = none
  run_loop (suc fuel) s =
      let (s', more) = run_step s in
      let rest = run_loop fuel s' in
      if steps_exhausted s.budget || tokens_exhausted s.budget
      then some s
      else if more
      then rest
      else some s'

  abbrev pub fresh_state : ℕ → ℕ → AuditLog → LoopState
  fresh_state max_steps max_total_tokens log = record {
    budget = record {
      max_steps = max_steps;
      max_total_tokens = max_total_tokens;
      steps_used = 0;
      tokens_used = 0;
      seen_calls = [];
    };
    history = [];
    gathered = [];
    final_answer = str [];
    final_citations = false;
    stop_reason = codes "max_steps_exhausted";
    log = open_session log session_id (some user.id) question (codes "research") now;
  }

abbrev pub ids : List Item → List Str
ids = map (λ i. i.id)

pub record AgentResult : Type 0 where
  pub session_id : Str
  pub answer : Str
  pub claims : List Claim
  pub sources : List SourceDict
  pub confidence : ℕ × ℕ
  pub insufficient_evidence : Bool
  pub latency_ms : ℕ

abbrev pub all_cited : List Claim → List Str
all_cited [] = []
all_cited (c ∷ cs) = c.supported_by ++ all_cited cs

-- The source's dict in `sources_payload`: it has no key `license`.
abbrev pub source_dict : Item → SourceDict
source_dict item = record {
  id = item.id;
  text = item.text;
  kind = source_kind item.id;
  license = none;
  doc_id = none;
  uri = none;
  title = none;
}

-- `verify_citations` on the model's answer: what is no text has no `strip`, which raises.
abbrev pub verify_json : (ℕ → Bool) → Json → List Str → Option VerifiedAnswer
verify_json unicode_word (str raw) valid = some (verify_citations unicode_word raw valid)
verify_json unicode_word other valid = none

unfoldable pub verified_answer : (ℕ → Bool) → LoopState → Option VerifiedAnswer
verified_answer unicode_word s =
    if truthy s.final_answer && s.final_citations
    then verify_json unicode_word s.final_answer (ids s.gathered)
    else some (verify_citations unicode_word [] (ids s.gathered))

module _ (sha256 : Str → Str) (session_id : Str) (user : User) (now latency_ms : ℕ) where
  -- What `run_agent` does behind the check of the citations.
  unfoldable pub conclude : LoopState → VerifiedAnswer → AgentResult × AuditLog
  conclude s verified =
      let final_text = if is_empty verified.text then [] else watermark session_id verified.text in
      let sources_payload = filter_sources_by_license user (map source_dict s.gathered) in
      let used_sources =
        keep_if (λ (d : SourceDict). str_in d.id (all_cited verified.claims)) sources_payload in
      let stopped =
        log_event s.log session_id (codes "agent_stopped") (some user.id)
          (agent_stopped s.stop_reason s.budget.steps_used) now in
      (
        record {
          session_id = session_id;
          answer =
              if not verified.insufficient_evidence
              then final_text
              else codes "The agent found insufficient evidence to answer this question.";
          claims = verified.claims;
          sources = used_sources;
          confidence = verified.confidence;
          insufficient_evidence = verified.insufficient_evidence;
          latency_ms = latency_ms;
        },
        close_session stopped session_id (some user.id) (ids s.gathered) latency_ms
            (sha256 final_text) (some s.budget.tokens_used) now,
      )

-- What `run_agent` does behind the loop; `none` is the AttributeError of an answer that is no text.
unfoldable pub finish_run :
    (unicode_word : ℕ → Bool) (sha256 : Str → Str) (session_id : Str) (user : User)
    (now latency_ms : ℕ) (s : LoopState)
    → Option (AgentResult × AuditLog)
unfolding verified_answer conclude
finish_run unicode_word sha256 session_id user now latency_ms s =
    option_map (conclude sha256 session_id user now latency_ms s) (verified_answer unicode_word s)

-- One round more than there are steps is enough fuel.
abbrev pub run_agent :
    (next_action : Str → List HistoryStep → Action) (tools : Tools) (show_action : Action → Str)
    (dumps : Fields → Str) (unicode_word : ℕ → Bool) (sha256 : Str → Str) (now latency_ms : ℕ)
    (session_id : Str) (max_steps max_total_tokens : ℕ) (log : AuditLog) (user : User)
    (question : Str)
    → Option (Option (AgentResult × AuditLog))
run_agent next_action tools show_action dumps unicode_word sha256 now latency_ms session_id
      max_steps max_total_tokens log user question =
    option_map (finish_run unicode_word sha256 session_id user now latency_ms) (
      run_loop next_action tools show_action dumps now session_id question user (suc max_steps) (
        fresh_state next_action tools show_action dumps now session_id question user max_steps
          max_total_tokens log))
