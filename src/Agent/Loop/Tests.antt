-- ===== src/Agent/Loop/Tests.antt =====
-- A run of the loop of src/cranus/agent/loop.py with a scripted model, and its theorems there.
use cranus.Base.{
  All, ℕ, zero, suc, ◌+◌, ◌≡◌, refl, Bool, true, false, Option, some, none, option_map, List, [],
  ◌∷◌, ◌++◌, Str, codes, length, map,
}
use cranus.Storage.Json.{Json, Fields, str, arr, nil, cons, field, end}
use cranus.Storage.Models.{User, role_viewer, role_admin}
use cranus.Governance.Audit.{AuditLog}
use cranus.Agent.Loop.{
  Action, HistoryStep, Tools, LoopState, fresh_state, finish_run, run_loop, run_agent, AgentResult,
}
use cranus.Agent.Loop.Rounds.{EndsIn}
use cranus.Agent.Loop.Final.{Finished}
use cranus.Agent.Loop.Sourced.{FromTool}
use cranus.Agent.Loop.Bounds.{InBudget, run_agent-InBudget}
use cranus.Agent.Loop.Trail.{Ended}
use cranus.Agent.Loop.Closing.{Closes, run_agent-events}
use cranus.Agent.Loop.Evidence.{Shows, run_agent-IsEvidenced, finish_run-any_user}

abbrev viewer : User
viewer = record { id = codes "u1"; email = codes "v@x"; role = role_viewer; revoked = false }

abbrev admin : User
admin = record { id = codes "u2"; email = codes "a@x"; role = role_admin; revoked = false }

abbrev search_args : Fields
search_args = field (codes "query") (str (codes "acme")) end

abbrev finish_args : Fields
finish_args =
    field (codes "answer") (str (codes "It grew [c1]. Or not [c9]."))
      (field (codes "citations") (arr (cons (str (codes "c1")) nil)) end)

-- A search, the same search, no tool, the end.
abbrev script : ℕ → Action
script zero = record { tool = codes "search_text"; args = search_args }
script (suc zero) = record { tool = codes "search_text"; args = search_args }
script (suc (suc zero)) = record { tool = codes "fly"; args = end }
script (suc (suc (suc n))) = record { tool = codes "finish"; args = finish_args }

abbrev model : Str → List HistoryStep → Action
model question history = script (length history)

abbrev tools : Tools
tools = record {
  search_text = λ query k.
      record { id = codes "c1"; text = codes "a" }
      ∷ record { id = codes "c2"; text = codes "b" }
      ∷ [];
  graph_lookup = λ entity relation hops. [];
  resolve_entity = λ name context. [];
}

abbrev show : Action → Str
show a = a.tool

abbrev dumps : Fields → Str
dumps end = []
dumps (field k v rest) = k ++ dumps rest

abbrev ascii_only : ℕ → Bool
ascii_only c = false

abbrev hash : Str → Str
hash s = s

abbrev question : Str
question = codes "did it grow?"

abbrev run : ℕ → Option (Option (AgentResult × AuditLog))
run max_steps =
    run_agent model tools show dumps ascii_only hash 7 3 (codes "s1") max_steps 100 [] viewer
      question

abbrev facts : Option (Option (AgentResult × AuditLog)) → Str × ℕ × ℕ × ℕ
facts none = ([], 0, 0, 0)
facts (some none) = ([], 0, 0, 0)
facts (some (some (r, log))) = (r.answer, length r.claims, length r.sources, length log)

run-facts :
    (facts (run 8) ≡ (codes "It grew [c1].\n\n— session s1", 1, 1, 7))
    × (facts (run 2)
        ≡ (codes "The agent found insufficient evidence to answer this question.", 0, 0, 5))
unfolding run_loop finish_run cranus.Base.is_space cranus.Storage.Json.get_field
    cranus.Governance.Access.filter_sources_by_license cranus.Governance.Audit.close_session
    cranus.Query.Verify.verify_citations cranus.Governance.Access.check_access
    cranus.Governance.Audit.open_session cranus.Query.Verify.collect_claims
    cranus.Query.Verify.sentences cranus.Query.Verify.cited_ids cranus.Query.Verify.find_citations
    cranus.Query.Verify.id_char cranus.Query.Render.watermark
run-facts = (refl, refl)

run_agent-InBudget_example :
    (s : LoopState) × EndsIn model tools show dumps 7 (codes "s1") question viewer 8 100 [] s
    × (run 8 ≡ some (finish_run ascii_only hash (codes "s1") viewer 7 3 s))
    × InBudget model tools show dumps 7 (codes "s1") question viewer 8 100 s
    × Finished ascii_only hash
        (codes "s1")
        viewer
        7
        3
        s
        (finish_run ascii_only hash (codes "s1") viewer 7 3 s)
run_agent-InBudget_example =
    run_agent-InBudget model tools show dumps 7 (codes "s1") question viewer ascii_only hash 3 8 100
      []

run_agent-events_example :
    (s : LoopState) × (o : Option (AgentResult × AuditLog)) × EndsIn model tools show dumps 7
      (codes "s1")
      question
      viewer
      8
      100
      []
      s
    × (run 8 ≡ some o)
    × Closes model tools show dumps ascii_only hash 7 3 (codes "s1") question viewer s o
    × Ended model tools show dumps 7 (codes "s1") question viewer [] s
run_agent-events_example =
    run_agent-events model tools show dumps ascii_only hash 7 3 (codes "s1") question viewer 8 100
      []

run_agent-IsEvidenced_example :
    (s : LoopState) × (o : Option (AgentResult × AuditLog)) × EndsIn model tools show dumps 7
      (codes "s1")
      question
      viewer
      8
      100
      []
      s
    × (run 8 ≡ some o)
    × All (FromTool model tools show dumps 7 (codes "s1") question viewer) s.history
    × Shows model tools show dumps 7 (codes "s1") question viewer ascii_only hash 3 s o
run_agent-IsEvidenced_example =
    run_agent-IsEvidenced model tools show dumps 7 (codes "s1") question viewer ascii_only hash 3 8
      100 []

abbrev last_state : LoopState
last_state = fresh_state model tools show dumps 7 (codes "s1") question viewer 8 100 []

abbrev gathered_state : LoopState
gathered_state = record last_state {
  gathered = record { id = codes "c1"; text = codes "a" } ∷ [];
  final_answer = str (codes "It grew [c1].");
  final_citations = true;
}

finish_run-any_user_example :
    option_map
      (λ (p : AgentResult × AuditLog). p.0)
      (finish_run ascii_only hash (codes "s1") viewer 7 3 gathered_state)
    ≡ option_map
        (λ (p : AgentResult × AuditLog). p.0)
        (finish_run ascii_only hash (codes "s1") admin 7 3 gathered_state)
finish_run-any_user_example =
    finish_run-any_user ascii_only hash (codes "s1") 7 3 gathered_state viewer admin

-- An answer that is a list, with citations.
malformed-raises :
    finish_run ascii_only hash
      (codes "s1")
      viewer
      7
      3
      (record gathered_state { final_answer = arr (cons (str (codes "It grew [c1].")) nil) })
    ≡ none
unfolding finish_run
malformed-raises = refl
