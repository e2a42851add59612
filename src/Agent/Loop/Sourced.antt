-- ===== src/Agent/Loop/Sourced.antt =====
-- The ids gathered by the loop of src/cranus/agent/loop.py are those that the tools returned.
use cranus.Base.{
  false, ℕ, ◌≡◌, refl, sym, ap, ◌∙◌, ◌↔◌, inl, inr, Bool, true, subst, List, [], ◌∷◌, ◌++◌,
  append-nil, Str, All, All-append, Has,
}
use cranus.Storage.Json.{Fields}
use cranus.Storage.Models.{User}
use cranus.Agent.Loop.{
  Action, Outcome, HistoryStep, Tools, LoopState, result, dispatch, gather, is_dispatched,
  unknown_tool, duplicate_call, ids,
}
use cranus.Agent.Loop.Rounds.{Acted, stops, rejects, repeats, executes, recorded, logged}
use cranus.Agent.Loop.Gathered.{Has-append, gather-Has, found_ids, found_ids-snoc, items_of}

module _ (next_action : Str → List HistoryStep → Action) (tools : Tools)
    (show_action : Action → Str) (dumps : Fields → Str) (now : ℕ) (session_id question : Str)
    (user : User) where
  -- A call that was executed has the name of a tool, and the items that this tool returns; one that is
  -- noted as of an unknown tool has no such name.
  abbrev pub FromOutcome : Str → Fields → Outcome → Type 0
  FromOutcome tool args (result items) =
      (is_dispatched tool ≡ true) × (items ≡ dispatch tools question tool args)
  FromOutcome tool args unknown_tool = is_dispatched tool ≡ false
  FromOutcome tool args duplicate_call = Unit {0}

  abbrev pub FromTool : HistoryStep → Type 0
  FromTool h = FromOutcome h.tool h.args h.outcome

  -- The ids gathered are those that the calls returned.
  pub record IsSourced (s : LoopState) : Type 0 where
    pub history : All FromTool s.history
    pub gathered : (i : Str) → Has i (ids s.gathered) ↔ Has i (found_ids s.history)

  abbrev logs : LoopState → LoopState
  logs = logged next_action tools show_action dumps now session_id question user

  skipped-IsSourced :
      (s : LoopState) (a : Action) (o : Outcome)
      → items_of o ≡ []
      → FromOutcome a.tool a.args o
      → IsSourced s
      → IsSourced (record s { history = recorded s a o })
  skipped-IsSourced s a o none_found from i =
      let last : HistoryStep = record { tool = a.tool; args = a.args; outcome = o } in
      record {
        history = All-append FromTool s.history (last ∷ []) i.history (from, tt);
        gathered = λ j.
            subst (λ ks. Has j (ids s.gathered) ↔ Has j ks)
              (sym (
                found_ids-snoc s.history last
                ∙ ap (λ l. found_ids s.history ++ ids l) none_found
                ∙ append-nil (found_ids s.history)))
              (i.gathered j);
      }

  pub Acted-IsSourced :
      (s : LoopState) (a : Action) (r : LoopState × Bool)
      → IsSourced s
      → Acted next_action tools show_action dumps now session_id question user s a r
      → IsSourced r.0
  Acted-IsSourced s a _ i (stops e) = record { history = i.history; gathered = i.gathered }
  Acted-IsSourced s a _ i (rejects u) = skipped-IsSourced s a unknown_tool refl u i
  Acted-IsSourced s a _ i (repeats d) = skipped-IsSourced s a duplicate_call refl tt i
  Acted-IsSourced s a _ i (executes u d) =
      let items = dispatch tools question a.tool a.args in
      let last : HistoryStep = record { tool = a.tool; args = a.args; outcome = result items } in
      record {
        history = All-append FromTool s.history (last ∷ []) i.history ((u, refl), tt);
        gathered = λ j.
            subst (λ ks. Has j (ids (gather items s.gathered)) ↔ Has j ks)
              (sym (found_ids-snoc s.history last))
              (
                λ m.
                    (Has-append j (found_ids s.history) (ids items)).1
                      (elim ((gather-Has items s.gathered j).0 m) [
                        | inl h ↦ inr h
                        | inr h ↦ inl ((i.gathered j).0 h)
                      ]),
                λ m.
                    (gather-Has items s.gathered j).1
                      (elim ((Has-append j (found_ids s.history) (ids items)).0 m) [
                        | inl h ↦ inr ((i.gathered j).1 h)
                        | inr h ↦ inl h
                      ]),
              );
      }
