-- ===== src/Agent/Loop/Final.antt =====
-- Which text `run_agent` of src/cranus/agent/loop.py has checked, and when it raises instead.
use cranus.Base.{
  ℕ, ◌≡◌, refl, ◌⊎◌, inl, inr, Bool, true, false, Option, none, some, List, [], Str, Bool-cases,
}
use cranus.Storage.Json.{Json, null, bool, num, str, arr, obj, truthy}
use cranus.Storage.Models.{User}
use cranus.Governance.Audit.{AuditLog}
use cranus.Query.Verify.{verify_citations}
use cranus.Agent.Loop.{
  LoopState, ids, AgentResult, verify_json, verified_answer, conclude, finish_run,
}

abbrev pub is_text : Json → Bool
is_text null = false
is_text (bool b) = false
is_text (num n) = false
is_text (str s) = true
is_text (arr items) = false
is_text (obj fields) = false

-- An answer that is not empty and is no text, with citations.
pub record IsMalformed (s : LoopState) : Type 0 where
  pub answered : truthy s.final_answer ≡ true
  pub cites : s.final_citations ≡ true
  pub no_text : is_text s.final_answer ≡ false

-- The text that is checked: the answer, if it is not empty and came with citations, or else none.
abbrev pub IsChecked : LoopState → Str → Type 0
IsChecked s raw =
    ((truthy s.final_answer ≡ true) × (s.final_citations ≡ true) × (s.final_answer ≡ str raw))
    ⊎ (((truthy s.final_answer ≡ false) ⊎ (s.final_citations ≡ false)) × (raw ≡ []))

module _ (unicode_word : ℕ → Bool) where
  abbrev IsVerified : LoopState → Str → Type 0
  IsVerified s raw =
      verified_answer unicode_word s ≡ some (verify_citations unicode_word raw (ids s.gathered))

  verify_json-cases :
      (j : Json) (valid : List Str)
      → ((verify_json unicode_word j valid ≡ none) × (is_text j ≡ false))
        ⊎ ((raw : Str) × (j ≡ str raw)
            × (verify_json unicode_word j valid ≡ some (verify_citations unicode_word raw valid)))
  verify_json-cases null valid = inl (refl, refl)
  verify_json-cases (bool b) valid = inl (refl, refl)
  verify_json-cases (num n) valid = inl (refl, refl)
  verify_json-cases (str s) valid = inr (s, refl, refl)
  verify_json-cases (arr items) valid = inl (refl, refl)
  verify_json-cases (obj fields) valid = inl (refl, refl)

  -- Checking the answer raises exactly for a malformed one.
  pub verified_answer-cases :
      (s : LoopState)
      → ((verified_answer unicode_word s ≡ none) × IsMalformed s)
        ⊎ ((raw : Str) × IsVerified s raw × IsChecked s raw)
  unfolding verified_answer
  verified_answer-cases s = elim (Bool-cases (truthy s.final_answer)) [
    | inr a ↦ inr ([], rw a refl, inr (inl a, refl))
    | inl a ↦ elim (Bool-cases s.final_citations) [
      | inr c ↦ inr ([], rw (a, c) refl, inr (inr c, refl))
      | inl c ↦ elim (verify_json-cases s.final_answer (ids s.gathered)) [
        | inl (e, n) ↦ inl (rw (a, c) e, record { answered = a; cites = c; no_text = n })
        | inr (raw, is_raw, e) ↦ inr (raw, rw (a, c) e, inl (a, c, is_raw))
      ]
    ]
  ]

  module _ (sha256 : Str → Str) (session_id : Str) (user : User) (now latency_ms : ℕ) where
    -- Behind the loop the run raises for a malformed answer, and otherwise concludes with what the check
    -- of a text says.
    pub data Finished (s : LoopState) : Option (AgentResult × AuditLog) → Type 0 where
      raises : IsMalformed s → Finished s none
      concludes :
          (raw : Str)
          → IsChecked s raw
          → Finished s (
              some (
                conclude sha256 session_id user now latency_ms s
                  (verify_citations unicode_word raw (ids s.gathered))))

    pub finish_run-Finished :
        (s : LoopState)
        → Finished s (finish_run unicode_word sha256 session_id user now latency_ms s)
    unfolding finish_run
    finish_run-Finished s = elim (verified_answer-cases s) [
      | inl (e, m) ↦ rw e (raises m)
      | inr (raw, e, c) ↦ rw e (concludes raw c)
    ]
