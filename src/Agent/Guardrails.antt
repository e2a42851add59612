-- ===== src/Agent/Guardrails.antt =====
-- src/cranus/agent/guardrails.py: the budget of one agent run.
use cranus.Base.{
  ℕ, ◌+◌, Bool, true, false, not, List, [], ◌∷◌, ◌++◌, leb, ltb, Str, codes, str_in, is_space,
  if◌then◌else◌,
}
use cranus.Storage.Json.{Fields}

pub record AgentBudget : Type 0 where
  pub max_steps : ℕ
  pub max_total_tokens : ℕ
  pub steps_used : ℕ
  pub tokens_used : ℕ
  pub seen_calls : List Str

abbrev pub steps_exhausted : AgentBudget → Bool
steps_exhausted b = leb b.max_steps b.steps_used

abbrev pub tokens_exhausted : AgentBudget → Bool
tokens_exhausted b = leb b.max_total_tokens b.tokens_used

abbrev pub record_step : AgentBudget → ℕ → AgentBudget
record_step b tokens = record b {
  steps_used = b.steps_used + 1;
  tokens_used = b.tokens_used + tokens;
}

-- `json.dumps` is an argument.
abbrev pub call_key : (Fields → Str) → Str → Fields → Str
call_key dumps tool args = tool ++ (codes ":" ++ dumps args)

-- The answer, and the budget with a new call noted.
abbrev pub is_duplicate_call : (Fields → Str) → AgentBudget → Str → Fields → Bool × AgentBudget
is_duplicate_call dumps b tool args =
    let key = call_key dumps tool args in
    if str_in key b.seen_calls
    then (true, b)
    else (false, record b { seen_calls = b.seen_calls ++ key ∷ [] })

-- `len(text.split())`: a word begins at each visible character that does not follow one.
unfoldable pub count_words : Bool → Str → ℕ
count_words in_word [] = 0
count_words in_word (c ∷ s) =
    (if not (is_space c) then if in_word then 0 else 1 else 0) + count_words (not (is_space c)) s

unfoldable pub estimate_tokens : Str → ℕ
unfolding count_words
estimate_tokens text = if ltb (count_words false text) 1 then 1 else count_words false text
