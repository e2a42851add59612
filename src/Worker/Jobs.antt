-- ===== src/Worker/Jobs.antt =====
-- src/cranus/worker/jobs.py on the table of ingestion jobs, each function one transaction. The rows
-- that other transactions hold locks on, the time and the worker's id are arguments.
pub mod Claims
pub mod Trace
pub mod Queue
mod Tests
use cranus.Base.{
  ℕ, ◌+◌, ◌≡◌, Bool, true, false, not, ◌&&◌, Option, none, some, List, [], ◌∷◌, ltb, Str, str_eq,
  keep_if, if◌then◌else◌,
}
use cranus.Storage.Json.{Json}
use cranus.Storage.Models.{IngestionJob, Status, pending, running, succeeded, failed}
use cranus.Storage.Table.{get_row, find_first, update_rows}

abbrev pub is_pending : Status → Bool
is_pending pending = true
is_pending running = false
is_pending succeeded = false
is_pending failed = false

abbrev pub job_key : IngestionJob → Str
job_key j = j.id

-- `ORDER BY created_at LIMIT 1`: of rows of one time the first.
abbrev pub earlier : IngestionJob → Option IngestionJob → Option IngestionJob
earlier j none = some j
earlier j (some k) = if ltb k.created_at j.created_at then some k else some j

abbrev pub earliest : List IngestionJob → Option IngestionJob
earliest [] = none
earliest (j ∷ js) = earlier j (earliest js)

module _ (worker_id : Str) (now : ℕ) where
  abbrev pub mark_running : IngestionJob → IngestionJob
  mark_running j = record j {
    status = running;
    started_at = some now;
    locked_by = some worker_id;
    locked_at = some now;
  }

  -- The row that was selected, if one was, is changed and returned.
  abbrev pub claim :
      Option IngestionJob → List IngestionJob → List IngestionJob × Option IngestionJob
  claim none jobs = (jobs, none)
  claim (some j) jobs = (update_rows job_key j.id mark_running jobs, some (mark_running j))

  module _ (locked : Str → Bool) where
    -- A row that waits, and that `SKIP LOCKED` does not skip.
    abbrev pub is_free : IngestionJob → Bool
    is_free j = is_pending j.status && not (locked j.id)

    unfoldable pub claim_next_job : List IngestionJob → List IngestionJob × Option IngestionJob
    claim_next_job jobs = claim (earliest (keep_if is_free jobs)) jobs

    unfoldable pub claim_job_by_id :
        Str → List IngestionJob → List IngestionJob × Option IngestionJob
    claim_job_by_id job_id jobs =
        claim (find_first (λ (j : IngestionJob). str_eq j.id job_id && is_free j) jobs) jobs

abbrev pub or_kept {ℓ} : {A : Type ℓ} → Option A → Option A → Option A
or_kept none kept = kept
or_kept (some a) kept = some a

abbrev pub finished : ℕ → Status → Option Json → Option Str → IngestionJob → IngestionJob
finished now status result error j = record j {
  status = status;
  finished_at = some now;
  result = or_kept result j.result;
  error = or_kept error j.error;
}

abbrev pub finish_row :
    ℕ
    → Status
    → Option Json
    → Option Str
    → Option IngestionJob
    → List IngestionJob
    → List IngestionJob
finish_row now status result error none jobs = jobs
finish_row now status result error (some j) jobs =
    update_rows job_key j.id (finished now status result error) jobs

unfoldable pub finish :
    ℕ → Str → Status → Option Json → Option Str → List IngestionJob → List IngestionJob
finish now job_id status result error jobs =
    finish_row now status result error (get_row job_key job_id jobs) jobs

-- What `run_connector_job` does: it returns a result, or it raises.
pub data Outcome : Type 0 where
  produced : Json → Outcome
  raised : (traceback : Str) → Outcome

unfoldable pub record_outcome : ℕ → Str → Outcome → List IngestionJob → List IngestionJob
unfolding finish
record_outcome now job_id (produced result) jobs =
    finish now job_id succeeded (some result) none jobs
record_outcome now job_id (raised traceback) jobs =
    finish now job_id failed none (some traceback) jobs

unfoldable pub run_job :
    ℕ → (IngestionJob → Outcome) → IngestionJob → List IngestionJob → List IngestionJob
unfolding record_outcome
run_job now run_connector_job job jobs = record_outcome now job.id (run_connector_job job) jobs
