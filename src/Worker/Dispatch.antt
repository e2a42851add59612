-- ===== src/Worker/Dispatch.antt =====
-- The way of a job by the message broker: `run_connector` of src/cranus/api/routers/admin_connectors.py adds the row
-- and publishes the message within one session, which is committed when the route has returned; `consume_forever` of
-- src/cranus/worker/kafka_queue.py hands each message to `_handle` of src/cranus/worker/main.py and then commits
-- its offset. A message is the id of a job, the only part of it that is read; what a run does is an argument.
pub mod Lost
pub mod Run
mod Tests
use cranus.Base.{ℕ, Bool, Option, none, some, List, [], ◌∷◌, ◌++◌, Str}
use cranus.Storage.Models.{IngestionJob}
use cranus.Worker.Jobs.{Outcome, claim_job_by_id, run_job}

-- The rows that are committed, those of the sessions that are still open, and the messages not yet consumed.
pub record Dispatch : Type 0 where
  pub jobs : List IngestionJob
  pub uncommitted : List IngestionJob
  pub topic : List Str

-- `_handle`: nothing is done unless the job is claimed.
abbrev pub run_claimed :
    ℕ → (IngestionJob → Outcome) → List IngestionJob × Option IngestionJob → List IngestionJob
run_claimed now run_connector_job (jobs, none) = jobs
run_claimed now run_connector_job (jobs, some job) = run_job now run_connector_job job jobs

unfoldable pub handle :
    (worker_id : Str)
    → ℕ
    → (locked : Str → Bool) → (IngestionJob → Outcome)
    → Str
    → List IngestionJob
    → List IngestionJob
handle worker_id now locked run_connector_job job_id jobs =
    run_claimed now run_connector_job (claim_job_by_id worker_id now locked job_id jobs)

-- The route before its session ends: the row is added, and the message is published.
unfoldable pub publish : IngestionJob → Dispatch → Dispatch
publish job d = record d { uncommitted = d.uncommitted ++ job ∷ []; topic = d.topic ++ job.id ∷ [] }

-- The sessions of the routes that have returned are committed.
unfoldable pub commit : Dispatch → Dispatch
commit d = record d { jobs = d.jobs ++ d.uncommitted; uncommitted = [] }

-- One round of the consumer: the offset is committed whether the job was claimed or not.
unfoldable pub consume :
    (worker_id : Str) → ℕ → (locked : Str → Bool) → (IngestionJob → Outcome) → Dispatch → Dispatch
unfolding handle
consume worker_id now locked run_connector_job d = elim d.topic [
  | [] ↦ d
  | job_id ∷ rest ↦ record d {
    jobs = handle worker_id now locked run_connector_job job_id d.jobs;
    topic = rest;
  }
]
