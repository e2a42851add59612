-- ===== src/Worker/Jobs/Tests.antt =====
-- Two jobs in the queue of src/cranus/worker/jobs.py, and its theorems there.
use cranus.Base.{ℕ, ◌≡◌, refl, Bool, false, some, none, List, [], ◌∷◌, Str, codes}
use cranus.Storage.Json.{str, end}
use cranus.Storage.Models.{IngestionJob, pending}
use cranus.Worker.Jobs.Queue.{
  Operation, create, poll, receive, run, queued, ended, claimed, refused, perform_all, waiting,
  Specs,
}
use cranus.Worker.Jobs.Queue.Refined.{perform_all-Specs}
use cranus.Worker.Jobs.{claim_job_by_id, run_job, mark_running, claim_next_job, Outcome, produced}
use cranus.Worker.Jobs.Claims.{IsNext, claim_next_job-IsNext}
use cranus.Worker.Jobs.Trace.{Trace, empty, created, next_claimed, Once, Trace-Once}

abbrev job : Str → ℕ → IngestionJob
job id time = record {
  id = id;
  connector_name = codes "wikipedia";
  status = pending;
  params = end;
  result = none;
  error = none;
  created_at = time;
  started_at = none;
  finished_at = none;
  locked_by = none;
  locked_at = none;
}

abbrev late : IngestionJob
late = job (codes "j1") 9

abbrev early : IngestionJob
early = job (codes "j2") 4

abbrev jobs : List IngestionJob
jobs = late ∷ early ∷ []

abbrev none_locked : Str → Bool
none_locked id = false

abbrev worker : Str
worker = codes "worker-1"

claim_next_job-jobs :
    claim_next_job worker 20 none_locked jobs
    ≡ (late ∷ mark_running worker 20 early ∷ [], some (mark_running worker 20 early))
unfolding claim_next_job
claim_next_job-jobs = refl

claim_next_job-IsNext_example :
    IsNext worker 20 none_locked jobs (claim_next_job worker 20 none_locked jobs)
claim_next_job-IsNext_example = claim_next_job-IsNext worker 20 none_locked jobs

abbrev run_connector : IngestionJob → Outcome
run_connector j = produced (str (codes "done"))

created_jobs : Trace [] jobs
created_jobs = created (created empty late (λ m. m)) early (λ m. m)

first_claim : Trace (codes "j2" ∷ []) (claim_next_job worker 20 none_locked jobs).0
unfolding claim_next_job
first_claim = next_claimed created_jobs worker 20 none_locked (mark_running worker 20 early) refl

Trace-Once_example : Once (codes "j2" ∷ []) (claim_next_job worker 20 none_locked jobs).0
Trace-Once_example =
    Trace-Once (codes "j2" ∷ []) (claim_next_job worker 20 none_locked jobs).0 first_claim

-- Two jobs are added, the earlier one is claimed, the other is claimed by a message and ends, and a message for it comes
-- again.
abbrev operations : List Operation
operations =
    create late
    ∷ create early
    ∷ poll worker 20 none_locked
    ∷ receive worker 21 none_locked (codes "j1")
    ∷ run 22 run_connector late
    ∷ receive worker 23 none_locked (codes "j1")
    ∷ []

perform_all-operations :
    (perform_all operations []).1
    ≡ queued (codes "j1")
      ∷ queued (codes "j2")
      ∷ claimed none_locked (codes "j2")
      ∷ claimed none_locked (codes "j1")
      ∷ ended (codes "j1")
      ∷ refused none_locked (codes "j1")
      ∷ []
unfolding perform_all claim_next_job claim_job_by_id run_job
perform_all-operations = refl

perform_all-Specs_example :
    Specs (waiting []) (perform_all operations []).1 (waiting (perform_all operations []).0)
perform_all-Specs_example = perform_all-Specs operations []
