-- ===== src/Worker/Dispatch/Tests.antt =====
-- A job of src/cranus/api/routers/admin_connectors.py whose message is consumed before, and after, the commit.
use cranus.Base.{◌≡◌, refl, Bool, false, none, [], ◌∷◌, Str, codes, arith}
use cranus.Storage.Json.{str, end}
use cranus.Storage.Models.{IngestionJob, pending}
use cranus.Worker.Jobs.{mark_running, claim_job_by_id, run_job, Outcome, produced}
use cranus.Worker.Jobs.Claims.{run_row}
use cranus.Worker.Dispatch.{Dispatch, publish, commit, consume}
use cranus.Worker.Dispatch.Lost.{now, committed, consumed, published, IsLost, publish-IsLost}

abbrev job : Str → IngestionJob
job id = record {
  id = id;
  connector_name = codes "edgar";
  status = pending;
  params = end;
  result = none;
  error = none;
  created_at = 3;
  started_at = none;
  finished_at = none;
  locked_by = none;
  locked_at = none;
}

abbrev filing : IngestionJob
filing = job (codes "j7")

abbrev other : IngestionJob
other = job (codes "j8")

abbrev none_locked : Str → Bool
none_locked id = false

abbrev worker : Str
worker = codes "worker-2"

abbrev run : IngestionJob → Outcome
run j = produced (str (codes "ok"))

abbrev raced : Dispatch
raced =
    consume worker 5 none_locked run
      (publish filing (record { jobs = []; uncommitted = []; topic = [] }))

abbrev after_another : Dispatch
after_another = consume worker 7 none_locked run (commit (publish other (commit raced)))

other-ne : ¬ (other.id ≡ filing.id)
other-ne e = absurd (ground (arith, e))

-- The job that was raced is still pending when a later one has run.
after_another-jobs :
    after_another.jobs
    ≡ filing ∷ run_row 7 (produced (str (codes "ok"))) (mark_running worker 7 other) ∷ []
unfolding consume commit publish claim_job_by_id run_job
after_another-jobs = refl

publish-IsLost_example : IsLost filing after_another
publish-IsLost_example =
    publish-IsLost filing worker 5 none_locked run [] [] after_another
      (consumed (committed (published (committed now) other other-ne)) worker 7 none_locked run)
