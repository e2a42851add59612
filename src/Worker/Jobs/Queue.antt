-- ===== src/Worker/Jobs/Queue.antt =====
-- The table of src/cranus/worker/jobs.py as an abstract queue: the ids that wait.
pub mod Refined
use cranus.Base.{
  ℕ, ◌≡◌, refl, sym, ap, subst, ◌∙◌, inl, inr, Bool, true, false, not, ◌&&◌, Option, none, some,
  List, [], ◌∷◌, ◌++◌, arith, map, keep_if, keep_if-Has, Has-keep_if, Has, Has-map, map-Has, All,
  Has-All, Str, str_eq, str_eq→eq, str_eq_refl, Bool-cases, Option-cases, true_ne_false, and_left,
  and_right, if◌then◌else◌,
}
use cranus.Storage.Json.{Json}
use cranus.Storage.Models.{IngestionJob, Status, pending, running, succeeded, failed}
use cranus.Storage.Table.{get_row, find_first, find_first-Has, update_rows}
use cranus.Worker.Jobs.{
  job_key, is_pending, mark_running, claim, is_free, claim_next_job, claim_job_by_id, finished,
  finish_row, finish, Outcome, produced, raised, record_outcome, run_job,
}
use cranus.Worker.Jobs.Claims.{IsNext, nothing_free, next, claim_next_job-IsNext}

-- One transaction, or the creation of a job.
pub data Operation : Type 0 where
  create : IngestionJob → Operation
  poll : (worker_id : Str) → ℕ → (locked : Str → Bool) → Operation
  receive : (worker_id : Str) → ℕ → (locked : Str → Bool) → (job_id : Str) → Operation
  run : ℕ → (IngestionJob → Outcome) → IngestionJob → Operation

-- What is seen of one.
pub data Event : Type 0 where
  queued ended : (id : Str) → Event
  claimed : (locked : Str → Bool) → (id : Str) → Event
  none_free : (locked : Str → Bool) → Event
  refused : (locked : Str → Bool) → (id : Str) → Event

abbrev pub polled :
    (Str → Bool) → List IngestionJob × Option IngestionJob → List IngestionJob × Event
polled locked (jobs, none) = (jobs, none_free locked)
polled locked (jobs, some j) = (jobs, claimed locked j.id)

abbrev pub received :
    (Str → Bool) → Str → List IngestionJob × Option IngestionJob → List IngestionJob × Event
received locked id (jobs, none) = (jobs, refused locked id)
received locked id (jobs, some j) = (jobs, claimed locked j.id)

-- A new row is pending.
unfoldable pub perform : Operation → List IngestionJob → List IngestionJob × Event
perform (create job) jobs = (jobs ++ record job { status = pending } ∷ [], queued job.id)
perform (poll w now locked) jobs = polled locked (claim_next_job w now locked jobs)
perform (receive w now locked id) jobs = received locked id (claim_job_by_id w now locked id jobs)
perform (run now connector job) jobs = (run_job now connector job jobs, ended job.id)

unfoldable pub perform_all : List Operation → List IngestionJob → List IngestionJob × List Event
unfolding perform
perform_all [] jobs = (jobs, [])
perform_all (op ∷ ops) jobs =
    let (jobs', e) = perform op jobs in let (jobs'', es) = perform_all ops jobs' in (jobs'', e ∷ es)

abbrev pub waits : IngestionJob → Bool
waits j = is_pending j.status

abbrev pub waiting : List IngestionJob → List Str
waiting jobs = map job_key (keep_if waits jobs)

abbrev pub is_not : Str → Str → Bool
is_not id i = not (str_eq i id)

abbrev pub without : Str → List Str → List Str
without id = keep_if (is_not id)

-- The abstract queue: only an id that waits is claimed, and it waits no more; nothing is claimed only where all ids
-- that wait, or the one asked for, are locked.
pub data Spec (q : List Str) : Event → List Str → Type 0 where
  queues : (id : Str) → Spec q (queued id) (q ++ id ∷ [])
  ends : (id : Str) → Spec q (ended id) (without id q)
  claims :
      (locked : Str → Bool) (id : Str)
      → Has id q
      → locked id ≡ false
      → Spec q (claimed locked id) (without id q)
  finds_none :
      (locked : Str → Bool) → ((i : Str) → Has i q → locked i ≡ true) → Spec q (none_free locked) q
  refuses :
      (locked : Str → Bool) (id : Str)
      → (Has id q → locked id ≡ true)
      → Spec q (refused locked id) q

pub data Specs : List Str → List Event → List Str → Type 0 where
  finish_specs : {q : List Str} → Specs q [] q
  spec_then :
      {e : Event} {es : List Event} {q q' q'' : List Str}
      → Spec q e q'
      → Specs q' es q''
      → Specs q (e ∷ es) q''
