-- ===== src/Worker/Jobs/Trace.antt =====
-- The transactions of src/cranus/worker/jobs.py in any order and by any workers: no job is claimed twice.
use cranus.Base.{
  and_left, and_right, ℕ, ◌≡◌, refl, ap, subst, ◌⊎◌, inl, inr, Bool, true, false, ◌&&◌, Option,
  none, some, List, [], ◌∷◌, ◌++◌, arith, Str, str_eq, str_eq_refl, All, All-Has, All-append, Has,
  Distinct,
}
use cranus.Storage.Models.{IngestionJob, Status, succeeded, failed}
use cranus.Storage.Json.{Json}
use cranus.Storage.Table.{get_row, find_first, find_first-Has, update_rows, All-update_rows}
use cranus.Worker.Jobs.{
  job_key, is_pending, mark_running, claim, is_free, claim_next_job, claim_job_by_id, finished,
  finish_row, finish, Outcome, produced, raised, record_outcome, run_job,
}
use cranus.Worker.Jobs.Claims.{IsNext, nothing_free, next, claim_next_job-IsNext}

-- Tables that transactions lead to from an empty one, with the ids claimed so far, the last first.
pub data Trace : List Str → List IngestionJob → Type 0 where
  empty : Trace [] []
  created :
      {claimed : List Str} {jobs : List IngestionJob}
      → Trace claimed jobs
      → (job : IngestionJob) → (¬ (Has job.id claimed))
      → Trace claimed (jobs ++ job ∷ [])
  next_claimed :
      {claimed : List Str} {jobs : List IngestionJob}
      → Trace claimed jobs
      → (worker_id : Str) (now : ℕ) (locked : Str → Bool) (job : IngestionJob)
      → (claim_next_job worker_id now locked jobs).1 ≡ some job
      → Trace (job.id ∷ claimed) (claim_next_job worker_id now locked jobs).0
  id_claimed :
      {claimed : List Str} {jobs : List IngestionJob}
      → Trace claimed jobs
      → (worker_id : Str) (now : ℕ) (locked : Str → Bool) (job_id : Str) (job : IngestionJob)
      → (claim_job_by_id worker_id now locked job_id jobs).1 ≡ some job
      → Trace (job.id ∷ claimed) (claim_job_by_id worker_id now locked job_id jobs).0
  ran :
      {claimed : List Str} {jobs : List IngestionJob}
      → Trace claimed jobs
      → (now : ℕ) (run_connector_job : IngestionJob → Outcome) (job : IngestionJob)
      → Has job.id claimed
      → Trace claimed (run_job now run_connector_job job jobs)

-- A job that waits no more, or that was not claimed.
abbrev pub IsLeft : List Str → IngestionJob → Type 0
IsLeft claimed j = (is_pending j.status ≡ false) ⊎ (¬ (Has j.id claimed))

-- Distinct claims, and no claimed job that waits.
abbrev pub Once : List Str → List IngestionJob → Type 0
Once claimed jobs = Distinct claimed × All (IsLeft claimed) jobs

module _ (worker_id : Str) (now : ℕ) (locked : Str → Bool) (claimed : List Str)
    (jobs : List IngestionJob) where
  claimed-Once :
      (j job : IngestionJob)
      → Has j jobs
      → is_free worker_id now locked j ≡ true
      → mark_running worker_id now j ≡ job
      → Once claimed jobs
      → Once (job.id ∷ claimed) (update_rows job_key j.id (mark_running worker_id now) jobs)
  claimed-Once j job there is_true same (d, left) =
      subst (λ i. Once (i ∷ claimed) (update_rows job_key j.id (mark_running worker_id now) jobs))
        (ap (λ (k : IngestionJob). k.id) same)
        (
          (
            λ m. elim (All-Has (IsLeft claimed) j jobs left there) [
              | inl e ↦ ground (arith, e, and_left (is_pending j.status) _ is_true)
              | inr n ↦ n m
            ],
            d,
          ),
          All-update_rows {P = IsLeft claimed} {Q = IsLeft (j.id ∷ claimed)} job_key j.id
              (mark_running worker_id now) jobs (λ r p e. inl refl)
              (λ r p e. elim p [
                | inl q ↦ inl q
                | inr n ↦ inr (λ m. elim m [
                  | inl q ↦ ground (arith, e, str_eq_refl r.id, ap (str_eq r.id) q)
                  | inr h ↦ n h
                ])
              ])
              left,
        )

  next-Once :
      (r : List IngestionJob × Option IngestionJob) (job : IngestionJob)
      → IsNext worker_id now locked jobs r
      → r.1 ≡ some job
      → Once claimed jobs
      → Once (job.id ∷ claimed) r.0
  next-Once _ job (nothing_free h) e o = absurd (cc)
  next-Once _ job (next j there is_true first) e o =
      claimed-Once j job there is_true (ground (arith, e)) o

  claim-Once :
      (o : Option IngestionJob) (job : IngestionJob)
      → ((j : IngestionJob) → o ≡ some j → Has j jobs × (is_free worker_id now locked j ≡ true))
      → (claim worker_id now o jobs).1 ≡ some job
      → Once claimed jobs
      → Once (job.id ∷ claimed) (claim worker_id now o jobs).0
  claim-Once none job h e once = absurd (cc)
  claim-Once (some j) job h e once =
      let (there, is_true) = h j refl in claimed-Once j job there is_true (ground (arith, e)) once

finish_row-Left :
    (claimed : List Str) (now : ℕ) (status : Status) (result : Option Json) (error : Option Str)
    (o : Option IngestionJob) (jobs : List IngestionJob)
    → is_pending status ≡ false
    → All (IsLeft claimed) jobs
    → All (IsLeft claimed) (finish_row now status result error o jobs)
finish_row-Left claimed now status result error none jobs over left = left
finish_row-Left claimed now status result error (some j) jobs over left =
    All-update_rows {P = IsLeft claimed} {Q = IsLeft claimed} job_key j.id
      (finished now status result error) jobs (λ r p e. inl over) (λ r p e. p) left

outcome-Left :
    (claimed : List Str) (now : ℕ) (job_id : Str) (o : Outcome) (jobs : List IngestionJob)
    → All (IsLeft claimed) jobs
    → All (IsLeft claimed) (record_outcome now job_id o jobs)
unfolding record_outcome finish
outcome-Left claimed now job_id (produced result) jobs left =
    finish_row-Left claimed now succeeded (some result) none (get_row job_key job_id jobs) jobs refl
      left
outcome-Left claimed now job_id (raised traceback) jobs left =
    finish_row-Left claimed now failed none (some traceback) (get_row job_key job_id jobs) jobs refl
      left

-- However the transactions of the workers and the creation of jobs interleave, by polling or by
-- message, whatever rows are locked and whatever the runs do: no job is claimed twice, and no job that
-- was claimed is pending. It is assumed that a new job's id is none of those claimed.
pub Trace-Once :
    (claimed : List Str) (jobs : List IngestionJob) → Trace claimed jobs → Once claimed jobs
unfolding claim_job_by_id run_job
Trace-Once _ _ empty = (tt, tt)
Trace-Once _ _ (created t job new) =
    let (d, left) = Trace-Once _ _ t in (d, All-append (IsLeft _) _ (job ∷ []) left (inr new, tt))
Trace-Once _ _ (next_claimed t w now locked job e) =
    next-Once w now locked _ _ _ job (claim_next_job-IsNext w now locked _) e (Trace-Once _ _ t)
Trace-Once _ _ (id_claimed {claimed} {jobs} t w now locked job_id job e) =
    let wanted = λ (j : IngestionJob). str_eq j.id job_id && is_free w now locked j in
    claim-Once w now locked claimed jobs (find_first wanted jobs) job
      (λ j q.
        let (there, h) = find_first-Has wanted jobs j q in
        (there, and_right (str_eq j.id job_id) (is_free w now locked j) h))
      e (Trace-Once claimed jobs t)
Trace-Once _ _ (ran {claimed} {jobs} t now run job m) =
    let (d, left) = Trace-Once claimed jobs t in
    (d, outcome-Left claimed now job.id (run job) jobs left)
