-- ===== src/Worker/Jobs/Claims.antt =====
-- What a claim of src/cranus/worker/jobs.py does, and what the run of a claimed job leaves behind.
use cranus.Base.{
  and_left, ℕ, ◌≤◌, ◌≡◌, refl, ap, sym, subst, ◌∙◌, ◌≢◌, inl, inr, Bool, true, false, ◌&&◌, Option,
  option_map, none, some, List, [], ◌∷◌, arith, ltb, ltb→ge, Str, str_eq, str_eq→eq, str_eq_refl,
  Bool-cases, Option-cases, keep_if, Has-keep_if, All, Has,
}
use cranus.Storage.Json.{Json}
use cranus.Storage.Models.{IngestionJob, Status, running, succeeded, failed}
use cranus.Storage.Table.{
  get_row, find_first, find_first-Has, update_rows, All-update_rows, get_row-update_rows,
  get_row-update_rows_ne,
}
use cranus.Worker.Jobs.{
  job_key, earlier, earliest, mark_running, claim, is_free, claim_next_job, claim_job_by_id,
  finished, finish_row, finish, Outcome, produced, raised, record_outcome, run_job,
}

-- A job of the list that is as early as any.
abbrev IsEarliest : List IngestionJob → Option IngestionJob → Type 0
IsEarliest js none = js ≡ []
IsEarliest js (some j) = Has j js × All (λ (k : IngestionJob). j.created_at ≤ k.created_at) js

All-later :
    (a b : ℕ) (js : List IngestionJob)
    → a ≤ b
    → All (λ (k : IngestionJob). b ≤ k.created_at) js
    → All (λ (k : IngestionJob). a ≤ k.created_at) js
All-later a b [] h later = tt
All-later a b (k ∷ js) h later = (omega (arith, later.0), All-later a b js h later.1)

earlier-IsEarliest :
    (j : IngestionJob) (js : List IngestionJob) (o : Option IngestionJob)
    → IsEarliest js o
    → IsEarliest (j ∷ js) (earlier j o)
earlier-IsEarliest j js none h = (
  inl refl,
  (omega arith, subst (All (λ (k : IngestionJob). j.created_at ≤ k.created_at)) (sym h) tt),
)
earlier-IsEarliest j js (some k) h = elim (Bool-cases (ltb k.created_at j.created_at)) [
  | inl e ↦ rw e (inr h.0, (ground arith, h.1))
  | inr e ↦
      rw e (inl refl, (omega arith, All-later j.created_at k.created_at js (ltb→ge _ _ e) h.1))
]

earliest-IsEarliest : (js : List IngestionJob) → IsEarliest js (earliest js)
earliest-IsEarliest [] = refl
earliest-IsEarliest (j ∷ js) = earlier-IsEarliest j js (earliest js) (earliest-IsEarliest js)

module _ (worker_id : Str) (now : ℕ) (locked : Str → Bool) where
  abbrev free : IngestionJob → Bool
  free = is_free worker_id now locked

  -- A claimed row: running since the claim, and locked by the worker since then; the rest is kept.
  abbrev pub claimed : IngestionJob → IngestionJob
  claimed j = record {
    id = j.id;
    connector_name = j.connector_name;
    status = running;
    params = j.params;
    result = j.result;
    error = j.error;
    created_at = j.created_at;
    started_at = some now;
    finished_at = j.finished_at;
    locked_by = some worker_id;
    locked_at = some now;
  }

  -- Either no row is free and nothing changes, or one is claimed that is as early as any free one.
  pub data IsNext (jobs : List IngestionJob)
      : List IngestionJob × Option IngestionJob → Type 0 where
    nothing_free : keep_if free jobs ≡ [] → IsNext jobs (jobs, none)
    next :
        (j : IngestionJob)
        → Has j jobs
        → free j ≡ true
        → All (λ (k : IngestionJob). j.created_at ≤ k.created_at) (keep_if free jobs)
        → IsNext jobs (update_rows job_key j.id claimed jobs, some (claimed j))

  claim-IsNext :
      (jobs : List IngestionJob) (o : Option IngestionJob)
      → IsEarliest (keep_if free jobs) o
      → IsNext jobs (claim worker_id now o jobs)
  claim-IsNext jobs none h = nothing_free h
  claim-IsNext jobs (some j) h =
      let (there, is_true) = Has-keep_if free j jobs h.0 in next j there is_true h.1

  -- The next job: nothing changes when no row is pending and unlocked; otherwise a row that was, and
  -- that was created no later than any other such row, is running and locked by the worker from now on,
  -- and nothing else of it or of the other rows is changed.
  pub claim_next_job-IsNext :
      (jobs : List IngestionJob) → IsNext jobs (claim_next_job worker_id now locked jobs)
  unfolding claim_next_job
  claim_next_job-IsNext jobs =
      claim-IsNext jobs (earliest (keep_if free jobs)) (earliest-IsEarliest (keep_if free jobs))

find_first-none :
    {A : Type 0} (p : A → Bool) (rows : List A)
    → All (λ r. p r ≡ false) rows
    → find_first p rows ≡ none
find_first-none p [] h = refl
find_first-none p (r ∷ rows) h = rw (h.0) (find_first-none p rows h.1)

All-any : {A : Type 0} (rows : List A) → All (λ r. Unit {0}) rows
All-any [] = tt
All-any (r ∷ rows) = (tt, All-any rows)

module _ (worker_id other_worker : Str) (now later : ℕ) (locked locked_later : Str → Bool) where
  abbrev wanted : Str → IngestionJob → Bool
  wanted id j = str_eq j.id id && is_free other_worker later locked_later j

  claimed_rows :
      (id key : Str) (jobs : List IngestionJob)
      → str_eq key id ≡ true
      → All (λ j. wanted id j ≡ false) (update_rows job_key key (mark_running worker_id now) jobs)
  claimed_rows id key jobs e =
      All-update_rows {P = λ j. Unit {0}} {Q = λ j. wanted id j ≡ false} job_key key
        (mark_running worker_id now) jobs (λ r _ q. ground arith)
        (λ r _ q. elim (Bool-cases (str_eq r.id id)) [
          | inl h ↦ absurd (
              ground (
                arith,
                q,
                h,
                str_eq→eq r.id id h,
                str_eq→eq key id e,
                str_eq_refl r.id,
                ap (str_eq r.id) (str_eq→eq r.id id h ∙ sym (str_eq→eq key id e)),
              ))
          | inr h ↦ rw h refl
        ])
        (All-any jobs)

  again :
      (id : Str) (jobs : List IngestionJob) (o : Option IngestionJob) (c : IngestionJob)
      → ((j : IngestionJob) → o ≡ some j → str_eq j.id id ≡ true)
      → (claim worker_id now o jobs).1 ≡ some c
      → find_first (wanted id) (claim worker_id now o jobs).0 ≡ none
  again id jobs none c h e = absurd (cc)
  again id jobs (some j) c h e =
      find_first-none (wanted id) _ (claimed_rows id j.id jobs (h j refl))

  -- A message that is delivered again for a job that a worker has claimed, and that nothing was done
  -- with since, claims nothing and changes nothing, whoever handles it and whatever is locked.
  pub claim_job_by_id-again :
      (id : Str) (jobs : List IngestionJob) (c : IngestionJob)
      → (claim_job_by_id worker_id now locked id jobs).1 ≡ some c
      → let jobs' = (claim_job_by_id worker_id now locked id jobs).0 in
        claim_job_by_id other_worker later locked_later id jobs' ≡ (jobs', none)
  unfolding claim_job_by_id
  claim_job_by_id-again id jobs c e =
      let chosen =
        find_first (λ (j : IngestionJob). str_eq j.id id && is_free worker_id now locked j) jobs in
      ap (λ o. claim other_worker later o (claim worker_id now chosen jobs).0)
        (again id jobs chosen c
          (λ j q.
            let (_, h) =
              find_first-Has
                (λ (j : IngestionJob). str_eq j.id id && is_free worker_id now locked j) jobs j q in
            and_left (str_eq j.id id) _ h)
          e)

-- The row of a job behind its run.
abbrev pub run_row : ℕ → Outcome → IngestionJob → IngestionJob
run_row now (produced result) = finished now succeeded (some result) none
run_row now (raised traceback) = finished now failed none (some traceback)

module _ (now : ℕ) (status : Status) (result : Option Json) (error : Option Str) where
  finish-update :
      (job_id : Str) (jobs : List IngestionJob) (j : IngestionJob)
      → get_row job_key job_id jobs ≡ some j
      → finish now job_id status result error jobs
        ≡ update_rows job_key job_id (finished now status result error) jobs
  unfolding finish
  finish-update job_id jobs j e =
      ap (λ o. finish_row now status result error o jobs) e
      ∙ ap (λ i. update_rows job_key i (finished now status result error) jobs)
          (str_eq→eq j.id job_id
            (find_first-Has (λ (k : IngestionJob). str_eq k.id job_id) jobs j e).1)

  finish-row :
      (job_id : Str) (jobs : List IngestionJob)
      → get_row job_key job_id (finish now job_id status result error jobs)
        ≡ option_map (finished now status result error) (get_row job_key job_id jobs)
  unfolding finish
  finish-row job_id jobs = elim (Option-cases (get_row job_key job_id jobs)) [
    | inl e ↦ rw (e, e) refl
    | inr (j, e) ↦
        ap (get_row job_key job_id) (finish-update job_id jobs j e)
        ∙ get_row-update_rows job_key job_id (finished now status result error) jobs (λ r. refl)
  ]

  finish-other :
      (job_id other : Str) (jobs : List IngestionJob)
      → job_id ≢ other
      → get_row job_key other (finish now job_id status result error jobs)
        ≡ get_row job_key other jobs
  unfolding finish
  finish-other job_id other jobs ne = elim (Option-cases (get_row job_key job_id jobs)) [
    | inl e ↦ rw e refl
    | inr (j, e) ↦
        ap (get_row job_key other) (finish-update job_id jobs j e)
        ∙ get_row-update_rows_ne job_key job_id other (finished now status result error) jobs
            (λ r. refl) ne
  ]

outcome-row :
    (now : ℕ) (o : Outcome) (job_id : Str) (jobs : List IngestionJob)
    → get_row job_key job_id (record_outcome now job_id o jobs)
      ≡ option_map (run_row now o) (get_row job_key job_id jobs)
unfolding record_outcome
outcome-row now (produced result) = finish-row now succeeded (some result) none
outcome-row now (raised traceback) = finish-row now failed none (some traceback)

outcome-other :
    (now : ℕ) (o : Outcome) (job_id other : Str) (jobs : List IngestionJob)
    → job_id ≢ other
    → get_row job_key other (record_outcome now job_id o jobs) ≡ get_row job_key other jobs
unfolding record_outcome
outcome-other now (produced result) = finish-other now succeeded (some result) none
outcome-other now (raised traceback) = finish-other now failed none (some traceback)

module _ (now : ℕ) (run_connector_job : IngestionJob → Outcome) where
  -- The run's own row.
  pub run_job-own_row :
      (job : IngestionJob) (jobs : List IngestionJob)
      → get_row job_key job.id (run_job now run_connector_job job jobs)
        ≡ option_map (run_row now (run_connector_job job)) (get_row job_key job.id jobs)
  unfolding run_job
  run_job-own_row job jobs = outcome-row now (run_connector_job job) job.id jobs

  -- Running a job always ends: its row has succeeded with the connector's result, or has failed with
  -- the traceback if the connector raised, and has its end; a row that is gone stays gone. The row of
  -- another job is as it was.
  pub run_job-row :
      (job : IngestionJob) (other : Str) (jobs : List IngestionJob)
      → job.id ≢ other
      → (get_row job_key job.id (run_job now run_connector_job job jobs)
          ≡ option_map (run_row now (run_connector_job job)) (get_row job_key job.id jobs))
        × (get_row job_key other (run_job now run_connector_job job jobs)
            ≡ get_row job_key other jobs)
  unfolding run_job
  run_job-row job other jobs ne =
      (run_job-own_row job jobs, outcome-other now (run_connector_job job) job.id other jobs ne)
