-- ===== src/Worker/Dispatch/Lost.antt =====
-- A message of src/cranus/worker/kafka_queue.py that is consumed before the session of `run_connector` (in
-- src/cranus/api/routers/admin_connectors.py) is committed.
use cranus.Base.{
  and_left, ℕ, ◌≡◌, refl, sym, subst, ◌⊎◌, inl, inr, Bool, ◌&&◌, Option, none, some, List, [], ◌∷◌,
  Str, str_eq, str_eq→eq, Has, Has-append, Has-append_left, Has-append_right, Bool-cases,
}
use cranus.Storage.Models.{IngestionJob, Status, succeeded, failed}
use cranus.Storage.Json.{Json}
use cranus.Storage.Table.{get_row, find_first-Has, update_rows}
use cranus.Worker.Jobs.{
  job_key, mark_running, claim, is_free, claim_job_by_id, finished, finish_row, finish, Outcome,
  produced, raised, record_outcome, run_job,
}
use cranus.Worker.Dispatch.{Dispatch, run_claimed, handle, publish, commit, consume}

-- What follows a state: rounds of the consumer, commits, and routes that publish jobs of other ids.
pub data Later (id : Str) (d : Dispatch) : Dispatch → Type 0 where
  now : Later id d d
  committed : {e : Dispatch} → Later id d e → Later id d (commit e)
  consumed :
      {e : Dispatch}
      → Later id d e
      → (worker_id : Str) (time : ℕ) (locked : Str → Bool) (run : IngestionJob → Outcome)
      → Later id d (consume worker_id time locked run e)
  published :
      {e : Dispatch}
      → Later id d e
      → (job : IngestionJob) → (¬ (job.id ≡ id))
      → Later id d (publish job e)

-- The row is as it was added, and no message is left for it.
abbrev pub IsLost : IngestionJob → Dispatch → Type 0
IsLost job d = (Has job d.jobs ⊎ Has job d.uncommitted) × (¬ (Has job.id d.topic))

module _ (job : IngestionJob) where
  update_rows-kept :
      (id : Str) (f : IngestionJob → IngestionJob) (jobs : List IngestionJob)
      → (¬ (job.id ≡ id))
      → Has job jobs
      → Has job (update_rows job_key id f jobs)
  update_rows-kept id f [] ne m = m
  update_rows-kept id f (r ∷ rows) ne (inl e) = elim (Bool-cases (str_eq r.id id)) [
    | inl q ↦ absurd (ne (subst (λ (j : IngestionJob). j.id ≡ id) (sym e) (str_eq→eq _ _ q)))
    | inr q ↦ inl (rw q e)
  ]
  update_rows-kept id f (r ∷ rows) ne (inr m) = inr (update_rows-kept id f rows ne m)

  finish_row-kept :
      (time : ℕ) (status : Status) (result : Option Json) (error : Option Str)
      (o : Option IngestionJob) (jobs : List IngestionJob)
      → ((j : IngestionJob) → o ≡ some j → ¬ (job.id ≡ j.id))
      → Has job jobs
      → Has job (finish_row time status result error o jobs)
  finish_row-kept time status result error none jobs ne m = m
  finish_row-kept time status result error (some j) jobs ne m =
      update_rows-kept j.id (finished time status result error) jobs (ne j refl) m

  -- The row that `_finish` reads has the id that it is given.
  found-ne :
      (id : Str) (jobs : List IngestionJob)
      → (¬ (job.id ≡ id))
      → (j : IngestionJob) → get_row job_key id jobs ≡ some j
      → ¬ (job.id ≡ j.id)
  found-ne id jobs ne j e q =
      let (there, same) = find_first-Has (λ (r : IngestionJob). str_eq r.id id) jobs j e in
      ne (subst (λ s. job.id ≡ s) (str_eq→eq j.id id same) q)

  record_outcome-kept :
      (time : ℕ) (id : Str) (o : Outcome) (jobs : List IngestionJob)
      → (¬ (job.id ≡ id))
      → Has job jobs
      → Has job (record_outcome time id o jobs)
  unfolding record_outcome finish
  record_outcome-kept time id (produced result) jobs ne m =
      finish_row-kept time succeeded (some result) none (get_row job_key id jobs) jobs
        (found-ne id jobs ne) m
  record_outcome-kept time id (raised traceback) jobs ne m =
      finish_row-kept time failed none (some traceback) (get_row job_key id jobs) jobs
        (found-ne id jobs ne) m

  claimed-kept :
      (worker_id : Str) (time : ℕ) (run : IngestionJob → Outcome) (o : Option IngestionJob)
      (jobs : List IngestionJob)
      → ((j : IngestionJob) → o ≡ some j → ¬ (job.id ≡ j.id))
      → Has job jobs
      → Has job (run_claimed time run (claim worker_id time o jobs))
  unfolding run_job
  claimed-kept worker_id time run none jobs ne m = m
  claimed-kept worker_id time run (some j) jobs ne m =
      record_outcome-kept time j.id (run (mark_running worker_id time j)) _ (ne j refl)
        (update_rows-kept j.id (mark_running worker_id time) jobs (ne j refl) m)

  module _ (worker_id : Str) (time : ℕ) (locked : Str → Bool) (run : IngestionJob → Outcome) where
    -- A message for another job leaves the row.
    handle-kept :
        (id : Str) (jobs : List IngestionJob)
        → (¬ (job.id ≡ id))
        → Has job jobs
        → Has job (handle worker_id time locked run id jobs)
    unfolding handle claim_job_by_id
    handle-kept id jobs ne m =
        claimed-kept worker_id time run _ jobs
          (λ j e q.
            let (there, h) =
              find_first-Has
                (λ (r : IngestionJob). str_eq r.id id && is_free worker_id time locked r) jobs j
                e in
            ne (subst (λ s. job.id ≡ s) (str_eq→eq j.id id (and_left (str_eq j.id id) _ h)) q))
          m

    consumed-IsLost :
        (jobs uncommitted : List IngestionJob) (topic : List Str)
        → IsLost job (record { jobs = jobs; uncommitted = uncommitted; topic = topic })
        → IsLost job (
            consume worker_id time locked run
              (record { jobs = jobs; uncommitted = uncommitted; topic = topic }))
    unfolding consume
    consumed-IsLost jobs uncommitted [] lost = lost
    consumed-IsLost jobs uncommitted (id ∷ rest) (inl m, free) =
        (inl (handle-kept id jobs (λ q. free (inl q)) m), λ h. free (inr h))
    consumed-IsLost jobs uncommitted (id ∷ rest) (inr m, free) = (inr m, λ h. free (inr h))

  published-IsLost :
      (other : IngestionJob) (d : Dispatch)
      → (¬ (other.id ≡ job.id))
      → IsLost job d
      → IsLost job (publish other d)
  unfolding publish
  published-IsLost other d ne (here, free) = (
    elim here [ inl m ↦ inl m | inr m ↦ inr (Has-append_left job d.uncommitted (other ∷ []) m) ],
    λ h. elim (Has-append job.id d.topic (other.id ∷ []) h) [
      | inl m ↦ free m
      | inr m ↦ elim m [ inl q ↦ ne (sym q) | inr n ↦ n ]
    ],
  )

  committed-IsLost : (d : Dispatch) → IsLost job d → IsLost job (commit d)
  unfolding commit
  committed-IsLost d (inl m, free) = (inl (Has-append_left job d.jobs d.uncommitted m), free)
  committed-IsLost d (inr m, free) = (inl (Has-append_right job d.jobs d.uncommitted m), free)

  Later-IsLost : (d e : Dispatch) → Later job.id d e → IsLost job d → IsLost job e
  Later-IsLost d _ now lost = lost
  Later-IsLost d _ (committed t) lost = committed-IsLost _ (Later-IsLost d _ t lost)
  Later-IsLost d _ (consumed t w time locked run) lost =
      consumed-IsLost w time locked run _ _ _ (Later-IsLost d _ t lost)
  Later-IsLost d _ (published t other ne) lost =
      published-IsLost other _ ne (Later-IsLost d _ t lost)

  first-IsLost :
      (worker_id : Str) (time : ℕ) (locked : Str → Bool) (run : IngestionJob → Outcome)
      (jobs uncommitted : List IngestionJob)
      → IsLost job (
          consume worker_id time locked run
            (publish job (record { jobs = jobs; uncommitted = uncommitted; topic = [] })))
  unfolding consume publish
  first-IsLost worker_id time locked run jobs uncommitted =
      (inr (Has-append_right job uncommitted (job ∷ []) (inl refl)), λ h. h)

  -- A job whose message is the only one in the topic, and is consumed between its publication and the commit of
  -- its row, is never run: in every state that commits, rounds of the consumer and publications of jobs of other ids
  -- lead to, its row is still as it was added, and the topic holds no message for it.
  pub publish-IsLost :
      (worker_id : Str) (time : ℕ) (locked : Str → Bool) (run : IngestionJob → Outcome)
      (jobs uncommitted : List IngestionJob) (e : Dispatch)
      → Later job.id
          (consume worker_id time locked run
            (publish job (record { jobs = jobs; uncommitted = uncommitted; topic = [] })))
          e
      → IsLost job e
  publish-IsLost worker_id time locked run jobs uncommitted e later =
      Later-IsLost _ e later (first-IsLost worker_id time locked run jobs uncommitted)
