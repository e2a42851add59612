-- ===== src/Worker/Jobs/Queue/Refined.antt =====
-- The transactions of src/cranus/worker/jobs.py refine the abstract queue.
use cranus.Base.{
  ℕ, ◌≡◌, refl, sym, ap, subst, ◌∙◌, inl, inr, Bool, true, false, not, ◌&&◌, Option, none, some,
  List, [], ◌∷◌, ◌++◌, arith, keep_if, keep_if-Has, Has-keep_if, Has, Has-map, map-Has, Str, str_eq,
  str_eq→eq, str_eq_refl, Bool-cases, and_left, and_right,
}
use cranus.Storage.Json.{Json}
use cranus.Storage.Models.{IngestionJob, Status, pending, succeeded, failed}
use cranus.Storage.Table.{get_row, find_first, find_first-Has, update_rows}
use cranus.Worker.Jobs.{
  job_key, is_pending, mark_running, claim, is_free, claim_job_by_id, finished, finish_row, finish,
  Outcome, produced, raised, record_outcome, run_job,
}
use cranus.Worker.Jobs.Claims.{IsNext, nothing_free, next, claim_next_job-IsNext}
use cranus.Worker.Jobs.Queue.{
  Operation, create, poll, receive, run, queued, ended, claimed, polled, received, perform,
  perform_all, waits, waiting, without, Spec, queues, ends, claims, finds_none, refuses, Specs,
  finish_specs, spec_then,
}

waiting-update :
    (id : Str) (f : IngestionJob → IngestionJob) (jobs : List IngestionJob)
    → ((r : IngestionJob) → waits (f r) ≡ false)
    → waiting (update_rows job_key id f jobs) ≡ without id (waiting jobs)
waiting-update id f [] over = refl
waiting-update id f (r ∷ rows) over =
    let rest = waiting-update id f rows over in
    elim (Bool-cases (str_eq r.id id)) [
      | inl e ↦ elim (Bool-cases (waits r)) [
        | inl p ↦ rw (e, over r, p, e) rest
        | inr p ↦ rw (e, over r, p) rest
      ]
      | inr e ↦ elim (Bool-cases (waits r)) [
        | inl p ↦ rw (e, p, e) (ap (λ l. r.id ∷ l) rest)
        | inr p ↦ rw (e, p) rest
      ]
    ]

waiting-Has :
    (j : IngestionJob) (jobs : List IngestionJob)
    → Has j jobs
    → waits j ≡ true
    → Has j.id (waiting jobs)
waiting-Has j jobs m w = Has-map job_key j (keep_if waits jobs) (keep_if-Has waits j jobs m w)

Has-waiting :
    (id : Str) (jobs : List IngestionJob)
    → Has id (waiting jobs)
    → (j : IngestionJob) × Has j jobs × (waits j ≡ true) × (id ≡ j.id)
Has-waiting id jobs m =
    let (j, there, e) = map-Has job_key id (keep_if waits jobs) m in
    let (in_jobs, w) = Has-keep_if waits j jobs there in (j, in_jobs, w, e)

waiting-create :
    (job : IngestionJob) (jobs : List IngestionJob)
    → waiting (jobs ++ record job { status = pending } ∷ []) ≡ waiting jobs ++ job.id ∷ []
waiting-create job [] = refl
waiting-create job (r ∷ rows) = elim (Bool-cases (waits r)) [
  | inl p ↦ rw p (ap (λ l. r.id ∷ l) (waiting-create job rows))
  | inr p ↦ rw p (waiting-create job rows)
]

-- An id of no row does not wait.
without-none :
    (id : Str) (jobs : List IngestionJob)
    → get_row job_key id jobs ≡ none
    → waiting jobs ≡ without id (waiting jobs)
without-none id [] e = refl
without-none id (r ∷ rows) e = elim (Bool-cases (str_eq r.id id)) [
  | inl q ↦ absurd (ground (arith, e, q))
  | inr q ↦
      let rest = without-none id rows (rw q at e) in
      elim (Bool-cases (waits r)) [
        | inl p ↦ rw (p, q) (ap (λ l. r.id ∷ l) rest)
        | inr p ↦ rw p rest
      ]
]

finish_row-waiting :
    (now : ℕ) (status : Status) (result : Option Json) (error : Option Str) (id : Str)
    (o : Option IngestionJob) (jobs : List IngestionJob)
    → is_pending status ≡ false
    → get_row job_key id jobs ≡ o
    → waiting (finish_row now status result error o jobs) ≡ without id (waiting jobs)
finish_row-waiting now status result error id none jobs over e = without-none id jobs e
finish_row-waiting now status result error id (some j) jobs over e =
    waiting-update j.id (finished now status result error) jobs (λ r. over)
    ∙ ap (λ i. without i (waiting jobs))
        (str_eq→eq j.id id (find_first-Has (λ (r : IngestionJob). str_eq r.id id) jobs j e).1)

outcome-waiting :
    (now : ℕ) (id : Str) (o : Outcome) (jobs : List IngestionJob)
    → waiting (record_outcome now id o jobs) ≡ without id (waiting jobs)
unfolding record_outcome finish
outcome-waiting now id (produced result) jobs =
    finish_row-waiting now succeeded (some result) none id _ jobs refl refl
outcome-waiting now id (raised traceback) jobs =
    finish_row-waiting now failed none (some traceback) id _ jobs refl refl

module _ (w : Str) (now : ℕ) (locked : Str → Bool) where
  free_parts :
      (j : IngestionJob) → is_free w now locked j ≡ true → (waits j ≡ true) × (locked j.id ≡ false)
  free_parts j h = (
    and_left (waits j) (not (locked j.id)) h,
    elim (Bool-cases (locked j.id)) [
      | inl e ↦ ground (arith, e, and_right (waits j) (not (locked j.id)) h)
      | inr e ↦ e
    ],
  )

  claimed-Spec :
      (j : IngestionJob) (jobs : List IngestionJob)
      → Has j jobs
      → is_free w now locked j ≡ true
      → Spec
          (waiting jobs)
          (claimed locked j.id)
          (waiting (update_rows job_key j.id (mark_running w now) jobs))
  claimed-Spec j jobs there h =
      let (waits_now, unlocked) = free_parts j h in
      subst (Spec (waiting jobs) (claimed locked j.id))
        (sym (waiting-update j.id (mark_running w now) jobs (λ r. refl)))
        (claims locked j.id (waiting-Has j jobs there waits_now) unlocked)

  -- A row that waits and is not free is locked.
  not_free-locked :
      (j : IngestionJob) → waits j ≡ true → is_free w now locked j ≡ false → locked j.id ≡ true
  not_free-locked j p h = ground (arith, p, h)

  polled-Spec :
      (jobs : List IngestionJob) (r : List IngestionJob × Option IngestionJob)
      → IsNext w now locked jobs r
      → Spec (waiting jobs) (polled locked r).1 (waiting (polled locked r).0)
  polled-Spec jobs _ (nothing_free e) = finds_none locked (λ i m.
      let (j, there, p, same) = Has-waiting i jobs m in
      elim (Bool-cases (is_free w now locked j)) [
        | inl f ↦ absurd (subst (Has j) e (keep_if-Has (is_free w now locked) j jobs there f))
        | inr f ↦ subst (λ k. locked k ≡ true) (sym same) (not_free-locked j p f)
      ])
  polled-Spec jobs _ (next j there h first) = claimed-Spec j jobs there h

  find_first-some :
      (p : IngestionJob → Bool) (j : IngestionJob) (rows : List IngestionJob)
      → Has j rows
      → p j ≡ true
      → ¬ (find_first p rows ≡ none)
  find_first-some p j [] m h e = m
  find_first-some p j (r ∷ rows) (inl q) h e = ground (arith, e, ap p q, h)
  find_first-some p j (r ∷ rows) (inr m) h e = elim (Bool-cases (p r)) [
    | inl q ↦ ground (arith, e, q)
    | inr q ↦ find_first-some p j rows m h (rw q at e)
  ]

  received-Spec :
      (id : Str) (jobs : List IngestionJob) (o : Option IngestionJob)
      → find_first (λ (j : IngestionJob). str_eq j.id id && is_free w now locked j) jobs ≡ o
      → Spec
          (waiting jobs)
          (received locked id (claim w now o jobs)).1
          (waiting (received locked id (claim w now o jobs)).0)
  received-Spec id jobs none e = refuses locked id (λ m.
      let (j, there, p, same) = Has-waiting id jobs m in
      elim (Bool-cases (is_free w now locked j)) [
        | inl f ↦ absurd (
            find_first-some (λ (r : IngestionJob). str_eq r.id id && is_free w now locked r) j jobs
              there
              (rw f (rw (subst (λ i. str_eq j.id i ≡ true) (sym same) (str_eq_refl j.id)) refl)) e)
        | inr f ↦ subst (λ k. locked k ≡ true) (sym same) (not_free-locked j p f)
      ])
  received-Spec id jobs (some j) e =
      let (there, h) =
        find_first-Has (λ (r : IngestionJob). str_eq r.id id && is_free w now locked r) jobs j e in
      claimed-Spec j jobs there (and_right (str_eq j.id id) (is_free w now locked j) h)

perform-Spec :
    (op : Operation) (jobs : List IngestionJob)
    → Spec (waiting jobs) (perform op jobs).1 (waiting (perform op jobs).0)
unfolding perform claim_job_by_id run_job
perform-Spec (create job) jobs =
    subst (Spec (waiting jobs) (queued job.id)) (sym (waiting-create job jobs)) (queues job.id)
perform-Spec (poll w now locked) jobs =
    polled-Spec w now locked jobs _ (claim_next_job-IsNext w now locked jobs)
perform-Spec (receive w now locked id) jobs = received-Spec w now locked id jobs _ refl
perform-Spec (run now connector job) jobs =
    subst (Spec (waiting jobs) (ended job.id))
      (sym (outcome-waiting now job.id (connector job) jobs)) (ends job.id)

-- However the transactions on the table of jobs and the creation of jobs follow each other, they do what the abstract
-- queue allows: a new id waits behind the others; an id is claimed only if it waits and is not locked, and waits no more
-- then; polling finds nothing only if every id that waits is locked, and a message is refused only if its id does not
-- wait or is locked, and then nothing changes; and an id whose run has ended does not wait.
pub perform_all-Specs :
    (ops : List Operation) (jobs : List IngestionJob)
    → Specs (waiting jobs) (perform_all ops jobs).1 (waiting (perform_all ops jobs).0)
unfolding perform_all
perform_all-Specs [] jobs = finish_specs
perform_all-Specs (op ∷ ops) jobs =
    spec_then (perform-Spec op jobs) (perform_all-Specs ops (perform op jobs).0)
