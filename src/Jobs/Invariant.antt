-- ===== src/Jobs/Invariant.antt =====
-- What holds of the `jobs` table after any sequence of the calls of
-- backend/app/services/job_queue.py, without the recovery of stale jobs.
use local_ai_search.Prelude.{
  ℕ, ◌≤◌, ◌<◌, ◌≡◌, ◌≢◌, refl, Bool, true, Option, none, some, List, [], ◌∷◌, Text, arith, ◌==◌,
  is_some, find?, select, In, All, All-at, All-of_In, All-append, All-update_where, UniqueBy,
  UniqueBy-same, UniqueBy-append, UniqueBy-update_where, ==_iff,
}
use local_ai_search.Jobs.{
  Job, JobStatus, claimable, oldest, start_job, finish_job, fail_row, at_id, hand_out, create_job,
  claim_job, update_progress, complete_job, fail_job,
}
use local_ai_search.Jobs.Claim.{oldest-select}

pub record IsSound (job : Job) : Type 0 where
  pub within : job.attempts ≤ job.max_attempts
  pub pending_left : job.status ≡ JobStatus.pending → job.attempts < job.max_attempts
  pub failed_spent : job.status ≡ JobStatus.failed → job.attempts ≡ job.max_attempts
  pub running_started : job.status ≡ JobStatus.running → is_some job.started_at ≡ true
  pub completed_ended : job.status ≡ JobStatus.completed → is_some job.completed_at ≡ true
  pub failed_ended : job.status ≡ JobStatus.failed → is_some job.completed_at ≡ true

abbrev pub UniqueIds : List Job → Type 0
UniqueIds = UniqueBy (λ job. job.id)

pub record IsValid (jobs : List Job) : Type 0 where
  pub sound : All IsSound jobs
  pub unique : UniqueIds jobs

start_job-IsSound :
    (locked : List ℕ) (types : Option (List Text)) (now : ℕ) (job : Job)
    → claimable locked types now job ≡ true
    → IsSound job
    → IsSound (start_job now job)
unfolding claimable
start_job-IsSound locked types now job due h = ground arith

finish_job-IsSound : (now : ℕ) (job : Job) → IsSound job → IsSound (finish_job now job)
finish_job-IsSound now job h = ground arith

fail_row-IsSound :
    (now : ℕ) (error : Text) (job : Job) → IsSound job → IsSound (fail_row now error job)
unfolding fail_row
fail_row-IsSound now error job h = ground arith

-- A write by identifier that keeps each row sound keeps the table valid.
at_id-IsValid :
    (job_id : ℕ) (f : Job → Job) (jobs : List Job)
    → ((job : Job) → (f job).id ≡ job.id)
    → ((job : Job) → In job jobs → job.id ≡ job_id → IsSound job → IsSound (f job))
    → IsValid jobs
    → IsValid (at_id job_id f jobs)
at_id-IsValid job_id f jobs kept step v = record {
  sound =
      All-update_where (λ r. In r jobs × IsSound r) IsSound (λ r. r.id == job_id) f jobs
        (λ r t h. step r h.0 ((==_iff r.id job_id).0 t) h.1) (λ r t h. h.1)
        (All-of_In _ jobs (λ r m. (m, All-at IsSound jobs v.sound m)));
  unique = UniqueBy-update_where (λ job. job.id) (λ r. r.id == job_id) f kept jobs v.unique;
}

create_job-IsValid :
    (job_id now : ℕ) (job_type payload : Text) (max_attempts : ℕ) (jobs : List Job)
    → 0 < max_attempts
    → All (λ job. job.id ≢ job_id) jobs
    → IsValid jobs
    → IsValid (create_job job_id now job_type payload max_attempts jobs)
unfolding create_job
create_job-IsValid job_id now job_type payload max_attempts jobs some_attempt fresh v = record {
  sound = All-append IsSound jobs (_ ∷ []) v.sound (ground arith, tt);
  unique = UniqueBy-append (λ job. job.id) jobs _ v.unique fresh;
}

claim_job-IsValid :
    (locked : List ℕ) (types : Option (List Text)) (now : ℕ) (jobs : List Job)
    → IsValid jobs
    → IsValid (claim_job locked types now jobs).1
unfolding claim_job
claim_job-IsValid locked types now jobs v = handed_out (oldest (select due jobs)) refl
  where
    due : Job → Bool
    due = claimable locked types now

    handed_out : (r : Option Job) → oldest (select due jobs) ≡ r → IsValid (hand_out now jobs r).1
    handed_out none q = v
    handed_out (some o) q =
        let (held, ready) = oldest-select due jobs q in
        at_id-IsValid o.id (start_job now) jobs (λ job. refl)
          (λ job m same h.
            start_job-IsSound locked types now job
              (rw (UniqueBy-same (λ job. job.id) jobs v.unique m held same) ready) h)
          v

update_progress-IsValid :
    (job_id : ℕ) (progress : Text) (jobs : List Job)
    → IsValid jobs
    → IsValid (update_progress job_id progress jobs)
unfolding update_progress
update_progress-IsValid job_id progress jobs v =
    at_id-IsValid job_id _ jobs (λ job. refl) (λ job m same h. ground arith) v

-- `if not job: return`
when_found :
    (o : Option Job) (t u : List Job)
    → IsValid t
    → IsValid u
    → IsValid (elim o [ none ↦ t | some job ↦ u ])
when_found none t u vt vu = vt
when_found (some job) t u vt vu = vu

complete_job-IsValid :
    (now job_id : ℕ) (jobs : List Job) → IsValid jobs → IsValid (complete_job now job_id jobs)
unfolding complete_job
complete_job-IsValid now job_id jobs v =
    when_found (find? (λ job. job.id == job_id) jobs) jobs (at_id job_id (finish_job now) jobs) v (
      at_id-IsValid job_id (finish_job now) jobs (λ job. refl)
        (λ job m same h. finish_job-IsSound now job h) v)

fail_row-id : (now : ℕ) (error : Text) (job : Job) → (fail_row now error job).id ≡ job.id
unfolding fail_row
fail_row-id now error job = ground arith

fail_job-IsValid :
    (now job_id : ℕ) (error : Text) (jobs : List Job)
    → IsValid jobs
    → IsValid (fail_job now job_id error jobs)
unfolding fail_job
fail_job-IsValid now job_id error jobs v =
    when_found (find? (λ job. job.id == job_id) jobs) jobs (at_id job_id (fail_row now error) jobs)
      v
      (at_id-IsValid job_id (fail_row now error) jobs (fail_row-id now error)
        (λ job m same h. fail_row-IsSound now error job h) v)

-- One call of the queue's interface by anybody, at any time.
pub data Step (t u : List Job) : Type 0 where
  created :
      (job_id now : ℕ) (job_type payload : Text) (max_attempts : ℕ)
      → 0 < max_attempts
      → All (λ job. job.id ≢ job_id) t
      → u ≡ create_job job_id now job_type payload max_attempts t
      → Step t u
  claimed :
      (locked : List ℕ) (types : Option (List Text)) (now : ℕ)
      → u ≡ (claim_job locked types now t).1
      → Step t u
  progressed : (job_id : ℕ) (progress : Text) → u ≡ update_progress job_id progress t → Step t u
  ended : (now job_id : ℕ) → u ≡ complete_job now job_id t → Step t u
  raised : (now job_id : ℕ) (error : Text) → u ≡ fail_job now job_id error t → Step t u

pub data Reach (s : List Job) : List Job → Type 0 where
  here : Reach s s
  next : {t u : List Job} → Reach s t → Step t u → Reach s u

Step-IsValid : (t u : List Job) → Step t u → IsValid t → IsValid u
Step-IsValid t u (created job_id now job_type payload max_attempts p fresh e) v =
    rw e (create_job-IsValid job_id now job_type payload max_attempts t p fresh v)
Step-IsValid t u (claimed locked types now e) v = rw e (claim_job-IsValid locked types now t v)
Step-IsValid t u (progressed job_id progress e) v =
    rw e (update_progress-IsValid job_id progress t v)
Step-IsValid t u (ended now job_id e) v = rw e (complete_job-IsValid now job_id t v)
Step-IsValid t u (raised now job_id error e) v = rw e (fail_job-IsValid now job_id error t v)

-- From a valid table, whatever calls of `create_job`, `claim_job`, `update_progress`, `complete_job` and
-- `fail_job` are made by whichever workers in whatever order, with new jobs allowed at least one
-- attempt and given fresh identifiers: identifiers stay unique, no job is
-- started more often than it may be, a pending job has an attempt left, a failed job has none, a
-- running job has its start time, and a completed or failed job its end time.
pub Reach-IsValid : {s t : List Job} → IsValid s → Reach s t → IsValid t
Reach-IsValid v here = v
Reach-IsValid v (next {t = t} {u = u} r step) = Step-IsValid t u step (Reach-IsValid v r)
