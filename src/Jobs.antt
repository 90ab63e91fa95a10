-- ===== src/Jobs.antt =====
-- The job queue: backend/app/services/job_queue.py, and the recovery and the loop of
-- backend/app/worker.py. The `jobs` table is a list of rows. A statement of the database is one
-- step, and the clock is an argument.
pub mod Claim
pub mod Retry
pub mod Invariant
pub mod Recovery
mod Tests
use local_ai_search.Prelude.{
  ℕ, ◌+◌, ◌-◌, Bool, true, false, not, ◌&&◌, Option, none, some, List, [], ◌∷◌, ◌++◌, codes, Text,
  text_eq, leb, ltb, ◌==◌, if◌then◌else◌, select, find?, any, contains, update_where,
}

pub data JobStatus : Type 0 where
  pending running completed failed : JobStatus

pub record Job : Type 0 where
  pub id : ℕ
  pub job_type : Text
  pub payload : Text
  pub status : JobStatus
  pub progress : Option Text
  pub error : Option Text
  pub attempts : ℕ
  pub max_attempts : ℕ
  pub scheduled_at : ℕ
  pub started_at : Option ℕ
  pub completed_at : Option ℕ

abbrev pub is_pending : JobStatus → Bool
is_pending JobStatus.pending = true
is_pending _ = false

abbrev pub is_running : JobStatus → Bool
is_running JobStatus.running = true
is_running _ = false

-- `job_id` is the fresh UUID of the row, and `now` its `scheduled_at`.
unfoldable pub create_job :
    (job_id now : ℕ) (job_type payload : Text) (max_attempts : ℕ) → List Job → List Job
create_job job_id now job_type payload max_attempts jobs =
    jobs
    ++ record {
      id = job_id;
      job_type = job_type;
      payload = payload;
      status = JobStatus.pending;
      progress = none;
      error = none;
      attempts = 0;
      max_attempts = max_attempts;
      scheduled_at = now;
      started_at = none;
      completed_at = none;
    }
      ∷ []

-- The payloads come with the fresh UUIDs of their rows.
unfoldable pub create_jobs_bulk :
    (now : ℕ) (job_type : Text) (payloads : List (ℕ × Text)) (max_attempts : ℕ)
    → List Job
    → List Job
create_jobs_bulk now job_type [] max_attempts jobs = jobs
create_jobs_bulk now job_type ((job_id, payload) ∷ payloads) max_attempts jobs =
    create_jobs_bulk now job_type payloads max_attempts
      (create_job job_id now job_type payload max_attempts jobs)

-- `if job_types:` and `Job.job_type.in_(job_types)`: no list, or an empty one, is no condition.
unfoldable pub type_wanted : Option (List Text) → Text → Bool
type_wanted none job_type = true
type_wanted (some []) job_type = true
type_wanted (some (t ∷ ts)) job_type = any (text_eq job_type) (t ∷ ts)

-- The conditions of the query in `claim_job`. `locked` are the rows that other transactions hold,
-- which SKIP LOCKED passes over.
unfoldable pub claimable : (locked : List ℕ) (job_types : Option (List Text)) (now : ℕ) → Job → Bool
unfolding type_wanted
claimable locked job_types now job =
    is_pending job.status
    && (leb job.scheduled_at now
        && (type_wanted job_types job.job_type && not (contains locked job.id)))

-- `ORDER BY scheduled_at LIMIT 1`; of rows scheduled at one time the first of the table.
pub earlier : Job → Option Job → Job
earlier job none = job
earlier job (some other) = if leb job.scheduled_at other.scheduled_at then job else other

unfoldable pub oldest : List Job → Option Job
unfolding earlier
oldest [] = none
oldest (job ∷ jobs) = some (earlier job (oldest jobs))

abbrev pub start_job : ℕ → Job → Job
start_job now job = record job {
  status = JobStatus.running;
  started_at = some now;
  attempts = job.attempts + 1;
}

-- A write to the row with the identifier.
abbrev pub at_id : ℕ → (Job → Job) → List Job → List Job
at_id job_id = update_where (λ job. job.id == job_id)

-- The rest of `claim_job` after its query: the claimed job as the caller gets it, and the table.
abbrev pub hand_out : ℕ → List Job → Option Job → Option Job × List Job
hand_out now jobs none = (none, jobs)
hand_out now jobs (some job) = (some (start_job now job), at_id job.id (start_job now) jobs)

unfoldable pub claim_job :
    (locked : List ℕ) (job_types : Option (List Text)) (now : ℕ) → List Job → Option Job × List Job
claim_job locked job_types now jobs =
    hand_out now jobs (oldest (select (claimable locked job_types now) jobs))

unfoldable pub update_progress : (job_id : ℕ) (progress : Text) → List Job → List Job
update_progress job_id progress = at_id job_id (λ job. record job { progress = some progress })

abbrev pub finish_job : ℕ → Job → Job
finish_job now job = record job {
  status = JobStatus.completed;
  progress = none;
  completed_at = some now;
}

-- `result_data` is not here: the table has no column for it.
unfoldable pub complete_job : (now job_id : ℕ) → List Job → List Job
complete_job now job_id jobs = elim (find? (λ job. job.id == job_id) jobs) [
  | none ↦ jobs
  | some job ↦ at_id job_id (finish_job now) jobs
]

-- The branch of `fail_job` on one row.
unfoldable pub fail_row : (now : ℕ) (error : Text) → Job → Job
fail_row now error job =
    if ltb job.attempts job.max_attempts
    then record job { status = JobStatus.pending; error = some error; started_at = none }
    else record job { status = JobStatus.failed; error = some error; completed_at = some now }

unfoldable pub fail_job : (now job_id : ℕ) (error : Text) → List Job → List Job
unfolding fail_row
fail_job now job_id error jobs = elim (find? (λ job. job.id == job_id) jobs) [
  | none ↦ jobs
  | some job ↦ at_id job_id (fail_row now error) jobs
]

unfoldable pub get_job : (job_id : ℕ) → List Job → Option Job
get_job job_id = find? (λ job. job.id == job_id)

unfoldable pub get_jobs_by_ids : (job_ids : List ℕ) → List Job → List Job
get_jobs_by_ids job_ids = select (λ job. contains job_ids job.id)

-- `Job.started_at < cutoff`, which a NULL does not pass.
abbrev pub started_before : ℕ → Option ℕ → Bool
started_before cutoff none = false
started_before cutoff (some t) = ltb t cutoff

unfoldable pub is_stale : (cutoff : ℕ) → Job → Bool
is_stale cutoff job = is_running job.status && started_before cutoff job.started_at

-- worker.py, with the timeout in the clock's unit. A cutoff before time 0 is 0: no row is older.
unfoldable pub recover_stale_jobs : (now timeout : ℕ) → List Job → List Job
unfolding is_stale
recover_stale_jobs now timeout =
    update_where (is_stale (now - timeout))
      (λ job. record job { status = JobStatus.pending; started_at = none })

-- What a handler does: it returns, or raises with a text.
pub data Run : Type 0 where
  returned : Run
  raised : Text → Run

-- The registered handler on the job; a job type that has none fails with a text of its own.
abbrev pub run_handler : Option (Job → Run) → Job → Run
run_handler none job = raised (codes "No handler for job type: " ++ job.job_type)
run_handler (some handler) job = handler job

-- What the worker writes at the end of a run.
abbrev pub end_run : Run → (now : ℕ) → Job → List Job → List Job
end_run returned now job jobs = complete_job now job.id jobs
end_run (raised error) now job jobs = fail_job now job.id error jobs

unfoldable pub finish_turn :
    (handlers : Text → Option (Job → Run)) (now : ℕ) → Job → List Job → List Job
finish_turn handlers now job jobs = end_run (run_handler (handlers job.job_type) job) now job jobs

-- The round after its claim: nothing to do, or a run of the claimed job.
abbrev pub after_claim :
    (handlers : Text → Option (Job → Run)) (later : ℕ) → Option Job × List Job → List Job
after_claim handlers later (none, table) = table
after_claim handlers later (some job, table) = finish_turn handlers later job table

-- One round of `worker_loop`, alone on the table: claim at `now`, finish at `later`.
unfoldable pub worker_turn :
    (handlers : Text → Option (Job → Run)) (now later : ℕ) → List Job → List Job
worker_turn handlers now later jobs = after_claim handlers later (claim_job [] none now jobs)
