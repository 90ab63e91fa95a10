-- ===== src/Jobs/Recovery.antt =====
-- `recover_stale_jobs` of backend/app/worker.py.
use local_ai_search.Prelude.{
  ℕ, ◌+◌, ◌-◌, ◌≤◌, ◌<◌, ◌≡◌, refl, true, false, none, some, List, [], ◌∷◌, arith, All, All-true,
  All-update_where,
}
use local_ai_search.Jobs.{
  Job, JobStatus, is_stale, recover_stale_jobs, claim_job, claimable, oldest, type_wanted,
}

-- After a recovery no row of the table is stale at the cutoff that it used.
pub recover_stale_jobs-fresh :
    (now timeout : ℕ) (jobs : List Job)
    → All (λ job. is_stale (now - timeout) job ≡ false) (recover_stale_jobs now timeout jobs)
unfolding recover_stale_jobs
recover_stale_jobs-fresh now timeout jobs =
    All-update_where (λ _. Unit {0}) (λ job. is_stale (now - timeout) job ≡ false)
      (is_stale (now - timeout)) _ jobs (λ job t u. refl) (λ job t u. t) (All-true jobs)

-- On a table that holds one job alone: if the job is stale and on its last attempt, it is recovered all the
-- same, and a claim at a time when it is due starts it once more than it may be started.
pub recover_stale_jobs-exceeds :
    (now timeout later : ℕ) (job : Job)
    → is_stale (now - timeout) job ≡ true
    → job.attempts ≡ job.max_attempts
    → job.scheduled_at ≤ later
    → (claimed : Job) × ((claim_job [] none later (recover_stale_jobs now timeout (job ∷ []))).0
        ≡ some claimed)
      × (claimed.id ≡ job.id)
      × (claimed.max_attempts < claimed.attempts)
unfolding recover_stale_jobs claim_job claimable type_wanted oldest
recover_stale_jobs-exceeds now timeout later job stale spent due = (
  record job { status = JobStatus.running; started_at = some later; attempts = job.attempts + 1 },
  ground arith,
  refl,
  omega arith,
)
