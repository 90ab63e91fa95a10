-- ===== src/Jobs/Retry.antt =====
-- A job whose handler keeps failing: the loop of backend/app/worker.py over `claim_job` and
-- `fail_job` of backend/app/services/job_queue.py, on a table with that job alone.
use local_ai_search.Prelude.{
  ℕ, ◌+◌, ◌≤◌, ◌<◌, ◌≡◌, refl, ◌∙◌, inl, inr, Bool, true, false, Option, none, some, List, [], ◌∷◌,
  Text, arith, ltb, min, if◌then◌else◌, length, All, All-map, ap, Bool-cases,
}
use local_ai_search.Jobs.{
  Job, JobStatus, Run, returned, raised, claimable, start_job, claim_job, fail_row, fail_job,
  worker_turn, finish_turn, run_handler, end_run, after_claim, type_wanted, oldest,
}

abbrev pub is_raised : Run → Bool
is_raised returned = false
is_raised (raised error) = true

-- The job's type has no handler, or its handler raises.
abbrev pub fails : (Text → Option (Job → Run)) → Job → Bool
fails handlers job = is_raised (run_handler (handlers job.job_type) job)

-- Rounds of the loop, each with the times of its claim and of its end.
unfoldable pub rounds : (handlers : Text → Option (Job → Run)) → List (ℕ × ℕ) → List Job → List Job
rounds handlers [] jobs = jobs
rounds handlers ((now, later) ∷ clocks) jobs =
    rounds handlers clocks (worker_turn handlers now later jobs)

-- Where a failed round leaves the row.
record IsRetried (job row : Job) : Type 0 where
  attempts : row.attempts ≡ job.attempts + 1
  limit : row.max_attempts ≡ job.max_attempts
  due : row.scheduled_at ≡ job.scheduled_at
  status :
      row.status
      ≡ (if ltb (job.attempts + 1) job.max_attempts then JobStatus.pending else JobStatus.failed)

fail_row-IsRetried :
    (now later : ℕ) (error : Text) (job : Job)
    → IsRetried job (fail_row later error (start_job now job))
unfolding fail_row
fail_row-IsRetried now later error job = ground arith

fail_job-alone :
    (later : ℕ) (error : Text) (job : Job) (k : ℕ)
    → job.id ≡ k
    → fail_job later k error (job ∷ []) ≡ fail_row later error job ∷ []
unfolding fail_job
fail_job-alone later error job k e = ground arith

end_run-alone :
    (run : Run) (now later : ℕ) (job : Job)
    → is_raised run ≡ true
    → (row : Job) × (end_run run later (start_job now job) (start_job now job ∷ []) ≡ row ∷ [])
      × IsRetried job row
end_run-alone returned now later job h = cc
end_run-alone (raised error) now later job h = (
  fail_row later error (start_job now job),
  fail_job-alone later error (start_job now job) job.id refl,
  fail_row-IsRetried now later error job,
)

claim_job-alone :
    (now : ℕ) (job : Job)
    → job.status ≡ JobStatus.pending
    → job.scheduled_at ≤ now
    → claim_job [] none now (job ∷ []) ≡ (some (start_job now job), start_job now job ∷ [])
unfolding claim_job claimable type_wanted oldest
claim_job-alone now job p due = ground arith

claim_job-idle :
    (now : ℕ) (job : Job)
    → job.status ≡ JobStatus.failed
    → claim_job [] none now (job ∷ []) ≡ (none, job ∷ [])
unfolding claim_job claimable type_wanted oldest
claim_job-idle now job p = ground arith

module _ (handlers : Text → Option (Job → Run))
    (failing : (job : Job) → fails handlers job ≡ true) where
  worker_turn-failing :
      (now later : ℕ) (job : Job)
      → job.status ≡ JobStatus.pending
      → job.scheduled_at ≤ now
      → (row : Job) × (worker_turn handlers now later (job ∷ []) ≡ row ∷ []) × IsRetried job row
  unfolding worker_turn finish_turn
  worker_turn-failing now later job p due =
      rw (claim_job-alone now job p due, worker_turn)
        (end_run-alone _ now later job (failing (start_job now job)))

  worker_turn-idle :
      (now later : ℕ) (job : Job)
      → job.status ≡ JobStatus.failed
      → worker_turn handlers now later (job ∷ []) ≡ job ∷ []
  unfolding worker_turn
  worker_turn-idle now later job p = ap (after_claim handlers later) (claim_job-idle now job p)

  rounds-idle :
      (clocks : List (ℕ × ℕ)) (job : Job)
      → job.status ≡ JobStatus.failed
      → rounds handlers clocks (job ∷ []) ≡ job ∷ []
  unfolding rounds
  rounds-idle [] job p = refl
  rounds-idle ((now, later) ∷ clocks) job p =
      rw (worker_turn-idle now later job p) (rounds-idle clocks job p)

  rounds-failing_cases :
      (clocks : List (ℕ × ℕ)) (job : Job)
      → job.status ≡ JobStatus.pending
      → job.attempts < job.max_attempts
      → All (λ (now, later). job.scheduled_at ≤ now) clocks
      → (row : Job) × (rounds handlers clocks (job ∷ []) ≡ row ∷ [])
        × (job.attempts + length clocks < job.max_attempts
            → (row.status ≡ JobStatus.pending) × (row.attempts ≡ job.attempts + length clocks))
        × (job.max_attempts ≤ job.attempts + length clocks
            → (row.status ≡ JobStatus.failed) × (row.attempts ≡ job.max_attempts))
  unfolding rounds
  rounds-failing_cases [] job p left due =
      (job, refl, λ h. (p, omega arith), λ h. absurd (omega arith))
  rounds-failing_cases ((now, later) ∷ clocks) job p left due =
      let (first, e, retried) = worker_turn-failing now later job p due.0 in
      elim (Bool-cases (ltb (job.attempts + 1) job.max_attempts)) [
        | inl more ↦
            let (row, e', few, spent) =
              rounds-failing_cases clocks first (retried.status ∙ rw more) (ground arith)
                (All-map _ _ clocks (λ c h. omega (arith, retried.due)) due.1) in
            (
              row,
              rw (e, rounds) e',
              λ h.
                  let (still, count) = few (omega (arith, retried.attempts, retried.limit)) in
                  (still, omega (arith, retried.attempts)),
              λ h.
                  let (over, count) = spent (omega (arith, retried.attempts, retried.limit)) in
                  (over, omega (arith, retried.limit)),
            )
        | inr last ↦
            let over : first.status ≡ JobStatus.failed = retried.status ∙ rw last in
            (
              first,
              rw (e, rounds) (rounds-idle clocks first over),
              λ h. absurd (ground arith),
              λ h. (over, ground arith),
            )
      ]

  -- On a table that holds one job alone, with handlers that fail for every job (or are missing): if the job is
  -- pending, has attempts left and is due at the claim of every round, then it is pending while the
  -- rounds are fewer than the attempts that were left, and failed from then on; its attempts count the
  -- rounds, up to its maximum.
  pub rounds-failing :
      (clocks : List (ℕ × ℕ)) (job : Job)
      → job.status ≡ JobStatus.pending
      → job.attempts < job.max_attempts
      → All (λ (now, later). job.scheduled_at ≤ now) clocks
      → (row : Job) × (rounds handlers clocks (job ∷ []) ≡ row ∷ [])
        × (row.status ≡ (
            if ltb (job.attempts + length clocks) job.max_attempts
            then JobStatus.pending
            else JobStatus.failed))
        × (row.attempts ≡ min (job.attempts + length clocks) job.max_attempts)
  rounds-failing clocks job p left due =
      let (row, e, few, spent) = rounds-failing_cases clocks job p left due in
      elim (Bool-cases (ltb (job.attempts + length clocks) job.max_attempts)) [
        | inl t ↦ let (still, count) = few (ground arith) in (row, e, rw t still, ground arith)
        | inr t ↦ let (over, count) = spent (ground arith) in (row, e, rw t over, ground arith)
      ]
