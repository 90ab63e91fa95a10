-- ===== src/Jobs/Tests.antt =====
-- Runs of the job queue (backend/app/services/job_queue.py), and its theorems at concrete tables.
use local_ai_search.Prelude.{
  ℕ, ◌+◌, ◌<◌, ◌≡◌, ◌≢◌, refl, Option, none, some, List, [], ◌∷◌, codes, Text, arith, All, In, true,
  ◌≤◌, ltb, min, if◌then◌else◌,
}
use local_ai_search.Jobs.{
  Job, JobStatus, Run, raised, claimable, start_job, at_id, claim_job, fail_job, recover_stale_jobs,
  is_stale, create_job, oldest, type_wanted,
}
use local_ai_search.Jobs.Claim.{claim_job-oldest, claim_job-exclusive}
use local_ai_search.Jobs.Invariant.{
  IsValid, Step, created, claimed, raised, here, next, Reach-IsValid,
}
use local_ai_search.Jobs.Retry.{rounds, rounds-failing}
use local_ai_search.Jobs.Recovery.{recover_stale_jobs-exceeds}

abbrev ocr : Job
ocr = record {
  id = 7;
  job_type = codes "document_processing";
  payload = codes "{}";
  status = JobStatus.pending;
  progress = none;
  error = none;
  attempts = 0;
  max_attempts = 3;
  scheduled_at = 20;
  started_at = none;
  completed_at = none;
}

abbrev older : Job
older = record ocr { id = 8; scheduled_at = 10; attempts = 2 }

abbrev queue : List Job
queue = ocr ∷ older ∷ []

-- The older job is handed out, then the other, then none.
claims :
    let (a, t) = claim_job [] none 30 queue in
    let (b, u) = claim_job [] none 30 t in
    let (c, v) = claim_job [] none 30 u in
    (a ≡ some (start_job 30 older)) × (b ≡ some (start_job 30 ocr)) × (c ≡ none)
unfolding claim_job oldest claimable type_wanted
claims = (refl, refl, refl)

-- A locked row and a row that is not due are passed over.
passes_over :
    ((claim_job (8 ∷ []) none 30 queue).0 ≡ some (start_job 30 ocr))
    × ((claim_job [] none 9 queue).0 ≡ none)
unfolding claim_job oldest claimable type_wanted
passes_over = (refl, refl)

claimed_once :
    claim_job [] none 30 queue ≡ (some (start_job 30 older), ocr ∷ start_job 30 older ∷ [])
unfolding claim_job oldest claimable type_wanted
claimed_once = refl

claimed_twice :
    claim_job [] none 31 (ocr ∷ start_job 30 older ∷ [])
    ≡ (some (start_job 31 ocr), start_job 31 ocr ∷ start_job 30 older ∷ [])
unfolding claim_job oldest claimable type_wanted
claimed_twice = refl

claim_job-oldest_example :
    (o : Job) × In o queue
    × (start_job 30 older ≡ start_job 30 o)
    × (ocr ∷ start_job 30 older ∷ [] ≡ at_id o.id (start_job 30) queue)
    × (claimable [] none 30 o ≡ true)
    × All (λ k. claimable [] none 30 k ≡ true → o.scheduled_at ≤ k.scheduled_at) queue
claim_job-oldest_example =
    claim_job-oldest [] none 30 queue (start_job 30 older) (ocr ∷ start_job 30 older ∷ [])
      claimed_once

claim_job-exclusive_example : ◌≢◌ {A = ℕ} 7 8
claim_job-exclusive_example =
    claim_job-exclusive [] [] none none 30 31 queue (ocr ∷ start_job 30 older ∷ [])
      (start_job 31 ocr ∷ start_job 30 older ∷ []) (start_job 30 older) (start_job 31 ocr)
      claimed_once claimed_twice

abbrev broken : Text → Option (Job → Run)
broken _ = some (λ _. raised (codes "no such file"))

abbrev clocks : List (ℕ × ℕ)
clocks = (20, 21) ∷ (30, 31) ∷ (40, 41) ∷ (50, 51) ∷ []

rounds-failing_example :
    (row : Job) × (rounds broken clocks (ocr ∷ []) ≡ row ∷ [])
    × (row.status ≡ (if ltb (0 + 4) 3 then JobStatus.pending else JobStatus.failed))
    × (row.attempts ≡ min (0 + 4) 3)
rounds-failing_example =
    rounds-failing broken (λ _. refl) clocks ocr refl (omega arith) (omega arith)

abbrev crashed : Job
crashed = record ocr { status = JobStatus.running; attempts = 3; started_at = some 100 }

recover_stale_jobs-exceeds_example :
    (claimed : Job) × ((claim_job [] none 900 (recover_stale_jobs 800 600 (crashed ∷ []))).0
      ≡ some claimed)
    × (claimed.id ≡ crashed.id)
    × (claimed.max_attempts < claimed.attempts)
recover_stale_jobs-exceeds_example =
    recover_stale_jobs-exceeds 800 600 900 crashed (unfold is_stale in refl) refl (omega arith)

queue-IsValid : IsValid []
queue-IsValid = record { sound = tt; unique = tt }

abbrev one_job : List Job
one_job = create_job 7 20 (codes "document_processing") (codes "{}") 3 []

Reach-IsValid_example : IsValid (fail_job 40 7 (codes "timeout") (claim_job [] none 30 one_job).1)
Reach-IsValid_example = Reach-IsValid queue-IsValid (
    next
      (next
        (next here
          (created 7 20 (codes "document_processing") (codes "{}") 3 (omega arith) tt refl))
        (claimed [] none 30 refl))
      (Step.raised 40 7 (codes "timeout") refl))
