-- ===== src/Jobs/Claim.antt =====
-- `claim_job` of backend/app/services/job_queue.py: which job is handed out, and to whom.
use mathlib.Core.Path.{subst}
use mathlib.Core.Option.{some-injective, none-ne-some}
use local_ai_search.Prelude.{
  ℕ, ◌≤◌, ◌≡◌, refl, sym, ◌↔◌, ◌∙◌, ap, select-nil_iff, All-true, All-at, All-select, ◌≢◌, Bool,
  inl, inr, true, false, Option, none, some, List, [], ◌∷◌, Text, arith, leb, ◌==◌, select, All,
  All-map, All-update_where, All-select_test, In, All-In, Bool-cases,
}
use local_ai_search.Jobs.{
  Job, is_pending, claimable, earlier, oldest, start_job, at_id, hand_out, claim_job,
}

module _ (x : Job) where
  earlier-elim {κ} :
      (P : Job → Type κ) (o : Option Job) → P x → ((k : Job) → o ≡ some k → P k) → P (earlier x o)
  unfolding earlier
  earlier-elim P none px pk = px
  earlier-elim P (some k) px pk = elim (Bool-cases (leb x.scheduled_at k.scheduled_at)) [
    | inl e ↦ rw e px
    | inr e ↦ rw e (pk k refl)
  ]

  earlier-le_self : (o : Option Job) → (earlier x o).scheduled_at ≤ x.scheduled_at
  unfolding earlier
  earlier-le_self none = omega arith
  earlier-le_self (some k) = ground arith

  earlier-le : (k : Job) → (earlier x (some k)).scheduled_at ≤ k.scheduled_at
  unfolding earlier
  earlier-le k = ground arith

-- What holds of every row holds of the oldest.
pub oldest-All {κ} :
    (P : Job → Type κ) (jobs : List Job) {job : Job} → All P jobs → oldest jobs ≡ some job → P job
unfolding oldest
oldest-All P [] h e = cc
oldest-All P (x ∷ jobs) {job} h e =
    subst P (some-injective _ _ e)
      (earlier-elim x P (oldest jobs) h.0 (λ k found. oldest-All P jobs h.1 found))

earlier-le_rest :
    (x : Job) (jobs : List Job) (o : Option Job)
    → ((k : Job) → o ≡ some k → All (λ j. k.scheduled_at ≤ j.scheduled_at) jobs)
    → (o ≡ none → jobs ≡ [])
    → All (λ j. (earlier x o).scheduled_at ≤ j.scheduled_at) jobs
earlier-le_rest x jobs none rest empty = rw (empty refl) tt
earlier-le_rest x jobs (some k) rest empty =
    All-map _ _ jobs (λ j le. omega (arith, earlier-le x k)) (rest k refl)

oldest-none : (jobs : List Job) → oldest jobs ≡ none → jobs ≡ []
unfolding oldest
oldest-none [] e = refl
oldest-none (x ∷ jobs) e = cc

-- No row is scheduled before the oldest.
pub oldest-le :
    (jobs : List Job) {job : Job}
    → oldest jobs ≡ some job
    → All (λ k. job.scheduled_at ≤ k.scheduled_at) jobs
unfolding oldest
oldest-le [] e = tt
oldest-le (x ∷ jobs) {job} e =
    subst (λ (j : Job). All (λ k. j.scheduled_at ≤ k.scheduled_at) (x ∷ jobs))
      (some-injective _ _ e)
      (
        earlier-le_self x (oldest jobs),
        earlier-le_rest x jobs (oldest jobs) (λ k found. oldest-le jobs found) (oldest-none jobs),
      )

-- A bound on the rows that pass a test is a bound on all rows under that test.
All-of_select :
    (P : Job → Type 0) (test : Job → Bool) (jobs : List Job)
    → All P (select test jobs)
    → All (λ k. test k ≡ true → P k) jobs
All-of_select P test [] h = tt
All-of_select P test (x ∷ jobs) h = elim (Bool-cases (test x)) [
  | inl e ↦
      let h' : P x × All P (select test jobs) = rw e at h in
      (λ _. h'.0, All-of_select P test jobs h'.1)
  | inr e ↦ let h' : All P (select test jobs) = rw e at h in (λ t. cc, All-of_select P test jobs h')
]

-- The oldest of the rows that pass a test is a row of the table, and passes it.
pub oldest-select :
    (test : Job → Bool) (jobs : List Job) {o : Job}
    → oldest (select test jobs) ≡ some o
    → In o jobs × (test o ≡ true)
oldest-select test jobs q = (
  oldest-All (λ k. In k jobs) (select test jobs) (All-select _ test jobs (All-In jobs)) q,
  oldest-All (λ k. test k ≡ true) (select test jobs) (All-select_test _ test jobs (λ k t. t)) q,
)

module _ (locked : List ℕ) (job_types : Option (List Text)) (now : ℕ) (jobs : List Job) where
  -- A claim hands out a row of the table, started: it was pending, due, of a wanted type and held by
  -- no other transaction, and no other such row was scheduled before it. Only the rows with its
  -- identifier are written, and all of them are started.
  pub claim_job-oldest :
      (j : Job) (table : List Job)
      → claim_job locked job_types now jobs ≡ (some j, table)
      → (o : Job) × In o jobs
        × (j ≡ start_job now o)
        × (table ≡ at_id o.id (start_job now) jobs)
        × (claimable locked job_types now o ≡ true)
        × All (λ k. claimable locked job_types now k ≡ true → o.scheduled_at ≤ k.scheduled_at) jobs
  unfolding claim_job
  claim_job-oldest j table e = handed_out (oldest (select due jobs)) refl e
    where
      due : Job → Bool
      due = claimable locked job_types now

      handed_out :
          (r : Option Job)
          → oldest (select due jobs) ≡ r
          → hand_out now jobs r ≡ (some j, table)
          → (o : Job) × In o jobs
            × (j ≡ start_job now o)
            × (table ≡ at_id o.id (start_job now) jobs)
            × (due o ≡ true)
            × All (λ k. due k ≡ true → o.scheduled_at ≤ k.scheduled_at) jobs
      handed_out none q h = absurd (none-ne-some j (ap (λ (r : Option Job × List Job). r.0) h))
      handed_out (some o) q h = (
        o,
        oldest-All (λ k. In k jobs) (select due jobs) (All-select _ due jobs (All-In jobs)) q,
        sym (some-injective _ _ (ap (λ (r : Option Job × List Job). r.0) h)),
        sym (ap (λ (r : Option Job × List Job). r.1) h),
        oldest-All (λ k. due k ≡ true) (select due jobs) (All-select_test _ due jobs (λ k t. t)) q,
        All-of_select _ due jobs (oldest-le (select due jobs) q),
      )

  -- A claim hands out nothing exactly when no row is claimable, and it then writes nothing.
  pub claim_job-none :
      ((claim_job locked job_types now jobs).0 ≡ none)
      ↔ All (λ k. claimable locked job_types now k ≡ false) jobs
  unfolding claim_job
  claim_job-none = (
    λ h. (select-nil_iff due jobs).0 (oldest-none _ (hand_out-none (oldest (select due jobs)) h)),
    λ h.
        ap (λ (rows : List Job). (hand_out now jobs (oldest rows)).0)
          ((select-nil_iff due jobs).1 h)
        ∙ ap (λ (r : Option Job). (hand_out now jobs r).0) oldest-nil,
  )
    where
      due : Job → Bool
      due = claimable locked job_types now

      hand_out-none : (r : Option Job) → (hand_out now jobs r).0 ≡ none → r ≡ none
      hand_out-none none h = refl
      hand_out-none (some o) h = cc

      oldest-nil : oldest [] ≡ none
      oldest-nil = unfold oldest in refl

-- After the write of a claim no row with the identifier is pending.
started_settled :
    (job_id now : ℕ) (jobs : List Job)
    → All (λ r. r.id ≡ job_id → is_pending r.status ≡ false) (at_id job_id (start_job now) jobs)
started_settled job_id now jobs =
    All-update_where (λ _. Unit {0}) (λ r. r.id ≡ job_id → is_pending r.status ≡ false)
      (λ r. r.id == job_id) (start_job now) jobs (λ r t u same. refl) (λ r t u same. ground arith)
      (All-true jobs)

-- Once claimed, a job is handed out to nobody else, whatever the other claim asks for: two claims in
-- a row hand out different jobs.
pub claim_job-exclusive :
    (locked locked' : List ℕ) (types types' : Option (List Text)) (now now' : ℕ)
    (jobs table table' : List Job) (j k : Job)
    → claim_job locked types now jobs ≡ (some j, table)
    → claim_job locked' types' now' table ≡ (some k, table')
    → k.id ≢ j.id
unfolding claimable
claim_job-exclusive locked locked' types types' now now' jobs table table' j k e e' same =
    let (o, _, started, written, _, _) = claim_job-oldest locked types now jobs j table e in
    let (o', held, started', _, due, _) = claim_job-oldest locked' types' now' table k table' e' in
    let settled : o'.id ≡ o.id → is_pending o'.status ≡ false =
      All-at (λ r. r.id ≡ o.id → is_pending r.status ≡ false) table
        (subst (All (λ r. r.id ≡ o.id → is_pending r.status ≡ false)) (sym written)
          (started_settled o.id now jobs))
        held in
    let same' : o'.id ≡ o.id =
      ap (λ (r : Job). r.id) (sym started') ∙ (same ∙ ap (λ (r : Job). r.id) started) in
    ground (arith, settled same')
