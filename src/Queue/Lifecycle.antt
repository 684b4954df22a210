-- ===== src/Queue/Lifecycle.antt =====
-- Sequences of the queue's operations, run by any workers against any Redis server.
use hostinger.Prelude.{
  ℕ, ◌≤◌, String, ◌≡◌, ◌==◌, refl, sym, ◌∙◌, subst, ◌⊎◌, inl, inr, Bool, false, some, List, [], ◌∷◌,
  find, arith, Bool-cases,
}
use hostinger.Prelude.Words.{below}
use hostinger.Exec.{World}
use hostinger.Queue.Status.{completed, failed, cancelled}
use hostinger.Queue.Tables.{BuildJobRecord, JobRow, has_job_id}
use hostinger.Queue.Redis.{Broker, Codec}
use hostinger.Queue.Base.{QueueState, BuildQueue, with_prefix}
use hostinger.Queue.Enqueue.{EnqueueJobInput, enqueue, requeue_expired}
use hostinger.Queue.Claim.{claim}
use hostinger.Queue.Finish.{renew, cancel, ack, fail}
use hostinger.Queue.History.{
  JobStep, claim_step, renew_step, release_step, error_step, withdraw_step, JobLater, unchanged,
  later, Grows, added, kept, AllSound, Grown-refl, Growing, Growing-IsPreorder,
}
use hostinger.Queue.Growth.{with_prefix-Grows}
use hostinger.Queue.Evolution.{
  enqueue-Grows, requeue_expired-Grows, claim-Grows, renew-Grows, ack-Grows, fail-Grows,
  cancel-Grows,
}

module _ {R : Type 0} (broker : Broker R) (codec : Codec) where
  -- The public operations that write.
  pub data QueueOperation : Type 0 where
    to_open : String → String → QueueOperation
    to_enqueue : BuildQueue → EnqueueJobInput → QueueOperation
    to_claim : BuildQueue → String → ℕ → QueueOperation
    to_renew : ℕ → String → ℕ → QueueOperation
    to_ack : BuildQueue → ℕ → String → String → String → QueueOperation
    to_fail : BuildQueue → ℕ → String → String → String → String → Bool → QueueOperation
    to_cancel : ℕ → QueueOperation
    to_requeue : BuildQueue → QueueOperation

  -- The world after an operation, returned or failed.
  unfoldable pub run : QueueOperation → World (QueueState R) → World (QueueState R)
  run (to_open group prefix) w = (with_prefix broker group prefix w).1
  run (to_enqueue q input) w = (enqueue broker codec q input w).1
  run (to_claim q worker lease) w = (claim broker codec q worker lease w).1
  run (to_renew i worker lease) w = (renew i worker lease w).1
  run (to_ack q i worker stream entry) w = (ack broker codec q i worker stream entry w).1
  run (to_fail q i worker stream entry error retryable) w =
      (fail broker codec q i worker stream entry error retryable w).1
  run (to_cancel i) w = (cancel i w).1
  run (to_requeue q) w = (requeue_expired broker codec q w).1

  unfoldable pub run_all : List QueueOperation → World (QueueState R) → World (QueueState R)
  run_all [] w = w
  run_all (o ∷ os) w = run_all os (run o w)

  run-Grown : (o : QueueOperation) (w : World (QueueState R)) → Growing w.db (run o w).db
  unfolding run
  run-Grown (to_open group prefix) w = (with_prefix-Grows broker group prefix).from w
  run-Grown (to_enqueue q input) w = (enqueue-Grows broker codec q input).from w
  run-Grown (to_claim q worker lease) w = (claim-Grows broker codec q worker lease).from w
  run-Grown (to_renew i worker lease) w = (renew-Grows i worker lease).from w
  run-Grown (to_ack q i worker stream entry) w =
      (ack-Grows broker codec q i worker stream entry).from w
  run-Grown (to_fail q i worker stream entry error retryable) w =
      (fail-Grows broker codec q i worker stream entry error retryable).from w
  run-Grown (to_cancel i) w = (cancel-Grows i).from w
  run-Grown (to_requeue q) w = (requeue_expired-Grows broker codec q).from w

  run_all-Grown :
      (os : List QueueOperation) (w : World (QueueState R)) → Growing w.db (run_all os w).db
  unfolding run_all
  run_all-Grown [] w = Grown-refl w.db.tables.jobs
  run_all-Grown (o ∷ os) w =
      Growing-IsPreorder.transitive w.db (run o w).db (run_all os (run o w)).db (run-Grown o w)
        (run_all-Grown os (run o w))

  -- From jobs that are sound (attempts within their limit, where a negative limit allows none, and an owner and an expiry exactly while a
  -- job runs), every sequence of operations, with any replies of Redis and any failures of the
  -- database, leads to sound jobs. Each job stays in its row and changes only by steps, and jobs are
  -- added only as queued ones with no attempt.
  pub run_all-Grows :
      (os : List QueueOperation) (w : World (QueueState R))
      → AllSound w.db.tables.jobs
      → AllSound (run_all os w).db.tables.jobs
        × Grows w.db.tables.jobs (run_all os w).db.tables.jobs
  run_all-Grows os w h = ((run_all-Grown os w).sound h, (run_all-Grown os w).grows h)

step-id :
    {j k : BuildJobRecord}
    → JobStep j k
    → (k.id ≡ j.id) × (j.attempt ≤ k.attempt) × (k.max_attempts ≡ j.max_attempts)
step-id (claim_step worker expires now c l) = (refl, omega arith, refl)
step-id (renew_step expires now r) = (refl, omega arith, refl)
step-id (release_step s now r n) = (refl, omega arith, refl)
step-id (error_step s e now r w) = (refl, omega arith, refl)
step-id (withdraw_step now q) = (refl, omega arith, refl)

later-id :
    {j k : BuildJobRecord}
    → JobLater j k
    → (k.id ≡ j.id) × (j.attempt ≤ k.attempt) × (k.max_attempts ≡ j.max_attempts)
later-id unchanged = (refl, omega arith, refl)
later-id (later p s) =
    let (e, m, x) = later-id p in
    let (e', m', x') = step-id s in (e' ∙ e, omega (arith, m, m'), x' ∙ x)

-- A job that is found stays found.
find-Grows :
    (i : ℕ) {rs rs' : List JobRow} (r : JobRow)
    → Grows rs rs'
    → find (has_job_id i) rs ≡ some r
    → (r' : JobRow) × (find (has_job_id i) rs' ≡ some r') × JobLater r.job r'.job
find-Grows i x (added k) h = cc
find-Grows i x (kept {r} {r'} {rs} {rs'} q l g) h = elim (Bool-cases (r.job.id == i)) [
  | inl e ↦
      let same : r ≡ x = ground (arith, h, e) in
      (r', ground (arith, e, (later-id l).0), subst (λ (y : JobRow). JobLater y.job r'.job) same l)
  | inr e ↦
      let (x', found, m) = find-Grows i x g (ground (arith, h, e)) in
      (x', ground (arith, e, found, (later-id l).0), m)
]

-- Completed, cancelled, or failed with no attempt left.
abbrev pub IsDone : BuildJobRecord → Type 0
IsDone j =
    (j.status ≡ completed)
    ⊎ (j.status ≡ cancelled)
    ⊎ (j.status ≡ failed) × (below j.attempt j.max_attempts ≡ false)

step-not-IsDone : {j k : BuildJobRecord} → JobStep j k → ¬ IsDone j
step-not-IsDone (claim_step worker expires now c l) (inl e) = absurd (ground (arith, c, e))
step-not-IsDone (claim_step worker expires now c l) (inr (inl e)) = absurd (ground (arith, c, e))
step-not-IsDone (claim_step worker expires now c l) (inr (inr (e, full))) = cc
step-not-IsDone (renew_step expires now r) h = ground arith
step-not-IsDone (release_step s now r n) h = ground arith
step-not-IsDone (error_step s e now r w) h = ground arith
step-not-IsDone (withdraw_step now q) h = ground arith

later-done : {j k : BuildJobRecord} → JobLater j k → IsDone j → k ≡ j
later-done unchanged h = refl
later-done (later p s) h = absurd (step-not-IsDone s (subst IsDone (sym (later-done p h)) h))

module _ {R : Type 0} (broker : Broker R) (codec : Codec) where
  -- From sound jobs, a job that is completed, that is cancelled, or that failed with no attempt left
  -- is never written again, by whatever sequence of operations.
  pub run_all-done :
      (os : List (QueueOperation broker codec)) (w : World (QueueState R)) (i : ℕ) (r : JobRow)
      → AllSound w.db.tables.jobs
      → find (has_job_id i) w.db.tables.jobs ≡ some r
      → IsDone r.job
      → (r' : JobRow) × (find (has_job_id i) (run_all broker codec os w).db.tables.jobs ≡ some r')
        × (r'.job ≡ r.job)
  run_all-done os w i r sound met done =
      let (r', found, l) = find-Grows i r ((run_all-Grows broker codec os w sound).1) met in
      (r', found, later-done l done)
