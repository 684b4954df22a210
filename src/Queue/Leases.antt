-- ===== src/Queue/Leases.antt =====
-- A worker that does not hold a job's lease cannot change the job.
use hostinger.Prelude.{
  ℕ, String, ◌≡◌, refl, ◌∙◌, subst, sym, Bool, none, List, [], ◌∷◌, find, arith,
}
use hostinger.Exec.{World, Exec}
use hostinger.Exec.Moves.{IsPreorder, Moves, Moves-write, moves_rules}
use hostinger.Queue.Tables.{BuildJobRecord, JobRow, update_jobs, held_by, leased_to}
use hostinger.Queue.Redis.{Broker, Codec}
use hostinger.Queue.Base.{QueueState, BuildQueue, statement}
use hostinger.Queue.Finish.{renew, ack, fail_retry, fail_for_good, fail}
use hostinger.Queue.Same.{
  SameJobs, update_unmet, set_deployment-SameJobs, close_attempts-SameJobs, get_job-SameJobs,
  get_redis_conn-SameJobs, acknowledge-SameJobs, publish-SameJobs,
}

-- No row is leased to the worker under this id.
abbrev pub NotLeased : ℕ → String → List JobRow → Type 0
NotLeased i worker rs = find (λ (r : JobRow). leased_to i worker r.job) rs ≡ none

held_none :
    (i : ℕ) (worker : String) (rs : List JobRow)
    → NotLeased i worker rs
    → find (λ (r : JobRow). held_by i worker r.job) rs ≡ none
held_none i worker [] h = refl
held_none i worker (r ∷ rs) h = ground (arith, held_none i worker rs)

module _ {R : Type 0} (i : ℕ) (worker : String) where
  abbrev Untouched : QueueState R → QueueState R → Type 0
  Untouched s s' = NotLeased i worker s.tables.jobs → s'.tables.jobs ≡ s.tables.jobs

  Untouched-IsPreorder : IsPreorder Untouched
  Untouched-IsPreorder = record {
    reflexive = λ s h. refl;
    transitive = λ a b c f g h. g (subst (NotLeased i worker) (sym (f h)) h) ∙ f h;
  }

  same-Untouched :
      {E A : Type 0} (m : Exec (QueueState R) E A) → Moves SameJobs m → Moves Untouched m
  same-Untouched m h = record { from = λ w _. h.from w }

  held-Untouched :
      (context : String) (f : BuildJobRecord → BuildJobRecord)
      → Moves Untouched (statement {R = R} context (update_jobs (held_by i worker) f))
  unfolding statement update_jobs
  held-Untouched context f =
      Moves-write Untouched-IsPreorder _ _
        λ s h. update_unmet _ _ s.tables.jobs (held_none i worker s.tables.jobs h)

  leased-Untouched :
      (context : String) (f : BuildJobRecord → BuildJobRecord)
      → Moves Untouched (statement {R = R} context (update_jobs (leased_to i worker) f))
  unfolding statement update_jobs
  leased-Untouched context f =
      Moves-write Untouched-IsPreorder _ _ (λ s h. update_unmet _ _ s.tables.jobs h)

  ruleset lease_rules = (
    moves_rules, Untouched-IsPreorder, held-Untouched, leased-Untouched, same-Untouched,
    set_deployment-SameJobs, close_attempts-SameJobs, get_job-SameJobs, get_redis_conn-SameJobs,
    acknowledge-SameJobs, publish-SameJobs,
  )

  renew-Untouched : (lease : ℕ) → Moves Untouched (renew {R = R} i worker lease)
  unfolding renew
  renew-Untouched lease = search lease_rules depth 10

  module _ (broker : Broker R) (codec : Codec) (queue : BuildQueue) (stream entry : String) where
    ack-Untouched : Moves Untouched (ack broker codec queue i worker stream entry)
    unfolding ack
    ack-Untouched = search lease_rules depth 12

    fail_retry-Untouched :
        (error : String) (now : ℕ) (j : BuildJobRecord)
        → Moves Untouched (fail_retry broker codec queue i worker stream entry error now j)
    unfolding fail_retry
    fail_retry-Untouched error now j = search lease_rules depth 12

    fail_for_good-Untouched :
        (error : String) (now : ℕ) (j : BuildJobRecord)
        → Moves Untouched (fail_for_good broker codec queue i worker stream entry error now j)
    unfolding fail_for_good
    fail_for_good-Untouched error now j = search lease_rules depth 12

    fail-Untouched :
        (error : String) (retryable : Bool)
        → Moves Untouched (fail broker codec queue i worker stream entry error retryable)
    unfolding fail
    fail-Untouched error retryable =
        search (lease_rules, fail_retry-Untouched, fail_for_good-Untouched) depth 12

-- A worker to whom no job is leased under an id changes no job when it renews, acknowledges or fails
-- that id, whether the call returns or not.
pub finish-SameJobs :
    {R : Type 0} (broker : Broker R) (codec : Codec) (queue : BuildQueue) (i : ℕ) (worker : String)
    (w : World (QueueState R))
    → NotLeased i worker w.db.tables.jobs
    → ((lease : ℕ) → (renew i worker lease w).1.db.tables.jobs ≡ w.db.tables.jobs)
      × ((stream entry : String)
          → (ack broker codec queue i worker stream entry w).1.db.tables.jobs ≡ w.db.tables.jobs)
      × ((stream entry error : String) (retryable : Bool)
          → (fail broker codec queue i worker stream entry error retryable w).1.db.tables.jobs
            ≡ w.db.tables.jobs)
finish-SameJobs broker codec queue i worker w h = (
  λ lease. (renew-Untouched i worker lease).from w h,
  λ stream entry. (ack-Untouched i worker broker codec queue stream entry).from w h,
  λ stream entry error retryable.
      (fail-Untouched i worker broker codec queue stream entry error retryable).from w h,
)
