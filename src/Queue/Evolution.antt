-- ===== src/Queue/Evolution.antt =====
-- The operations of src/queue.rs as growths of `build_jobs`, whatever fails and whatever Redis says.
use hostinger.Prelude.{ℕ, ◌+◌, String, refl, inl, inr, Bool, Option, none, some, List, [], ◌∷◌}
use hostinger.Exec.Moves.{Moves, Moves-bind, Moves-catch}
use hostinger.Queue.Status.{queued, failed}
use hostinger.Queue.Tables.{BuildJobRecord, JobRow}
use hostinger.Queue.Redis.{Broker, Codec}
use hostinger.Queue.Base.{BuildQueue, QueueAction, get_job, get_job_by_deployment}
use hostinger.Queue.Enqueue.{
  EnqueueJobInput, fresh_row, announce, enqueue, requeue_one, requeue_rows, requeue_expired,
}
use hostinger.Queue.Claim.{
  ClaimedJob, entry_in, streams_for_claim, record_claim, after_lease, take_lease, after_read,
  claim_from, claim,
}
use hostinger.Queue.Finish.{renew, mark_cancelled, cancel, ack, fail_retry, fail_for_good, fail}
use hostinger.Queue.History.{IsFresh, Growing, Growing-IsPreorder}
use hostinger.Queue.Steps.{
  claim-Steps, renew-Steps, ack-Steps, fail-Steps, cancel-Steps, requeue-Steps, exhaust-Steps,
}
use hostinger.Queue.Growth.{
  command-Grows, insert_job-Grows, growing_rules, redis_rules, acknowledge-Grows,
}

module _ {R : Type 0} where
  pub renew-Grows :
      (job_id : ℕ) (worker : String) (lease : ℕ) → Moves Growing (renew {R = R} job_id worker lease)
  unfolding renew
  renew-Grows job_id worker lease = search (growing_rules, renew-Steps) depth 8

  mark_cancelled-Grows : (o : Option BuildJobRecord) → Moves Growing (mark_cancelled {R = R} o)
  unfolding mark_cancelled
  mark_cancelled-Grows none = search growing_rules
  mark_cancelled-Grows (some j) = search growing_rules

  pub cancel-Grows : (job_id : ℕ) → Moves Growing (cancel {R = R} job_id)
  unfolding cancel
  cancel-Grows job_id = search (growing_rules, cancel-Steps, mark_cancelled-Grows) depth 8

  pub get_job-Grows : (job_id : ℕ) → Moves Growing (get_job {R = R} job_id)
  unfolding get_job
  get_job-Grows job_id = search growing_rules

  pub get_job_by_deployment-Grows : (d : ℕ) → Moves Growing (get_job_by_deployment {R = R} d)
  unfolding get_job_by_deployment
  get_job_by_deployment-Grows d = search growing_rules

module _ {R : Type 0} (broker : Broker R) (codec : Codec) (queue : BuildQueue) where
  announce-Grows :
      (d : ℕ) (o : Option BuildJobRecord) → Moves Growing (announce broker codec queue d o)
  unfolding announce
  announce-Grows d none = search (redis_rules, get_job_by_deployment-Grows) depth 8
  announce-Grows d (some j) = search redis_rules depth 8

  fresh : (input : EnqueueJobInput) (i now : ℕ) → IsFresh (fresh_row queue input i now).job
  fresh input i now = (refl, refl, refl, refl)

  pub enqueue-Grows : (input : EnqueueJobInput) → Moves Growing (enqueue broker codec queue input)
  unfolding enqueue
  enqueue-Grows input = search (redis_rules, insert_job-Grows, fresh, announce-Grows) depth 10

  requeue_one-Grows :
      (now : ℕ) (j : BuildJobRecord) → Moves Growing (requeue_one broker codec queue now j)
  unfolding requeue_one
  requeue_one-Grows now j = search (redis_rules, requeue-Steps, exhaust-Steps) depth 10

  requeue_rows-Grows :
      (now count : ℕ) (rows : List JobRow)
      → Moves Growing (requeue_rows broker codec queue now count rows)
  unfolding requeue_rows
  requeue_rows-Grows now count [] = search redis_rules
  requeue_rows-Grows now count (row ∷ rows) =
      Moves-bind Growing-IsPreorder _ _ (requeue_one-Grows now row.job)
        (λ more. requeue_rows-Grows now (count + more) rows)

  pub requeue_expired-Grows : Moves Growing (requeue_expired broker codec queue)
  unfolding requeue_expired
  requeue_expired-Grows = search (redis_rules, requeue_rows-Grows) depth 10

  pub ack-Grows :
      (i : ℕ) (worker stream stream_id : String)
      → Moves Growing (ack broker codec queue i worker stream stream_id)
  unfolding ack
  ack-Grows i worker stream stream_id = search (redis_rules, ack-Steps) depth 10

  fail_retry-Grows :
      (i : ℕ) (worker stream stream_id error : String) (now : ℕ) (j : BuildJobRecord)
      → Moves Growing (fail_retry broker codec queue i worker stream stream_id error now j)
  unfolding fail_retry
  fail_retry-Grows i worker stream stream_id error now j =
      let steps = fail-Steps i now worker error queued (inl refl) in
      search (redis_rules, steps) depth 10

  fail_for_good-Grows :
      (i : ℕ) (worker stream stream_id error : String) (now : ℕ) (j : BuildJobRecord)
      → Moves Growing (fail_for_good broker codec queue i worker stream stream_id error now j)
  unfolding fail_for_good
  fail_for_good-Grows i worker stream stream_id error now j =
      let steps = fail-Steps i now worker error failed (inr refl) in
      search (redis_rules, steps) depth 10

  pub fail-Grows :
      (i : ℕ) (worker stream stream_id error : String) (retryable : Bool)
      → Moves Growing (fail broker codec queue i worker stream stream_id error retryable)
  unfolding fail
  fail-Grows i worker stream stream_id error retryable =
      search (redis_rules, get_job-Grows, fail_retry-Grows, fail_for_good-Grows) depth 10

  streams_for_claim-Grows : Moves Growing (streams_for_claim broker codec queue)
  unfolding streams_for_claim
  streams_for_claim-Grows = search redis_rules depth 8

  module _ (worker : String) (lease : ℕ) where
    record_claim-Grows :
        (stream stream_id : String) (now : ℕ) (j : BuildJobRecord)
        → Moves Growing (record_claim broker codec queue worker lease stream stream_id now j)
    unfolding record_claim
    record_claim-Grows stream stream_id now j = search redis_rules depth 10

    module _ (rest : QueueAction R (Option ClaimedJob)) (rest-Grows : Moves Growing rest) where
      after_lease-Grows :
          (stream stream_id : String) (now : ℕ) (o : Option BuildJobRecord)
          → Moves Growing (after_lease broker codec queue worker lease stream stream_id now rest o)
      unfolding after_lease
      after_lease-Grows stream stream_id now none =
          Moves-bind Growing-IsPreorder _ _
            (acknowledge-Grows broker stream queue.consumer_group stream_id) (λ _. rest-Grows)
      after_lease-Grows stream stream_id now (some j) = search (redis_rules, record_claim-Grows)

      take_lease-Grows :
          (stream : String) (entry : String × ℕ)
          → Moves Growing (take_lease broker codec queue worker lease stream rest entry)
      unfolding take_lease
      take_lease-Grows stream (stream_id, job_id) =
          search (redis_rules, claim-Steps, after_lease-Grows) depth 10

      after_read-Grows :
          (stream : String) (o : Option (String × ℕ))
          → Moves Growing (after_read broker codec queue worker lease stream rest o)
      unfolding after_read
      after_read-Grows stream none = rest-Grows
      after_read-Grows stream (some entry) = take_lease-Grows stream entry

    claim_from-Grows :
        (streams : List String) → Moves Growing (claim_from broker codec queue worker lease streams)
    unfolding claim_from
    claim_from-Grows [] = search redis_rules
    claim_from-Grows (stream ∷ streams) =
        let rest = claim_from broker codec queue worker lease streams in
        Moves-bind Growing-IsPreorder _ _ (Moves-catch _ (command-Grows _))
          λ res. after_read-Grows rest (claim_from-Grows streams) stream (entry_in codec res)

    pub claim-Grows : Moves Growing (claim broker codec queue worker lease)
    unfolding claim
    claim-Grows = search (redis_rules, streams_for_claim-Grows, claim_from-Grows) depth 10
