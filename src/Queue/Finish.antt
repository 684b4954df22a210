-- ===== src/Queue/Finish.antt =====
-- `renew`, `ack`, `fail` and `cancel` of src/queue.rs.
use hostinger.Prelude.{ℕ, ◌+◌, String, Bool, true, false, ◌&&◌, Option, none, some, if◌then◌else◌}
use hostinger.Prelude.Words.{below}
use hostinger.Exec.{pure, or_raise, map_err, now_utc, ◌>>=◌, ◌>>◌}
use hostinger.Queue.Status.{queued, completed, failed, cancelled}
use hostinger.Queue.Tables.{
  BuildJobRecord, AttemptRow, update_jobs, held_by, leased_to, can_cancel, renewed, released,
  released_with, finish_attempts,
}
use hostinger.Queue.Redis.{Broker, Codec}
use hostinger.Queue.Base.{
  redis, job_not_found, BuildQueue, QueueAction, quietly, statement, set_deployment, get_job,
  get_redis_conn, publish, acknowledge,
}
use hostinger.Queue.Enqueue.{with_status, with_error}

-- res.rows_affected() > 0
abbrev pub affected : Option BuildJobRecord → Bool
affected none = false
affected (some j) = true

abbrev pub succeeded_at : ℕ → AttemptRow → AttemptRow
succeeded_at now a = record a { status = "succeeded"; finished_at = some now }

abbrev pub failed_at : ℕ → String → AttemptRow → AttemptRow
failed_at now error a = record a {
  status = "failed";
  error_message = some error;
  finished_at = some now;
}

module _ {R : Type 0} where
  -- UPDATE build_attempts ..., whose outcome is ignored.
  unfoldable pub close_attempts : ℕ → String → (AttemptRow → AttemptRow) → QueueAction R (Unit {0})
  close_attempts job_id worker_id f =
      quietly (statement {R = R} "attempts" (λ t. (tt, finish_attempts job_id worker_id f t)))

  unfoldable pub renew : ℕ → String → ℕ → QueueAction R Bool
  renew job_id worker_id lease_duration = do
    now ← now_utc
    res ←
        statement "failed to renew lease in postgres"
          (update_jobs (held_by job_id worker_id) (renewed (now + lease_duration) now))
    pure (affected res)

  unfoldable pub mark_cancelled : Option BuildJobRecord → QueueAction R (Unit {0})
  mark_cancelled none = pure tt
  mark_cancelled (some j) = set_deployment j.deployment_id (with_status "cancelled")

  unfoldable pub cancel : ℕ → QueueAction R (Unit {0})
  cancel job_id = do
    now ← now_utc
    row_opt ←
        statement "failed to cancel build job"
          (update_jobs (can_cancel job_id) (released cancelled now))
    mark_cancelled row_opt

module _ {R : Type 0} (broker : Broker R) (codec : Codec) (queue : BuildQueue) where
  unfoldable pub ack : ℕ → String → String → String → QueueAction R (Unit {0})
  ack job_id worker_id stream_name stream_id = do
    now ← now_utc
    statement "failed to mark build job completed"
        (update_jobs (held_by job_id worker_id) (released completed now))
    close_attempts job_id worker_id (succeeded_at now)
    get_redis_conn broker
    acknowledge broker stream_name queue.consumer_group stream_id

  -- The branch of `fail` for a job that is tried again.
  unfoldable pub fail_retry :
      ℕ → String → String → String → String → ℕ → BuildJobRecord → QueueAction R (Unit {0})
  fail_retry job_id worker_id stream_name stream_id error_message now j = do
    statement "failed to requeue failed job"
        (update_jobs (leased_to job_id worker_id) (released_with queued error_message now))
    close_attempts job_id worker_id (failed_at now error_message)
    map_err (λ e. redis "failed to re-publish job to redis")
        (publish broker codec stream_name j.id j.deployment_id)
    acknowledge broker stream_name queue.consumer_group stream_id

  -- The branch of `fail` for a job that is given up.
  unfoldable pub fail_for_good :
      ℕ → String → String → String → String → ℕ → BuildJobRecord → QueueAction R (Unit {0})
  fail_for_good job_id worker_id stream_name stream_id error_message now j = do
    statement "failed to mark build job failed"
        (update_jobs (leased_to job_id worker_id) (released_with failed error_message now))
    close_attempts job_id worker_id (failed_at now error_message)
    set_deployment j.deployment_id (with_error error_message)
    acknowledge broker stream_name queue.consumer_group stream_id

  unfoldable pub fail : ℕ → String → String → String → String → Bool → QueueAction R (Unit {0})
  fail job_id worker_id stream_name stream_id error_message retryable = do
    now ← now_utc
    found ← get_job job_id
    j ← or_raise found (job_not_found job_id)
    get_redis_conn broker
    if retryable && below j.attempt j.max_attempts
        then fail_retry job_id worker_id stream_name stream_id error_message now j
        else fail_for_good job_id worker_id stream_name stream_id error_message now j
