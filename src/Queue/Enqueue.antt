-- ===== src/Queue/Enqueue.antt =====
-- `enqueue` and `requeue_expired` of src/queue.rs: what publishes jobs.
use hostinger.Prelude.{
  ℕ, ◌+◌, String, Bool, false, Option, none, some, List, [], ◌∷◌, if◌then◌else◌,
}
use hostinger.Prelude.Words.{ℤ, pos, below}
use hostinger.Exec.{pure, or_raise, map_err, new_uuid, now_utc, ◌>>=◌, ◌>>◌}
use hostinger.Queue.Priority.{JobPriority}
use hostinger.Queue.Status.{queued, failed}
use hostinger.Queue.Tables.{
  BuildJobRecord, JobRow, DeploymentRow, insert_job, update_jobs, runs, released, released_with,
  expired_jobs,
}
use hostinger.Queue.Redis.{Broker, Codec}
use hostinger.Queue.Base.{
  redis, not_loaded, BuildQueue, QueueAction, stream_of, query, statement, try_statement,
  set_deployment, get_redis_conn, get_job_by_deployment, publish,
}

pub record EnqueueJobInput : Type 0 where
  pub deployment_id : ℕ
  pub project_id : ℕ
  pub priority : JobPriority
  pub max_attempts : ℤ  -- i32
  pub force_rebuild : Bool

-- The row that the INSERT writes, with the defaults of the other columns.
abbrev pub fresh_row : BuildQueue → EnqueueJobInput → ℕ → ℕ → JobRow
fresh_row queue input job_id now = record {
  job = record {
    id = job_id;
    deployment_id = input.deployment_id;
    project_id = input.project_id;
    priority = input.priority;
    status = queued;
    attempt = 0;
    max_attempts = input.max_attempts;
    force_rebuild = input.force_rebuild;
    lease_owner = none;
    lease_expires_at = none;
    last_error = none;
    created_at = now;
    updated_at = now;
  };
  queue_name = queue.stream_prefix;
}

abbrev pub with_status : String → DeploymentRow → DeploymentRow
with_status status d = record d { status = status }

abbrev pub with_error : String → DeploymentRow → DeploymentRow
with_error error d = record d { status = "failed"; error = some error }

abbrev lease_lost : String
lease_lost = "lease expired and maximum attempts exceeded"

module _ {R : Type 0} (broker : Broker R) (codec : Codec) (queue : BuildQueue) where
  -- The rest of `enqueue`, on the row that the INSERT returned.
  unfoldable pub announce : ℕ → Option BuildJobRecord → QueueAction R BuildJobRecord
  announce deployment_id (some rec) = do
    get_redis_conn broker
    map_err (λ e. redis "failed to XADD job to redis")
        (publish broker codec (stream_of queue rec.priority) rec.id rec.deployment_id)
    set_deployment rec.deployment_id (with_status "queued")
    pure rec
  announce deployment_id none = do
    existing ← get_job_by_deployment deployment_id
    or_raise existing not_loaded

  unfoldable pub enqueue : EnqueueJobInput → QueueAction R BuildJobRecord
  enqueue input = do
    now ← now_utc
    job_id ← new_uuid
    row_opt ←
        try_statement "failed to insert build job" (insert_job (fresh_row queue input job_id now))
    announce input.deployment_id row_opt

  unfoldable pub enqueue_job_with_force_rebuild :
      ℕ → ℕ → JobPriority → Bool → QueueAction R BuildJobRecord
  enqueue_job_with_force_rebuild deployment_id project_id priority force_rebuild = enqueue (record {
    deployment_id = deployment_id;
    project_id = project_id;
    priority = priority;
    max_attempts = pos 3;
    force_rebuild = force_rebuild;
  })

  unfoldable pub enqueue_job : ℕ → ℕ → JobPriority → QueueAction R BuildJobRecord
  enqueue_job deployment_id project_id priority = enqueue (record {
    deployment_id = deployment_id;
    project_id = project_id;
    priority = priority;
    max_attempts = pos 3;
    force_rebuild = false;
  })

  -- One expired job: how much it adds to the count.
  unfoldable pub requeue_one : ℕ → BuildJobRecord → QueueAction R ℕ
  requeue_one now j =
      if below j.attempt j.max_attempts
      then (do
        statement "update" (update_jobs (runs j.id) (released queued now))
        map_err redis (publish broker codec (stream_of queue j.priority) j.id j.deployment_id)
        pure 1)
      else (do
        statement "update" (update_jobs (runs j.id) (released_with failed lease_lost now))
        set_deployment j.deployment_id (with_error lease_lost)
        pure 0)

  unfoldable pub requeue_rows : ℕ → ℕ → List JobRow → QueueAction R ℕ
  requeue_rows now count [] = pure count
  requeue_rows now count (row ∷ rows) = do
    more ← requeue_one now row.job
    requeue_rows now (count + more) rows

  unfoldable pub requeue_expired : QueueAction R ℕ
  requeue_expired = do
    now ← now_utc
    rows ← query "failed to fetch expired build jobs" (expired_jobs queue.stream_prefix now)
    get_redis_conn broker
    requeue_rows now 0 rows
