-- ===== src/Queue/Base.antt =====
-- The state of a build queue, its errors, and the helpers of src/queue.rs that the operations share.
use hostinger.Prelude.{ℕ, String, Option, none, some, List, [], ◌∷◌, str_append}
use hostinger.Exec.{Result, ok, Exec, pure, read, write, try_write, call, catch, map_err, ◌>>◌}
use hostinger.Queue.Priority.{JobPriority, production, preview}
use hostinger.Queue.Tables.{
  BuildJobRecord, QueueTables, DeploymentRow, has_job_id, has_deployment, job_where,
  update_deployment,
}
use hostinger.Queue.Redis.{Broker, Codec}

-- `anyhow::Error`, one constructor for each kind. `database` carries the context, or names the
-- statement where the code adds none; `redis` carries the context, or the server's text.
pub data QueueError : Type 0 where
  database redis : String → QueueError
  not_loaded : QueueError
  job_not_found : ℕ → QueueError

-- The database, the server of the streams, and the counter in the process.
pub record QueueState (R : Type 0) : Type 0 where
  pub tables : QueueTables
  pub server : R
  pub prod_claims_counter : ℕ

pub record BuildQueue : Type 0 where
  pub consumer_group : String
  pub stream_prefix : String

abbrev pub QueueAction : Type 0 → Type 0 → Type 0
QueueAction R A = Exec (QueueState R) QueueError A

unfoldable pub prod_stream : BuildQueue → String
prod_stream queue = str_append queue.stream_prefix ":production"

unfoldable pub preview_stream : BuildQueue → String
preview_stream queue = str_append queue.stream_prefix ":preview"

unfoldable pub stream_of : BuildQueue → JobPriority → String
stream_of queue production = prod_stream queue
stream_of queue preview = preview_stream queue

module _ {R A : Type 0} where
  unfoldable pub query : String → (QueueTables → A) → QueueAction R A
  unfolding read
  query context f = read (database context) (λ s. f s.tables)

  unfoldable pub statement : String → (QueueTables → A × QueueTables) → QueueAction R A
  unfolding write
  statement context f =
      write (database context) (λ s. ((f s.tables).0, record s { tables = (f s.tables).1 }))

  -- A statement that a key may refuse.
  abbrev pub on_tables :
      (QueueTables → Option (A × QueueTables)) → QueueState R → Option (A × QueueState R)
  on_tables f s = elim (f s.tables) [
    | none ↦ none
    | some (a, t) ↦ some (a, record s { tables = t })
  ]

  unfoldable pub try_statement : String → (QueueTables → Option (A × QueueTables)) → QueueAction R A
  unfolding try_write
  try_statement context f = try_write (database context) (on_tables f)

  -- A command of Redis.
  unfoldable pub command : (R → Result String A × R) → Exec (QueueState R) String A
  unfolding call
  command f = call (λ s. ((f s.server).0, record s { server = (f s.server).1 }))

  -- `let _ = ...`
  unfoldable pub quietly : {E : Type 0} → Exec (QueueState R) E A → QueueAction R (Unit {0})
  quietly m = do catch m; pure tt

module _ {R : Type 0} where
  unfoldable pub load_counter : QueueAction R ℕ
  unfolding call
  load_counter = call (λ s. (ok s.prod_claims_counter, s))

  unfoldable pub set_counter : (ℕ → ℕ) → QueueAction R (Unit {0})
  unfolding call
  set_counter f = call (λ s. (ok tt, record s { prod_claims_counter = f s.prod_claims_counter }))

  -- UPDATE deployments SET status = ... WHERE id = $1, whose outcome is ignored.
  unfoldable pub set_deployment : ℕ → (DeploymentRow → DeploymentRow) → QueueAction R (Unit {0})
  set_deployment i f = quietly (statement {R = R} "deployment" (λ t. (tt, update_deployment i f t)))

  unfoldable pub get_job : ℕ → QueueAction R (Option BuildJobRecord)
  get_job job_id = query "failed to get build job" (job_where (has_job_id job_id))

  unfoldable pub get_job_by_deployment : ℕ → QueueAction R (Option BuildJobRecord)
  get_job_by_deployment deployment_id =
      query "failed to get build job by deployment" (job_where (has_deployment deployment_id))

-- The fields of the entry for a job.
abbrev pub job_fields : Codec → ℕ → ℕ → List (String × String)
job_fields codec job_id deployment_id =
    ("job_id", codec.uuid_to_string job_id)
    ∷ ("deployment_id", codec.uuid_to_string deployment_id)
    ∷ []

module _ {R : Type 0} (broker : Broker R) where
  unfoldable pub get_redis_conn : QueueAction R (Unit {0})
  get_redis_conn =
      map_err (λ e. redis "failed to get redis multiplexed connection")
        (command broker.get_connection)

  -- One XADD of a job.
  unfoldable pub publish : Codec → String → ℕ → ℕ → Exec (QueueState R) String (Unit {0})
  publish codec stream job_id deployment_id =
      command (broker.xadd stream (job_fields codec job_id deployment_id))

  -- XACK, whose outcome is ignored.
  unfoldable pub acknowledge : String → String → String → QueueAction R (Unit {0})
  acknowledge stream group stream_id = quietly (command (broker.xack stream group stream_id))

  -- A BUSYGROUP error is silent and any other is printed: both go on.
  unfoldable pub ensure_groups : BuildQueue → QueueAction R (Unit {0})
  ensure_groups queue = do
    get_redis_conn
    quietly (command (broker.xgroup_create (prod_stream queue) queue.consumer_group))
    quietly (command (broker.xgroup_create (preview_stream queue) queue.consumer_group))

  unfoldable pub with_prefix : String → String → QueueAction R BuildQueue
  with_prefix consumer_group stream_prefix = do
    set_counter (λ count. 0)
    ensure_groups (record { consumer_group = consumer_group; stream_prefix = stream_prefix })
    pure (record { consumer_group = consumer_group; stream_prefix = stream_prefix })

  unfoldable pub new : String → QueueAction R BuildQueue
  new consumer_group = with_prefix consumer_group "build_jobs"
