-- ===== src/Queue/Tables.antt =====
-- The tables behind src/queue.rs (migrations/0003_build_jobs.sql) and its SQL statements, each a
-- function on the tables; `none` is a statement that a key of the schema refuses. A column whose
-- CHECK constraint lists its values holds the enum. The deployments have only the columns that the
-- queue writes.
use hostinger.Prelude.{
  ℕ, ◌+◌, String, Bool, false, ◌&&◌, ◌||◌, Option, none, some, List, [], ◌∷◌, ◌++◌, ◌==◌, ltb,
  str_eq, find, select, update, any, if◌then◌else◌,
}
use hostinger.Prelude.Words.{ℤ, below}
use hostinger.Queue.Priority.{JobPriority}
use hostinger.Queue.Status.{JobStatus, running, is_running, is_claimable, is_cancellable}

pub record BuildJobRecord : Type 0 where
  pub id : ℕ
  pub deployment_id : ℕ
  pub project_id : ℕ
  pub priority : JobPriority
  pub status : JobStatus
  pub attempt : ℕ  -- i32
  pub max_attempts : ℤ  -- i32
  pub force_rebuild : Bool
  pub lease_owner : Option String
  pub lease_expires_at : Option ℕ
  pub last_error : Option String
  pub created_at : ℕ
  pub updated_at : ℕ

-- A row of `build_jobs`: the record that the code reads from it, and the name of its queue.
pub record JobRow : Type 0 where
  pub job : BuildJobRecord
  pub queue_name : String

-- A row of `build_attempts`.
pub record AttemptRow : Type 0 where
  pub id : ℕ
  pub job_id : ℕ
  pub attempt_number : ℕ
  pub worker_id : String
  pub status : String
  pub error_message : Option String
  pub started_at : ℕ
  pub finished_at : Option ℕ

pub record DeploymentRow : Type 0 where
  pub id : ℕ
  pub status : String
  pub error : Option String

pub record QueueTables : Type 0 where
  pub jobs : List JobRow
  pub attempts : List AttemptRow
  pub deployments : List DeploymentRow

abbrev pub has_job_id : ℕ → JobRow → Bool
has_job_id i r = r.job.id == i

abbrev pub has_deployment : ℕ → JobRow → Bool
has_deployment d r = r.job.deployment_id == d

abbrev pub owned_by : String → Option String → Bool
owned_by worker none = false
owned_by worker (some owner) = str_eq owner worker

-- lease_expires_at < $2
abbrev pub expired : ℕ → Option ℕ → Bool
expired now none = false
expired now (some at) = ltb at now

-- INSERT INTO build_jobs (...) ON CONFLICT (deployment_id) DO NOTHING RETURNING ...
unfoldable pub insert_job : JobRow → QueueTables → Option (Option BuildJobRecord × QueueTables)
insert_job row t =
    if any (has_deployment row.job.deployment_id) t.jobs
    then some (none, t)
    else if any (has_job_id row.job.id) t.jobs
    then none
    else some (some row.job, record t { jobs = t.jobs ++ row ∷ [] })

-- UPDATE build_jobs SET ... WHERE ... RETURNING ...
unfoldable pub update_jobs :
    (BuildJobRecord → Bool)
    → (BuildJobRecord → BuildJobRecord)
    → QueueTables
    → Option BuildJobRecord × QueueTables
update_jobs p f t = (
  elim (find (λ r. p r.job) t.jobs) [ none ↦ none | some r ↦ some (f r.job) ],
  record t { jobs = update (λ r. p r.job) (λ r. record r { job = f r.job }) t.jobs },
)

-- WHERE id = $1 AND status IN ('queued', 'failed') AND attempt < max_attempts
abbrev pub can_claim : ℕ → BuildJobRecord → Bool
can_claim i j = j.id == i && is_claimable j.status && below j.attempt j.max_attempts

abbrev pub claimed : String → ℕ → ℕ → BuildJobRecord → BuildJobRecord
claimed worker expires now j = record j {
  status = running;
  attempt = j.attempt + 1;
  lease_owner = some worker;
  lease_expires_at = some expires;
  updated_at = now;
}

-- WHERE id = $1 AND lease_owner = $2 AND status = 'running'
abbrev pub held_by : ℕ → String → BuildJobRecord → Bool
held_by i worker j = j.id == i && owned_by worker j.lease_owner && is_running j.status

abbrev pub renewed : ℕ → ℕ → BuildJobRecord → BuildJobRecord
renewed expires now j = record j { lease_expires_at = some expires; updated_at = now }

-- SET status = ..., lease_owner = NULL, lease_expires_at = NULL, updated_at = ...
abbrev pub released : JobStatus → ℕ → BuildJobRecord → BuildJobRecord
released status now j = record j {
  status = status;
  lease_owner = none;
  lease_expires_at = none;
  updated_at = now;
}

-- The same, with last_error = ...
abbrev pub released_with : JobStatus → String → ℕ → BuildJobRecord → BuildJobRecord
released_with status error now j = record j {
  status = status;
  lease_owner = none;
  lease_expires_at = none;
  last_error = some error;
  updated_at = now;
}

-- WHERE id = $1 AND lease_owner = $4
abbrev pub leased_to : ℕ → String → BuildJobRecord → Bool
leased_to i worker j = j.id == i && owned_by worker j.lease_owner

-- WHERE id = $1 AND status IN ('queued', 'running')
abbrev pub can_cancel : ℕ → BuildJobRecord → Bool
can_cancel i j = j.id == i && is_cancellable j.status

-- WHERE id = $1 AND status = 'running'
abbrev pub runs : ℕ → BuildJobRecord → Bool
runs i j = j.id == i && is_running j.status

-- SELECT ... FROM build_jobs WHERE id = $1, and WHERE deployment_id = $1
unfoldable pub job_where : (JobRow → Bool) → QueueTables → Option BuildJobRecord
job_where p t = elim (find p t.jobs) [ none ↦ none | some r ↦ some r.job ]

-- SELECT ... WHERE queue_name = $1 AND status = 'running' AND lease_expires_at < $2
unfoldable pub expired_jobs : String → ℕ → QueueTables → List JobRow
expired_jobs queue_name now t =
    select
      (λ r.
        str_eq r.queue_name queue_name
        && is_running r.job.status
        && expired now r.job.lease_expires_at)
      t.jobs

-- INSERT INTO build_attempts (...), with the keys (id) and (job_id, attempt_number)
unfoldable pub insert_attempt : AttemptRow → QueueTables → Option (Unit {0} × QueueTables)
insert_attempt row t =
    if any
      (λ (a : AttemptRow).
        a.id == row.id || (a.job_id == row.job_id && a.attempt_number == row.attempt_number))
      t.attempts
    then none
    else some (tt, record t { attempts = t.attempts ++ row ∷ [] })

-- UPDATE build_attempts SET ... WHERE job_id = $1 AND worker_id = ... AND status = 'running'
unfoldable pub finish_attempts : ℕ → String → (AttemptRow → AttemptRow) → QueueTables → QueueTables
finish_attempts job_id worker f t = record t {
  attempts =
      update (λ a. a.job_id == job_id && str_eq a.worker_id worker && str_eq a.status "running") f
        t.attempts;
}

-- UPDATE deployments SET ... WHERE id = $1
unfoldable pub update_deployment : ℕ → (DeploymentRow → DeploymentRow) → QueueTables → QueueTables
update_deployment i f t = record t { deployments = update (λ d. d.id == i) f t.deployments }
