-- ===== src/Queue/Same.antt =====
-- The parts of src/queue.rs that leave `build_jobs` alone.
use hostinger.Prelude.{ℕ, String, ◌≡◌, refl, ◌∙◌, Bool, none, List, [], ◌∷◌, find, update, arith}
use hostinger.Exec.{Result, Exec}
use hostinger.Exec.Moves.{
  IsPreorder, Moves, Moves-bind, Moves-catch, Moves-write, Moves-call, Moves-now_utc, try_write_at,
  moves_rules,
}
use hostinger.Queue.Tables.{
  JobRow, AttemptRow, DeploymentRow, insert_attempt, update_deployment, finish_attempts,
}
use hostinger.Queue.Redis.{Broker, Codec}
use hostinger.Queue.Base.{
  database, QueueState, statement, on_tables, try_statement, command, quietly, load_counter,
  set_counter, publish, query, get_job, set_deployment, get_redis_conn, acknowledge,
}
use hostinger.Queue.Finish.{close_attempts}

abbrev pub SameJobs : {R : Type 0} → QueueState R → QueueState R → Type 0
SameJobs s s' = s'.tables.jobs ≡ s.tables.jobs

pub SameJobs-IsPreorder : {R : Type 0} → IsPreorder (SameJobs {R = R})
SameJobs-IsPreorder = record { reflexive = λ s. refl; transitive = λ a b c e f. f ∙ e }

pub update_unmet :
    (p : JobRow → Bool) (f : JobRow → JobRow) (rs : List JobRow)
    → find p rs ≡ none
    → update p f rs ≡ rs
update_unmet p f [] h = refl
update_unmet p f (r ∷ rs) h = ground (arith, update_unmet p f rs)

module _ {R A : Type 0} where
  pub command-SameJobs : (f : R → Result String A × R) → Moves SameJobs (command f)
  unfolding command
  command-SameJobs f = Moves-call SameJobs-IsPreorder _ (λ s. refl)

  pub quietly-SameJobs :
      {E : Type 0} (m : Exec (QueueState R) E A) → Moves SameJobs m → Moves SameJobs (quietly m)
  unfolding quietly
  quietly-SameJobs m h = search (moves_rules, SameJobs-IsPreorder)

module _ {R : Type 0} where
  pub set_deployment-SameJobs :
      (i : ℕ) (f : DeploymentRow → DeploymentRow) → Moves SameJobs (set_deployment {R = R} i f)
  unfolding set_deployment statement update_deployment
  set_deployment-SameJobs i f = quietly-SameJobs _ (Moves-write SameJobs-IsPreorder _ _ (λ s. refl))

  pub close_attempts-SameJobs :
      (job_id : ℕ) (worker : String) (f : AttemptRow → AttemptRow)
      → Moves SameJobs (close_attempts {R = R} job_id worker f)
  unfolding close_attempts statement finish_attempts
  close_attempts-SameJobs job_id worker f =
      quietly-SameJobs _ (Moves-write SameJobs-IsPreorder _ _ (λ s. refl))

  pub get_job-SameJobs : (job_id : ℕ) → Moves SameJobs (get_job {R = R} job_id)
  unfolding get_job query
  get_job-SameJobs job_id = search (moves_rules, SameJobs-IsPreorder)

  pub load_counter-SameJobs : Moves SameJobs (load_counter {R = R})
  unfolding load_counter
  load_counter-SameJobs = Moves-call SameJobs-IsPreorder _ (λ s. refl)

  pub set_counter-SameJobs : (f : ℕ → ℕ) → Moves SameJobs (set_counter {R = R} f)
  unfolding set_counter
  set_counter-SameJobs f = Moves-call SameJobs-IsPreorder _ (λ s. refl)

  pub insert_attempt-SameJobs :
      (context : String) (row : AttemptRow)
      → Moves SameJobs (try_statement {R = R} context (insert_attempt row))
  unfolding try_statement insert_attempt
  insert_attempt-SameJobs context row = record {
    from = λ w.
        try_write_at SameJobs-IsPreorder (database context) (on_tables (insert_attempt row)) w
          (λ s' a e. ground arith);
  }

pub ruleset same_rules = (
  moves_rules, SameJobs-IsPreorder, command-SameJobs, quietly-SameJobs, set_deployment-SameJobs,
  load_counter-SameJobs, set_counter-SameJobs, insert_attempt-SameJobs,
)

module _ {R : Type 0} (broker : Broker R) where
  pub get_redis_conn-SameJobs : Moves SameJobs (get_redis_conn broker)
  unfolding get_redis_conn
  get_redis_conn-SameJobs = search same_rules

  pub acknowledge-SameJobs :
      (stream group stream_id : String) → Moves SameJobs (acknowledge broker stream group stream_id)
  unfolding acknowledge
  acknowledge-SameJobs stream group stream_id = search same_rules

  pub publish-SameJobs :
      (codec : Codec) (stream : String) (job_id deployment_id : ℕ)
      → Moves SameJobs (publish broker codec stream job_id deployment_id)
  unfolding publish
  publish-SameJobs codec stream job_id deployment_id = search same_rules
