-- ===== src/Queue/Growth.antt =====
-- The statements of src/queue.rs and the commands that it sends, as growths of `build_jobs`.
use hostinger.Prelude.{
  ℕ, String, ◌≡◌, sym, subst, ◌⊎◌, inl, inr, Bool, Option, some, List, [], ◌∷◌, ◌++◌, arith,
  Option-cases,
}
use hostinger.Exec.{Result, Exec}
use hostinger.Exec.Moves.{
  Moves, Moves-bind, Moves-catch, Moves-write, Moves-call, try_write_at, moves_rules,
}
use hostinger.Queue.Tables.{
  BuildJobRecord, JobRow, AttemptRow, DeploymentRow, QueueTables, insert_job, update_jobs,
  insert_attempt, finish_attempts, update_deployment,
}
use hostinger.Queue.Redis.{Broker, Codec}
use hostinger.Queue.Base.{
  database, QueueState, BuildQueue, query, statement, on_tables, try_statement, command, quietly,
  load_counter, set_counter, set_deployment, get_redis_conn, publish, acknowledge, ensure_groups,
  with_prefix,
}
use hostinger.Queue.Finish.{close_attempts}
use hostinger.Queue.History.{
  IsFresh, Grown, Grown-refl, Growing, Growing-IsPreorder, Steps, updated-Grown, append-Grown,
}

module _ {R A : Type 0} where
  pub query-Grows :
      (context : String) (f : QueueTables → A) → Moves Growing (query {R = R} context f)
  unfolding query
  query-Grows context f = search (moves_rules, Growing-IsPreorder)

  pub command-Grows : (f : R → Result String A × R) → Moves Growing (command f)
  unfolding command
  command-Grows f = Moves-call Growing-IsPreorder _ (λ s. Grown-refl s.tables.jobs)

  pub quietly-Grows :
      {E : Type 0} (m : Exec (QueueState R) E A) → Moves Growing m → Moves Growing (quietly m)
  unfolding quietly
  quietly-Grows m h = search (moves_rules, Growing-IsPreorder)

  pub try_statement-Grows :
      (context : String) (f : QueueTables → Option (A × QueueTables))
      → ((t t' : QueueTables) (a : A) → f t ≡ some (a, t') → Grown t.jobs t'.jobs)
      → Moves Growing (try_statement {R = R} context f)
  unfolding try_statement
  try_statement-Grows context f h = record {
    from = λ w. try_write_at Growing-IsPreorder (database context) (on_tables f) w λ s' a e.
        elim (Option-cases (f w.db.tables)) [
          | inl q ↦ absurd (ground arith)
          | inr ((b, t), q) ↦
              let same : t ≡ s'.tables = ground arith in
              subst (λ (t' : QueueTables). Grown w.db.tables.jobs t'.jobs) same
                (h w.db.tables t b q)
        ];
  }

insert_job_cases :
    (row : JobRow) (t t' : QueueTables) (res : Option BuildJobRecord)
    → insert_job row t ≡ some (res, t')
    → (t' ≡ t) ⊎ (t' ≡ record t { jobs = t.jobs ++ row ∷ [] })
unfolding insert_job
insert_job_cases row t t' res h = ground arith

inserted-Grown :
    (row : JobRow)
    → IsFresh row.job
    → (t t' : QueueTables) (res : Option BuildJobRecord) → insert_job row t ≡ some (res, t')
    → Grown t.jobs t'.jobs
inserted-Grown row fresh t t' res h = elim (insert_job_cases row t t' res h) [
  | inl e ↦ subst (λ (u : QueueTables). Grown t.jobs u.jobs) (sym e) (Grown-refl t.jobs)
  | inr e ↦ subst (λ (u : QueueTables). Grown t.jobs u.jobs) (sym e) (append-Grown t.jobs row fresh)
]

attempt_jobs :
    (row : AttemptRow) (t t' : QueueTables) (res : Unit {0})
    → insert_attempt row t ≡ some (res, t')
    → t'.jobs ≡ t.jobs
unfolding insert_attempt
attempt_jobs row t t' res h = ground arith

module _ {R : Type 0} where
  pub update_jobs-Grows :
      (context : String) (p : BuildJobRecord → Bool) (f : BuildJobRecord → BuildJobRecord)
      → Steps p f
      → Moves Growing (statement {R = R} context (update_jobs p f))
  unfolding statement update_jobs
  update_jobs-Grows context p f step =
      Moves-write Growing-IsPreorder _ _ (λ s. updated-Grown p f step s.tables.jobs)

  pub insert_job-Grows :
      (context : String) (row : JobRow)
      → IsFresh row.job
      → Moves Growing (try_statement {R = R} context (insert_job row))
  insert_job-Grows context row fresh =
      try_statement-Grows context (insert_job row) (inserted-Grown row fresh)

  pub insert_attempt-Grows :
      (context : String) (row : AttemptRow)
      → Moves Growing (try_statement {R = R} context (insert_attempt row))
  insert_attempt-Grows context row = try_statement-Grows context (insert_attempt row) λ t t' a e.
      subst (λ (js : List JobRow). Grown t.jobs js) (sym (attempt_jobs row t t' a e))
        (Grown-refl t.jobs)

  pub close_attempts-Grows :
      (job_id : ℕ) (worker : String) (f : AttemptRow → AttemptRow)
      → Moves Growing (close_attempts {R = R} job_id worker f)
  unfolding close_attempts statement finish_attempts
  close_attempts-Grows job_id worker f =
      quietly-Grows _ (Moves-write Growing-IsPreorder _ _ (λ s. Grown-refl s.tables.jobs))

  pub set_deployment-Grows :
      (i : ℕ) (f : DeploymentRow → DeploymentRow) → Moves Growing (set_deployment {R = R} i f)
  unfolding set_deployment statement update_deployment
  set_deployment-Grows i f =
      quietly-Grows _ (Moves-write Growing-IsPreorder _ _ (λ s. Grown-refl s.tables.jobs))

  pub load_counter-Grows : Moves Growing (load_counter {R = R})
  unfolding load_counter
  load_counter-Grows = Moves-call Growing-IsPreorder _ (λ s. Grown-refl s.tables.jobs)

  pub set_counter-Grows : (f : ℕ → ℕ) → Moves Growing (set_counter {R = R} f)
  unfolding set_counter
  set_counter-Grows f = Moves-call Growing-IsPreorder _ (λ s. Grown-refl s.tables.jobs)

pub ruleset growing_rules = (
  moves_rules, Growing-IsPreorder, query-Grows, command-Grows, quietly-Grows, update_jobs-Grows,
  insert_attempt-Grows, close_attempts-Grows, set_deployment-Grows, load_counter-Grows,
  set_counter-Grows,
)

module _ {R : Type 0} (broker : Broker R) where
  pub get_redis_conn-Grows : Moves Growing (get_redis_conn broker)
  unfolding get_redis_conn
  get_redis_conn-Grows = search growing_rules

  pub publish-Grows :
      (codec : Codec) (stream : String) (job_id deployment_id : ℕ)
      → Moves Growing (publish broker codec stream job_id deployment_id)
  unfolding publish
  publish-Grows codec stream job_id deployment_id = search growing_rules

  pub acknowledge-Grows :
      (stream group stream_id : String) → Moves Growing (acknowledge broker stream group stream_id)
  unfolding acknowledge
  acknowledge-Grows stream group stream_id = search growing_rules

  pub ruleset redis_rules = (growing_rules, get_redis_conn-Grows, publish-Grows, acknowledge-Grows)

  pub ensure_groups-Grows : (queue : BuildQueue) → Moves Growing (ensure_groups broker queue)
  unfolding ensure_groups
  ensure_groups-Grows queue = search redis_rules depth 8

  pub with_prefix-Grows :
      (consumer_group stream_prefix : String)
      → Moves Growing (with_prefix broker consumer_group stream_prefix)
  unfolding with_prefix
  with_prefix-Grows consumer_group stream_prefix = search (redis_rules, ensure_groups-Grows) depth 8
