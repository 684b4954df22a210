-- ===== src/Queue/Claiming.antt =====
-- What `claim` of src/queue.rs returns, and what it does to the jobs.
use hostinger.Prelude.{
  ℕ, suc, ◌+◌, String, str_eq, ◌≡◌, refl, subst, Bool, true, false, inl, inr, Option, none, some,
  List, [], ◌∷◌, find, update, Bool-cases, Option-cases,
}
use hostinger.Exec.{Result, ok, err, World, call, new_uuid, next, continue, ◌>>=◌}
use hostinger.Exec.Moves.{Moves, Moves-catch, Moves-now_utc}
use hostinger.Queue.Tables.{BuildJobRecord, JobRow, QueueTables, update_jobs, can_claim, claimed}
use hostinger.Queue.Redis.{Broker, Codec}
use hostinger.Queue.Base.{
  QueueError, database, QueueState, BuildQueue, QueueAction, statement, quietly, set_counter,
  prod_stream, set_deployment,
}
use hostinger.Queue.Same.{
  SameJobs, SameJobs-IsPreorder, same_rules, update_unmet, command-SameJobs,
  get_redis_conn-SameJobs, acknowledge-SameJobs,
}
use hostinger.Queue.Claim.{
  ClaimedJob, entry_in, streams_for_claim, record_claim, after_lease, take_lease, after_read,
  claim_from, claim,
}

-- The job `c` was claimed: it is one that could be claimed, with its attempt counted and under a
-- lease of the worker for the duration, and the rows changed only there.
pub record Taken (worker : String) (lease : ℕ) (before after : List JobRow) (c : ClaimedJob)
    : Type 0 where
  pub row : JobRow
  pub job_id : ℕ
  pub now : ℕ
  pub met : find (λ (r : JobRow). can_claim job_id r.job) before ≡ some row
  pub leased : c.job ≡ claimed worker (now + lease) now row.job
  pub numbered : c.attempt_number ≡ row.job.attempt + 1
  pub rows :
      after
      ≡ update
          (λ r. can_claim job_id r.job)
          (λ r. record r { job = claimed worker (now + lease) now r.job })
          before

-- All outcomes: a returned job was claimed; without one the jobs are as they were.
abbrev pub ClaimOutcome :
    String → ℕ → List JobRow → List JobRow → Result QueueError (Option ClaimedJob) → Type 0
ClaimOutcome worker lease before after (err e) = after ≡ before
ClaimOutcome worker lease before after (ok none) = after ≡ before
ClaimOutcome worker lease before after (ok (some c)) = Taken worker lease before after c

moved_outcome :
    (worker : String) (lease : ℕ) (before before' after : List JobRow)
    (r : Result QueueError (Option ClaimedJob))
    → before' ≡ before
    → ClaimOutcome worker lease before' after r
    → ClaimOutcome worker lease before after r
moved_outcome worker lease before before' after r e h =
    subst (λ b. ClaimOutcome worker lease b after r) e h

module _ (p : BuildJobRecord → Bool) (f : BuildJobRecord → BuildJobRecord) (t : QueueTables) where
  update_jobs_missed : find (λ (r : JobRow). p r.job) t.jobs ≡ none → (update_jobs p f t).0 ≡ none
  unfolding update_jobs
  update_jobs_missed e = rw (update_jobs, e) refl

  update_jobs_met :
      (row : JobRow)
      → find (λ (r : JobRow). p r.job) t.jobs ≡ some row
      → (update_jobs p f t).0 ≡ some (f row.job)
  unfolding update_jobs
  update_jobs_met row e = rw (update_jobs, e) refl

module _ {R : Type 0} (worker : String) (lease : ℕ) where
  record Claims (m : QueueAction R (Option ClaimedJob)) : Type 0 where
    outcome :
        (w : World (QueueState R))
        → ClaimOutcome worker lease w.db.tables.jobs (m w).1.db.tables.jobs (m w).0

  -- What leaves the jobs alone may come first.
  Claims-bind :
      {A : Type 0} (m : QueueAction R A) (f : A → QueueAction R (Option ClaimedJob))
      → Moves SameJobs m
      → ((a : A) → Claims (f a))
      → Claims (m >>= f)
  Claims-bind {A} m f same h = record { outcome = λ w. go w (m w).0 (m w).1 (same.from w) }
    where
      go :
          (w : World (QueueState R)) (r : Result QueueError A) (w' : World (QueueState R))
          → w'.db.tables.jobs ≡ w.db.tables.jobs
          → ClaimOutcome worker lease w.db.tables.jobs
              (continue r f w').1.db.tables.jobs
              (continue r f w').0
      go w (err e) w' s = s
      go w (ok a) w' s =
          moved_outcome worker lease w.db.tables.jobs w'.db.tables.jobs (f a w').1.db.tables.jobs
            (f a w').0 s ((h a).outcome w')

module _ {R A : Type 0} (context : String) (f : QueueTables → A × QueueTables)
    (w : World (QueueState R)) where
  statement_down :
      w.env.fault w.step ≡ true → statement context f w ≡ (err (database context), next w)
  unfolding statement
  statement_down down = rw down refl

  statement_up :
      w.env.fault w.step ≡ false
      → statement context f w ≡ (
        ok (f w.db.tables).0,
        record w { step = suc w.step; db = record w.db { tables = (f w.db.tables).1 } },
      )
  unfolding statement
  statement_up up = rw up refl

module _ {R : Type 0} (broker : Broker R) (codec : Codec) (queue : BuildQueue) where
  streams_for_claim-SameJobs : Moves SameJobs (streams_for_claim broker codec queue)
  unfolding streams_for_claim
  streams_for_claim-SameJobs = search same_rules depth 8

  module _ (worker : String) (lease : ℕ) where
    record_claim-SameJobs :
        (stream stream_id : String) (now : ℕ) (j : BuildJobRecord)
        → Moves SameJobs (record_claim broker codec queue worker lease stream stream_id now j)
    unfolding record_claim
    record_claim-SameJobs stream stream_id now j = search same_rules depth 10

    record_claim_ok :
        (stream stream_id : String) (now : ℕ) (j : BuildJobRecord) (w : World (QueueState R))
        → (record_claim broker codec queue worker lease stream stream_id now j w).0
          ≡ ok (
              some (record {
                job = j;
                attempt_number = j.attempt;
                stream_name = stream;
                stream_id = stream_id;
              }))
    unfolding record_claim quietly set_deployment set_counter new_uuid call
    record_claim_ok stream stream_id now j w =
        elim (Bool-cases (str_eq stream (prod_stream queue))) [
          | inl e ↦ rw e refl
          | inr e ↦ rw e refl
        ]

    module _ (rest : QueueAction R (Option ClaimedJob))
        (rest_claims : Claims worker lease rest) where
      after_none :
          (stream stream_id : String) (now : ℕ)
          → Claims worker lease
              (after_lease broker codec queue worker lease stream stream_id now rest none)
      unfolding after_lease
      after_none stream stream_id now =
          Claims-bind worker lease _ _
            (acknowledge-SameJobs broker stream queue.consumer_group stream_id) (λ _. rest_claims)

      -- The rest of `take_lease`, after the clock.
      leased-Claims :
          (stream stream_id : String) (job_id now : ℕ)
          → Claims worker lease (
              statement "failed to claim job in postgres"
                (update_jobs (can_claim job_id) (claimed worker (now + lease) now))
              >>= after_lease broker codec queue worker lease stream stream_id now rest)
      unfolding update_jobs after_lease
      leased-Claims stream stream_id job_id now = record {
        outcome = λ w. elim (Bool-cases (w.env.fault w.step)) [
          | inl down ↦ rw (statement_down _ _ w down, continue) refl
          | inr up ↦
              elim (Option-cases (find (λ (r : JobRow). can_claim job_id r.job) w.db.tables.jobs)) [
                | inl missing ↦
                    rw (statement_up _ _ w up, continue, update_jobs_missed _ _ w.db.tables missing)
                      (moved_outcome worker lease _ _ _ _
                        (update_unmet _ _ w.db.tables.jobs missing)
                        ((after_none stream stream_id now).outcome _))
                | inr (row, met) ↦
                    rw (statement_up _ _ w up, continue, update_jobs_met _ _ w.db.tables row met)
                      (rw (record_claim_ok stream stream_id now _ _) (record {
                        row = row;
                        job_id = job_id;
                        now = now;
                        met = met;
                        leased = refl;
                        numbered = refl;
                        rows = (record_claim-SameJobs stream stream_id now _).from _;
                      }))
              ]
        ];
      }

      take_lease-Claims :
          (stream : String) (entry : String × ℕ)
          → Claims worker lease (take_lease broker codec queue worker lease stream rest entry)
      unfolding take_lease
      take_lease-Claims stream (stream_id, job_id) =
          Claims-bind worker lease _ _ (Moves-now_utc SameJobs-IsPreorder)
            (λ now. leased-Claims stream stream_id job_id now)

      after_read-Claims :
          (stream : String) (o : Option (String × ℕ))
          → Claims worker lease (after_read broker codec queue worker lease stream rest o)
      unfolding after_read
      after_read-Claims stream none = rest_claims
      after_read-Claims stream (some entry) = take_lease-Claims stream entry

    claim_from-Claims :
        (streams : List String)
        → Claims worker lease (claim_from broker codec queue worker lease streams)
    unfolding claim_from
    claim_from-Claims [] = record { outcome = λ w. refl }
    claim_from-Claims (stream ∷ streams) =
        let rest = claim_from broker codec queue worker lease streams in
        Claims-bind worker lease _ _ (Moves-catch _ (command-SameJobs _))
          λ res. after_read-Claims rest (claim_from-Claims streams) stream (entry_in codec res)

    -- Whatever Redis replies: a job that a claim returns could be claimed (queued or failed, with
    -- attempts left), and comes with its attempt counted and the worker's lease. The rows with its id
    -- that could be claimed are updated in this way, and no other row changed. A claim that returns
    -- no job, or fails, leaves all jobs as they were.
    pub claim-ClaimOutcome :
        (w : World (QueueState R))
        → ClaimOutcome worker lease w.db.tables.jobs
            (claim broker codec queue worker lease w).1.db.tables.jobs
            (claim broker codec queue worker lease w).0
    unfolding claim
    claim-ClaimOutcome w =
        (Claims-bind worker lease _ _ streams_for_claim-SameJobs λ streams.
            Claims-bind worker lease _ _ (get_redis_conn-SameJobs broker)
              λ _. claim_from-Claims streams).outcome
          w
