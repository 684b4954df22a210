-- ===== src/Tests/Queue.antt =====
-- Runs of src/queue.rs on small tables, against a server that always has one entry.
use hostinger.Prelude.{
  ℕ, ◌+◌, String, ◌≡◌, refl, ◌↔◌, inl, Bool, true, false, ◌&&◌, ◌==◌, as_bytes, to_string, str_eq,
  lookup, Option, none, some, List, [], ◌∷◌, find, arith,
}
use hostinger.Prelude.Words.{pos}
use hostinger.Exec.{ok, World, call}
use hostinger.Queue.Priority.{JobPriority, production, preview, from_str_exact}
use hostinger.Queue.Priority
use hostinger.Queue.Status.{JobStatus, queued, running, completed, cancelled, job_status_exact}
use hostinger.Queue.Status
use hostinger.Queue.Tables.{JobRow, has_job_id}
use hostinger.Queue.Redis.{Broker, Codec, other}
use hostinger.Queue.Redis.Published.{reply_of, publish-entry_in}
use hostinger.Queue.Base.{QueueState, BuildQueue, command, job_fields, publish}
use hostinger.Queue.Claim.{claim, entry_in}
use hostinger.Queue.Finish.{renew, ack, fail}
use hostinger.Queue.History.{AllSound, Grows}
use hostinger.Queue.Lifecycle.{
  QueueOperation, to_open, to_claim, to_ack, to_cancel, to_requeue, run_all, run_all-Grows,
  run_all-done,
}
use hostinger.Queue.Claiming.{ClaimOutcome, claim-ClaimOutcome}
use hostinger.Queue.Leases.{finish-SameJobs}

-- The bytes of these texts are read, and no others.
abbrev read_text : List ℕ → Option String
read_text bytes = find (λ t. same_bytes (as_bytes t) bytes) ("7" ∷ "27" ∷ "1-0" ∷ [])
  where
    same_bytes : List ℕ → List ℕ → Bool
    same_bytes [] [] = true
    same_bytes (x ∷ xs) (y ∷ ys) = x == y && same_bytes xs ys
    same_bytes _ _ = false

-- A codec whose UUIDs are written as decimals.
abbrev tiny_codec : Codec
tiny_codec = record {
  from_utf8_lossy = λ bytes. elim (read_text bytes) [ none ↦ "" | some t ↦ t ];
  from_utf8 = read_text;
  parse_uuid = λ t. find (λ i. str_eq (to_string i) t) (7 ∷ 27 ∷ []);
  uuid_to_string = to_string;
}

abbrev one_entry : Broker Unit
one_entry = record {
  get_connection = λ s. (ok tt, s);
  xgroup_create = λ stream group s. (ok tt, s);
  xadd = λ stream fields s. (ok tt, s);
  xreadgroup =
      λ group consumer stream s. (ok (reply_of stream "1-0" (job_fields tiny_codec 7 27)), s);
  xack = λ stream group entry s. (ok tt, s);
}

abbrev builds : BuildQueue
builds = record { consumer_group = "workers"; stream_prefix = "build_jobs" }

abbrev job_of : ℕ → JobStatus → Option String → Option ℕ → JobRow
job_of i status owner expires = record {
  job = record {
    id = i;
    deployment_id = 20 + i;
    project_id = 30;
    priority = production;
    status = status;
    attempt = 1;
    max_attempts = pos 3;
    force_rebuild = false;
    lease_owner = owner;
    lease_expires_at = expires;
    last_error = none;
    created_at = 40;
    updated_at = 41;
  };
  queue_name = "build_jobs";
}

abbrev three_jobs : List JobRow
three_jobs =
    job_of 7 queued none none
    ∷ job_of 8 running (some "w2") (some 90)
    ∷ job_of 9 completed none none
    ∷ []

abbrev at_work : World (QueueState Unit)
at_work = record {
  env = record { fault = λ n. false; uuid = λ n. 100 + n; time = λ n. 50 + n };
  step = 0;
  db = record {
    tables = record { jobs = three_jobs; attempts = []; deployments = [] };
    server = tt;
    prod_claims_counter = 0;
  };
}

three_jobs-AllSound : AllSound three_jobs
three_jobs-AllSound =
    ((omega arith, refl, refl), ((omega arith, refl, refl), ((omega arith, refl, refl), tt)))

abbrev some_work : List (QueueOperation one_entry tiny_codec)
some_work =
    to_open "workers" "build_jobs"
    ∷ to_claim builds "w1" 60
    ∷ to_ack builds 7 "w1" "build_jobs:production" "1-0"
    ∷ to_cancel 8
    ∷ to_requeue builds
    ∷ []

from_str_exact_example :
    (Priority.from_str "preview" ≡ ok preview) ↔ ("preview" ≡ Priority.as_str preview)
from_str_exact_example = from_str_exact "preview" preview

job_status_exact_example :
    (Status.from_str "cancelled" ≡ ok cancelled) ↔ ("cancelled" ≡ Status.as_str cancelled)
job_status_exact_example = job_status_exact "cancelled" cancelled

-- A server that keeps the last entry of each stream.
abbrev memory : Broker (List (String × List (String × String)))
memory = record {
  get_connection = λ s. (ok tt, s);
  xgroup_create = λ stream group s. (ok tt, s);
  xadd = λ stream fields s. (ok tt, (stream, fields) ∷ s);
  xreadgroup = λ group consumer stream s. (
    elim (lookup stream s) [ none ↦ ok other | some fields ↦ ok (reply_of stream "1-0" fields) ],
    s,
  );
  xack = λ stream group entry s. (ok tt, s);
}

abbrev idle : World (QueueState (List (String × List (String × String))))
idle = record {
  env = at_work.env;
  step = 0;
  db = record { tables = at_work.db.tables; server = []; prod_claims_counter = 0 };
}

published : (publish memory tiny_codec "build_jobs:production" 7 27 idle).0 ≡ ok tt
unfolding publish command call
published = refl

publish-entry_in_example :
    entry_in tiny_codec (
      (command
        (memory.xreadgroup "workers" "w1" "build_jobs:production")
        (publish memory tiny_codec "build_jobs:production" 7 27 idle).1).0)
    ≡ some ("1-0", 7)
unfolding as_bytes to_string
publish-entry_in_example =
    publish-entry_in memory tiny_codec "build_jobs:production" "workers" "w1" "1-0" 7 27 idle refl
      refl refl (λ fields added. refl) published

run_all-Grows_example :
    AllSound (run_all one_entry tiny_codec some_work at_work).db.tables.jobs
    × Grows three_jobs (run_all one_entry tiny_codec some_work at_work).db.tables.jobs
run_all-Grows_example = run_all-Grows one_entry tiny_codec some_work at_work three_jobs-AllSound

run_all-done_example :
    (r' : JobRow) × (find
        (has_job_id 9)
        (run_all one_entry tiny_codec some_work at_work).db.tables.jobs
      ≡ some r')
    × (r'.job ≡ (job_of 9 completed none none).job)
run_all-done_example =
    run_all-done one_entry tiny_codec some_work at_work 9 (job_of 9 completed none none)
      three_jobs-AllSound refl (inl refl)

claim-ClaimOutcome_example :
    ClaimOutcome "w1" 60 three_jobs
      (claim one_entry tiny_codec builds "w1" 60 at_work).1.db.tables.jobs
      (claim one_entry tiny_codec builds "w1" 60 at_work).0
claim-ClaimOutcome_example = claim-ClaimOutcome one_entry tiny_codec builds "w1" 60 at_work

finish-SameJobs_example :
    ((lease : ℕ) → (renew 8 "w1" lease at_work).1.db.tables.jobs ≡ three_jobs)
    × ((stream entry : String)
        → (ack one_entry tiny_codec builds 8 "w1" stream entry at_work).1.db.tables.jobs
          ≡ three_jobs)
    × ((stream entry error : String) (retryable : Bool)
        → (fail one_entry tiny_codec builds 8 "w1" stream entry error retryable
            at_work).1.db.tables.jobs
          ≡ three_jobs)
finish-SameJobs_example = finish-SameJobs one_entry tiny_codec builds 8 "w1" at_work refl
