-- ===== src/Queue/Claim.antt =====
-- `claim` of src/queue.rs.
use hostinger.Prelude.{
  ℕ, ◌+◌, ◌%◌, ◌^◌, String, Option, none, some, List, [], ◌∷◌, leb, str_eq, if◌then◌else◌,
}
use hostinger.Exec.{Result, ok, err, pure, catch, new_uuid, now_utc, ◌>>=◌, ◌>>◌}
use hostinger.Queue.Tables.{
  BuildJobRecord, AttemptRow, update_jobs, can_claim, claimed, insert_attempt,
}
use hostinger.Queue.Redis.{Value, Broker, Codec, parse_xreadgroup_entry}
use hostinger.Queue.Base.{
  BuildQueue, QueueAction, prod_stream, preview_stream, command, quietly, statement, try_statement,
  load_counter, set_counter, set_deployment, get_redis_conn, acknowledge,
}
use hostinger.Queue.Enqueue.{with_status}

pub record ClaimedJob : Type 0 where
  pub job : BuildJobRecord
  pub attempt_number : ℕ
  pub stream_name : String
  pub stream_id : String

-- The entry in a reply; an error of the command is passed over like an empty reply.
abbrev pub entry_in : Codec → Result String Value → Option (String × ℕ)
entry_in codec (err e) = none
entry_in codec (ok val) = parse_xreadgroup_entry codec val

abbrev pub running_attempt : ℕ → BuildJobRecord → String → ℕ → AttemptRow
running_attempt attempt_id j worker_id now = record {
  id = attempt_id;
  job_id = j.id;
  attempt_number = j.attempt;
  worker_id = worker_id;
  status = "running";
  error_message = none;
  started_at = now;
  finished_at = none;
}

module _ {R : Type 0} (broker : Broker R) (codec : Codec) (queue : BuildQueue) where
  -- The order in which a claim visits the streams: after three claims from production, a preview.
  unfoldable pub streams_for_claim : QueueAction R (List String)
  streams_for_claim = do
    count ← load_counter
    if leb 3 count
        then (do set_counter (λ c. 0); pure (preview_stream queue ∷ prod_stream queue ∷ []))
        else pure (prod_stream queue ∷ preview_stream queue ∷ [])

  module _ (worker_id : String) (lease_duration : ℕ) where
    -- What follows a lease that was taken.
    unfoldable pub record_claim :
        String → String → ℕ → BuildJobRecord → QueueAction R (Option ClaimedJob)
    record_claim stream stream_id now j = do
      attempt_id ← new_uuid
      quietly (
          try_statement {R = R} "attempt"
            (insert_attempt (running_attempt attempt_id j worker_id now)))
      set_deployment j.deployment_id (with_status "building")
      if str_eq stream (prod_stream queue) then set_counter (λ c. (c + 1) % 2 ^ 64) else pure tt
      pure (
          some (record {
            job = j;
            attempt_number = j.attempt;
            stream_name = stream;
            stream_id = stream_id;
          }))

    -- The branch on the row of the UPDATE; `rest` is the rest of the loop.
    unfoldable pub after_lease :
        String
        → String
        → ℕ
        → QueueAction R (Option ClaimedJob)
        → Option BuildJobRecord
        → QueueAction R (Option ClaimedJob)
    after_lease stream stream_id now rest (some j) = record_claim stream stream_id now j
    after_lease stream stream_id now rest none = do
      acknowledge broker stream queue.consumer_group stream_id
      rest

    unfoldable pub take_lease :
        String → QueueAction R (Option ClaimedJob) → String × ℕ → QueueAction R (Option ClaimedJob)
    take_lease stream rest (stream_id, job_id) = do
      now ← now_utc
      row_opt ←
          statement "failed to claim job in postgres"
            (update_jobs (can_claim job_id) (claimed worker_id (now + lease_duration) now))
      after_lease stream stream_id now rest row_opt

    -- The branch on the entry that was read.
    unfoldable pub after_read :
        String
        → QueueAction R (Option ClaimedJob)
        → Option (String × ℕ)
        → QueueAction R (Option ClaimedJob)
    after_read stream rest none = rest
    after_read stream rest (some entry) = take_lease stream rest entry

    unfoldable pub claim_from : List String → QueueAction R (Option ClaimedJob)
    claim_from [] = pure none
    claim_from (stream ∷ streams) =
        let rest = claim_from streams in
        do
          res ← catch (command (broker.xreadgroup queue.consumer_group worker_id stream))
          after_read stream rest (entry_in codec res)

    unfoldable pub claim : QueueAction R (Option ClaimedJob)
    claim = do streams ← streams_for_claim; get_redis_conn broker; claim_from streams
