-- ===== src/Queue/Redis/Published.antt =====
-- An entry that src/queue.rs publishes, and what it reads back from the server.
use hostinger.Prelude.{ℕ, String, ◌≡◌, refl, some, List, [], ◌∷◌, as_bytes}
use hostinger.Exec.{ok, World, call}
use hostinger.Queue.Redis.{
  Value, data_bytes, bulk, Values, nil, cons, Broker, Codec, parse_xreadgroup_entry,
}
use hostinger.Queue.Base.{QueueState, command, job_fields, publish}
use hostinger.Queue.Claim.{entry_in}

abbrev bytes_of : String → Value
bytes_of s = data_bytes (as_bytes s)

-- The fields of an entry as Redis sends them: names and values in turn.
abbrev sent_fields : List (String × String) → Values
sent_fields [] = nil
sent_fields ((name, value) ∷ fields) =
    cons (bytes_of name) (cons (bytes_of value) (sent_fields fields))

-- The reply of XREADGROUP for one stream with one entry.
abbrev pub reply_of : String → String → List (String × String) → Value
reply_of stream entry_id fields =
    let entry = bulk (cons (bytes_of entry_id) (cons (bulk (sent_fields fields)) nil)) in
    bulk (cons (bulk (cons (bytes_of stream) (cons (bulk (cons entry nil)) nil))) nil)

module _ {R : Type 0} (broker : Broker R) (codec : Codec) where
  -- In the state `s`, an entry that is added to the stream is the one that the group reads next.
  abbrev pub Delivers : String → String → String → String → R → Type 0
  Delivers stream group consumer entry_id s =
      (fields : List (String × String))
      → (broker.xadd stream fields s).0 ≡ ok tt
      → (broker.xreadgroup group consumer stream (broker.xadd stream fields s).1).0
        ≡ ok (reply_of stream entry_id fields)

  read_back :
      (stream entry_id : String) (job_id deployment_id : ℕ)
      → codec.from_utf8_lossy (as_bytes entry_id) ≡ entry_id
      → codec.from_utf8 (as_bytes (codec.uuid_to_string job_id))
        ≡ some (codec.uuid_to_string job_id)
      → codec.parse_uuid (codec.uuid_to_string job_id) ≡ some job_id
      → parse_xreadgroup_entry codec
          (reply_of stream entry_id (job_fields codec job_id deployment_id))
        ≡ some (entry_id, job_id)
  unfolding as_bytes parse_xreadgroup_entry hostinger.Queue.Redis.streams_entry
      hostinger.Queue.Redis.stream_entry hostinger.Queue.Redis.messages_entry
      hostinger.Queue.Redis.message_entry hostinger.Queue.Redis.job_id_in
      hostinger.Queue.Redis.field_id hostinger.Queue.Redis.bytes_eq hostinger.Queue.Redis.or_next
  read_back stream entry_id job_id deployment_id id_read text uuid = rw (text, uuid, id_read) refl

  -- A job that was published to a stream is read back from it as the id of its entry and the job's
  -- id, where the server delivers the entry next and the conversions read back the id of the entry
  -- and the job's UUID.
  pub publish-entry_in :
      (stream group consumer entry_id : String) (job_id deployment_id : ℕ)
      (w : World (QueueState R))
      → codec.from_utf8_lossy (as_bytes entry_id) ≡ entry_id
      → codec.from_utf8 (as_bytes (codec.uuid_to_string job_id))
        ≡ some (codec.uuid_to_string job_id)
      → codec.parse_uuid (codec.uuid_to_string job_id) ≡ some job_id
      → Delivers stream group consumer entry_id w.db.server
      → (publish broker codec stream job_id deployment_id w).0 ≡ ok tt
      → entry_in codec (
          (command
            (broker.xreadgroup group consumer stream)
            (publish broker codec stream job_id deployment_id w).1).0)
        ≡ some (entry_id, job_id)
  unfolding publish command call
  publish-entry_in stream group consumer entry_id job_id deployment_id w id_read text uuid delivers
        published =
      rw (delivers (job_fields codec job_id deployment_id) published)
        (read_back stream entry_id job_id deployment_id id_read text uuid)
