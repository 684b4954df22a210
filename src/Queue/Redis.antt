-- ===== src/Queue/Redis.antt =====
-- What src/queue.rs uses of Redis: the commands on streams, and the reading of a reply.
pub mod Published
use hostinger.Prelude.{
  ℕ, String, Bool, true, false, ◌&&◌, Option, none, some, List, [], ◌∷◌, ◌==◌, if◌then◌else◌,
}
use hostinger.Exec.{Result}

-- A `redis::Value`, as far as the code tells its cases apart; `other` is any further case.
mutual
  pub data Value : Type 0 where
    data_bytes : List ℕ → Value
    bulk : Values → Value
    other : Value

  pub data Values : Type 0 where
    nil : Values
    cons : Value → Values → Values

-- The commands, over the state `R` of the server; an error is the text that it shows.
pub record Broker (R : Type 0) : Type 0 where
  pub get_connection : R → Result String (Unit {0}) × R
  pub xgroup_create : String → String → R → Result String (Unit {0}) × R
  pub xadd : String → List (String × String) → R → Result String (Unit {0}) × R
  pub xreadgroup : String → String → String → R → Result String Value × R
  pub xack : String → String → String → R → Result String (Unit {0}) × R

-- The conversions of texts, bytes and UUIDs in the libraries.
pub record Codec : Type 0 where
  pub from_utf8_lossy : List ℕ → String
  pub from_utf8 : List ℕ → Option String
  pub parse_uuid : String → Option ℕ
  pub uuid_to_string : ℕ → String

bytes_eq : List ℕ → List ℕ → Bool
bytes_eq [] [] = true
bytes_eq (x ∷ xs) (y ∷ ys) = x == y && bytes_eq xs ys
bytes_eq _ _ = false

-- b"job_id"
abbrev pub job_id_key : List ℕ
job_id_key = 106 ∷ 111 ∷ 98 ∷ 95 ∷ 105 ∷ 100 ∷ []

or_next : {A : Type 0} → Option A → Option A → Option A
or_next none next = next
or_next (some a) next = some a

module _ (codec : Codec) where
  -- The UUID of one field, if it is the field of the job's id.
  field_id : Value → Value → Option ℕ
  unfolding bytes_eq
  field_id (data_bytes k) (data_bytes v) =
      if bytes_eq k job_id_key
      then elim (codec.from_utf8 v) [ none ↦ none | some v_str ↦ codec.parse_uuid v_str ]
      else none
  field_id _ _ = none

  -- The loop over `fields.chunks(2)`.
  job_id_in : Values → Option ℕ
  unfolding or_next
  job_id_in (cons k (cons v fields)) = or_next (field_id k v) (job_id_in fields)
  job_id_in _ = none

  -- One message: `[stream_id, fields, ...]`.
  message_entry : Value → Option (String × ℕ)
  message_entry (bulk (cons (data_bytes d) (cons (bulk fields) _))) = elim (job_id_in fields) [
    | none ↦ none
    | some job_id ↦ some (codec.from_utf8_lossy d, job_id)
  ]
  message_entry _ = none

  messages_entry : Values → Option (String × ℕ)
  unfolding or_next
  messages_entry nil = none
  messages_entry (cons msg messages) = or_next (message_entry msg) (messages_entry messages)

  -- One stream: `[name, messages, ...]`.
  stream_entry : Value → Option (String × ℕ)
  stream_entry (bulk (cons _ (cons (bulk messages) _))) = messages_entry messages
  stream_entry _ = none

  streams_entry : Values → Option (String × ℕ)
  unfolding or_next
  streams_entry nil = none
  streams_entry (cons s streams) = or_next (stream_entry s) (streams_entry streams)

  pub parse_xreadgroup_entry : Value → Option (String × ℕ)
  parse_xreadgroup_entry (bulk streams) = streams_entry streams
  parse_xreadgroup_entry _ = none
