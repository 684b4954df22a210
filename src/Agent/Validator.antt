-- ===== src/Agent/Validator.antt =====
-- `AgentProtocolValidator` of src/agent_protocol.rs. The readings of the two clocks are arguments:
-- `now` is OffsetDateTime::now_utc() and `instant` is Instant::now(), both in nanoseconds.
use hostinger.Prelude.{
  ℕ, ◌-◌, ◌*◌, ◌/◌, String, Bool, false, not, ◌&&◌, ◌||◌, Option, none, some, List, [], ◌∷◌, length,
  select, any, ◌==◌, ltb, code, str_eq, str_append, is_empty, starts_with, as_bytes, if◌then◌else◌,
}
use hostinger.Prelude.Words.{whole_seconds, abs}
use hostinger.Exec.{Result, ok, err}
use hostinger.Agent.Commands
use hostinger.Agent.Commands.{AgentCommand, RegisterNodeCommand, CreateReleaseCommand}
use hostinger.Agent.Envelope.{
  AgentProtocolError, version_mismatch, replay_detected, invalid_signature, timestamp_expired,
  forbidden_command, payload_too_large, node_not_found, token_revoked, serialization_error,
  agent_protocol_version, max_payload_size_bytes, Wire, AgentEnvelope, NodeCredentials,
  compute_signature,
}

pub record AgentProtocolValidator : Type 0 where
  pub max_skew : ℕ
  pub processed_operations : List (ℕ × ℕ)
  pub credentials_store : List (ℕ × NodeCredentials)
  pub revoked_nodes : List ℕ

unfoldable pub new : ℕ → AgentProtocolValidator
new max_skew = record {
  max_skew = max_skew;
  processed_operations = [];
  credentials_store = [];
  revoked_nodes = [];
}

-- HashMap::get, contains_key and insert for a map keyed by UUIDs
abbrev pub get {ℓ} : {V : Type ℓ} → ℕ → List (ℕ × V) → Option V
get k [] = none
get k ((j, v) ∷ m) = if j == k then some v else get k m

abbrev pub insert {ℓ} : {V : Type ℓ} → ℕ → V → List (ℕ × V) → List (ℕ × V)
insert k v [] = (k, v) ∷ []
insert k v ((j, u) ∷ m) = if j == k then (j, v) ∷ m else (j, u) ∷ insert k v m

unfoldable pub register_credentials :
    NodeCredentials → AgentProtocolValidator → AgentProtocolValidator
register_credentials creds v = record v {
  credentials_store = insert creds.node_id creds v.credentials_store;
}

unfoldable pub revoke_node : ℕ → AgentProtocolValidator → AgentProtocolValidator
revoke_node node_id v = record v { revoked_nodes = node_id ∷ v.revoked_nodes }

-- A component ".." at the beginning of the text.
abbrev pub parent_first : String → Bool
parent_first s = str_eq s ".." || starts_with s "../"

abbrev pub parent_later : String → Bool
parent_later String.[] = false
parent_later (String.◌∷◌ c s) = (code c == 47 && parent_first s) || parent_later s

-- `path.components()` has a ParentDir.
unfoldable pub has_parent_dir : String → Bool
has_parent_dir s = parent_first s || parent_later s

abbrev pub forbidden_prefixes : List String
forbidden_prefixes = "/etc" ∷ "/sys" ∷ "/proc" ∷ "/dev" ∷ "/root" ∷ []

unfoldable pub inspect_prefixes : String → List String → Result AgentProtocolError (Unit {0})
inspect_prefixes path [] = ok tt
inspect_prefixes path (prefix ∷ prefixes) =
    let rest = inspect_prefixes path prefixes in
    if starts_with path prefix
    then err (
        forbidden_command
          (str_append "Access to system path " (str_append prefix " is prohibited")))
    else rest

unfoldable pub inspect_safety : AgentCommand → Result AgentProtocolError (Unit {0})
inspect_safety (Commands.create_release cmd) =
    if has_parent_dir cmd.image_path
    then err (forbidden_command "Directory traversal '..' is prohibited in artifact image paths")
    else inspect_prefixes cmd.image_path forbidden_prefixes
inspect_safety (Commands.register_node cmd) =
    if is_empty cmd.hostname || is_empty cmd.endpoint
    then err (forbidden_command "Hostname and endpoint cannot be empty")
    else ok tt
inspect_safety _ = ok tt

-- `ops.retain(...)`: what was processed within twice the allowed skew.
unfoldable pub prune : ℕ → ℕ → List (ℕ × ℕ) → List (ℕ × ℕ)
prune max_skew instant ops = select (λ e. ltb (instant - e.1) (max_skew * 2)) ops

abbrev pub contains_key {ℓ} : {V : Type ℓ} → ℕ → List (ℕ × V) → Bool
contains_key k m = any (λ e. e.0 == k) m

module _ (wire : Wire) where
  -- Steps 8 and 9.
  unfoldable pub unpack : String → Result AgentProtocolError AgentCommand
  unpack payload = elim (wire.from_json payload) [
    | err e ↦ err (serialization_error e)
    | ok command ↦ elim (inspect_safety command) [ err e ↦ err e | ok _ ↦ ok command ]
  ]

  -- Steps 7 to 9.
  unfoldable pub process :
      ℕ
      → AgentEnvelope
      → AgentProtocolValidator
      → Result AgentProtocolError AgentCommand × AgentProtocolValidator
  process instant envelope v =
      let ops = prune v.max_skew instant v.processed_operations in
      if contains_key envelope.operation_id ops
      then (err (replay_detected envelope.operation_id), record v { processed_operations = ops })
      else (
        unpack envelope.payload,
        record v { processed_operations = insert envelope.operation_id instant ops },
      )

  -- Steps 5 and 6: whether the signature is that of the node's credentials.
  unfoldable pub check_signature :
      AgentEnvelope → AgentProtocolValidator → Result AgentProtocolError (Unit {0})
  check_signature envelope v = elim (get envelope.node_id v.credentials_store) [
    | none ↦ err (node_not_found envelope.node_id)
    | some creds ↦
        elim (compute_signature wire envelope.version envelope.operation_id envelope.node_id
          envelope.timestamp envelope.payload creds.secret_key) [
            | err e ↦ err e
            | ok expected_signature ↦
                if not (str_eq envelope.signature expected_signature)
                then err invalid_signature
                else ok tt
          ]
  ]

  -- Steps 1 to 6.
  unfoldable pub authenticate :
      ℕ → AgentEnvelope → AgentProtocolValidator → Result AgentProtocolError (Unit {0})
  authenticate now envelope v =
      let skew = whole_seconds now envelope.timestamp in
      let size = length (as_bytes envelope.payload) in
      if not (str_eq envelope.version agent_protocol_version)
      then err (version_mismatch agent_protocol_version envelope.version)
      else if ltb max_payload_size_bytes size
      then err (payload_too_large size max_payload_size_bytes)
      else if ltb (v.max_skew / 1_000_000_000) (abs skew)
      then err (timestamp_expired skew)
      else if any (λ i. i == envelope.node_id) v.revoked_nodes
      then err (token_revoked envelope.node_id)
      else check_signature envelope v

  unfoldable pub validate_and_unpack :
      ℕ
      → ℕ
      → AgentEnvelope
      → AgentProtocolValidator
      → Result AgentProtocolError AgentCommand × AgentProtocolValidator
  validate_and_unpack now instant envelope v = elim (authenticate now envelope v) [
    | err e ↦ (err e, v)
    | ok _ ↦ process instant envelope v
  ]
