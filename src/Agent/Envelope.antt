-- ===== src/Agent/Envelope.antt =====
-- Envelopes and credentials of src/agent_protocol.rs. HMAC-SHA256, hex, the RFC 3339 format, the
-- bytes of a UUID and JSON are code of other packages, so they are a parameter.
use hostinger.Prelude.{
  ℕ, ◌*◌, String, Option, none, some, List, ◌++◌, length, as_bytes, ltb, if◌then◌else◌,
}
use hostinger.Prelude.Words.{ℤ}
use hostinger.Exec.{Result, ok, err}
use hostinger.Agent.Commands.{AgentCommand}

pub data AgentProtocolError : Type 0 where
  version_mismatch : String → String → AgentProtocolError
  replay_detected : ℕ → AgentProtocolError
  invalid_signature : AgentProtocolError
  timestamp_expired : ℤ → AgentProtocolError
  forbidden_command : String → AgentProtocolError
  payload_too_large : ℕ → ℕ → AgentProtocolError
  node_not_found : ℕ → AgentProtocolError
  token_revoked : ℕ → AgentProtocolError
  serialization_error : String → AgentProtocolError

abbrev pub agent_protocol_version : String
agent_protocol_version = "v1"

abbrev pub max_payload_size_bytes : ℕ
max_payload_size_bytes = 1024 * 1024

pub record Wire : Type 0 where
  -- HmacSha256::new_from_slice, update and finalize: the MAC of a message under a key, `none` for a
  -- key of a length that is refused
  pub hmac_sha256 : List ℕ → List ℕ → Option (List ℕ)
  -- hex::encode
  pub hex : List ℕ → String
  -- timestamp.format(&Rfc3339)
  pub rfc3339 : ℕ → Option String
  -- Uuid::as_bytes
  pub uuid_bytes : ℕ → List ℕ
  -- serde_json::to_string and from_str
  pub to_json : AgentCommand → Result String String
  pub from_json : String → Result String AgentCommand

pub record AgentEnvelope : Type 0 where
  pub version : String
  pub operation_id : ℕ
  pub node_id : ℕ
  pub timestamp : ℕ
  pub payload : String
  pub signature : String

pub record NodeCredentials : Type 0 where
  pub node_id : ℕ
  pub secret_key : String
  pub epoch : ℕ  -- u64

module _ (wire : Wire) where
  -- The bytes that `compute_signature` feeds to the MAC.
  unfoldable pub signed_bytes : String → ℕ → ℕ → ℕ → String → List ℕ
  signed_bytes version operation_id node_id timestamp payload =
      as_bytes version
      ++ wire.uuid_bytes operation_id
      ++ wire.uuid_bytes node_id
      ++ as_bytes (elim (wire.rfc3339 timestamp) [ none ↦ "" | some text ↦ text ])
      ++ as_bytes payload

  unfoldable pub compute_signature :
      String → ℕ → ℕ → ℕ → String → String → Result AgentProtocolError String
  compute_signature version operation_id node_id timestamp payload secret_key =
      elim (wire.hmac_sha256 (as_bytes secret_key)
        (signed_bytes version operation_id node_id timestamp payload)) [
          | none ↦ err invalid_signature
          | some mac ↦ ok (wire.hex mac)
        ]

  -- `AgentEnvelope::new_signed` on the payload.
  unfoldable pub sign_payload :
      String → ℕ → ℕ → ℕ → String → String → Result AgentProtocolError AgentEnvelope
  sign_payload version operation_id node_id timestamp payload secret_key =
      if ltb max_payload_size_bytes (length (as_bytes payload))
      then err (payload_too_large (length (as_bytes payload)) max_payload_size_bytes)
      else elim (compute_signature version operation_id node_id timestamp payload secret_key) [
        | err e ↦ err e
        | ok signature ↦ ok (record {
          version = version;
          operation_id = operation_id;
          node_id = node_id;
          timestamp = timestamp;
          payload = payload;
          signature = signature;
        })
      ]

  unfoldable pub new_signed :
      String → ℕ → ℕ → ℕ → AgentCommand → String → Result AgentProtocolError AgentEnvelope
  new_signed version operation_id node_id timestamp command secret_key =
      elim (wire.to_json command) [
        | err e ↦ err (serialization_error e)
        | ok payload ↦ sign_payload version operation_id node_id timestamp payload secret_key
      ]

  -- `NodeCredentials::generate`, with the 32 random bytes.
  unfoldable pub generate : ℕ → List ℕ → NodeCredentials
  generate node_id key_bytes = record {
    node_id = node_id;
    secret_key = wire.hex key_bytes;
    epoch = 1;
  }
