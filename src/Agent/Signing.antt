-- ===== src/Agent/Signing.antt =====
-- `new_signed` and `validate_and_unpack` of src/agent_protocol.rs, one after the other.
use hostinger.Prelude.{
  ℕ, ◌/◌, ◌≤◌, String, ◌≡◌, refl, inl, inr, false, some, arith, length, as_bytes, any, ltb, ◌==◌,
  Bool-cases,
}
use hostinger.Prelude.Words.{whole_seconds, abs}
use hostinger.Exec.{ok}
use hostinger.Agent.Commands.{AgentCommand}
use hostinger.Agent.Envelope.{
  Wire, AgentEnvelope, NodeCredentials, agent_protocol_version, max_payload_size_bytes,
  compute_signature, sign_payload, new_signed,
}
use hostinger.Agent.Validator.{
  AgentProtocolValidator, get, prune, contains_key, inspect_safety, validate_and_unpack,
}
use hostinger.Agent.Safety.{prune-IsFresh, inspect_safety_iff}
use hostinger.Agent.Acceptance.{Result-cases, validate_and_unpack-IsGenuine}

module _ (wire : Wire) where
  -- An envelope made by `new_signed` from a payload.
  record IsSealed (version : String) (operation_id node_id timestamp : ℕ)
      (payload secret_key : String) (envelope : AgentEnvelope) : Type 0 where
    small : length (as_bytes payload) ≤ max_payload_size_bytes
    signature : String
    signed :
        compute_signature wire version operation_id node_id timestamp payload secret_key
        ≡ ok signature
    made : envelope ≡ record {
      version = version;
      operation_id = operation_id;
      node_id = node_id;
      timestamp = timestamp;
      payload = payload;
      signature = signature;
    }

  sign_payload_ok :
      (version : String) (i n t : ℕ) (payload key : String) (envelope : AgentEnvelope)
      → sign_payload wire version i n t payload key ≡ ok envelope
      → IsSealed version i n t payload key envelope
  unfolding sign_payload
  sign_payload_ok version i n t payload key envelope h =
      elim (Bool-cases (ltb max_payload_size_bytes (length (as_bytes payload)))) [
        | inl large ↦ absurd (ground (arith, h, large))
        | inr small ↦ elim (Result-cases (compute_signature wire version i n t payload key)) [
          | inl (e, q) ↦ absurd (ground (arith, h, small, q))
          | inr (signature, q) ↦ record {
            small = ground (arith, small);
            signature = signature;
            signed = q;
            made = ground (arith, h, small, q);
          }
        ]
      ]

  new_signed_ok :
      (version : String) (i n t : ℕ) (command : AgentCommand) (key : String)
      (envelope : AgentEnvelope)
      → new_signed wire version i n t command key ≡ ok envelope
      → (payload : String) × (wire.to_json command ≡ ok payload)
        × IsSealed version i n t payload key envelope
  unfolding new_signed
  new_signed_ok version i n t command key envelope h = elim (Result-cases (wire.to_json command)) [
    | inl (e, q) ↦ absurd (ground (arith, h, q))
    | inr (payload, q) ↦
        (payload, q, sign_payload_ok version i n t payload key envelope (rw (new_signed, q) at h))
  ]

  -- A safe command that `new_signed` seals with the secret key of a registered node that is not
  -- revoked is returned as it was by `validate_and_unpack`, where the timestamp is within the allowed
  -- skew and the operation id was not processed within twice the skew, if JSON reads back the
  -- commands that it wrote.
  pub signed_command_accepted :
      (i n t : ℕ) (command : AgentCommand) (creds : NodeCredentials) (envelope : AgentEnvelope)
      (now instant : ℕ) (v : AgentProtocolValidator)
      → ((c : AgentCommand) (text : String) → wire.to_json c ≡ ok text → wire.from_json text ≡ ok c)
      → new_signed wire agent_protocol_version i n t command creds.secret_key ≡ ok envelope
      → get n v.credentials_store ≡ some creds
      → any (λ j. j == n) v.revoked_nodes ≡ false
      → abs (whole_seconds now t) ≤ v.max_skew / 1_000_000_000
      → contains_key i (prune v.max_skew instant v.processed_operations) ≡ false
      → inspect_safety command ≡ ok tt
      → (validate_and_unpack wire now instant envelope v).0 ≡ ok command
  signed_command_accepted i n t command creds envelope now instant v json made known trusted recent
        fresh safe =
      let (payload, written, done) =
        new_signed_ok agent_protocol_version i n t command creds.secret_key envelope made in
      rw done.made (
        (validate_and_unpack-IsGenuine wire now instant _ v command).1 (record {
          version_known = refl;
          small = done.small;
          recent = recent;
          not_revoked = trusted;
          creds = creds;
          node_known = known;
          signed = done.signed;
          fresh = (prune-IsFresh v.max_skew instant i _).0 fresh;
          decoded = json command payload written;
          safe = (inspect_safety_iff command).0 safe;
        }))
