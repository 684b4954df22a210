-- ===== src/Tests/Protocol.antt =====
-- Runs of src/agent_protocol.rs, with a toy code for the MAC and for JSON.
use hostinger.Prelude.{
  String, ◌≡◌, ◌≢◌, ◌↔◌, refl, sym, true, false, none, some, List, [], ◌∷◌, ◌++◌, length, as_bytes,
  to_string, arith, str_eq, if◌then◌else◌,
}
use hostinger.Prelude.Words.{whole_seconds}
use hostinger.Exec.{Result, ok, err}
use hostinger.Agent.Commands
use hostinger.Agent.Commands.{AgentCommand, health}
use hostinger.Agent.Envelope.{
  token_revoked, Wire, AgentEnvelope, NodeCredentials, agent_protocol_version, new_signed,
  sign_payload, compute_signature, signed_bytes, generate,
}
use hostinger.Agent.Validator.{
  AgentProtocolValidator, validate_and_unpack, authenticate, check_signature, process, prune,
  unpack, inspect_safety,
}
use hostinger.Agent.Tokens.{NodeTokenManager, revoke_token, rotate_token, is_valid, get_credentials}
use hostinger.Agent.Acceptance.{IsGenuine, validate_and_unpack-IsGenuine}
use hostinger.Agent.Replay
use hostinger.Agent.Replay.{ValidatorEvent, replayed_operation_refused}
use hostinger.Agent.Signing.{signed_command_accepted}
use hostinger.Agent.Revocation
use hostinger.Agent.Revocation.{TokenEvent, revoked_until_issued, rotation_replaces}

abbrev only_health : AgentCommand → Result String String
only_health health = ok "health"
only_health _ = err "not written"

abbrev read_health : String → Result String AgentCommand
read_health text = if str_eq text "health" then ok health else err "not read"

health_read_back :
    (c : AgentCommand) (text : String) → only_health c ≡ ok text → read_health text ≡ ok c
health_read_back health text h = let same : "health" ≡ text = cc in rw (sym same) refl
health_read_back (Commands.register_node c) text h = cc
health_read_back (Commands.heartbeat c) text h = cc
health_read_back (Commands.create_release c) text h = cc
health_read_back (Commands.start_release i t) text h = cc
health_read_back (Commands.stop_release i t g) text h = cc
health_read_back (Commands.drain_release i t) text h = cc
health_read_back (Commands.release_logs i s l) text h = cc
health_read_back (Commands.release_stats i) text h = cc

abbrev toy : Wire
toy = record {
  hmac_sha256 = λ key message. some (key ++ message);
  hex = λ bytes. to_string (length bytes);
  rfc3339 = λ t. some "then";
  uuid_bytes = λ i. i ∷ [];
  to_json = only_health;
  from_json = read_health;
}

abbrev creds_of_5 : NodeCredentials
creds_of_5 = record { node_id = 5; secret_key = "key"; epoch = 1 }

abbrev knows_5 : AgentProtocolValidator
knows_5 = record {
  max_skew = 60_000_000_000;
  processed_operations = (8, 0) ∷ [];
  credentials_store = (5, creds_of_5) ∷ [];
  revoked_nodes = 6 ∷ [];
}

abbrev asks_health : AgentEnvelope
asks_health = record {
  version = "v1";
  operation_id = 9;
  node_id = 5;
  timestamp = 1_000;
  payload = "health";
  signature = "17";
}

health_accepted : (validate_and_unpack toy 2_000 50 asks_health knows_5).0 ≡ ok health
unfolding validate_and_unpack authenticate check_signature process prune unpack inspect_safety
    compute_signature signed_bytes as_bytes to_string whole_seconds
health_accepted = refl

validate_and_unpack-IsGenuine_example :
    ((validate_and_unpack toy 2_000 50 asks_health knows_5).0 ≡ ok health)
    ↔ IsGenuine toy 2_000 50 asks_health knows_5 health
validate_and_unpack-IsGenuine_example =
    validate_and_unpack-IsGenuine toy 2_000 50 asks_health knows_5 health

abbrev between : List ValidatorEvent
between = Replay.to_validate 3_000 60 asks_health ∷ Replay.to_revoke 7 ∷ []

replayed_operation_refused_example :
    (validate_and_unpack toy 4_000 70 asks_health
      (Replay.run_events toy between (validate_and_unpack toy 2_000 50 asks_health knows_5).1)).0
    ≢ ok health
replayed_operation_refused_example =
    replayed_operation_refused toy 2_000 50 asks_health knows_5 health between 4_000 70 asks_health
      health health_accepted (refl, (refl, tt)) refl refl

health_sealed : new_signed toy agent_protocol_version 9 5 1_000 health "key" ≡ ok asks_health
unfolding new_signed sign_payload compute_signature signed_bytes as_bytes to_string
health_sealed = refl

signed_command_accepted_example :
    (validate_and_unpack toy 2_000 50 asks_health knows_5).0 ≡ ok health
unfolding whole_seconds prune inspect_safety
signed_command_accepted_example =
    signed_command_accepted toy 9 5 1_000 health creds_of_5 asks_health 2_000 50 knows_5
      health_read_back health_sealed refl refl (omega arith) refl refl

abbrev two_tokens : NodeTokenManager
two_tokens = record {
  nodes = (5, (creds_of_5, true)) ∷ (6, (record creds_of_5 { node_id = 6 }, true)) ∷ [];
}

abbrev token_events : List TokenEvent
token_events = Revocation.to_rotate 5 (1 ∷ []) ∷ Revocation.to_issue 6 (2 ∷ []) ∷ []

revoked_until_issued_example :
    (is_valid creds_of_5 (Revocation.run_events toy token_events (revoke_token 5 two_tokens))
      ≡ false)
    × (get_credentials 5 (Revocation.run_events toy token_events (revoke_token 5 two_tokens))
        ≡ err (token_revoked 5))
    × ((rotate_token toy 5
          (3 ∷ [])
          (Revocation.run_events toy token_events (revoke_token 5 two_tokens))).0
        ≡ none)
revoked_until_issued_example =
    revoked_until_issued toy 5 two_tokens creds_of_5 true token_events creds_of_5 (3 ∷ []) refl
      (refl, (refl, tt)) refl

abbrev fresh_creds : NodeCredentials
fresh_creds = record { node_id = 5; secret_key = "2"; epoch = 2 }

rotated_fresh : (rotate_token toy 5 (3 ∷ 4 ∷ []) two_tokens).0 ≡ some fresh_creds
unfolding rotate_token generate to_string
rotated_fresh = refl

creds_valid : is_valid creds_of_5 two_tokens ≡ true
unfolding is_valid
creds_valid = refl

rotation_replaces_example :
    (is_valid fresh_creds (rotate_token toy 5 (3 ∷ 4 ∷ []) two_tokens).1 ≡ true)
    × (is_valid creds_of_5 (rotate_token toy 5 (3 ∷ 4 ∷ []) two_tokens).1 ≡ false)
rotation_replaces_example =
    rotation_replaces toy 5 (3 ∷ 4 ∷ []) two_tokens creds_of_5 fresh_creds rotated_fresh refl
      (omega arith) creds_valid
