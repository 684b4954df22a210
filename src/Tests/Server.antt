-- ===== src/Tests/Server.antt =====
-- A run of src/agent_server.rs on a runtime that counts its calls.
use hostinger.Prelude.{
  ℕ, suc, ◌≡◌, refl, true, false, ◌&&◌, some, [], ◌∷◌, ◌++◌, length, as_bytes, to_string, arith,
  str_eq, if◌then◌else◌,
}
use hostinger.Prelude.Words.{whole_seconds}
use hostinger.Exec.{ok, err}
use hostinger.Agent.Commands.{AgentCommand, release_stats}
use hostinger.Agent.Envelope.{
  Wire, AgentEnvelope, invalid_signature, compute_signature, signed_bytes,
}
use hostinger.Agent.Validator.{
  validate_and_unpack, authenticate, check_signature, process, prune, unpack, inspect_safety, new,
  register_credentials,
}
use hostinger.Agent.Responses.{AgentRuntimeAdapter}
use hostinger.Agent.Server.{
  AgentServer, new_server, is_create, dispatch, execute_command_direct, handle_envelope,
}
use hostinger.Agent.Acceptance.{IsGenuine}
use hostinger.Agent.Execution.{is_local, handle_envelope-IsGenuine}

abbrev counting : AgentRuntimeAdapter ℕ
counting = record {
  create = λ cmd s. (err invalid_signature, suc s);
  start = λ i container s. (err invalid_signature, suc s);
  stop = λ i container grace s. (err invalid_signature, suc s);
  drain = λ i timeout s. (err invalid_signature, suc s);
  get_logs = λ i since limit s. (err invalid_signature, suc s);
  get_stats =
      λ i s. (ok (record { cpu_millicores = 120; memory_bytes = 64; uptime_secs = 42 }), suc s);
}

abbrev stats_wire : Wire
stats_wire = record {
  hmac_sha256 = λ key message. some (key ++ message);
  hex = λ bytes. to_string (length bytes);
  rfc3339 = λ t. some "then";
  uuid_bytes = λ i. i ∷ [];
  to_json = λ c. err "not written";
  from_json = λ text. if str_eq text "stats" then ok (release_stats 3) else err "not read";
}

abbrev idle : AgentServer ℕ
idle = new_server 5 (record { node_id = 5; secret_key = "key"; epoch = 1 }) 0 10

abbrev asks_stats : AgentEnvelope
asks_stats = record {
  version = "v1";
  operation_id = 9;
  node_id = 5;
  timestamp = 1_000;
  payload = "stats";
  signature = "16";
}

stats_counted : (handle_envelope counting stats_wire 2_000 50 60 asks_stats idle).1.runtime ≡ 1
unfolding handle_envelope execute_command_direct dispatch new_server new register_credentials
    validate_and_unpack authenticate check_signature process prune unpack inspect_safety
    compute_signature signed_bytes as_bytes to_string whole_seconds
stats_counted = refl

idle_runtime : idle.runtime ≡ 0
unfolding new_server
idle_runtime = refl

handle_envelope-IsGenuine_example :
    (command : AgentCommand) × IsGenuine stats_wire 2_000 50 asks_stats idle.validator command
    × (is_local command ≡ true)
    × ((idle.is_draining && is_create command) ≡ false)
handle_envelope-IsGenuine_example =
    handle_envelope-IsGenuine counting stats_wire 2_000 50 60 asks_stats idle
      (λ same. omega (arith, same, stats_counted, idle_runtime))
