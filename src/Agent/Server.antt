-- ===== src/Agent/Server.antt =====
-- `AgentServer` of src/agent_server.rs, with the state of its runtime. The readings of the clocks are
-- arguments, as in Agent/Validator; `later` is the reading for the uptime.
use hostinger.Prelude.{ℕ, ◌-◌, ◌/◌, Bool, true, false, not, ◌&&◌, if◌then◌else◌}
use hostinger.Exec.{Result, ok, err}
use hostinger.Agent.Commands
use hostinger.Agent.Commands.{AgentCommand}
use hostinger.Agent.Envelope.{
  AgentProtocolError, forbidden_command, agent_protocol_version, Wire, AgentEnvelope,
  NodeCredentials,
}
use hostinger.Agent.Validator.{
  AgentProtocolValidator, new, register_credentials, validate_and_unpack,
}
use hostinger.Agent.Responses
use hostinger.Agent.Responses.{AgentResponse, HealthResponse, Call, AgentRuntimeAdapter}

pub record AgentServer (S : Type 0) : Type 0 where
  pub node_id : ℕ
  pub credentials : NodeCredentials
  pub validator : AgentProtocolValidator
  pub runtime : S
  pub is_draining : Bool
  pub start_time : ℕ

unfoldable pub new_server : {S : Type 0} → ℕ → NodeCredentials → S → ℕ → AgentServer S
new_server node_id credentials runtime instant = record {
  node_id = node_id;
  credentials = credentials;
  validator = register_credentials credentials (new 300_000_000_000);
  runtime = runtime;
  is_draining = false;
  start_time = instant;
}

unfoldable pub set_draining : {S : Type 0} → Bool → AgentServer S → AgentServer S
set_draining draining server = record server { is_draining = draining }

abbrev pub is_create : AgentCommand → Bool
is_create (Commands.create_release cmd) = true
is_create _ = false

-- The response made of what a call of the runtime returned.
abbrev respond : {S A : Type 0} → (A → AgentResponse) → Call S A → Call S AgentResponse
respond f m s = elim (m s).0 [ ok a ↦ (ok (f a), (m s).1) | err e ↦ (err e, (m s).1) ]

-- `HealthResponse` of a server
unfoldable pub health_of : ℕ → Bool → ℕ → HealthResponse
health_of instant draining start_time = record {
  healthy = not draining;
  version = agent_protocol_version;
  uptime_secs = (instant - start_time) / 1_000_000_000;
}

module _ {S : Type 0} (adapter : AgentRuntimeAdapter S) where
  -- The match of `execute_command_direct`.
  unfoldable pub dispatch : ℕ → Bool → ℕ → AgentCommand → Call S AgentResponse
  dispatch instant draining start_time (Commands.create_release cmd) s =
      respond Responses.create_release (adapter.create cmd) s
  dispatch instant draining start_time (Commands.start_release release_id container_id) s =
      respond Responses.start_release (adapter.start release_id container_id) s
  dispatch instant draining start_time
        (Commands.stop_release release_id container_id grace_period_secs) s =
      respond Responses.stop_release (adapter.stop release_id container_id grace_period_secs) s
  dispatch instant draining start_time (Commands.drain_release release_id drain_timeout_secs) s =
      respond Responses.drain_release (adapter.drain release_id drain_timeout_secs) s
  dispatch instant draining start_time (Commands.release_logs release_id since_seq limit) s =
      respond Responses.release_logs (adapter.get_logs release_id since_seq limit) s
  dispatch instant draining start_time (Commands.release_stats release_id) s =
      respond Responses.release_stats (adapter.get_stats release_id) s
  dispatch instant draining start_time Commands.health s =
      (ok (Responses.health (health_of instant draining start_time)), s)
  dispatch instant draining start_time (Commands.register_node cmd) s =
      (err (forbidden_command "RegisterNode must be handled by scheduler"), s)
  dispatch instant draining start_time (Commands.heartbeat cmd) s =
      (err (forbidden_command "Heartbeat must be handled by scheduler"), s)

  unfoldable pub execute_command_direct :
      ℕ → AgentCommand → AgentServer S → Result AgentProtocolError AgentResponse × AgentServer S
  execute_command_direct instant command server =
      if server.is_draining && is_create command
      then (
        err (forbidden_command "Node is currently in draining mode; cannot accept new releases"),
        server,
      )
      else (let (r, s) =
            dispatch instant server.is_draining server.start_time command server.runtime in
          (r, record server { runtime = s }))

  module _ (wire : Wire) where
    unfoldable pub handle_envelope :
        ℕ
        → ℕ
        → ℕ
        → AgentEnvelope
        → AgentServer S
        → Result AgentProtocolError AgentResponse × AgentServer S
    handle_envelope now instant later envelope server =
        let (unpacked, v) = validate_and_unpack wire now instant envelope server.validator in
        elim unpacked [
          | err e ↦ (err e, record server { validator = v })
          | ok command ↦ execute_command_direct later command (record server { validator = v })
        ]
