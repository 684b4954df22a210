-- ===== src/Agent/Responses.antt =====
-- The responses of src/agent_protocol.rs, and the runtime that src/agent_server.rs drives.
use hostinger.Prelude.{ℕ, String, Bool, Option, List}
use hostinger.Exec.{Result}
use hostinger.Agent.Commands.{CreateReleaseCommand, RegisterNodeResponse, HeartbeatResponse}
use hostinger.Agent.Envelope.{AgentProtocolError}

pub record CreateReleaseResponse : Type 0 where
  pub release_id : ℕ
  pub container_id : String
  pub assigned_port : ℕ  -- u16

pub record StartReleaseResponse : Type 0 where
  pub started : Bool
  pub port : ℕ  -- u16

pub record StopReleaseResponse : Type 0 where
  pub stopped : Bool

pub record DrainReleaseResponse : Type 0 where
  pub draining : Bool

pub record ReleaseLogsResponse : Type 0 where
  pub logs : List String
  pub next_seq : ℕ  -- u64

pub record ReleaseStatsResponse : Type 0 where
  pub cpu_millicores : ℕ  -- u64
  pub memory_bytes : ℕ  -- u64
  pub uptime_secs : ℕ  -- u64

pub record HealthResponse : Type 0 where
  pub healthy : Bool
  pub version : String
  pub uptime_secs : ℕ  -- u64

pub data AgentResponse : Type 0 where
  register_node : RegisterNodeResponse → AgentResponse
  heartbeat : HeartbeatResponse → AgentResponse
  create_release : CreateReleaseResponse → AgentResponse
  start_release : StartReleaseResponse → AgentResponse
  stop_release : StopReleaseResponse → AgentResponse
  drain_release : DrainReleaseResponse → AgentResponse
  release_logs : ReleaseLogsResponse → AgentResponse
  release_stats : ReleaseStatsResponse → AgentResponse
  health : HealthResponse → AgentResponse

abbrev pub Call : Type 0 → Type 0 → Type 0
Call S A = S → Result AgentProtocolError A × S

-- Each method takes the state of the runtime, and may change it whether it returns or fails.
pub record AgentRuntimeAdapter (S : Type 0) : Type 0 where
  pub create : CreateReleaseCommand → Call S CreateReleaseResponse
  pub start : ℕ → String → Call S StartReleaseResponse
  pub stop : ℕ → String → ℕ → Call S StopReleaseResponse
  pub drain : ℕ → ℕ → Call S DrainReleaseResponse
  pub get_logs : ℕ → Option ℕ → ℕ → Call S ReleaseLogsResponse
  pub get_stats : ℕ → Call S ReleaseStatsResponse
