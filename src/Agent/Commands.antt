-- ===== src/Agent/Commands.antt =====
-- The data of src/agent_protocol.rs. A HashMap is the list of its entries.
use hostinger.Prelude.{ℕ, String, Bool, Option, List}

pub data NodeStatus : Type 0 where
  online degraded draining offline : NodeStatus

pub record NodeCapacity : Type 0 where
  pub cpu_millicores : ℕ  -- u64
  pub memory_bytes : ℕ  -- u64
  pub max_releases : ℕ  -- u32

pub record RegisterNodeCommand : Type 0 where
  pub node_id : ℕ
  pub hostname : String
  pub endpoint : String
  pub capacity : NodeCapacity
  pub token_hash : String

pub record HeartbeatCommand : Type 0 where
  pub node_id : ℕ
  pub epoch : ℕ  -- u64
  pub cpu_used_millicores : ℕ  -- u64
  pub memory_used_bytes : ℕ  -- u64
  pub running_releases : List ℕ
  pub status : NodeStatus

pub record CreateReleaseCommand : Type 0 where
  pub release_id : ℕ
  pub deployment_id : ℕ
  pub image_path : String
  pub env : List (String × String)
  pub cpu_limit_millicores : ℕ  -- u64
  pub memory_limit_bytes : ℕ  -- u64

-- The constructors with fields in braces take them in the order of the source.
pub data AgentCommand : Type 0 where
  register_node : RegisterNodeCommand → AgentCommand
  heartbeat : HeartbeatCommand → AgentCommand
  create_release : CreateReleaseCommand → AgentCommand
  start_release : ℕ → String → AgentCommand
  stop_release : ℕ → String → ℕ → AgentCommand
  drain_release : ℕ → ℕ → AgentCommand
  release_logs : ℕ → Option ℕ → ℕ → AgentCommand
  release_stats : ℕ → AgentCommand
  health : AgentCommand

pub record RegisterNodeResponse : Type 0 where
  pub registered : Bool
  pub assigned_epoch : ℕ  -- u64

pub record HeartbeatResponse : Type 0 where
  pub acknowledged : Bool
  pub drain_requested : Bool
