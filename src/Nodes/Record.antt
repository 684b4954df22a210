-- ===== src/Nodes/Record.antt =====
-- The records of src/node_registry.rs and the rows of migrations/0013_nodes_scheduler.sql. A BIGINT
-- or INTEGER column holds its bit pattern.
use hostinger.Prelude.{ℕ, String, Bool, Option, str_eq, if◌then◌else◌}
use hostinger.Agent.Commands.{NodeStatus, online, degraded, draining, offline, NodeCapacity}

pub data NodeRegistryError : Type 0 where
  database : NodeRegistryError
  invalid_capacity : NodeRegistryError
  node_not_found : ℕ → NodeRegistryError
  epoch_mismatch : ℕ → ℕ → NodeRegistryError
  version_conflict : ℕ → NodeRegistryError

-- A row of `nodes`: the status is a text.
pub record NodeRow : Type 0 where
  pub id : ℕ
  pub hostname : String
  pub endpoint : String
  pub status : String
  pub cpu_total_millicores : ℕ  -- BIGINT
  pub memory_total_bytes : ℕ  -- BIGINT
  pub max_releases : ℕ  -- INTEGER
  pub cpu_used_millicores : ℕ  -- BIGINT
  pub memory_used_bytes : ℕ  -- BIGINT
  pub running_releases_count : ℕ  -- INTEGER
  pub token_hash : String
  pub epoch : ℕ  -- BIGINT
  pub version : ℕ  -- BIGINT
  pub is_draining : Bool
  pub is_enabled : Bool
  pub last_heartbeat_at : ℕ
  pub registered_at : ℕ
  pub updated_at : ℕ

pub record NodeRecord : Type 0 where
  pub id : ℕ
  pub hostname : String
  pub endpoint : String
  pub status : NodeStatus
  pub capacity : NodeCapacity
  pub cpu_used_millicores : ℕ  -- u64
  pub memory_used_bytes : ℕ  -- u64
  pub running_releases_count : ℕ  -- u32
  pub token_hash : String
  pub epoch : ℕ  -- u64
  pub version : ℕ  -- u64
  pub is_draining : Bool
  pub is_enabled : Bool
  pub last_heartbeat_at : ℕ
  pub registered_at : ℕ
  pub updated_at : ℕ

-- Any other text counts as online.
unfoldable pub status_of : String → NodeStatus
status_of s =
    if str_eq s "degraded"
    then degraded
    else if str_eq s "draining"
    then draining
    else if str_eq s "offline"
    then offline
    else online

unfoldable pub from_pg_row : NodeRow → NodeRecord
from_pg_row row = record {
  id = row.id;
  hostname = row.hostname;
  endpoint = row.endpoint;
  status = status_of row.status;
  capacity = record {
    cpu_millicores = row.cpu_total_millicores;
    memory_bytes = row.memory_total_bytes;
    max_releases = row.max_releases;
  };
  cpu_used_millicores = row.cpu_used_millicores;
  memory_used_bytes = row.memory_used_bytes;
  running_releases_count = row.running_releases_count;
  token_hash = row.token_hash;
  epoch = row.epoch;
  version = row.version;
  is_draining = row.is_draining;
  is_enabled = row.is_enabled;
  last_heartbeat_at = row.last_heartbeat_at;
  registered_at = row.registered_at;
  updated_at = row.updated_at;
}

unfoldable pub status_to_str : NodeStatus → String
status_to_str online = "online"
status_to_str degraded = "degraded"
status_to_str draining = "draining"
status_to_str offline = "offline"

-- A row of `node_events`, which is read as it is.
pub record NodeEventRecord : Type 0 where
  pub id : ℕ
  pub node_id : ℕ
  pub from_status : String
  pub to_status : String
  pub reason : Option String
  pub created_at : ℕ

-- A row of `placements`.
pub record PlacementRow : Type 0 where
  pub id : ℕ
  pub release_id : ℕ
  pub node_id : ℕ
  pub operation_lease_id : ℕ
  pub status : String
  pub cpu_allocated_millicores : ℕ  -- BIGINT
  pub memory_allocated_bytes : ℕ  -- BIGINT
  pub lease_expires_at : ℕ
  pub created_at : ℕ
  pub updated_at : ℕ
