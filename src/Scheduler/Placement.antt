-- ===== src/Scheduler/Placement.antt =====
-- The data of src/scheduler.rs, and its SQL statements on placements and on the usage of nodes. A
-- HashSet is the list of its elements.
use hostinger.Prelude.{
  ℕ, String, Bool, not, ◌&&◌, ◌||◌, Option, none, some, List, [], ◌∷◌, ◌++◌, ◌==◌, ltb, str_eq,
  select, update, any, if◌then◌else◌,
}
use hostinger.Prelude.Order.{order_by_desc}
use hostinger.Prelude.Words.{i64_add, i64_greatest_sub, i32_succ, i32_greatest_pred}
use hostinger.Nodes.Record.{NodeRow, PlacementRow}
use hostinger.Nodes.Tables.{NodeTables, has_node, update_checked}

-- `panicked` is no value of the source's enum: it is a panic, after which nothing is returned.
pub data SchedulerError : Type 0 where
  database insufficient_capacity panicked : SchedulerError
  placement_not_found : ℕ → SchedulerError

pub data PlacementStatus : Type 0 where
  placed active stopped failed : PlacementStatus

unfoldable pub as_str : PlacementStatus → String
as_str placed = "placed"
as_str active = "active"
as_str stopped = "stopped"
as_str failed = "failed"

-- Any other text counts as placed.
unfoldable pub parse : String → PlacementStatus
parse s =
    if str_eq s "active"
    then active
    else if str_eq s "stopped"
    then stopped
    else if str_eq s "failed"
    then failed
    else placed

pub record PlacementRequest : Type 0 where
  pub release_id : ℕ
  pub deployment_id : ℕ
  pub project_id : ℕ
  pub required_cpu_millicores : ℕ  -- u64
  pub required_memory_bytes : ℕ  -- u64
  pub candidate_nodes : Option (List ℕ)
  pub anti_affinity_nodes : List ℕ

pub record RescheduleRequest : Type 0 where
  pub release_id : ℕ
  pub failed_node_id : ℕ
  pub required_cpu_millicores : ℕ  -- u64
  pub required_memory_bytes : ℕ  -- u64
  pub candidate_nodes : Option (List ℕ)
  pub lease_duration : ℕ

pub record PlacementDecision : Type 0 where
  pub release_id : ℕ
  pub selected_node_id : ℕ
  pub lease_id : ℕ
  pub allocated_cpu_millicores : ℕ  -- u64
  pub allocated_memory_bytes : ℕ  -- u64
  pub lease_expires_at : ℕ

pub record PlacementRecord : Type 0 where
  pub id : ℕ
  pub release_id : ℕ
  pub node_id : ℕ
  pub operation_lease_id : ℕ
  pub status : PlacementStatus
  pub cpu_allocated_millicores : ℕ  -- u64
  pub memory_allocated_bytes : ℕ  -- u64
  pub lease_expires_at : ℕ
  pub created_at : ℕ
  pub updated_at : ℕ

unfoldable pub from_placement_row : PlacementRow → PlacementRecord
from_placement_row r = record {
  id = r.id;
  release_id = r.release_id;
  node_id = r.node_id;
  operation_lease_id = r.operation_lease_id;
  status = parse r.status;
  cpu_allocated_millicores = r.cpu_allocated_millicores;
  memory_allocated_bytes = r.memory_allocated_bytes;
  lease_expires_at = r.lease_expires_at;
  created_at = r.created_at;
  updated_at = r.updated_at;
}

-- INSERT INTO placements (...) VALUES (...), where node_id references nodes(id)
unfoldable pub insert_placement : PlacementRow → NodeTables → Option (Unit {0} × NodeTables)
insert_placement row t =
    if any (λ (p : PlacementRow). p.id == row.id) t.placements
      || not (any (has_node row.node_id) t.nodes)
    then none
    else some (tt, record t { placements = t.placements ++ row ∷ [] })

-- SET cpu_used_millicores = cpu_used_millicores + $1, ..., running_releases_count = ... + 1
abbrev pub charged : ℕ → ℕ → ℕ → NodeRow → Option NodeRow
charged cpu mem now r = elim (i64_add r.cpu_used_millicores cpu) [
  | none ↦ none
  | some c ↦ elim (i64_add r.memory_used_bytes mem) [
    | none ↦ none
    | some m ↦ elim (i32_succ r.running_releases_count) [
      | none ↦ none
      | some n ↦ some (record r {
        cpu_used_millicores = c;
        memory_used_bytes = m;
        running_releases_count = n;
        updated_at = now;
      })
    ]
  ]
]

-- SET cpu_used_millicores = GREATEST(0, cpu_used_millicores - $1), ...
abbrev pub discharged : ℕ → ℕ → ℕ → NodeRow → Option NodeRow
discharged cpu mem now r = elim (i64_greatest_sub r.cpu_used_millicores cpu) [
  | none ↦ none
  | some c ↦ elim (i64_greatest_sub r.memory_used_bytes mem) [
    | none ↦ none
    | some m ↦ elim (i32_greatest_pred r.running_releases_count) [
      | none ↦ none
      | some n ↦ some (record r {
        cpu_used_millicores = c;
        memory_used_bytes = m;
        running_releases_count = n;
        updated_at = now;
      })
    ]
  ]
]

-- UPDATE nodes SET ... WHERE id = $3
unfoldable pub update_usage :
    ℕ → (NodeRow → Option NodeRow) → NodeTables → Option (Unit {0} × NodeTables)
update_usage node_id f t = elim (update_checked (has_node node_id) f t.nodes) [
  | none ↦ none
  | some rows ↦ some (tt, record t { nodes = rows })
]

abbrev first : {A : Type 0} → List A → Option A
first [] = none
first (x ∷ xs) = some x

-- SELECT ... FROM placements WHERE release_id = $1 ORDER BY created_at DESC LIMIT 1
unfoldable pub latest_placement : ℕ → NodeTables → Option PlacementRow
latest_placement release_id t =
    first
      (order_by_desc (λ p. p.created_at) (select (λ p. p.release_id == release_id) t.placements))

abbrev pub with_placement_status : String → ℕ → PlacementRow → PlacementRow
with_placement_status status now p = record p { status = status; updated_at = now }

-- UPDATE placements SET status = ..., updated_at = NOW() WHERE ...
unfoldable pub update_placements : (PlacementRow → Bool) → String → ℕ → NodeTables → NodeTables
update_placements p status now t = record t {
  placements = update p (with_placement_status status now) t.placements;
}

-- SELECT ... WHERE status = 'placed' AND lease_expires_at < NOW()
unfoldable pub expired_placements : ℕ → NodeTables → List PlacementRow
expired_placements now t =
    select (λ p. str_eq p.status "placed" && ltb p.lease_expires_at now) t.placements

-- SELECT ... FROM placements WHERE node_id = $1 ORDER BY created_at DESC
unfoldable pub placements_on : ℕ → NodeTables → List PlacementRow
placements_on node_id t =
    order_by_desc (λ p. p.created_at) (select (λ p. p.node_id == node_id) t.placements)
