-- ===== src/Nodes/Tables.antt =====
-- The tables of nodes and placements, and the SQL statements of src/node_registry.rs, each a function
-- on them. `none` is a statement that a key or the range of a column refuses.
use hostinger.Prelude.{
  ℕ, ◌+◌, ◌*◌, ◌%◌, ◌^◌, String, Bool, true, false, not, ◌&&◌, ◌||◌, Option, none, some, List, [],
  ◌∷◌, ◌++◌, ◌==◌, ltb, leb, str_eq, length, find, select, update, any, if◌then◌else◌,
}
use hostinger.Prelude.Order.{order_by, order_by_desc}
use hostinger.Prelude.Words.{i64_succ, i64_key}
use hostinger.Agent.Commands.{RegisterNodeCommand, HeartbeatCommand}
use hostinger.Nodes.Record.{NodeRow, NodeEventRecord, PlacementRow}

pub record NodeTables : Type 0 where
  pub nodes : List NodeRow
  pub node_events : List NodeEventRecord
  pub placements : List PlacementRow

abbrev pub has_node : ℕ → NodeRow → Bool
has_node i row = row.id == i

-- The rows with `f` applied where the test passes, if `f` fails on none of them.
abbrev pub update_checked : {A : Type 0} → (A → Bool) → (A → Option A) → List A → Option (List A)
update_checked p f [] = some []
update_checked p f (x ∷ xs) = elim (if p x then f x else some x) [
  | none ↦ none
  | some y ↦ elim (update_checked p f xs) [ none ↦ none | some ys ↦ some (y ∷ ys) ]
]

-- UPDATE nodes SET ... WHERE ..., with the number of rows that it met as a test for 0.
unfoldable pub update_nodes :
    (NodeRow → Bool) → (NodeRow → Option NodeRow) → NodeTables → Option (Bool × NodeTables)
update_nodes p f t = elim (update_checked p f t.nodes) [
  | none ↦ none
  | some rows ↦ some (any p t.nodes, record t { nodes = rows })
]

abbrev pub new_node : RegisterNodeCommand → ℕ → NodeRow
new_node cmd now = record {
  id = cmd.node_id;
  hostname = cmd.hostname;
  endpoint = cmd.endpoint;
  status = "online";
  cpu_total_millicores = cmd.capacity.cpu_millicores;
  memory_total_bytes = cmd.capacity.memory_bytes;
  max_releases = cmd.capacity.max_releases;
  cpu_used_millicores = 0;
  memory_used_bytes = 0;
  running_releases_count = 0;
  token_hash = cmd.token_hash;
  epoch = 1;
  version = 1;
  is_draining = false;
  is_enabled = true;
  last_heartbeat_at = now;
  registered_at = now;
  updated_at = now;
}

-- ON CONFLICT (id) DO UPDATE SET ...
abbrev pub registered_again : RegisterNodeCommand → ℕ → NodeRow → NodeRow
registered_again cmd now r = record r {
  hostname = cmd.hostname;
  endpoint = cmd.endpoint;
  cpu_total_millicores = cmd.capacity.cpu_millicores;
  memory_total_bytes = cmd.capacity.memory_bytes;
  max_releases = cmd.capacity.max_releases;
  token_hash = cmd.token_hash;
  status = "online";
  is_draining = false;
  is_enabled = true;
  last_heartbeat_at = now;
  updated_at = now;
}

-- INSERT INTO nodes ... ON CONFLICT (id) DO UPDATE SET ... RETURNING epoch
unfoldable pub upsert_node : RegisterNodeCommand → ℕ → NodeTables → ℕ × NodeTables
upsert_node cmd now t = elim (find (has_node cmd.node_id) t.nodes) [
  | none ↦ (1, record t { nodes = t.nodes ++ new_node cmd now ∷ [] })
  | some r ↦ (
    r.epoch,
    record t { nodes = update (has_node cmd.node_id) (registered_again cmd now) t.nodes },
  )
]

-- SELECT * FROM nodes WHERE id = $1
unfoldable pub node_by_id : ℕ → NodeTables → Option NodeRow
node_by_id node_id t = find (has_node node_id) t.nodes

-- SET cpu_used_millicores = $1, ..., version = version + 1, updated_at = NOW()
abbrev pub beat : HeartbeatCommand → ℕ → NodeRow → Option NodeRow
beat cmd now r = elim (i64_succ r.version) [
  | none ↦ none
  | some v ↦ some (record r {
    cpu_used_millicores = cmd.cpu_used_millicores;
    memory_used_bytes = cmd.memory_used_bytes;
    running_releases_count = length cmd.running_releases % 2 ^ 32;
    last_heartbeat_at = now;
    version = v;
    updated_at = now;
  })
]

-- WHERE id = $4 AND version = $5
abbrev pub at_version : ℕ → ℕ → NodeRow → Bool
at_version node_id version r = r.id == node_id && r.version == version

-- SET epoch = epoch + 1, token_hash = $1, updated_at = NOW()
abbrev pub rotated : String → ℕ → NodeRow → Option NodeRow
rotated token_hash now r = elim (i64_succ r.epoch) [
  | none ↦ none
  | some e ↦ some (record r { epoch = e; token_hash = token_hash; updated_at = now })
]

-- UPDATE nodes SET epoch = epoch + 1, ... WHERE id = $2 RETURNING epoch
unfoldable pub rotate_epoch : ℕ → String → ℕ → NodeTables → Option (Option ℕ × NodeTables)
rotate_epoch node_id token_hash now t =
    elim (update_checked (has_node node_id) (rotated token_hash now) t.nodes) [
      | none ↦ none
      | some rows ↦ some (
        elim (find (has_node node_id) rows) [ none ↦ none | some r ↦ some r.epoch ],
        record t { nodes = rows },
      )
    ]

-- INSERT INTO node_events (...) VALUES (...), where node_id references nodes(id)
unfoldable pub insert_event : NodeEventRecord → NodeTables → Option (Unit {0} × NodeTables)
insert_event row t =
    if any (λ (e : NodeEventRecord). e.id == row.id) t.node_events
      || not (any (has_node row.node_id) t.nodes)
    then none
    else some (tt, record t { node_events = t.node_events ++ row ∷ [] })

-- SELECT * FROM nodes WHERE status != 'offline' AND last_heartbeat_at < NOW() - $1 seconds
unfoldable pub silent_nodes : ℕ → ℕ → NodeTables → List NodeRow
silent_nodes timeout_secs now t =
    select
      (λ r.
        not (str_eq r.status "offline")
        && ltb (r.last_heartbeat_at + timeout_secs * 1_000_000_000) now)
      t.nodes

-- What a node must be to get a release.
abbrev pub is_active_node : ℕ → ℕ → NodeRow → Bool
is_active_node timeout_secs now r =
    str_eq r.status "online"
    && r.is_enabled
    && not r.is_draining
    && leb now (r.last_heartbeat_at + timeout_secs * 1_000_000_000)

-- SELECT * FROM nodes WHERE status = 'online' AND ... ORDER BY cpu_used_millicores ASC
unfoldable pub active_nodes : ℕ → ℕ → NodeTables → List NodeRow
active_nodes timeout_secs now t =
    order_by (λ r. i64_key r.cpu_used_millicores) (select (is_active_node timeout_secs now) t.nodes)

-- SELECT * FROM nodes ORDER BY registered_at DESC
unfoldable pub nodes_by_age : NodeTables → List NodeRow
nodes_by_age t = order_by_desc (λ r. r.registered_at) t.nodes

-- SELECT * FROM node_events WHERE node_id = $1 ORDER BY created_at DESC
unfoldable pub events_of : ℕ → NodeTables → List NodeEventRecord
events_of node_id t =
    order_by_desc (λ e. e.created_at) (select (λ e. e.node_id == node_id) t.node_events)
