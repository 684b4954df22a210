-- ===== src/Nodes/Registry.antt =====
-- `NodeRegistry` of src/node_registry.rs. NOW() is a reading of the clock of its own; inside a
-- transaction it is the time of its beginning. The whole seconds of a timeout stay below 2 ^ 62, so
-- that they and their double fit in an i64.
use hostinger.Prelude.{
  ℕ, ◌+◌, ◌*◌, ◌/◌, String, Bool, true, false, not, ◌||◌, Option, none, some, List, [], ◌∷◌, map,
  ◌==◌, str_append, to_string, if◌then◌else◌,
}
use hostinger.Prelude.Words.{ℤ, whole_seconds, at_least, show_ℤ}
use hostinger.Exec.{
  Exec, pure, raise, or_raise, read, write, try_write, transaction, new_uuid, now_utc, ◌>>=◌, ◌>>◌,
}
use hostinger.Agent.Commands.{
  NodeStatus, online, degraded, draining, offline, RegisterNodeCommand, RegisterNodeResponse,
  HeartbeatCommand, HeartbeatResponse,
}
use hostinger.Nodes.Record.{
  NodeRegistryError, database, invalid_capacity, node_not_found, epoch_mismatch, version_conflict,
  NodeRow, NodeRecord, NodeEventRecord, from_pg_row, status_to_str,
}
use hostinger.Nodes.Tables.{
  NodeTables, has_node, at_version, beat, update_nodes, upsert_node, node_by_id, rotate_epoch,
  insert_event, silent_nodes, active_nodes, nodes_by_age, events_of,
}

abbrev pub NodeAction : Type 0 → Type 0
NodeAction A = Exec NodeTables NodeRegistryError A

abbrev pub has_no_capacity : RegisterNodeCommand → Bool
has_no_capacity cmd =
    cmd.capacity.cpu_millicores == 0
    || cmd.capacity.memory_bytes == 0
    || cmd.capacity.max_releases == 0

unfoldable pub register_node : RegisterNodeCommand → NodeAction RegisterNodeResponse
register_node cmd = if has_no_capacity cmd then raise invalid_capacity else do
  now ← now_utc
  epoch ← write database (upsert_node cmd now)
  pure (record { registered = true; assigned_epoch = epoch })

unfoldable pub get_node : ℕ → NodeAction (Option NodeRecord)
get_node node_id = do
  row ← read database (node_by_id node_id)
  pure (elim row [ none ↦ none | some r ↦ some (from_pg_row r) ])

-- `record_heartbeat` after its read of the node.
unfoldable pub apply_heartbeat : HeartbeatCommand → NodeRecord → NodeAction HeartbeatResponse
apply_heartbeat cmd node =
    if not (cmd.epoch == node.epoch) then raise (epoch_mismatch node.epoch cmd.epoch) else do
      now ← now_utc
      updated ←
          try_write database (update_nodes (at_version cmd.node_id node.version) (beat cmd now))
      if updated
          then pure (record { acknowledged = true; drain_requested = node.is_draining })
          else raise (version_conflict cmd.node_id)

unfoldable pub record_heartbeat : HeartbeatCommand → NodeAction HeartbeatResponse
record_heartbeat cmd = do
  found ← get_node cmd.node_id
  node ← or_raise found (node_not_found cmd.node_id)
  apply_heartbeat cmd node

-- INSERT INTO node_events with a fresh id
unfoldable pub log_event : ℕ → ℕ → NodeStatus → NodeStatus → Option String → NodeAction (Unit {0})
log_event now node_id from_status to_status reason = do
  event_id ← new_uuid
  try_write database (
      insert_event (record {
        id = event_id;
        node_id = node_id;
        from_status = status_to_str from_status;
        to_status = status_to_str to_status;
        reason = reason;
        created_at = now;
      }))

abbrev pub drain_status : Bool → NodeStatus
drain_status drains = if drains then draining else online

abbrev pub drained : Bool → ℕ → NodeRow → Option NodeRow
drained drains now r = some (record r {
  is_draining = drains;
  status = status_to_str (drain_status drains);
  updated_at = now;
})

unfoldable pub set_drain : ℕ → Bool → Option String → NodeAction (Unit {0})
set_drain node_id drains reason = do
  found ← get_node node_id
  node ← or_raise found (node_not_found node_id)
  now ← now_utc
  transaction database (do
    try_write database (update_nodes (has_node node_id) (drained drains now))
    log_event now node_id node.status (drain_status drains) reason)

abbrev pub enabled_row : Bool → ℕ → NodeRow → Option NodeRow
enabled_row enabled now r = some (record r { is_enabled = enabled; updated_at = now })

unfoldable pub enabled_reason : Bool → Option String → String
enabled_reason enabled reason = str_append "Node " (
    str_append (if enabled then "enabled" else "disabled") (
      str_append " by operator: " (elim reason [ none ↦ "no reason provided" | some text ↦ text ])))

unfoldable pub set_enabled : ℕ → Bool → Option String → NodeAction (Unit {0})
set_enabled node_id enabled reason = do
  found ← get_node node_id
  node ← or_raise found (node_not_found node_id)
  now ← now_utc
  transaction database (do
    try_write database (update_nodes (has_node node_id) (enabled_row enabled now))
    log_event now node_id node.status node.status (some (enabled_reason enabled reason)))

unfoldable pub rotate_node_identity : ℕ → String → NodeAction ℕ
rotate_node_identity node_id new_token_hash = do
  now ← now_utc
  new_epoch ← try_write database (rotate_epoch node_id new_token_hash now)
  or_raise new_epoch (node_not_found node_id)

abbrev pub as_secs : ℕ → ℕ
as_secs d = d / 1_000_000_000

abbrev pub same_status : NodeStatus → NodeStatus → Bool
same_status online online = true
same_status degraded degraded = true
same_status draining draining = true
same_status offline offline = true
same_status _ _ = false

abbrev pub silent_status : ℤ → ℕ → NodeStatus
silent_status elapsed_secs timeout_secs =
    if at_least elapsed_secs (timeout_secs * 2) then offline else degraded

unfoldable pub expiry_reason : ℤ → ℕ → String
expiry_reason elapsed_secs timeout_secs = str_append "Heartbeat expired: elapsed " (
    str_append (show_ℤ elapsed_secs)
      (str_append "s exceeds threshold " (str_append (to_string timeout_secs) "s")))

abbrev pub with_node_status : NodeStatus → ℕ → NodeRow → Option NodeRow
with_node_status status now r = some (record r { status = status_to_str status; updated_at = now })

-- One silent node: how much it adds to the count.
unfoldable pub demote : ℕ → ℕ → NodeRecord → NodeAction ℕ
demote timeout_secs now node =
    let elapsed_secs = whole_seconds now node.last_heartbeat_at in
    let target_status = silent_status elapsed_secs timeout_secs in
    if not (same_status target_status node.status)
    then (do
      begun ← now_utc
      transaction database (do
        try_write database (update_nodes (has_node node.id) (with_node_status target_status begun))
        log_event begun node.id node.status target_status
            (some (expiry_reason elapsed_secs timeout_secs)))
      pure 1)
    else pure 0

unfoldable pub demote_all : ℕ → ℕ → ℕ → List NodeRow → NodeAction ℕ
demote_all timeout_secs now transitioned [] = pure transitioned
demote_all timeout_secs now transitioned (raw ∷ rows) = do
  more ← demote timeout_secs now (from_pg_row raw)
  demote_all timeout_secs now (transitioned + more) rows

unfoldable pub evaluate_health_and_expiry : ℕ → NodeAction ℕ
evaluate_health_and_expiry heartbeat_timeout = do
  db_now ← now_utc
  rows ← read database (silent_nodes (as_secs heartbeat_timeout) db_now)
  now ← now_utc
  demote_all (as_secs heartbeat_timeout) now 0 rows

unfoldable pub list_active_nodes : ℕ → NodeAction (List NodeRecord)
list_active_nodes heartbeat_timeout = do
  now ← now_utc
  rows ← read database (active_nodes (as_secs heartbeat_timeout) now)
  pure (map from_pg_row rows)

unfoldable pub list_all_nodes : NodeAction (List NodeRecord)
list_all_nodes = do rows ← read database nodes_by_age; pure (map from_pg_row rows)

unfoldable pub get_node_events : ℕ → NodeAction (List NodeEventRecord)
get_node_events node_id = read database (events_of node_id)
