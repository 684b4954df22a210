-- ===== src/Nodes/Evolution.antt =====
-- The operations of src/node_registry.rs as growths of `nodes`, whatever fails.
use hostinger.Prelude.{ℕ, ◌+◌, String, ◌≡◌, sym, subst, Bool, Option, some, List, [], ◌∷◌}
use hostinger.Prelude.Rows.{Grows-refl}
use hostinger.Exec.{try_write}
use hostinger.Exec.Moves.{Moves, Moves-bind, Moves-write, try_write_at, moves_rules}
use hostinger.Agent.Commands.{NodeStatus, RegisterNodeCommand, HeartbeatCommand}
use hostinger.Nodes.Record.{
  NodeRegistryError, database, NodeRow, NodeRecord, NodeEventRecord, from_pg_row,
}
use hostinger.Nodes.Tables.{NodeTables, upsert_node, update_nodes, rotate_epoch, insert_event}
use hostinger.Nodes.Registry.{
  register_node, get_node, apply_heartbeat, record_heartbeat, log_event, set_drain, set_enabled,
  rotate_node_identity, demote, demote_all, evaluate_health_and_expiry, list_active_nodes,
}
use hostinger.Nodes.History.{node_history, NodesGrow, RowSteps, Growing, Growing-IsPreorder}
use hostinger.Nodes.Steps.{
  update_nodes-Grows, rotate_epoch-Grows, upsert_node-Grows, insert_event_nodes, beat-RowSteps,
  drained-RowSteps, enabled-RowSteps, status-RowSteps,
}

pub try_write-Grows :
    {E A : Type 0} (e : E) (f : NodeTables → Option (A × NodeTables))
    → ((t t' : NodeTables) (a : A) → f t ≡ some (a, t') → NodesGrow t.nodes t'.nodes)
    → Moves Growing (try_write e f)
try_write-Grows e f h = record {
  from = λ w. try_write_at Growing-IsPreorder e f w (λ t' a q. h w.db t' a q);
}

-- The same for a statement that leaves `nodes` alone.
pub try_write_other-Grows :
    {E A : Type 0} (e : E) (f : NodeTables → Option (A × NodeTables))
    → ((t t' : NodeTables) (a : A) → f t ≡ some (a, t') → t'.nodes ≡ t.nodes)
    → Moves Growing (try_write e f)
try_write_other-Grows e f h = try_write-Grows e f λ t t' a q.
    subst (λ rows. NodesGrow t.nodes rows) (sym (h t t' a q)) (Grows-refl node_history t.nodes)

update_nodes-Moves :
    (p : NodeRow → Bool) (f : NodeRow → Option NodeRow)
    → RowSteps f
    → Moves {E = NodeRegistryError} Growing (try_write database (update_nodes p f))
update_nodes-Moves p f step = try_write-Grows database _ (update_nodes-Grows p f step)

rotate_epoch-Moves :
    (i : ℕ) (token_hash : String) (now : ℕ)
    → Moves {E = NodeRegistryError} Growing (try_write database (rotate_epoch i token_hash now))
rotate_epoch-Moves i token_hash now =
    try_write-Grows database _ (rotate_epoch-Grows i token_hash now)

insert_event-Moves :
    (row : NodeEventRecord)
    → Moves {E = NodeRegistryError} Growing (try_write database (insert_event row))
insert_event-Moves row = try_write_other-Grows database _ (insert_event_nodes row)

ruleset cluster_rules = (
  moves_rules, Growing-IsPreorder, update_nodes-Moves, rotate_epoch-Moves, insert_event-Moves,
  beat-RowSteps, drained-RowSteps, enabled-RowSteps, status-RowSteps,
)

pub register_node-Grows : (cmd : RegisterNodeCommand) → Moves Growing (register_node cmd)
unfolding register_node
register_node-Grows cmd =
    let writes = λ (now : ℕ).
      Moves-write Growing-IsPreorder database (upsert_node cmd now) (upsert_node-Grows cmd now) in
    search (cluster_rules, writes) depth 10

pub get_node-Grows : (i : ℕ) → Moves Growing (get_node i)
unfolding get_node
get_node-Grows i = search cluster_rules depth 8

apply_heartbeat-Grows :
    (cmd : HeartbeatCommand) (node : NodeRecord) → Moves Growing (apply_heartbeat cmd node)
unfolding apply_heartbeat
apply_heartbeat-Grows cmd node = search cluster_rules depth 10

pub record_heartbeat-Grows : (cmd : HeartbeatCommand) → Moves Growing (record_heartbeat cmd)
unfolding record_heartbeat
record_heartbeat-Grows cmd = search (cluster_rules, get_node-Grows, apply_heartbeat-Grows) depth 8

log_event-Grows :
    (now i : ℕ) (s t : NodeStatus) (reason : Option String)
    → Moves Growing (log_event now i s t reason)
unfolding log_event
log_event-Grows now i s t reason = search cluster_rules depth 8

pub set_drain-Grows :
    (i : ℕ) (drains : Bool) (reason : Option String) → Moves Growing (set_drain i drains reason)
unfolding set_drain
set_drain-Grows i drains reason = search (cluster_rules, get_node-Grows, log_event-Grows) depth 12

pub set_enabled-Grows :
    (i : ℕ) (enabled : Bool) (reason : Option String) → Moves Growing (set_enabled i enabled reason)
unfolding set_enabled
set_enabled-Grows i enabled reason =
    search (cluster_rules, get_node-Grows, log_event-Grows) depth 12

pub rotate_node_identity-Grows :
    (i : ℕ) (token_hash : String) → Moves Growing (rotate_node_identity i token_hash)
unfolding rotate_node_identity
rotate_node_identity-Grows i token_hash = search cluster_rules depth 8

demote-Grows : (secs now : ℕ) (node : NodeRecord) → Moves Growing (demote secs now node)
unfolding demote
demote-Grows secs now node = search (cluster_rules, log_event-Grows) depth 12

demote_all-Grows :
    (secs now count : ℕ) (rows : List NodeRow) → Moves Growing (demote_all secs now count rows)
unfolding demote_all
demote_all-Grows secs now count [] = search cluster_rules
demote_all-Grows secs now count (raw ∷ rows) =
    Moves-bind Growing-IsPreorder _ _ (demote-Grows secs now (from_pg_row raw))
      (λ more. demote_all-Grows secs now (count + more) rows)

pub evaluate-Grows : (timeout : ℕ) → Moves Growing (evaluate_health_and_expiry timeout)
unfolding evaluate_health_and_expiry
evaluate-Grows timeout = search (cluster_rules, demote_all-Grows) depth 10

pub list_active_nodes-Grows : (timeout : ℕ) → Moves Growing (list_active_nodes timeout)
unfolding list_active_nodes
list_active_nodes-Grows timeout = search cluster_rules depth 8
