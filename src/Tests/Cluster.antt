-- ===== src/Tests/Cluster.antt =====
-- Runs of src/node_registry.rs and src/scheduler.rs on two nodes.
use hostinger.Prelude.{
  ℕ, ◌+◌, ◌-◌, ◌*◌, ◌/◌, ◌≤◌, ◌≡◌, ◌≢◌, refl, true, false, none, some, List, [], ◌∷◌, ltb, arith,
  if◌then◌else◌,
}
use hostinger.Prelude.Order.{order_by, insert_asc}
use hostinger.Exec.{ok, err, World, now_utc, new_uuid, read, try_write, transaction}
use hostinger.Agent.Commands.{HeartbeatCommand, online}
use hostinger.Nodes.Record
use hostinger.Nodes.Record.{
  NodeRow, NodeRecord, PlacementRow, from_pg_row, status_of, status_to_str,
}
use hostinger.Nodes.Tables.{
  NodeTables, active_nodes, node_by_id, update_nodes, insert_event, rotate_epoch,
}
use hostinger.Nodes.Registry.{
  record_heartbeat, rotate_node_identity, list_active_nodes, set_drain, get_node, log_event,
}
use hostinger.Scheduler.Placement.{
  PlacementRequest, PlacementDecision, insert_placement, update_usage,
}
use hostinger.Scheduler.Score.{
  Float, less, equal, greater, candidate_scores, is_candidate, score_node, is_open, has_room,
  balance, sort_scored, insert_scored, goes_before,
}
use hostinger.Scheduler.Service.{schedule_release, place_on, place_until, reserve}
use hostinger.Scheduler.Cluster.{
  ClusterOperation, of_registry, to_beat, to_drain, to_schedule, to_release, to_reconcile,
  is_single, is_accounted, attempt, run_all,
}
use hostinger.Scheduler.Candidates.{IsFit, IsRead}
use hostinger.Scheduler.Choice.{PlacedOn}
use hostinger.Scheduler.Errors.{failed_operation_reverts}
use hostinger.Scheduler.Fencing.{stale_heartbeat_refused}
use hostinger.Scheduler.Selection.{schedule_release-IsFit}
use hostinger.Scheduler.Capacity.{IsWithin}
use hostinger.Scheduler.Soundness.{IsSound}
use hostinger.Scheduler.Progress.{schedule_release_returns}
use hostinger.Prelude.Rows.{here, there}
use hostinger.Scheduler.Commitment.{nodes_never_overcommitted}

-- Thousandths, for the floating point.
abbrev thousandths : Float ℕ
thousandths = record {
  of_u64 = λ n. n * 1_000;
  one = 1_000;
  two = 2_000;
  sub = λ a b. a - b;
  add = λ a b. a + b;
  div = λ a b. a * 1_000 / b;
  partial_cmp = λ a b. some (if ltb a b then less else if ltb b a then greater else equal);
}

abbrev node_of : ℕ → ℕ → NodeRow
node_of i used = record {
  id = i;
  hostname = "node";
  endpoint = "http://node";
  status = "online";
  cpu_total_millicores = 4_000;
  memory_total_bytes = 8_000;
  max_releases = 10;
  cpu_used_millicores = used;
  memory_used_bytes = used;
  running_releases_count = 1;
  token_hash = "hash";
  epoch = 1;
  version = 1;
  is_draining = false;
  is_enabled = true;
  last_heartbeat_at = 90;
  registered_at = 10;
  updated_at = 10;
}

abbrev two_nodes : World NodeTables
two_nodes = record {
  env = record { fault = λ n. false; uuid = λ n. 500 + n; time = λ n. 100 + n };
  step = 0;
  db = record { nodes = node_of 1 3_000 ∷ node_of 2 500 ∷ []; node_events = []; placements = [] };
}

abbrev small_request : PlacementRequest
small_request = record {
  release_id = 70;
  deployment_id = 71;
  project_id = 72;
  required_cpu_millicores = 1_000;
  required_memory_bytes = 2_000;
  candidate_nodes = none;
  anti_affinity_nodes = [];
}

abbrev on_second : PlacementDecision
on_second = record {
  release_id = 70;
  selected_node_id = 2;
  lease_id = 502;
  allocated_cpu_millicores = 1_000;
  allocated_memory_bytes = 2_000;
  lease_expires_at = 30_000_000_104;
}

on_second_decided :
    (schedule_release thousandths small_request 30_000_000_000 two_nodes).0 ≡ ok on_second
unfolding schedule_release list_active_nodes now_utc read active_nodes order_by insert_asc
    from_pg_row status_of candidate_scores is_candidate score_node is_open has_room balance
    sort_scored insert_scored goes_before place_on place_until new_uuid reserve transaction
    try_write insert_placement update_usage
on_second_decided = refl

schedule_release-IsFit_example :
    (n : NodeRecord) × IsRead 100 two_nodes.db n
    × IsFit small_request n
    × PlacedOn small_request n.id two_nodes.db
        (schedule_release thousandths small_request 30_000_000_000 two_nodes).1.db
        on_second
schedule_release-IsFit_example =
    schedule_release-IsFit thousandths small_request 30_000_000_000 two_nodes on_second
      on_second_decided

-- The database fails from interaction 5 on, which is the insertion of the event.
abbrev two_nodes_down : World NodeTables
two_nodes_down = record two_nodes {
  env = record { fault = λ n. ltb 4 n; uuid = λ n. 500 + n; time = λ n. 100 + n };
}

abbrev drain_first : ClusterOperation
drain_first = to_drain 1 true none

drain_failed :
    (attempt thousandths drain_first two_nodes_down).0 ≡ err (of_registry Record.database)
unfolding attempt set_drain get_node node_by_id now_utc read from_pg_row status_of status_to_str
    transaction try_write update_nodes log_event new_uuid insert_event
drain_failed = refl

failed_operation_reverts_example :
    (attempt thousandths drain_first two_nodes_down).1.db ≡ two_nodes_down.db
unfolding is_single
failed_operation_reverts_example =
    failed_operation_reverts thousandths drain_first two_nodes_down (of_registry Record.database)
      refl drain_failed

abbrev old_beat : HeartbeatCommand
old_beat = record {
  node_id = 1;
  epoch = 1;
  cpu_used_millicores = 0;
  memory_used_bytes = 0;
  running_releases = [];
  status = online;
}

abbrev some_operations : List ClusterOperation
some_operations = to_beat old_beat ∷ to_schedule small_request 30_000_000_000 ∷ to_reconcile ∷ []

rotated_to_two : (rotate_node_identity 1 "new" two_nodes).0 ≡ ok 2
unfolding rotate_node_identity now_utc try_write rotate_epoch
rotated_to_two = refl

stale_heartbeat_refused_example :
    (record_heartbeat old_beat
      (run_all thousandths some_operations (rotate_node_identity 1 "new" two_nodes).1)).0
    ≢ ok (record { acknowledged = true; drain_requested = false })
stale_heartbeat_refused_example =
    stale_heartbeat_refused thousandths 1 "new" two_nodes 2 some_operations old_beat
      (record { acknowledged = true; drain_requested = false }) rotated_to_two (omega arith) refl
      (omega arith)

two_nodes-IsSound : IsSound two_nodes.db
two_nodes-IsSound = record {
  distinct = ((λ e. omega (arith, e), tt), (tt, tt));
  within = (below 3_000 (omega arith), (below 500 (omega arith), tt));
  modest = tt;
}
  where
    below : {i : ℕ} (used : ℕ) → used ≤ 3_000 → IsWithin (node_of i used)
    below used h = record {
      cpu = omega (arith, h);
      memory = omega (arith, h);
      releases = omega arith;
      cpu_range = omega arith;
      memory_range = omega arith;
      releases_range = omega arith;
    }

abbrev more_operations : List ClusterOperation
more_operations =
    to_schedule small_request 30_000_000_000
    ∷ to_drain 2 true none
    ∷ to_schedule small_request 30_000_000_000
    ∷ to_release 70
    ∷ to_reconcile
    ∷ []

nodes_never_overcommitted_example : IsSound (run_all thousandths more_operations two_nodes).db
unfolding is_accounted
nodes_never_overcommitted_example =
    nodes_never_overcommitted thousandths more_operations two_nodes
      (refl, (refl, (refl, (refl, (refl, tt))))) two_nodes-IsSound

schedule_release_returns_example :
    (d : PlacementDecision) × ((schedule_release thousandths small_request 30_000_000_000
        two_nodes).0
      ≡ ok d)
unfolding is_candidate has_room from_pg_row
schedule_release_returns_example =
    schedule_release_returns thousandths small_request 30_000_000_000 two_nodes (node_of 2 500)
      (λ n. refl) refl two_nodes-IsSound refl (omega arith) (omega arith) (there here) refl refl
      refl
