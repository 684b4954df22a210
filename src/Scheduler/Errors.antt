-- ===== src/Scheduler/Errors.antt =====
-- The operations of src/node_registry.rs and src/scheduler.rs where they fail.
use hostinger.Prelude.{ℕ, String, ◌≡◌, Bool, true, List, [], ◌∷◌}
use hostinger.Exec.{err, World}
use hostinger.Exec.Reverts.{Reverts, revert_rules}
use hostinger.Nodes.Record.{NodeRecord, PlacementRow}
use hostinger.Nodes.Tables.{NodeTables}
use hostinger.Nodes.Errors.{
  list_active_nodes-Same, register_node-Reverts, record_heartbeat-Reverts, set_drain-Reverts,
  set_enabled-Reverts, rotate_node_identity-Reverts,
}
use hostinger.Scheduler.Placement.{PlacementRequest}
use hostinger.Scheduler.Score.{Float}
use hostinger.Scheduler.Cluster.{
  ClusterOperation, ClusterError, to_register, to_beat, to_drain, to_enable, to_rotate, to_evaluate,
  to_schedule, to_release, to_reconcile, to_reschedule, is_single, attempt,
}
use hostinger.Scheduler.Service.{
  reserve, free, place_until, place_on, release_row, release_placement, schedule_release,
}

reserve-Reverts : (req : PlacementRequest) (i l p e now : ℕ) → Reverts (reserve req i l p e now)
unfolding reserve
reserve-Reverts req i l p e now = search revert_rules depth 10

free-Reverts :
    (p : PlacementRow → Bool) (status : String) (row : PlacementRow) (now : ℕ)
    → Reverts (free p status row now)
unfolding free
free-Reverts p status row now = search revert_rules depth 10

place_until-Reverts : (req : PlacementRequest) (i l p e : ℕ) → Reverts (place_until req i l p e)
unfolding place_until
place_until-Reverts req i l p e = search (revert_rules, reserve-Reverts) depth 8

place_on-Reverts :
    {F : Type 0} (req : PlacementRequest) (lease : ℕ) (scored : List (NodeRecord × F))
    → Reverts (place_on req lease scored)
unfolding place_on
place_on-Reverts req lease [] = search revert_rules
place_on-Reverts req lease ((node, score) ∷ rest) =
    search (revert_rules, place_until-Reverts) depth 12

release_row-Reverts : (i : ℕ) (row : PlacementRow) → Reverts (release_row i row)
unfolding release_row
release_row-Reverts i row = search (revert_rules, free-Reverts) depth 12

pub release_placement-Reverts : (i : ℕ) → Reverts (release_placement i)
unfolding release_placement
release_placement-Reverts i = search (revert_rules, release_row-Reverts) depth 12

module _ {F : Type 0} (float : Float F) where
  pub schedule_release-Reverts :
      (req : PlacementRequest) (lease : ℕ) → Reverts (schedule_release float req lease)
  unfolding schedule_release
  schedule_release-Reverts req lease =
      search (revert_rules, list_active_nodes-Same, place_on-Reverts) depth 12

  attempt-Reverts : (o : ClusterOperation) → is_single o ≡ true → Reverts (attempt float o)
  unfolding attempt is_single
  attempt-Reverts (to_register cmd) h = search (revert_rules, register_node-Reverts) depth 8
  attempt-Reverts (to_beat cmd) h = search (revert_rules, record_heartbeat-Reverts) depth 8
  attempt-Reverts (to_drain i drains reason) h = search (revert_rules, set_drain-Reverts) depth 8
  attempt-Reverts (to_enable i enabled reason) h =
      search (revert_rules, set_enabled-Reverts) depth 8
  attempt-Reverts (to_rotate i token_hash) h =
      search (revert_rules, rotate_node_identity-Reverts) depth 8
  attempt-Reverts (to_evaluate timeout) h = cc
  attempt-Reverts (to_schedule req lease) h =
      search (revert_rules, schedule_release-Reverts) depth 8
  attempt-Reverts (to_release i) h = search (revert_rules, release_placement-Reverts) depth 8
  attempt-Reverts to_reconcile h = cc
  attempt-Reverts (to_reschedule req) h = cc

  -- An operation that ends in an error leaves every table as it was, whichever of its statements
  -- failed. The operations are `register_node`, `record_heartbeat`, `set_drain`, `set_enabled`,
  -- `rotate_node_identity`, `schedule_release` and `release_placement`; the loops
  -- `evaluate_health_and_expiry` and `reconcile_expired_leases`, and `reschedule_failed_release`,
  -- are not among them.
  pub failed_operation_reverts :
      (o : ClusterOperation) (w : World NodeTables) (e : ClusterError)
      → is_single o ≡ true
      → (attempt float o w).0 ≡ err e
      → (attempt float o w).1.db ≡ w.db
  failed_operation_reverts o w e single h = (attempt-Reverts o single).undone w e h
