-- ===== src/Scheduler/Evolution.antt =====
-- The operations of src/scheduler.rs as growths of `nodes`, and any sequence of operations of the
-- registry and of the scheduler.
use hostinger.Prelude.{ℕ, String, Bool, Option, List, [], ◌∷◌}
use hostinger.Prelude.Rows.{Grows-refl}
use hostinger.Exec.{World, try_write, update_db}
use hostinger.Exec.Moves.{Moves, Moves-write, moves_rules}
use hostinger.Nodes.Record.{NodeRow, NodeRecord, PlacementRow}
use hostinger.Nodes.Tables.{NodeTables}
use hostinger.Nodes.History.{node_history, RowSteps, Growing, Growing-IsPreorder}
use hostinger.Nodes.Steps.{
  update_usage-Grows, insert_placement_nodes, charged-RowSteps, discharged-RowSteps,
}
use hostinger.Nodes.Evolution.{
  try_write-Grows, try_write_other-Grows, register_node-Grows, record_heartbeat-Grows,
  set_drain-Grows, set_enabled-Grows, rotate_node_identity-Grows, evaluate-Grows,
  list_active_nodes-Grows,
}
use hostinger.Scheduler.Placement.{
  SchedulerError, database, PlacementRequest, RescheduleRequest, insert_placement, update_usage,
  update_placements,
}
use hostinger.Scheduler.Score.{Float}
use hostinger.Scheduler.Cluster.{
  ClusterOperation, to_register, to_beat, to_drain, to_enable, to_rotate, to_evaluate, to_schedule,
  to_release, to_reconcile, to_reschedule, attempt, run, run_all,
}
use hostinger.Scheduler.Service.{
  reserve, free, place_until, place_on, release_row, release_placement, expire_rows,
  reconcile_expired_leases, schedule_release, reschedule_failed_release,
}

insert_placement-Moves :
    (row : PlacementRow)
    → Moves {E = SchedulerError} Growing (try_write database (insert_placement row))
insert_placement-Moves row = try_write_other-Grows database _ (insert_placement_nodes row)

update_usage-Moves :
    (i : ℕ) (f : NodeRow → Option NodeRow)
    → RowSteps f
    → Moves {E = SchedulerError} Growing (try_write database (update_usage i f))
update_usage-Moves i f step = try_write-Grows database _ (update_usage-Grows i f step)

update_placements-Moves :
    (p : PlacementRow → Bool) (status : String) (now : ℕ)
    → Moves {E = SchedulerError} Growing (update_db database (update_placements p status now))
unfolding update_placements
update_placements-Moves p status now =
    Moves-write Growing-IsPreorder database _ (λ t. Grows-refl node_history t.nodes)

ruleset scheduler_rules = (
  moves_rules, Growing-IsPreorder, insert_placement-Moves, update_usage-Moves,
  update_placements-Moves, charged-RowSteps, discharged-RowSteps,
)

reserve-Grows : (req : PlacementRequest) (i l p e now : ℕ) → Moves Growing (reserve req i l p e now)
unfolding reserve
reserve-Grows req i l p e now = search scheduler_rules depth 10

free-Grows :
    (p : PlacementRow → Bool) (status : String) (row : PlacementRow) (now : ℕ)
    → Moves Growing (free p status row now)
unfolding free
free-Grows p status row now = search scheduler_rules depth 10

place_until-Grows : (req : PlacementRequest) (i l p e : ℕ) → Moves Growing (place_until req i l p e)
unfolding place_until
place_until-Grows req i l p e = search (scheduler_rules, reserve-Grows) depth 8

place_on-Grows :
    {F : Type 0} (req : PlacementRequest) (lease : ℕ) (scored : List (NodeRecord × F))
    → Moves Growing (place_on req lease scored)
unfolding place_on
place_on-Grows req lease [] = search scheduler_rules
place_on-Grows req lease ((node, score) ∷ rest) =
    search (scheduler_rules, place_until-Grows) depth 12

release_row-Grows : (i : ℕ) (row : PlacementRow) → Moves Growing (release_row i row)
unfolding release_row
release_row-Grows i row = search (scheduler_rules, free-Grows) depth 10

release_placement-Grows : (i : ℕ) → Moves Growing (release_placement i)
unfolding release_placement
release_placement-Grows i = search (scheduler_rules, release_row-Grows) depth 10

expire_rows-Grows :
    (done : List ℕ) (rows : List PlacementRow) → Moves Growing (expire_rows done rows)
unfolding expire_rows
expire_rows-Grows done [] = search scheduler_rules
expire_rows-Grows done (row ∷ rows) =
    let later = λ (done' : List ℕ). expire_rows-Grows done' rows in
    search (scheduler_rules, free-Grows, later) depth 10

reconcile-Grows : Moves Growing reconcile_expired_leases
unfolding reconcile_expired_leases
reconcile-Grows = search (scheduler_rules, expire_rows-Grows) depth 10

module _ {F : Type 0} (float : Float F) where
  schedule_release-Grows :
      (req : PlacementRequest) (lease : ℕ) → Moves Growing (schedule_release float req lease)
  unfolding schedule_release
  schedule_release-Grows req lease =
      search (scheduler_rules, list_active_nodes-Grows, place_on-Grows) depth 10

  reschedule-Grows : (req : RescheduleRequest) → Moves Growing (reschedule_failed_release float req)
  unfolding reschedule_failed_release
  reschedule-Grows req =
      search (scheduler_rules, release_placement-Grows, schedule_release-Grows) depth 10

  attempt-Grows : (o : ClusterOperation) → Moves Growing (attempt float o)
  unfolding attempt
  attempt-Grows (to_register cmd) = search (scheduler_rules, register_node-Grows) depth 8
  attempt-Grows (to_beat cmd) = search (scheduler_rules, record_heartbeat-Grows) depth 8
  attempt-Grows (to_drain i drains reason) = search (scheduler_rules, set_drain-Grows) depth 8
  attempt-Grows (to_enable i enabled reason) = search (scheduler_rules, set_enabled-Grows) depth 8
  attempt-Grows (to_rotate i token_hash) =
      search (scheduler_rules, rotate_node_identity-Grows) depth 8
  attempt-Grows (to_evaluate timeout) = search (scheduler_rules, evaluate-Grows) depth 8
  attempt-Grows (to_schedule req lease) = search (scheduler_rules, schedule_release-Grows) depth 8
  attempt-Grows (to_release i) = search (scheduler_rules, release_placement-Grows) depth 8
  attempt-Grows to_reconcile = search (scheduler_rules, reconcile-Grows) depth 8
  attempt-Grows (to_reschedule req) = search (scheduler_rules, reschedule-Grows) depth 8

  pub cluster-Grows :
      (os : List ClusterOperation) (w : World NodeTables) → Growing w.db (run_all float os w).db
  unfolding run_all run
  cluster-Grows [] w = Growing-IsPreorder.reflexive w.db
  cluster-Grows (o ∷ os) w =
      Growing-IsPreorder.transitive w.db (run float o w).db (run_all float os (run float o w)).db
        ((attempt-Grows o).from w) (cluster-Grows os (run float o w))
