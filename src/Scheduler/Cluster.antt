-- ===== src/Scheduler/Cluster.antt =====
-- Any sequence of the operations of src/node_registry.rs and src/scheduler.rs that write.
use hostinger.Prelude.{ℕ, ◌^◌, ltb, ◌&&◌, String, Bool, true, false, Option, List, [], ◌∷◌}
use hostinger.Exec.{World, Exec, pure, map_err, ◌>>=◌}
use hostinger.Agent.Commands.{RegisterNodeCommand, HeartbeatCommand}
use hostinger.Nodes.Record.{NodeRegistryError}
use hostinger.Nodes.Tables.{NodeTables}
use hostinger.Nodes.Registry.{
  register_node, record_heartbeat, set_drain, set_enabled, rotate_node_identity,
  evaluate_health_and_expiry,
}
use hostinger.Scheduler.Placement.{SchedulerError, PlacementRequest, RescheduleRequest}
use hostinger.Scheduler.Score.{Float}
use hostinger.Scheduler.Service.{
  release_placement, reconcile_expired_leases, schedule_release, reschedule_failed_release,
}

-- The operations on the cluster that write.
pub data ClusterOperation : Type 0 where
  to_register : RegisterNodeCommand → ClusterOperation
  to_beat : HeartbeatCommand → ClusterOperation
  to_drain : ℕ → Bool → Option String → ClusterOperation
  to_enable : ℕ → Bool → Option String → ClusterOperation
  to_rotate : ℕ → String → ClusterOperation
  to_evaluate : ℕ → ClusterOperation
  to_schedule : PlacementRequest → ℕ → ClusterOperation
  to_release : ℕ → ClusterOperation
  to_reconcile : ClusterOperation
  to_reschedule : RescheduleRequest → ClusterOperation

pub data ClusterError : Type 0 where
  of_registry : NodeRegistryError → ClusterError
  of_scheduler : SchedulerError → ClusterError

-- One operation that is not a loop over rows, nor two operations.
unfoldable pub is_single : ClusterOperation → Bool
is_single (to_evaluate timeout) = false
is_single to_reconcile = false
is_single (to_reschedule req) = false
is_single _ = true

-- What two BIGINTs that are not negative can hold.
abbrev pub fits_i64 : ℕ → ℕ → Bool
fits_i64 cpu mem = ltb cpu (2 ^ 63) && ltb mem (2 ^ 63)

-- One operation that does not set the capacity or the usage of a node, and that asks for no more
-- than a BIGINT can hold.
unfoldable pub is_accounted : ClusterOperation → Bool
is_accounted (to_register cmd) = false
is_accounted (to_beat cmd) = false
is_accounted (to_schedule req lease) =
    fits_i64 req.required_cpu_millicores req.required_memory_bytes
is_accounted (to_reschedule req) = fits_i64 req.required_cpu_millicores req.required_memory_bytes
is_accounted _ = true

module _ {E A : Type 0} where
  -- An operation with its value forgotten.
  abbrev pub finish :
      (E → ClusterError) → Exec NodeTables E A → Exec NodeTables ClusterError (Unit {0})
  finish f m = map_err f m >>= λ _. pure tt

module _ {F : Type 0} (float : Float F) where
  unfoldable pub attempt : ClusterOperation → Exec NodeTables ClusterError (Unit {0})
  attempt (to_register cmd) = finish of_registry (register_node cmd)
  attempt (to_beat cmd) = finish of_registry (record_heartbeat cmd)
  attempt (to_drain i drains reason) = finish of_registry (set_drain i drains reason)
  attempt (to_enable i enabled reason) = finish of_registry (set_enabled i enabled reason)
  attempt (to_rotate i token_hash) = finish of_registry (rotate_node_identity i token_hash)
  attempt (to_evaluate timeout) = finish of_registry (evaluate_health_and_expiry timeout)
  attempt (to_schedule req lease) = finish of_scheduler (schedule_release float req lease)
  attempt (to_release i) = finish of_scheduler (release_placement i)
  attempt to_reconcile = finish of_scheduler reconcile_expired_leases
  attempt (to_reschedule req) = finish of_scheduler (reschedule_failed_release float req)

  -- The world after an operation, returned or failed.
  unfoldable pub run : ClusterOperation → World NodeTables → World NodeTables
  run o w = (attempt o w).1

  unfoldable pub run_all : List ClusterOperation → World NodeTables → World NodeTables
  run_all [] w = w
  run_all (o ∷ os) w = run_all os (run o w)
