-- ===== src/Scheduler/Service.antt =====
-- `Scheduler` of src/scheduler.rs.
use hostinger.Prelude.{
  ℕ, ◌+◌, ◌-◌, ◌*◌, ◌^◌, ltb, leb, Option, none, some, String, Bool, ◌&&◌, ◌||◌, List, [], ◌∷◌,
  ◌++◌, map, ◌==◌, str_eq, if◌then◌else◌,
}
use hostinger.Exec.{
  Exec, pure, raise, or_raise, read, update_db, try_write, transaction, new_uuid, now_utc, catch,
  map_err, ◌>>=◌, ◌>>◌,
}
use hostinger.Nodes.Record
use hostinger.Nodes.Record.{NodeRegistryError, NodeRow, NodeRecord, PlacementRow}
use hostinger.Nodes.Tables.{NodeTables}
use hostinger.Nodes.Registry.{as_secs, list_active_nodes}
use hostinger.Scheduler.Placement.{
  SchedulerError, database, insufficient_capacity, panicked, placement_not_found, PlacementRequest,
  RescheduleRequest, PlacementDecision, PlacementRecord, from_placement_row, insert_placement,
  charged, discharged, update_usage, latest_placement, update_placements, expired_placements,
  placements_on,
}
use hostinger.Scheduler.Score.{Float, candidate_scores, sort_scored}

abbrev pub SchedulerAction : Type 0 → Type 0
SchedulerAction A = Exec NodeTables SchedulerError A

abbrev pub registry_error : NodeRegistryError → SchedulerError
registry_error Record.database = database
registry_error _ = insufficient_capacity

abbrev pub for_release : ℕ → PlacementRow → Bool
for_release release_id p = p.release_id == release_id

-- WHERE release_id = $1 AND status = 'placed'
abbrev pub placed_for : ℕ → PlacementRow → Bool
placed_for release_id p = p.release_id == release_id && str_eq p.status "placed"

-- The row of a new placement.
abbrev pub placement_of : PlacementRequest → ℕ → ℕ → ℕ → ℕ → ℕ → PlacementRow
placement_of req node_id lease_id placement_id lease_expires_at now = record {
  id = placement_id;
  release_id = req.release_id;
  node_id = node_id;
  operation_lease_id = lease_id;
  status = "placed";
  cpu_allocated_millicores = req.required_cpu_millicores;
  memory_allocated_bytes = req.required_memory_bytes;
  lease_expires_at = lease_expires_at;
  created_at = now;
  updated_at = now;
}

-- The first nanosecond past year 9999, which is past the range of OffsetDateTime.
abbrev pub end_of_time : ℕ
end_of_time = 631_107_417_600_000_000_000

-- `at + time::Duration::seconds(secs as i64)`, for a u64; `none` is the panic on a time that is out
-- of range.
abbrev pub lease_end : ℕ → ℕ → Option ℕ
lease_end at secs =
    if ltb secs (2 ^ 63)
    then if ltb (at + secs * 1_000_000_000) end_of_time
      then some (at + secs * 1_000_000_000)
      else none
    else if leb ((2 ^ 64 - secs) * 1_000_000_000) at
    then some (at - (2 ^ 64 - secs) * 1_000_000_000)
    else none

-- The transaction that places a release, begun at `now`.
unfoldable pub reserve : PlacementRequest → ℕ → ℕ → ℕ → ℕ → ℕ → SchedulerAction (Unit {0})
reserve req node_id lease_id placement_id lease_expires_at now = transaction database (do
  try_write database
      (insert_placement (placement_of req node_id lease_id placement_id lease_expires_at now))
  try_write database
      (update_usage node_id (charged req.required_cpu_millicores req.required_memory_bytes now)))

-- The transaction that ends placements and frees what one of them had.
unfoldable pub free : (PlacementRow → Bool) → String → PlacementRow → ℕ → SchedulerAction (Unit {0})
free p status row now = transaction database (do
  update_db database (update_placements p status now)
  try_write database (
      update_usage row.node_id
        (discharged row.cpu_allocated_millicores row.memory_allocated_bytes now)))

-- The last part of `schedule_release`: the placement on a node, until its lease expires.
unfoldable pub place_until : PlacementRequest → ℕ → ℕ → ℕ → ℕ → SchedulerAction PlacementDecision
place_until req node_id lease_id placement_id lease_expires_at = do
  begun ← now_utc
  reserve req node_id lease_id placement_id lease_expires_at begun
  pure (record {
    release_id = req.release_id;
    selected_node_id = node_id;
    lease_id = lease_id;
    allocated_cpu_millicores = req.required_cpu_millicores;
    allocated_memory_bytes = req.required_memory_bytes;
    lease_expires_at = lease_expires_at;
  })

-- The rest of `schedule_release`, on the sorted candidates.
unfoldable pub place_on :
    {F : Type 0} → PlacementRequest → ℕ → List (NodeRecord × F) → SchedulerAction PlacementDecision
place_on req lease_duration [] = raise insufficient_capacity
place_on req lease_duration ((selected_node, score) ∷ rest) = do
  lease_id ← new_uuid
  placement_id ← new_uuid
  now ← now_utc
  lease_expires_at ← or_raise (lease_end now (as_secs lease_duration)) panicked
  place_until req selected_node.id lease_id placement_id lease_expires_at

-- The branch of `release_placement` on the placement that it found.
unfoldable pub release_row : ℕ → PlacementRow → SchedulerAction (Unit {0})
release_row release_id row =
    if str_eq row.status "stopped" || str_eq row.status "failed"
    then pure tt
    else do begun ← now_utc; free (for_release release_id) "stopped" row begun

unfoldable pub release_placement : ℕ → SchedulerAction (Unit {0})
release_placement release_id = do
  found ← read database (latest_placement release_id)
  row ← or_raise found (placement_not_found release_id)
  release_row release_id row

unfoldable pub expire_rows : List ℕ → List PlacementRow → SchedulerAction (List ℕ)
expire_rows expired_releases [] = pure expired_releases
expire_rows expired_releases (row ∷ rows) = do
  begun ← now_utc
  free (placed_for row.release_id) "failed" row begun
  expire_rows (expired_releases ++ row.release_id ∷ []) rows

unfoldable pub reconcile_expired_leases : SchedulerAction (List ℕ)
reconcile_expired_leases = do
  now ← now_utc
  rows ← read database (expired_placements now)
  expire_rows [] rows

unfoldable pub list_placements_for_node : ℕ → SchedulerAction (List PlacementRecord)
list_placements_for_node node_id = do
  rows ← read database (placements_on node_id)
  pure (map from_placement_row rows)

module _ {F : Type 0} (float : Float F) where
  unfoldable pub schedule_release : PlacementRequest → ℕ → SchedulerAction PlacementDecision
  schedule_release req lease_duration = do
    active_nodes ← map_err registry_error (list_active_nodes 60_000_000_000)
    place_on req lease_duration (sort_scored float (candidate_scores float req active_nodes))

  unfoldable pub reschedule_failed_release : RescheduleRequest → SchedulerAction PlacementDecision
  reschedule_failed_release req = do
    catch {F = SchedulerError} (release_placement req.release_id)
    deployment_id ← new_uuid
    project_id ← new_uuid
    schedule_release
        (record {
          release_id = req.release_id;
          deployment_id = deployment_id;
          project_id = project_id;
          required_cpu_millicores = req.required_cpu_millicores;
          required_memory_bytes = req.required_memory_bytes;
          candidate_nodes = req.candidate_nodes;
          anti_affinity_nodes = req.failed_node_id ∷ [];
        })
        req.lease_duration
