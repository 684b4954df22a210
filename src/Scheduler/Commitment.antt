-- ===== src/Scheduler/Commitment.antt =====
-- The capacity of the nodes over any operations of src/scheduler.rs, with the operations of
-- src/node_registry.rs that leave usage and capacity alone.
use hostinger.Prelude.{
  ℕ, ◌^◌, ◌<◌, ◌≡◌, refl, sym, subst, true, Option, List, [], ◌∷◌, arith, All, All-append, ==→eq,
}
use hostinger.Prelude.Rows.{In}
use hostinger.Exec.{Result, ok, err, World, Exec, map_err}
use hostinger.Exec.Moves.{Moves, Moves-pure, Moves-bind, Moves-map_err, moves_rules}
use hostinger.Nodes.Record.{NodeRow, from_pg_row}
use hostinger.Nodes.Tables.{NodeTables, has_node}
use hostinger.Nodes.Steps.{charged-RowSteps}
use hostinger.Scheduler.Placement.{
  SchedulerError, PlacementRequest, PlacementDecision, RescheduleRequest, charged,
}
use hostinger.Scheduler.Score.{Float, has_room}
use hostinger.Scheduler.Service.{placement_of, schedule_release, reschedule_failed_release}
use hostinger.Scheduler.Cluster.{
  ClusterOperation, to_register, to_beat, to_drain, to_enable, to_rotate, to_evaluate, to_schedule,
  to_release, to_reconcile, to_reschedule, ClusterError, of_registry, of_scheduler, finish,
  fits_i64, is_accounted, attempt, run, run_all,
}
use hostinger.Scheduler.Choice.{Reserved}
use hostinger.Scheduler.Errors.{schedule_release-Reverts}
use hostinger.Scheduler.Selection.{schedule_release-IsFit}
use hostinger.Scheduler.Capacity.{IsModest, charged-IsWithin}
use hostinger.Scheduler.Soundness.{IsSound, KeepsWithin, one_row, updated-IsSound}
use hostinger.Scheduler.Accounts.{Sound, Sound-IsPreorder, release_placement-Sound, reconcile-Sound}
use hostinger.Scheduler.Usage.{
  set_drain-Sound, set_enabled-Sound, rotate_node_identity-Sound, evaluate-Sound,
}

-- The request asks for no more than a BIGINT can hold.
abbrev pub Fits : PlacementRequest → Type 0
Fits req = fits_i64 req.required_cpu_millicores req.required_memory_bytes ≡ true

module _ (req : PlacementRequest) (fits : Fits req) where
  pub cpu_fits : req.required_cpu_millicores < 2 ^ 63
  cpu_fits = ground (arith, fits)

  pub memory_fits : req.required_memory_bytes < 2 ^ 63
  memory_fits = ground (arith, fits)

  -- A reservation on the one row with its id, which has the room.
  Reserved-IsSound :
      (row : NodeRow) (l p e now : ℕ) (t t' : NodeTables)
      → In row t.nodes
      → has_room (from_pg_row row) req.required_cpu_millicores req.required_memory_bytes ≡ true
      → Reserved req row.id l p e now t t'
      → IsSound t
      → IsSound t'
  Reserved-IsSound row l p e now t t' present room done s =
      let now_charged : IsSound (record t { nodes = t'.nodes }) =
        updated-IsSound (has_node row.id) charge t t'.nodes charge-KeepsWithin done.node_charged
          s in
      record {
        distinct = now_charged.distinct;
        within = now_charged.within;
        modest = subst (All IsModest) (sym done.placed_row) (
            All-append IsModest t.placements (placement_of req row.id l p e now ∷ []) s.modest
              ((cpu_fits, memory_fits), tt));
      }
    where
      charge : NodeRow → Option NodeRow
      charge = charged req.required_cpu_millicores req.required_memory_bytes now

      charge-KeepsWithin : KeepsWithin (has_node row.id) charge t.nodes
      charge-KeepsWithin r r' i met h q =
          let same : row ≡ r = one_row present i s.distinct (sym (==→eq r.id row.id met)) in
          let roomy : has_room (from_pg_row r) req.required_cpu_millicores req.required_memory_bytes
              ≡ true =
            subst
              (λ x.
                has_room (from_pg_row x) req.required_cpu_millicores req.required_memory_bytes
                ≡ true)
              same room in
          (
            charged-IsWithin _ _ now r r' cpu_fits memory_fits roomy h q,
            (charged-RowSteps _ _ now r r' q).0,
          )

  module _ {F : Type 0} (float : Float F) where
    placed-IsSound :
        (lease : ℕ) (w : World NodeTables) (d : PlacementDecision)
        → (schedule_release float req lease w).0 ≡ ok d
        → IsSound w.db
        → IsSound (schedule_release float req lease w).1.db
    unfolding from_pg_row
    placed-IsSound lease w d h s =
        let (n, read, fit, done) = schedule_release-IsFit float req lease w d h in
        let same_id : n.id ≡ read.row.id = rw read.of_row refl in
        let room : has_room (from_pg_row read.row) req.required_cpu_millicores
              req.required_memory_bytes
            ≡ true =
          subst (λ x. has_room x req.required_cpu_millicores req.required_memory_bytes ≡ true)
            read.of_row fit.roomy in
        Reserved-IsSound read.row d.lease_id done.placement_id d.lease_expires_at done.begun w.db _
          read.present room
          (subst
            (λ i.
              Reserved req i d.lease_id done.placement_id d.lease_expires_at done.begun w.db
                (schedule_release float req lease w).1.db)
            same_id done.reserved)
          s

    schedule_release-Sound : (lease : ℕ) → Moves Sound (schedule_release float req lease)
    schedule_release-Sound lease = record { from = λ w. by_result w _ refl }
      where
        by_result :
            (w : World NodeTables) (r : Result SchedulerError PlacementDecision)
            → (schedule_release float req lease w).0 ≡ r
            → Sound w.db (schedule_release float req lease w).1.db
        by_result w (ok d) h s = placed-IsSound lease w d h s
        by_result w (err e) h s =
            subst IsSound (sym ((schedule_release-Reverts float req lease).undone w e h)) s

finish-Sound :
    {E A : Type 0} (f : E → ClusterError) (m : Exec NodeTables E A)
    → Moves Sound m
    → Moves Sound (finish f m)
finish-Sound f m h =
    Moves-bind Sound-IsPreorder (map_err f m) _ (Moves-map_err f m h)
      (λ _. Moves-pure Sound-IsPreorder tt)

module _ {F : Type 0} (float : Float F) where
  reschedule-Sound :
      (req : RescheduleRequest)
      → fits_i64 req.required_cpu_millicores req.required_memory_bytes ≡ true
      → Moves Sound (reschedule_failed_release float req)
  unfolding reschedule_failed_release
  reschedule-Sound req h =
      let scheduled = λ (deployment_id project_id : ℕ).
        schedule_release-Sound
          (record {
            release_id = req.release_id;
            deployment_id = deployment_id;
            project_id = project_id;
            required_cpu_millicores = req.required_cpu_millicores;
            required_memory_bytes = req.required_memory_bytes;
            candidate_nodes = req.candidate_nodes;
            anti_affinity_nodes = req.failed_node_id ∷ [];
          })
          h float req.lease_duration in
      search (moves_rules, Sound-IsPreorder, release_placement-Sound, scheduled) depth 12

  attempt-Sound : (o : ClusterOperation) → is_accounted o ≡ true → Moves Sound (attempt float o)
  unfolding attempt is_accounted
  attempt-Sound (to_register cmd) h = cc
  attempt-Sound (to_beat cmd) h = cc
  attempt-Sound (to_drain i drains reason) h =
      finish-Sound of_registry _ (set_drain-Sound i drains reason)
  attempt-Sound (to_enable i enabled reason) h =
      finish-Sound of_registry _ (set_enabled-Sound i enabled reason)
  attempt-Sound (to_rotate i token_hash) h =
      finish-Sound of_registry _ (rotate_node_identity-Sound i token_hash)
  attempt-Sound (to_evaluate timeout) h = finish-Sound of_registry _ (evaluate-Sound timeout)
  attempt-Sound (to_schedule req lease) h =
      finish-Sound of_scheduler _ (schedule_release-Sound req h float lease)
  attempt-Sound (to_release i) h = finish-Sound of_scheduler _ (release_placement-Sound i)
  attempt-Sound to_reconcile h = finish-Sound of_scheduler _ reconcile-Sound
  attempt-Sound (to_reschedule req) h = finish-Sound of_scheduler _ (reschedule-Sound req h)

  -- From tables where no node is used beyond its capacity (processor, memory, number of releases),
  -- where the ids of the nodes are distinct and no placement has a negative allocation, any sequence
  -- of operations that are no registrations and no heartbeats, and whose requests are below 2 ^ 63,
  -- leads to such tables again, whatever fails on the way. The operations run one after the other.
  pub nodes_never_overcommitted :
      (os : List ClusterOperation) (w : World NodeTables)
      → All (λ o. is_accounted o ≡ true) os
      → IsSound w.db
      → IsSound (run_all float os w).db
  unfolding run_all run
  nodes_never_overcommitted [] w h s = s
  nodes_never_overcommitted (o ∷ os) w (h, k) s =
      nodes_never_overcommitted os (run float o w) k ((attempt-Sound o h).from w s)
