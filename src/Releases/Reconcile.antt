-- ===== src/Releases/Reconcile.antt =====
-- The recovery of src/releases.rs after a crash of the host.
use hostinger.Prelude.{
  ℕ, String, Bool, true, false, Option, none, some, List, [], ◌∷◌, ◌++◌, ◌==◌, if◌then◌else◌,
}
use hostinger.Exec.{Result, ok, err, pure, lift, catch, ◌>>=◌, ◌>>◌}
use hostinger.Releases.Status.{
  ReleaseStatus, starting, health_checking, ready, active, draining, stopped, failed, ReleaseError,
  parse,
}
use hostinger.Releases.Record.{Release, ReleaseRow}
use hostinger.Releases.Tables.{releases_in}
use hostinger.Releases.Controller.{
  Action, ContainerStopper, query, outside_call, get_release, get_active_release, transition,
}
use hostinger.Traffic.{RouteHandle, TrafficRouter}

-- `if let Ok(updated) = ... { reconciled.push(updated); }`
abbrev pub push_ok : List Release → Result ReleaseError Release → List Release
push_ok reconciled (ok updated) = reconciled ++ updated ∷ []
push_ok reconciled (err e) = reconciled

-- Where a crashed release goes, and why; `none` is `continue`.
unfoldable pub recovery_target : ReleaseStatus → Option (ReleaseStatus × String)
recovery_target starting =
    some
      (failed, "reconciled failed: release interrupted in startup/health check during host crash")
recovery_target health_checking =
    some
      (failed, "reconciled failed: release interrupted in startup/health check during host crash")
recovery_target draining =
    some (stopped, "reconciled stopped: drain completed after host crash recovery")
recovery_target _ = none

-- The same for the full recovery, which looks at the route of a release that is ready.
unfoldable pub full_recovery_target : Bool → ReleaseStatus → Option (ReleaseStatus × String)
unfolding recovery_target
full_recovery_target true ready =
    some (active, "reconciled active: release was registered in active_routes")
full_recovery_target false ready =
    some
      (failed, "reconciled failed: release was ready but never received traffic before host crash")
full_recovery_target is_active_route s = recovery_target s

module _ {X : Type 0} where
  -- One row of the loop.
  unfoldable pub recover_row :
      ReleaseRow → List Release → Option (ReleaseStatus × String) → Action X (List Release)
  recover_row row reconciled none = pure reconciled
  recover_row row reconciled (some (target, reason)) = do
    updated ← catch (transition row.id row.version target (some reason))
    pure (push_ok reconciled updated)

  unfoldable pub recover_rows : List ReleaseRow → List Release → Action X (List Release)
  recover_rows [] reconciled = pure reconciled
  recover_rows (row ∷ rows) reconciled = do
    status ← lift (parse row.status)
    reconciled' ← recover_row row reconciled (recovery_target status)
    recover_rows rows reconciled'

  unfoldable pub reconcile_crashed_releases : Action X (List Release)
  reconcile_crashed_releases = do
    rows ←
        query "failed to query crashed releases"
          (releases_in ("starting" ∷ "health_checking" ∷ "draining" ∷ []))
    recover_rows rows []

abbrev pub ends : ReleaseStatus → Bool
ends failed = true
ends stopped = true
ends _ = false

abbrev pub is_draining : ReleaseStatus → Bool
is_draining draining = true
is_draining _ = false

-- `active.as_ref().map(|a| a.id) == Some(rel_id)`
abbrev pub serves : ℕ → Option Release → Bool
serves rel_id none = false
serves rel_id (some a) = a.id == rel_id

module _ {X : Type 0} (stopper : Option (ContainerStopper X))
    (router : Option (TrafficRouter X)) where
  -- The stop of the container of a release that ends, if there are a container and a stopper.
  unfoldable pub stop_for :
      Option String → Option (ContainerStopper X) → ReleaseStatus → Action X (Unit {0})
  stop_for (some cid) (some s) target =
      if ends target then (do catch (outside_call (s.stop_container cid)); pure tt) else pure tt
  stop_for _ _ target = pure tt

  -- `if let Ok(handle) = r.prepare(&rel) { let _ = r.remove(&handle); }`
  unfoldable pub remove_prepared : TrafficRouter X → Result String RouteHandle → Action X (Unit {0})
  remove_prepared r (err e) = pure tt
  remove_prepared r (ok handle) = do catch (outside_call (r.remove handle)); pure tt

  -- The route of a draining release is removed, if there is a router.
  unfoldable pub unroute : ℕ → Option (TrafficRouter X) → ReleaseStatus → Action X (Unit {0})
  unroute rel_id none status = pure tt
  unroute rel_id (some r) status =
      if is_draining status
      then (do
        rel ← get_release rel_id
        prepared ← catch (outside_call (r.prepare rel))
        remove_prepared r prepared)
      else pure tt

  unfoldable pub recover_row_full :
      ReleaseRow
      → ReleaseStatus
      → List Release
      → Option (ReleaseStatus × String)
      → Action X (List Release)
  recover_row_full row status reconciled none = pure reconciled
  recover_row_full row status reconciled (some (target, reason)) = do
    stop_for row.container_id stopper target
    unroute row.id router status
    updated ← catch (transition row.id row.version target (some reason))
    pure (push_ok reconciled updated)

  unfoldable pub recover_rows_full : List ReleaseRow → List Release → Action X (List Release)
  recover_rows_full [] reconciled = pure reconciled
  recover_rows_full (row ∷ rows) reconciled = do
    status ← lift (parse row.status)
    active_release ← get_active_release row.project_id row.environment
    reconciled' ←
        recover_row_full row status reconciled
          (full_recovery_target (serves row.id active_release) status)
    recover_rows_full rows reconciled'

  unfoldable pub reconcile_crashed_releases_full : Action X (List Release)
  reconcile_crashed_releases_full = do
    rows ←
        query "failed to query crashed releases"
          (releases_in ("starting" ∷ "health_checking" ∷ "ready" ∷ "draining" ∷ []))
    recover_rows_full rows []
