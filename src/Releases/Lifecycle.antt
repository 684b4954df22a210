-- ===== src/Releases/Lifecycle.antt =====
-- The orchestration and the recovery of releases, and any sequence of the controller's operations,
-- as histories of the `releases` table.
use hostinger.Prelude.{ℕ, String, Option, some, none, List, [], ◌∷◌}
use hostinger.Exec.{Result, ok, err, World, Exec}
use hostinger.Exec.Moves.{Moves}
use hostinger.Health.{HealthProbeClient, HealthCheckResult, Message}
use hostinger.Releases.Status.{ReleaseStatus, ReleaseError}
use hostinger.Releases.Record.{Release, ReleaseRow}
use hostinger.Releases.Controller.{
  Platform, ContainerStopper, create_release, transition, activate_traffic,
}
use hostinger.Releases.Orchestrate.{
  ReleaseOrchestrationPlan, beside_tables, stop_quietly, abandon, retire, retire_previous, promote,
  conclude, orchestrate_release, start_probing, probe_container,
}
use hostinger.Releases.Reconcile.{
  recover_row, recover_rows, reconcile_crashed_releases, stop_for, remove_prepared, unroute,
  recover_row_full, recover_rows_full, reconcile_crashed_releases_full,
}
use hostinger.Releases.History.{Evolves, Evolves-refl, Evolves-trans, Evolving}
use hostinger.Releases.Evolution.{
  evolving_rules, create_release-Evolves, get_active_release-Evolves, transition-Evolves,
  activate_traffic-Evolves,
}
use hostinger.Traffic.{RouteHandle, TrafficRouter}

module _ {X : Type 0} (client : HealthProbeClient X) (router : TrafficRouter X)
    (stopper : ContainerStopper X) where
  beside-Evolves : {A : Type 0} (m : Exec X ReleaseError A) → Moves Evolving (beside_tables m)
  unfolding beside_tables
  beside-Evolves m = record { from = λ w. Evolves-refl w.db.tables }

  stop_quietly-Evolves :
      (cid : Option String) → Moves Evolving (stop_quietly client router stopper cid)
  unfolding stop_quietly
  stop_quietly-Evolves none = search evolving_rules
  stop_quietly-Evolves (some cid) = search evolving_rules

  abandon-Evolves :
      (release : Release) (cid : String) (m : Message)
      → Moves Evolving (abandon client router stopper release cid m)
  unfolding abandon
  abandon-Evolves release cid m =
      search (evolving_rules, stop_quietly-Evolves, transition-Evolves) depth 8

  retire-Evolves :
      (timeout : ℕ) (prev : Release) → Moves Evolving (retire client router stopper timeout prev)
  unfolding retire
  retire-Evolves timeout prev =
      search (evolving_rules, stop_quietly-Evolves, transition-Evolves) depth 14

  retire_previous-Evolves :
      (timeout : ℕ) (release : Release) (prev : Option Release)
      → Moves Evolving (retire_previous client router stopper timeout release prev)
  unfolding retire_previous
  retire_previous-Evolves timeout release none = search evolving_rules
  retire_previous-Evolves timeout release (some prev) = search (evolving_rules, retire-Evolves)

  promote-Evolves :
      (plan : ReleaseOrchestrationPlan) (release : Release)
      → Moves Evolving (promote client router stopper plan release)
  unfolding promote
  promote-Evolves plan release =
      search (evolving_rules, transition-Evolves, activate_traffic-Evolves, retire_previous-Evolves)
        depth 10

  conclude-Evolves :
      (plan : ReleaseOrchestrationPlan) (probing : Release) (health_res : HealthCheckResult)
      → Moves Evolving (conclude client router stopper plan probing health_res)
  unfolding conclude
  conclude-Evolves plan probing health_res =
      search (evolving_rules, promote-Evolves, abandon-Evolves)

  pub orchestrate_release-Evolves :
      (plan : ReleaseOrchestrationPlan)
      → Moves Evolving (orchestrate_release client router stopper plan)
  unfolding orchestrate_release start_probing probe_container
  orchestrate_release-Evolves plan =
      search
        (
          evolving_rules, create_release-Evolves, transition-Evolves, beside-Evolves,
          conclude-Evolves,
        )
        depth 12

module _ {X : Type 0} where
  recover_row-Evolves :
      (row : ReleaseRow) (done : List Release) (goal : Option (ReleaseStatus × String))
      → Moves Evolving (recover_row {X = X} row done goal)
  unfolding recover_row
  recover_row-Evolves row done none = search evolving_rules
  recover_row-Evolves row done (some (target, reason)) = search (evolving_rules, transition-Evolves)

  recover_rows-Evolves :
      (rows : List ReleaseRow) (done : List Release)
      → Moves Evolving (recover_rows {X = X} rows done)
  unfolding recover_rows
  recover_rows-Evolves [] done = search evolving_rules
  recover_rows-Evolves (row ∷ rows) done =
      let later = recover_rows-Evolves rows in search (evolving_rules, recover_row-Evolves, later)

  pub reconcile-Evolves : Moves Evolving (reconcile_crashed_releases {X = X})
  unfolding reconcile_crashed_releases
  reconcile-Evolves = search (evolving_rules, recover_rows-Evolves)

module _ {X : Type 0} (stopper : Option (ContainerStopper X))
    (router : Option (TrafficRouter X)) where
  stop_for-Evolves :
      (cid : Option String) (s : Option (ContainerStopper X)) (target : ReleaseStatus)
      → Moves Evolving (stop_for stopper router cid s target)
  unfolding stop_for
  stop_for-Evolves none s target = search evolving_rules
  stop_for-Evolves (some cid) none target = search evolving_rules
  stop_for-Evolves (some cid) (some s) target = search evolving_rules depth 8

  remove_prepared-Evolves :
      (r : TrafficRouter X) (handle : Result String RouteHandle)
      → Moves Evolving (remove_prepared stopper router r handle)
  unfolding remove_prepared
  remove_prepared-Evolves r (ok handle) = search evolving_rules
  remove_prepared-Evolves r (err e) = search evolving_rules

  unroute-Evolves :
      (i : ℕ) (r : Option (TrafficRouter X)) (status : ReleaseStatus)
      → Moves Evolving (unroute stopper router i r status)
  unfolding unroute
  unroute-Evolves i none status = search evolving_rules
  unroute-Evolves i (some r) status = search (evolving_rules, remove_prepared-Evolves) depth 8

  recover_row_full-Evolves :
      (row : ReleaseRow) (s : ReleaseStatus) (done : List Release)
      (goal : Option (ReleaseStatus × String))
      → Moves Evolving (recover_row_full stopper router row s done goal)
  unfolding recover_row_full
  recover_row_full-Evolves row s done none = search evolving_rules
  recover_row_full-Evolves row s done (some (target, reason)) =
      search (evolving_rules, stop_for-Evolves, unroute-Evolves, transition-Evolves) depth 8

  recover_rows_full-Evolves :
      (rows : List ReleaseRow) (done : List Release)
      → Moves Evolving (recover_rows_full stopper router rows done)
  unfolding recover_rows_full
  recover_rows_full-Evolves [] done = search evolving_rules
  recover_rows_full-Evolves (row ∷ rows) done =
      let later = recover_rows_full-Evolves rows in
      search (evolving_rules, get_active_release-Evolves, recover_row_full-Evolves, later) depth 8

  pub reconcile_full-Evolves : Moves Evolving (reconcile_crashed_releases_full stopper router)
  unfolding reconcile_crashed_releases_full
  reconcile_full-Evolves = search (evolving_rules, recover_rows_full-Evolves)

-- The public operations of the controller that write to the tables.
pub data Operation (X : Type 0) : Type 0 where
  create : ℕ → ℕ → String → Option String → Option ℕ → Option String → Operation X
  move : ℕ → ℕ → ReleaseStatus → Option String → Operation X
  activate : TrafficRouter X → Release → Operation X
  orchestrate :
      HealthProbeClient X
      → TrafficRouter X
      → ContainerStopper X
      → ReleaseOrchestrationPlan
      → Operation X
  reconcile : Operation X
  recover : Option (ContainerStopper X) → Option (TrafficRouter X) → Operation X

-- The world after an operation, returned or failed.
unfoldable pub perform : {X : Type 0} → Operation X → World (Platform X) → World (Platform X)
perform (create d p e c port url) w = (create_release d p e c port url w).1
perform (move i v target reason) w = (transition i v target reason w).1
perform (activate router release) w = (activate_traffic router release w).1
perform (orchestrate client router stopper plan) w =
    (orchestrate_release client router stopper plan w).1
perform reconcile w = (reconcile_crashed_releases w).1
perform (recover stopper router) w = (reconcile_crashed_releases_full stopper router w).1

unfoldable pub perform_all :
    {X : Type 0} → List (Operation X) → World (Platform X) → World (Platform X)
perform_all [] w = w
perform_all (o ∷ os) w = perform_all os (perform o w)

perform-Evolves :
    {X : Type 0} (o : Operation X) (w : World (Platform X)) → Evolving w.db (perform o w).db
unfolding perform
perform-Evolves (create d p e c port url) w = (create_release-Evolves d p e c port url).from w
perform-Evolves (move i v target reason) w = (transition-Evolves i v target reason).from w
perform-Evolves (activate router release) w = (activate_traffic-Evolves router release).from w
perform-Evolves (orchestrate client router stopper plan) w =
    (orchestrate_release-Evolves client router stopper plan).from w
perform-Evolves reconcile w = reconcile-Evolves.from w
perform-Evolves (recover stopper router) w = (reconcile_full-Evolves stopper router).from w

-- Whatever operations of the controller run one after the other, and whichever of their statements,
-- routers and containers fail: no release is lost; each one moves only along permitted transitions,
-- with its version one higher for each; and each release that is added begins at `starting` with
-- version 1.
pub perform_all-Evolves :
    {X : Type 0} (os : List (Operation X)) (w : World (Platform X))
    → Evolves w.db.tables (perform_all os w).db.tables
unfolding perform_all
perform_all-Evolves [] w = Evolves-refl w.db.tables
perform_all-Evolves (o ∷ os) w =
    Evolves-trans _ _ _ (perform-Evolves o w) (perform_all-Evolves os (perform o w))
