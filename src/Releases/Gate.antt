-- ===== src/Releases/Gate.antt =====
-- Traffic moves to a release only past its health check.
use hostinger.Prelude.{ℕ, String, ◌≡◌, ◌≢◌, refl, ◌∙◌, inl, inr, false, Option, some, none, arith}
use hostinger.Exec.{Result, ok, World, Exec, ◌>>=◌}
use hostinger.Exec.Moves.{IsPreorder, Moves, bind_at, moves_rules, Moves-write, Moves-call}
use hostinger.Exec.Outcomes.{Fails, Fails-raise, Fails-bind, bind_ok}
use hostinger.Health.{HealthProbeClient, HealthCheckResult, Message}
use hostinger.Releases.Status.{ReleaseStatus, ReleaseError, as_str}
use hostinger.Releases.Record.{Release, ReleaseRow, TransitionRow}
use hostinger.Releases.Tables.{Tables, insert_release, insert_transition}
use hostinger.Releases.Controller.{
  Action, Platform, ContainerStopper, statement, outside_call, execute, create_release, swap_status,
  record_transition, commit_transition, checked_transition, transition,
}
use hostinger.Releases.Reading.{statement_at, Moves-get_release}
use hostinger.Releases.History.Statements.{compare_and_set_cases}
use hostinger.Releases.Orchestrate.{
  ReleaseOrchestrationPlan, ReleaseOrchestrationResult, beside_tables, stop_quietly, abandon,
  conclude, orchestrate_release, error_of, start_probing, probe_container,
}
use hostinger.Traffic.{TrafficRouter}

-- The routes stay as they are.
abbrev pub SameRoutes : {X : Type 0} → Platform X → Platform X → Type 0
SameRoutes p p' = p'.tables.active_routes ≡ p.tables.active_routes

pub SameRoutes-IsPreorder : {X : Type 0} → IsPreorder (SameRoutes {X = X})
SameRoutes-IsPreorder = record { reflexive = λ p. refl; transitive = λ p q r e f. f ∙ e }

module _ {X A : Type 0} where
  statement-routes :
      (context : String) (f : Tables → Option (A × Tables))
      → ((t t' : Tables) (a : A) → f t ≡ some (a, t') → t'.active_routes ≡ t.active_routes)
      → Moves SameRoutes (statement {X = X} context f)
  statement-routes context f h = record {
    from = λ w.
        statement_at (λ t t'. t'.active_routes ≡ t.active_routes) SameRoutes-IsPreorder context f w
          (h w.db.tables);
  }

  pub outside_call-routes : (f : X → Result String A × X) → Moves SameRoutes (outside_call f)
  unfolding outside_call
  outside_call-routes f = Moves-call SameRoutes-IsPreorder _ (λ p. refl)

module _ {X : Type 0} where
  pub swap-routes :
      (i v : ℕ) (target : ReleaseStatus) (now : ℕ)
      → Moves SameRoutes (swap_status {X = X} i v target now)
  unfolding swap_status
  swap-routes i v target now = statement-routes _ _ λ t t' res e.
      elim (compare_and_set_cases i v (as_str target) now t t' res e) [
        | inl (none_met, unchanged) ↦ rw unchanged refl
        | inr (row, row', met, s) ↦ s.routes
      ]

  pub log-routes :
      (context : String) (row : TransitionRow)
      → Moves SameRoutes (execute {X = X} context (insert_transition row))
  unfolding insert_transition
  log-routes context row = Moves-write SameRoutes-IsPreorder _ _ (λ p. refl)

  pub insert-routes :
      (context : String) (row : ReleaseRow)
      → Moves SameRoutes (statement {X = X} context (insert_release row))
  unfolding insert_release
  insert-routes context row = statement-routes context _ (λ t t' a e. ground arith)

  pub ruleset routes_rules = (
    moves_rules, SameRoutes-IsPreorder, outside_call-routes, swap-routes, log-routes, insert-routes,
    Moves-get_release,
  )

  create_release-routes :
      (d p : ℕ) (e : String) (container_id : Option String) (port : Option ℕ) (url : Option String)
      → Moves SameRoutes (create_release {X = X} d p e container_id port url)
  unfolding create_release
  create_release-routes d p e container_id port url = search routes_rules depth 8

  record_transition-routes :
      (i : ℕ) (current : Release) (v : ℕ) (target : ReleaseStatus) (reason : Option String)
      (now : ℕ) (res : Option ReleaseRow)
      → Moves SameRoutes (record_transition {X = X} i current v target reason now res)
  unfolding record_transition
  record_transition-routes i current v target reason now res = search routes_rules depth 8

  commit_transition-routes :
      (i : ℕ) (current : Release) (v : ℕ) (target : ReleaseStatus) (reason : Option String)
      → Moves SameRoutes (commit_transition {X = X} i current v target reason)
  unfolding commit_transition
  commit_transition-routes i current v target reason =
      search (routes_rules, record_transition-routes) depth 8

  pub transition-routes :
      (i v : ℕ) (target : ReleaseStatus) (reason : Option String)
      → Moves SameRoutes (transition {X = X} i v target reason)
  unfolding transition checked_transition
  transition-routes i v target reason = search (routes_rules, commit_transition-routes) depth 8

module _ {X : Type 0} (client : HealthProbeClient X) (router : TrafficRouter X)
    (stopper : ContainerStopper X) where
  beside-routes : {A : Type 0} (m : Exec X ReleaseError A) → Moves SameRoutes (beside_tables m)
  unfolding beside_tables
  beside-routes m = record { from = λ w. refl }

  stop_quietly-routes :
      (cid : Option String) → Moves SameRoutes (stop_quietly client router stopper cid)
  unfolding stop_quietly
  stop_quietly-routes none = search routes_rules
  stop_quietly-routes (some cid) = search routes_rules

  abandon-routes :
      (release : Release) (cid : String) (m : Message)
      → Moves SameRoutes (abandon client router stopper release cid m)
  unfolding abandon
  abandon-routes release cid m =
      search (routes_rules, stop_quietly-routes, transition-routes) depth 8

  abandon-Fails :
      (release : Release) (cid : String) (m : Message)
      → Fails (abandon client router stopper release cid m)
  unfolding abandon
  abandon-Fails release cid m = search (Fails-bind, Fails-raise)

  module _ (plan : ReleaseOrchestrationPlan) where
    start_probing-routes : Moves SameRoutes (start_probing client router stopper plan)
    unfolding start_probing
    start_probing-routes = search (routes_rules, create_release-routes, transition-routes) depth 8

    probe_container-routes : Moves SameRoutes (probe_container client router stopper plan)
    unfolding probe_container
    probe_container-routes = beside-routes _

    conclude-routes :
        (probing : Release) (r : HealthCheckResult)
        → r.is_healthy ≡ false
        → Moves SameRoutes (conclude client router stopper plan probing r)
    unfolding conclude
    conclude-routes probing r bad = rw bad (abandon-routes probing plan.container_id (error_of r))

    conclude-Fails :
        (probing : Release) (r : HealthCheckResult)
        → r.is_healthy ≡ false
        → Fails (conclude client router stopper plan probing r)
    unfolding conclude
    conclude-Fails probing r bad = rw bad (abandon-Fails probing plan.container_id (error_of r))

    abbrev probed : Release → Action X ReleaseOrchestrationResult
    probed probing =
        probe_container client router stopper plan >>= conclude client router stopper plan probing

    -- A run in which the health check of the new container does not succeed ends in an error and
    -- leaves every active route as it was, whatever else fails on the way. A run that ends before
    -- the health check does so too.
    pub orchestrate_release-gated :
        (w : World (Platform X))
        → ((probing : Release) (r : HealthCheckResult)
            → (start_probing client router stopper plan w).0 ≡ ok probing
            → (probe_container client router stopper plan
                (start_probing client router stopper plan w).1).0
              ≡ ok r
            → r.is_healthy ≡ false)
        → ((orchestrate_release client router stopper plan w).1.db.tables.active_routes
            ≡ w.db.tables.active_routes)
          × ((res : ReleaseOrchestrationResult)
              → (orchestrate_release client router stopper plan w).0 ≢ ok res)
    unfolding orchestrate_release
    orchestrate_release-gated w bad = (
      bind_at SameRoutes-IsPreorder (start_probing client router stopper plan) probed w
          (start_probing-routes.from w)
          λ probing started.
            bind_at SameRoutes-IsPreorder (probe_container client router stopper plan)
              (conclude client router stopper plan probing) _ (probe_container-routes.from _)
              λ r e. (conclude-routes probing r (bad probing r started e)).from _,
      λ res returned.
          let (probing, started, rest, _) =
            bind_ok (start_probing client router stopper plan) probed w res returned in
          let (r, e, last, _) =
            bind_ok (probe_container client router stopper plan)
              (conclude client router stopper plan probing) _ res rest in
          (conclude-Fails probing r (bad probing r started e)).never _ res last,
    )
