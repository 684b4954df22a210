-- ===== src/Releases/Recovery.antt =====
-- What the full recovery of src/releases.rs does to the releases that it finds.
use hostinger.Prelude.{
  ℕ, String, true, false, ◌≡◌, refl, sym, ap, ◌∙◌, subst, Option, none, some, List, [], ◌∷◌, ◌++◌,
  find, All, All-append,
}
use hostinger.Prelude.Order.{All-order_by}
use hostinger.Prelude.Rows.{In, All-map, All-itself, All-select}
use hostinger.Exec.{Result, ok, err, World, next, read, lift, catch, pure, ◌>>=◌, ◌>>◌}
use hostinger.Exec.Moves.{Moves}
use hostinger.Exec.Outcomes.{bind_ok, read_ok}
use hostinger.Releases.Status.{ReleaseStatus, ReleaseError, parse}
use hostinger.Releases.Record.{Release, ReleaseRow, ActiveRoute}
use hostinger.Releases.Tables.{Tables, active_route, routes_to, releases_in}
use hostinger.Releases.Controller.{
  Action, Platform, ContainerStopper, query, get_active_release, transition,
}
use hostinger.Releases.Gate.{SameRoutes, routes_rules, transition-routes}
use hostinger.Releases.Routing.{IsRouted}
use hostinger.Releases.Reconcile.{
  full_recovery_target, serves, stop_for, remove_prepared, unroute, recover_row_full,
  recover_rows_full, reconcile_crashed_releases_full, push_ok,
}
use hostinger.Releases.Recovering.{
  Recovers, WasRecovered, RoutedRow, full_recovery_target-Recovers, get_active_release-routes,
  get_active_release-serves, transition-WasRecovered,
}
use hostinger.Traffic.{RouteHandle, TrafficRouter}

module _ {X : Type 0} (stopper : Option (ContainerStopper X))
    (router : Option (TrafficRouter X)) where
  stop_for-routes :
      (cid : Option String) (s : Option (ContainerStopper X)) (target : ReleaseStatus)
      → Moves SameRoutes (stop_for stopper router cid s target)
  unfolding stop_for
  stop_for-routes none s target = search routes_rules
  stop_for-routes (some cid) none target = search routes_rules
  stop_for-routes (some cid) (some s) target = search routes_rules depth 8

  remove_prepared-routes :
      (r : TrafficRouter X) (handle : Result String RouteHandle)
      → Moves SameRoutes (remove_prepared stopper router r handle)
  unfolding remove_prepared
  remove_prepared-routes r (ok handle) = search routes_rules
  remove_prepared-routes r (err e) = search routes_rules

  unroute-routes :
      (i : ℕ) (r : Option (TrafficRouter X)) (status : ReleaseStatus)
      → Moves SameRoutes (unroute stopper router i r status)
  unfolding unroute
  unroute-routes i none status = search routes_rules
  unroute-routes i (some r) status = search (routes_rules, remove_prepared-routes) depth 8

  recover_row_full-routes :
      (row : ReleaseRow) (s : ReleaseStatus) (done : List Release)
      (goal : Option (ReleaseStatus × String))
      → Moves SameRoutes (recover_row_full stopper router row s done goal)
  unfolding recover_row_full
  recover_row_full-routes row s done none = search routes_rules
  recover_row_full-routes row s done (some (target, reason)) =
      search (routes_rules, stop_for-routes, unroute-routes, transition-routes) depth 8

  recover_rows_full-routes :
      (rows : List ReleaseRow) (done : List Release)
      → Moves SameRoutes (recover_rows_full stopper router rows done)
  unfolding recover_rows_full
  recover_rows_full-routes [] done = search routes_rules
  recover_rows_full-routes (row ∷ rows) done =
      let later = recover_rows_full-routes rows in
      search (routes_rules, get_active_release-routes, recover_row_full-routes, later) depth 8

  reconcile_full-routes : Moves SameRoutes (reconcile_crashed_releases_full stopper router)
  unfolding reconcile_crashed_releases_full
  reconcile_full-routes = search (routes_rules, recover_rows_full-routes)

  abbrev AllRecovered : Tables → List Release → Type 0
  AllRecovered t = All (WasRecovered t)

  recover_row_full-AllRecovered :
      (t : Tables) (row : ReleaseRow) (s : ReleaseStatus) (done : List Release)
      (goal : Option (ReleaseStatus × String)) (w : World (Platform X)) (rs : List Release)
      → In row t.releases
      → parse row.status ≡ ok s
      → ((target : ReleaseStatus) (reason : String)
          → goal ≡ some (target, reason)
          → Recovers (RoutedRow t row) s target)
      → AllRecovered t done
      → (recover_row_full stopper router row s done goal w).0 ≡ ok rs
      → AllRecovered t rs
  unfolding recover_row_full
  recover_row_full-AllRecovered t row s done none w rs present reads goes all h =
      let same : done ≡ rs = cc in subst (AllRecovered t) same all
  recover_row_full-AllRecovered t row s done (some (target, reason)) w rs present reads goes all h =
      let attempt = transition row.id row.version target (some reason) in
      let push : Result ReleaseError Release → Action X (List Release) =
        λ updated. pure (push_ok done updated) in
      let (_, _, h₁, _) =
        bind_ok (stop_for stopper router row.container_id stopper target)
          (λ _. unroute stopper router row.id router s >> (catch attempt >>= push)) w rs h in
      let (_, _, h₂, _) =
        bind_ok (unroute stopper router row.id router s) (λ _. catch attempt >>= push) _ rs h₁ in
      pushed _ _ refl h₂
    where
      pushed :
          (w' : World (Platform X)) (r : Result ReleaseError Release)
          → (transition row.id row.version target (some reason) w').0 ≡ r
          → (pure {E = ReleaseError} (push_ok done r) w').0 ≡ ok rs
          → AllRecovered t rs
      pushed w' (err e) ran h = let same : done ≡ rs = cc in subst (AllRecovered t) same all
      pushed w' (ok c) ran h =
          let same : done ++ c ∷ [] ≡ rs = cc in
          let new =
            transition-WasRecovered t row s target (some reason) w' c present reads
              (goes target reason refl) ran in
          subst (AllRecovered t) same (All-append (WasRecovered t) done (c ∷ []) all (new, tt))

  recover_rows_full-AllRecovered :
      (t : Tables) (rows : List ReleaseRow) (done : List Release) (w : World (Platform X))
      (rs : List Release)
      → w.db.tables.active_routes ≡ t.active_routes
      → All (λ row. In row t.releases) rows
      → AllRecovered t done
      → (recover_rows_full stopper router rows done w).0 ≡ ok rs
      → AllRecovered t rs
  unfolding recover_rows_full active_route
  recover_rows_full-AllRecovered t [] done w rs same present all h =
      let unchanged : done ≡ rs = cc in subst (AllRecovered t) unchanged all
  recover_rows_full-AllRecovered t (row ∷ rows) done w rs same (present, others) all h =
      let one : Option Release → ReleaseStatus → Action X (List Release) = λ a s.
        recover_row_full stopper router row s done (full_recovery_target (serves row.id a) s) in
      let rest = recover_rows_full stopper router rows in
      let (s, reads, h₁, _) =
        bind_ok (lift (parse row.status))
          (λ s. get_active_release row.project_id row.environment >>= λ a. one a s >>= rest) w rs
          h in
      let (a, got, h₂, _) =
        bind_ok (get_active_release row.project_id row.environment) (λ a. one a s >>= rest) w rs
          h₁ in
      let w₁ = (get_active_release row.project_id row.environment w).1 in
      let (done', ran, h₃, _) = bind_ok (one a s) rest w₁ rs h₂ in
      let (served, unserved) =
        get_active_release-serves row.project_id row.environment row.id w a got in
      let routed : IsRouted row.project_id row.environment row.id w.db.tables ≡ RoutedRow t row =
        ap
          (λ routes.
            (r : ActiveRoute) × (find (routes_to row.project_id row.environment) routes ≡ some r)
            × (r.active_release_id ≡ row.id))
          same in
      let goes : (target : ReleaseStatus) (reason : String)
          → full_recovery_target (serves row.id a) s ≡ some (target, reason)
          → Recovers (RoutedRow t row) s target =
        λ target reason e.
          full_recovery_target-Recovers (RoutedRow t row) (serves row.id a) s target reason
            (subst (λ T. serves row.id a ≡ true → T) routed served)
            (subst (λ T. serves row.id a ≡ false → ¬ T) routed unserved) e in
      recover_rows_full-AllRecovered t rows done' _ rs
        ((recover_row_full-routes row s done _).from w₁
          ∙ (get_active_release-routes row.project_id row.environment).from w
          ∙ same)
        others (recover_row_full-AllRecovered t row s done _ w₁ done' present reads goes all ran) h₃

  -- Every release that the full recovery returns was in the tables as starting, health_checking,
  -- ready or draining, and is one version up. It is active if it was ready and the route of its
  -- project and environment led to it, failed if it was ready without that route, starting or
  -- health_checking, and stopped if it was draining. The recovery that returns leaves the routes as
  -- they were.
  pub reconcile_full-AllRecovered :
      (w : World (Platform X)) (rs : List Release)
      → (reconcile_crashed_releases_full stopper router w).0 ≡ ok rs
      → All (WasRecovered w.db.tables) rs
        × ((reconcile_crashed_releases_full stopper router w).1.db.tables.active_routes
            ≡ w.db.tables.active_routes)
  unfolding reconcile_crashed_releases_full releases_in read
  reconcile_full-AllRecovered w rs h =
      let (rows, got, ran, _) =
        bind_ok (query "failed to query crashed releases" (releases_in crashed))
          (λ rows. recover_rows_full stopper router rows []) w rs h in
      let (_, is_rows) = read_ok _ (λ (p : Platform X). releases_in crashed p.tables) w rows got in
      (
        recover_rows_full-AllRecovered w.db.tables rows [] (next w) rs refl
            (subst (All (λ row. In row w.db.tables.releases)) (sym is_rows) (present w.db.tables))
            tt ran,
        reconcile_full-routes.from w,
      )
    where
      crashed : List String
      crashed = "starting" ∷ "health_checking" ∷ "ready" ∷ "draining" ∷ []

      present : (t : Tables) → All (λ row. In row t.releases) (releases_in crashed t)
      present t = All-order_by _ _ _ (
          All-map _ _ (λ row p. p.0) _
            (All-select (λ r. In r t.releases) _ _ (All-itself t.releases)))
