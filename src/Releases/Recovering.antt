-- ===== src/Releases/Recovering.antt =====
-- Where the full recovery of src/releases.rs may send a release, and its parts.
use hostinger.Prelude.{
  ℕ, ◌+◌, String, Bool, true, false, ◌≡◌, refl, sym, ap, ◌∙◌, subst, inl, inr, Option, none, some,
  ◌==◌, List, [], ◌∷◌, arith, find, Bool-cases,
}
use hostinger.Prelude.Rows.{In}
use hostinger.Exec.{ok, World, pure}
use hostinger.Exec.Moves.{Moves}
use hostinger.Exec.Outcomes.{bind_ok, read_ok}
use hostinger.Releases.Status.{
  ReleaseStatus, starting, health_checking, ready, active, draining, stopped, failed, parse,
}
use hostinger.Releases.Status.Texts.{parse-as_str}
use hostinger.Releases.Record.{Release, ReleaseRow, ActiveRoute}
use hostinger.Releases.Tables.{Tables, active_route, has_id}
use hostinger.Releases.Controller.{
  Platform, query, get_release, get_routed, get_active_release, transition,
}
use hostinger.Releases.Reading.{get_release_ok}
use hostinger.Releases.Gate.{SameRoutes, routes_rules}
use hostinger.Releases.Routing.{IsRouted}
use hostinger.Releases.Transitions.{transition_ok}
use hostinger.Releases.Reconcile.{recovery_target, full_recovery_target, serves}

-- Where a recovery may send a release, by whether the route of its environment leads to it: to
-- active only a ready release that has the route.
pub data Recovers (Routed : Type 0) : ReleaseStatus → ReleaseStatus → Type 0 where
  not_started : Recovers Routed starting failed
  not_checked : Recovers Routed health_checking failed
  has_traffic : Routed → Recovers Routed ready active
  no_traffic : (¬ Routed) → Recovers Routed ready failed
  drained : Recovers Routed draining stopped

abbrev pub RoutedRow : Tables → ReleaseRow → Type 0
RoutedRow t row = IsRouted row.project_id row.environment row.id t

-- The release `r` is what a recovery made of a row of the tables.
pub record WasRecovered (t : Tables) (r : Release) : Type 0 where
  pub row : ReleaseRow
  pub source : ReleaseStatus
  pub present : In row t.releases
  pub reads : parse row.status ≡ ok source
  pub same_id : r.id ≡ row.id
  pub one_up : r.version ≡ row.version + 1
  pub recovers : Recovers (RoutedRow t row) source r.status

pub full_recovery_target-Recovers :
    (Routed : Type 0) (b : Bool) (s target : ReleaseStatus) (reason : String)
    → (b ≡ true → Routed)
    → (b ≡ false → ¬ Routed)
    → full_recovery_target b s ≡ some (target, reason)
    → Recovers Routed s target
unfolding full_recovery_target recovery_target
full_recovery_target-Recovers Routed true starting failed reason y n h = not_started
full_recovery_target-Recovers Routed false starting failed reason y n h = not_started
full_recovery_target-Recovers Routed true health_checking failed reason y n h = not_checked
full_recovery_target-Recovers Routed false health_checking failed reason y n h = not_checked
full_recovery_target-Recovers Routed true ready active reason y n h = has_traffic (y refl)
full_recovery_target-Recovers Routed false ready failed reason y n h = no_traffic (n refl)
full_recovery_target-Recovers Routed true draining stopped reason y n h = drained
full_recovery_target-Recovers Routed false draining stopped reason y n h = drained
full_recovery_target-Recovers Routed _ _ _ reason y n h = cc

find_id :
    (i : ℕ) (rows : List ReleaseRow) (row : ReleaseRow)
    → find (has_id i) rows ≡ some row
    → row.id ≡ i
find_id i [] row h = cc
find_id i (r ∷ rows) row h = elim (Bool-cases (r.id == i)) [
  | inl e ↦ ground (arith, h, e)
  | inr e ↦ find_id i rows row (ground (arith, h, e))
]

module _ {X : Type 0} where
  get_routed-routes : (o : Option ActiveRoute) → Moves SameRoutes (get_routed {X = X} o)
  unfolding get_routed
  get_routed-routes none = search routes_rules
  get_routed-routes (some route) = search routes_rules

  pub get_active_release-routes :
      (p : ℕ) (e : String) → Moves SameRoutes (get_active_release {X = X} p e)
  unfolding get_active_release
  get_active_release-routes p e = search (routes_rules, get_routed-routes)

  -- The release that is read for an environment is the one that its route leads to.
  pub get_active_release-serves :
      (p : ℕ) (e : String) (i : ℕ) (w : World (Platform X)) (a : Option Release)
      → (get_active_release p e w).0 ≡ ok a
      → (serves i a ≡ true → IsRouted p e i w.db.tables)
        × (serves i a ≡ false → ¬ IsRouted p e i w.db.tables)
  unfolding get_active_release get_routed
  get_active_release-serves p e i w a h =
      let (o, got, rest, _) =
        bind_ok (query "failed to fetch active route" (active_route p e)) get_routed w a h in
      let (same, is_o) = read_ok _ (λ (d : Platform X). active_route p e d.tables) w o got in
      go o (sym is_o) _ rest
    where
      go :
          (o : Option ActiveRoute)
          → active_route p e w.db.tables ≡ o
          → (w' : World (Platform X)) → (get_routed o w').0 ≡ ok a
          → (serves i a ≡ true → IsRouted p e i w.db.tables)
            × (serves i a ≡ false → ¬ IsRouted p e i w.db.tables)
      go none unrouted w' h =
          let nothing : a ≡ none = cc in
          (
            λ y. absurd (ground (arith, y, nothing)),
            λ n (route, found, _). absurd (ground (arith, unrouted, found)),
          )
      go (some route) found w' h =
          let (rel, got, is_some, _) =
            bind_ok (get_release route.active_release_id) (λ rel. pure (some rel)) w' a h in
          let (row, met, stands) = get_release_ok route.active_release_id w' rel got in
          let same : rel.id ≡ route.active_release_id =
            stands.same_id ∙ find_id route.active_release_id _ row met in
          let it : a ≡ some rel = cc in
          (
            λ y. (route, found, ground (arith, y, it, same)),
            λ n (route', found', leads). ground (arith, n, it, same, found, found', leads),
          )

  pub transition-WasRecovered :
      (t : Tables) (row : ReleaseRow) (s target : ReleaseStatus) (reason : Option String)
      (w : World (Platform X)) (c : Release)
      → In row t.releases
      → parse row.status ≡ ok s
      → Recovers (RoutedRow t row) s target
      → (transition row.id row.version target reason w).0 ≡ ok c
      → WasRecovered t c
  transition-WasRecovered t row s target reason w c present reads goes h =
      let done = transition_ok row.id row.version target reason w c h in
      let same_status : target ≡ c.status = cc (parse-as_str target, done.returned.status_read) in
      record {
        row = row;
        source = s;
        present = present;
        reads = reads;
        same_id = done.returned.same_id ∙ find_id row.id _ done.row done.met;
        one_up = done.returned.same_version ∙ ap (λ v. v + 1) done.at_version;
        recovers = subst (Recovers (RoutedRow t row) s) same_status goes;
      }
