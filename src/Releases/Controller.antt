-- ===== src/Releases/Controller.antt =====
-- `ReleaseController` of src/releases.rs over a pool: each statement commits by itself. The router
-- and the container stopper share the state `X` of the outside, beside the tables.
use hostinger.Prelude.{
  ℕ, String, Bool, true, false, not, Option, none, some, List, [], ◌∷◌, ◌==◌, if◌then◌else◌,
}
use hostinger.Exec.{
  Result, Exec, pure, raise, lift, or_raise, read, try_write, update_db, call, new_uuid, now_utc,
  map_err, ◌>>=◌, ◌>>◌,
}
use hostinger.Releases.Status.{
  ReleaseStatus, starting, ready, active, ReleaseError, database, release_not_found,
  invalid_transition, stale_version, cannot_activate, router_failed, as_str, parse,
  can_transition_to,
}
use hostinger.Releases.Record.{
  Release, ReleaseTransitionRecord, ReleaseRow, TransitionRow, ActiveRoute, from_row,
}
use hostinger.Releases.Tables.{
  Tables, insert_release, release_by_id, active_route, releases_of_deployment,
  transitions_of_release, compare_and_set, insert_transition, upsert_route,
}
use hostinger.Traffic.{TrafficRouter}

-- `trait ContainerStopper`
pub record ContainerStopper (X : Type 0) : Type 0 where
  pub stop_container : String → X → Result String (Unit {0}) × X

pub record Platform (X : Type 0) : Type 0 where
  pub tables : Tables
  pub outside : X

abbrev pub Action : Type 0 → Type 0 → Type 0
Action X A = Exec (Platform X) ReleaseError A

module _ {X A : Type 0} where
  -- A statement on the tables, with the text that `.context(...)` adds to a failure.
  abbrev pub query : String → (Tables → A) → Action X A
  query context f = read (database context) (λ p. f p.tables)

  abbrev pub on_tables : (Tables → Option (A × Tables)) → Platform X → Option (A × Platform X)
  on_tables f p = elim (f p.tables) [
    | none ↦ none
    | some (a, t) ↦ some (a, record p { tables = t })
  ]

  unfoldable pub statement : String → (Tables → Option (A × Tables)) → Action X A
  unfolding try_write
  statement context f = try_write (database context) (on_tables f)

  -- A call of the router or of the stopper.
  unfoldable pub outside_call : (X → Result String A × X) → Exec (Platform X) String A
  unfolding call
  outside_call f = call (λ p. ((f p.outside).0, record p { outside = (f p.outside).1 }))

abbrev pub execute : {X : Type 0} → String → (Tables → Tables) → Action X (Unit {0})
execute context f = update_db (database context) (λ p. record p { tables = f p.tables })

abbrev pub is_ready : ReleaseStatus → Bool
is_ready ready = true
is_ready _ = false

abbrev pub may_serve : ReleaseStatus → Bool
may_serve ready = true
may_serve active = true
may_serve _ = false

-- `.filter(|p| p.id != release.id)`
abbrev other_than : Release → Option Release → Option Release
other_than release none = none
other_than release (some p) = if p.id == release.id then none else some p

module _ {X : Type 0} where
  unfoldable pub create_release :
      ℕ → ℕ → String → Option String → Option ℕ → Option String → Action X Release
  create_release deployment_id project_id environment container_id port url = do
    id ← new_uuid
    now ← now_utc
    statement "failed to create release" (
        insert_release (record {
          id = id;
          deployment_id = deployment_id;
          project_id = project_id;
          environment = environment;
          status = as_str starting;
          version = 1;
          container_id = container_id;
          port = port;
          url = url;
          created_at = now;
          updated_at = now;
        }))
    pure (record {
      id = id;
      deployment_id = deployment_id;
      project_id = project_id;
      environment = environment;
      status = starting;
      version = 1;
      container_id = container_id;
      port = port;
      url = url;
      created_at = now;
      updated_at = now;
    })

  unfoldable pub get_release : ℕ → Action X Release
  get_release release_id = do
    found ← query "failed to get release" (release_by_id release_id)
    row ← or_raise found (release_not_found release_id)
    lift (from_row row)

  unfoldable pub get_routed : Option ActiveRoute → Action X (Option Release)
  get_routed none = pure none
  get_routed (some route) = do rel ← get_release route.active_release_id; pure (some rel)

  unfoldable pub get_active_release : ℕ → String → Action X (Option Release)
  get_active_release project_id environment = do
    active_row ← query "failed to fetch active route" (active_route project_id environment)
    get_routed active_row

  -- The loop that reads rows, which `?` leaves at the first status that it cannot read.
  unfoldable pub read_releases : List ReleaseRow → Action X (List Release)
  read_releases [] = pure []
  read_releases (row ∷ rows) = do
    release ← lift (from_row row)
    releases ← read_releases rows
    pure (release ∷ releases)

  unfoldable pub list_releases_for_deployment : ℕ → Action X (List Release)
  list_releases_for_deployment deployment_id = do
    rows ← query "failed to list releases for deployment" (releases_of_deployment deployment_id)
    read_releases rows

  unfoldable pub read_transitions : List TransitionRow → Action X (List ReleaseTransitionRecord)
  read_transitions [] = pure []
  read_transitions (row ∷ rows) = do
    from_status ← lift (parse row.from_status)
    to_status ← lift (parse row.to_status)
    transitions ← read_transitions rows
    pure (
        record {
          id = row.id;
          release_id = row.release_id;
          from_status = from_status;
          to_status = to_status;
          reason = row.reason;
          created_at = row.created_at;
        }
        ∷ transitions)

  unfoldable pub list_transitions_for_release : ℕ → Action X (List ReleaseTransitionRecord)
  list_transitions_for_release release_id = do
    rows ← query "failed to list release transitions" (transitions_of_release release_id)
    read_transitions rows

  unfoldable pub swap_status : ℕ → ℕ → ReleaseStatus → ℕ → Action X (Option ReleaseRow)
  swap_status release_id expected_version target_status now =
      statement "failed to execute compare-and-set release transition"
        (compare_and_set release_id expected_version (as_str target_status) now)

  -- The part of `transition` after its compare-and-set: the stale check and the record.
  unfoldable pub record_transition :
      ℕ → Release → ℕ → ReleaseStatus → Option String → ℕ → Option ReleaseRow → Action X Release
  record_transition release_id current expected_version target_status reason now updated_row = do
    row ← or_raise updated_row (stale_version expected_version)
    transition_id ← new_uuid
    execute "failed to record release transition" (
        insert_transition (record {
          id = transition_id;
          release_id = release_id;
          from_status = as_str current.status;
          to_status = as_str target_status;
          reason = reason;
          created_at = now;
        }))
    lift (from_row row)

  -- The part of `transition` from the clock on.
  unfoldable pub commit_transition :
      ℕ → Release → ℕ → ReleaseStatus → Option String → Action X Release
  commit_transition release_id current expected_version target_status reason = do
    now ← now_utc
    updated_row ← swap_status release_id expected_version target_status now
    record_transition release_id current expected_version target_status reason now updated_row

  -- The part of `transition` after the read of the current release.
  unfoldable pub checked_transition :
      ℕ → ℕ → ReleaseStatus → Option String → Release → Action X Release
  checked_transition release_id expected_version target_status reason current =
      if not (can_transition_to current.status target_status)
      then raise (invalid_transition current.status target_status)
      else commit_transition release_id current expected_version target_status reason

  unfoldable pub transition : ℕ → ℕ → ReleaseStatus → Option String → Action X Release
  transition release_id expected_version target_status reason = do
    current ← get_release release_id
    checked_transition release_id expected_version target_status reason current

  module _ (router : TrafficRouter X) where
    unfoldable pub activate_traffic : Release → Action X (Option Release)
    activate_traffic release =
        if not (may_serve release.status) then raise (cannot_activate release.status) else do
          route ← map_err router_failed (outside_call (router.prepare release))
          map_err router_failed (outside_call (router.activate route))
          routed ← get_active_release release.project_id release.environment
          now ← now_utc
          execute "failed to persist active route" (
              upsert_route (record {
                project_id = release.project_id;
                environment = release.environment;
                active_release_id = release.id;
                route_target = route.target_url;
                activated_at = now;
                updated_at = now;
              }))
          if is_ready release.status
              then (do
                transition release.id release.version active (some "activated traffic via router")
                pure (other_than release routed))
              else pure (other_than release routed)
