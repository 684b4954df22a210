-- ===== src/Releases/Tables.antt =====
-- The three tables behind src/releases.rs, and the SQL statements of `ReleaseController`, each as a
-- function on the tables. A statement that the schema refuses is `none`: a second row with one id,
-- or a version that does not fit in an INT.
use hostinger.Prelude.{
  ℕ, ◌+◌, String, Bool, ◌&&◌, Option, none, some, List, [], ◌∷◌, ◌++◌, ◌==◌, ltb, str_eq, find,
  select, update, any, if◌then◌else◌,
}
use hostinger.Prelude.Order.{order_by}
use hostinger.Releases.Record.{ReleaseRow, TransitionRow, ActiveRoute}

pub record Tables : Type 0 where
  pub releases : List ReleaseRow
  pub release_transitions : List TransitionRow
  pub active_routes : List ActiveRoute

abbrev pub has_id : ℕ → ReleaseRow → Bool
has_id i row = row.id == i

abbrev pub int_max : ℕ
int_max = 2147483647

-- INSERT INTO releases (...) VALUES (...)
unfoldable pub insert_release : ReleaseRow → Tables → Option (Unit {0} × Tables)
insert_release row t =
    if any (has_id row.id) t.releases
    then none
    else some (tt, record t { releases = t.releases ++ row ∷ [] })

-- SELECT ... FROM releases WHERE id = $1
unfoldable pub release_by_id : ℕ → Tables → Option ReleaseRow
release_by_id release_id t = find (has_id release_id) t.releases

-- SELECT active_release_id FROM active_routes WHERE project_id = $1 AND environment = $2
abbrev pub routes_to : ℕ → String → ActiveRoute → Bool
routes_to project_id environment r = r.project_id == project_id && str_eq r.environment environment

unfoldable pub active_route : ℕ → String → Tables → Option ActiveRoute
active_route project_id environment t = find (routes_to project_id environment) t.active_routes

-- SELECT ... FROM releases WHERE deployment_id = $1 ORDER BY created_at ASC
unfoldable pub releases_of_deployment : ℕ → Tables → List ReleaseRow
releases_of_deployment deployment_id t =
    order_by (λ r. r.created_at) (select (λ r. r.deployment_id == deployment_id) t.releases)

-- SELECT ... FROM release_transitions WHERE release_id = $1 ORDER BY created_at ASC
unfoldable pub transitions_of_release : ℕ → Tables → List TransitionRow
transitions_of_release release_id t =
    order_by (λ r. r.created_at) (select (λ r. r.release_id == release_id) t.release_transitions)

-- SET status = $1, version = version + 1, updated_at = $2
abbrev pub moved : String → ℕ → ReleaseRow → ReleaseRow
moved status now row = record row { status = status; version = row.version + 1; updated_at = now }

-- UPDATE releases SET ... WHERE id = $3 AND version = $4 RETURNING ...
-- The id is the primary key, so the statement meets one row at most.
abbrev pub update_found :
    String → ℕ → ℕ → Tables → Option ReleaseRow → Option (Option ReleaseRow × Tables)
update_found status now expected_version t none = some (none, t)
update_found status now expected_version t (some row) =
    if row.version == expected_version
    then if ltb row.version int_max
      then some (
        some (moved status now row),
        record t { releases = update (has_id row.id) (moved status now) t.releases },
      )
      else none
    else some (none, t)

unfoldable pub compare_and_set : ℕ → ℕ → String → ℕ → Tables → Option (Option ReleaseRow × Tables)
compare_and_set release_id expected_version status now t =
    update_found status now expected_version t (find (has_id release_id) t.releases)

-- INSERT INTO release_transitions (...) VALUES (...)
unfoldable pub insert_transition : TransitionRow → Tables → Tables
insert_transition row t = record t { release_transitions = t.release_transitions ++ row ∷ [] }

-- INSERT INTO active_routes (...) ... ON CONFLICT (project_id, environment) DO UPDATE SET ...
unfoldable pub upsert_route : ActiveRoute → Tables → Tables
upsert_route route t =
    if any (routes_to route.project_id route.environment) t.active_routes
    then record t {
      active_routes =
          update (routes_to route.project_id route.environment)
            (λ r. record r {
              active_release_id = route.active_release_id;
              route_target = route.route_target;
              updated_at = route.updated_at;
            })
            t.active_routes;
    }
    else record t { active_routes = t.active_routes ++ route ∷ [] }

-- SELECT ... FROM releases WHERE status IN (...) ORDER BY created_at ASC
unfoldable pub releases_in : List String → Tables → List ReleaseRow
releases_in statuses t =
    order_by (λ r. r.created_at) (select (λ r. any (str_eq r.status) statuses) t.releases)
