-- ===== src/Traffic/Mock.antt =====
-- `MockTrafficRouter` of src/traffic.rs.
use hostinger.Prelude.{
  ℕ, String, Bool, ◌&&◌, Option, none, some, List, [], ◌∷◌, ◌++◌, str_eq, str_append, ◌==◌,
  to_string, if◌then◌else◌,
}
use hostinger.Exec.{ok}
use hostinger.Releases.Record.{Release}
use hostinger.Traffic.{RouteHandle, DrainResult, completed_gracefully, TrafficRouter}

-- The `HashMap<(Uuid, String), RouteHandle>` is an association list with one entry for each key.
pub record MockRouter : Type 0 where
  pub active_routes : List (ℕ × String × RouteHandle)
  pub prepared_routes : List RouteHandle
  pub drained_routes : List (RouteHandle × DrainResult)
  pub removed_routes : List RouteHandle

abbrev pub has_key : RouteHandle → ℕ → String → Bool
has_key route project environment =
    (project == route.project_id) && str_eq environment route.environment

-- HashMap::remove(&key)
unfoldable pub without :
    RouteHandle → List (ℕ × String × RouteHandle) → List (ℕ × String × RouteHandle)
without route [] = []
without route ((p, e, r) ∷ rest) =
    let kept = without route rest in if has_key route p e then kept else (p, e, r) ∷ kept

-- HashMap::get(&key)
unfoldable pub routed : ℕ → String → List (ℕ × String × RouteHandle) → Option RouteHandle
routed project environment [] = none
routed project environment ((p, e, r) ∷ rest) =
    if (p == project) && str_eq e environment then some r else routed project environment rest

unfoldable pub target_of : Release → String
target_of release = elim release.url [
  | some url ↦ url
  | none ↦
      str_append "http://127.0.0.1:"
        (to_string (elim release.port [ some port ↦ port | none ↦ 8080 ]))
]

abbrev pub handle_of : Release → RouteHandle
handle_of release = record {
  id = release.id;
  project_id = release.project_id;
  environment = release.environment;
  target_url = target_of release;
}

unfoldable pub mock_router : TrafficRouter MockRouter
mock_router = record {
  prepare = λ release m. (
    ok (handle_of release),
    record m { prepared_routes = m.prepared_routes ++ handle_of release ∷ [] },
  );
  activate = λ route m. (
    ok tt,
    record m {
      active_routes = (route.project_id, route.environment, route) ∷ without route m.active_routes;
    },
  );
  drain = λ route timeout m. (
    ok completed_gracefully,
    record m { drained_routes = m.drained_routes ++ (route, completed_gracefully) ∷ [] },
  );
  remove = λ route m. (
    ok tt,
    record m {
      active_routes = without route m.active_routes;
      removed_routes = m.removed_routes ++ route ∷ [];
    },
  );
}
