-- ===== src/Tests/Routing.antt =====
-- Runs of the routers and of `activate_traffic`.
use hostinger.Prelude.{◌+◌, ◌≡◌, refl, false, none, some, [], ◌∷◌}
use hostinger.Exec.{ok, World, read, write, try_write, call, now_utc, new_uuid}
use hostinger.Traffic.{RouteHandle}
use hostinger.Traffic.Mock.{MockRouter, routed, target_of, mock_router}
use hostinger.Traffic.Served.{mock_router-routed}
use hostinger.Releases.Status.{ready, as_str, parse, can_transition_to}
use hostinger.Releases.Record.{Release, ReleaseRow, from_row}
use hostinger.Releases.Tables.{
  release_by_id, active_route, compare_and_set, insert_transition, upsert_route,
}
use hostinger.Releases.Controller.{
  Platform, statement, outside_call, get_release, get_routed, get_active_release, swap_status,
  record_transition, commit_transition, checked_transition, transition, activate_traffic,
}
use hostinger.Releases.Routing.{IsRouted, activate_traffic-IsRouted}

abbrev empty_router : MockRouter
empty_router = record {
  active_routes = [];
  prepared_routes = [];
  drained_routes = [];
  removed_routes = [];
}

abbrev web_route : RouteHandle
web_route = record {
  id = 7;
  project_id = 30;
  environment = "production";
  target_url = "http://10.0.0.2";
}

abbrev ready_release : Release
ready_release = record {
  id = 7;
  deployment_id = 20;
  project_id = 30;
  environment = "production";
  status = ready;
  version = 3;
  container_id = some "c1";
  port = some 8080;
  url = some "http://10.0.0.2";
  created_at = 40;
  updated_at = 41;
}

abbrev ready_row : ReleaseRow
ready_row = record {
  id = 7;
  deployment_id = 20;
  project_id = 30;
  environment = "production";
  status = "ready";
  version = 3;
  container_id = some "c1";
  port = some 8080;
  url = some "http://10.0.0.2";
  created_at = 40;
  updated_at = 41;
}

abbrev before : World (Platform MockRouter)
before = record {
  env = record { fault = λ n. false; uuid = λ n. 100 + n; time = λ n. 50 + n };
  step = 0;
  db = record {
    tables = record { releases = ready_row ∷ []; release_transitions = []; active_routes = [] };
    outside = empty_router;
  };
}

mock_router-routed_example :
    (routed 30 "production" (mock_router.activate web_route empty_router).1.active_routes
      ≡ some web_route)
    × (routed 30 "preview" (mock_router.activate web_route empty_router).1.active_routes ≡ none)
    × (routed 30 "production" (mock_router.remove web_route empty_router).1.active_routes ≡ none)
    × (routed 30 "preview" (mock_router.remove web_route empty_router).1.active_routes ≡ none)
unfolding routed
mock_router-routed_example = mock_router-routed web_route empty_router 30 "preview" refl

switches : (activate_traffic mock_router ready_release before).0 ≡ ok none
unfolding activate_traffic outside_call call get_active_release get_routed active_route read write
    try_write statement now_utc new_uuid get_release release_by_id from_row parse as_str
    can_transition_to transition checked_transition commit_transition swap_status record_transition
    compare_and_set insert_transition upsert_route mock_router target_of
switches = refl

activate_traffic-IsRouted_example :
    IsRouted 30 "production" 7 (activate_traffic mock_router ready_release before).1.db.tables
activate_traffic-IsRouted_example =
    activate_traffic-IsRouted mock_router ready_release before none switches
