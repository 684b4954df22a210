-- ===== src/Tests/Recovery.antt =====
-- Runs of the orchestration and the recovery of src/releases.rs on small tables.
use hostinger.Prelude.{◌≡◌, ◌≢◌, refl, Bool, false, sym, ap, none, List, [], ◌∷◌, All}
use hostinger.Exec.{ok, err, World, try_write, read, write, new_uuid, now_utc, call, sleep, Result}
use hostinger.Health.{
  HealthPolicy, default_policy, HealthCheckResult, wait_until_healthy, poll, probe_once, verdict,
  pause,
}
use hostinger.Health.Mock.{MockClient, mock_client}
use hostinger.Traffic.{TrafficRouter, completed_gracefully}
use hostinger.Traffic.Mock.{handle_of}
use hostinger.Releases.Status.{
  active, stopped, failed, ReleaseError, as_str, parse, can_transition_to,
}
use hostinger.Releases.Record.{Release, from_row}
use hostinger.Releases.Tables.{
  releases_in, active_route, release_by_id, compare_and_set, insert_release, insert_transition,
}
use hostinger.Releases.Controller.{
  Platform, ContainerStopper, statement, create_release, get_release, get_routed,
  get_active_release, swap_status, record_transition, commit_transition, checked_transition,
  transition,
}
use hostinger.Releases.Orchestrate.{
  ReleaseOrchestrationPlan, ReleaseOrchestrationResult, orchestrate_release, start_probing,
  probe_container, beside_tables,
}
use hostinger.Releases.Reconcile.{
  reconcile_crashed_releases_full, recover_rows_full, recover_row_full, full_recovery_target,
  recovery_target, stop_for, unroute,
}
use hostinger.Releases.Recovering.{WasRecovered}
use hostinger.Releases.Recovery.{reconcile_full-AllRecovered}
use hostinger.Prelude.Order.{order_by, insert_asc}
use hostinger.Releases.Gate.{orchestrate_release-gated}
use hostinger.Tests.Releases.{calm_env, row_of, two_releases, as_release}

-- Two ready releases, of which one has the route, and one that was draining.
abbrev crashed : World (Platform Unit)
crashed = record {
  env = calm_env;
  step = 0;
  db = record {
    tables = record {
      releases = row_of 7 "ready" 3 ∷ row_of 8 "ready" 3 ∷ row_of 9 "draining" 3 ∷ [];
      release_transitions = [];
      active_routes =
          record {
            project_id = 30;
            environment = "production";
            active_release_id = 7;
            route_target = "http://10.0.0.1";
            activated_at = 30;
            updated_at = 30;
          }
          ∷ [];
    };
    outside = tt;
  };
}

abbrev recovered : List Release
recovered =
    as_release active 4 54
    ∷ record (as_release failed 4 61) { id = 8 }
    ∷ record (as_release stopped 4 68) { id = 9 }
    ∷ []

recovery_run : (reconcile_crashed_releases_full none none crashed).0 ≡ ok recovered
unfolding reconcile_crashed_releases_full recover_rows_full recover_row_full full_recovery_target
    recovery_target stop_for unroute releases_in order_by insert_asc get_active_release get_routed
    active_route transition get_release checked_transition commit_transition swap_status
    record_transition read write try_write statement now_utc new_uuid from_row parse as_str
    can_transition_to release_by_id compare_and_set insert_transition
recovery_run = refl

reconcile_full-AllRecovered_example :
    All (WasRecovered crashed.db.tables) recovered
    × ((reconcile_crashed_releases_full none none crashed).1.db.tables.active_routes
        ≡ crashed.db.tables.active_routes)
reconcile_full-AllRecovered_example =
    reconcile_full-AllRecovered none none crashed recovered recovery_run

-- A client whose first two answers are errors and whose third would do.
abbrev unlucky : World (Platform MockClient)
unlucky = record {
  env = calm_env;
  step = 0;
  db = record {
    tables = two_releases;
    outside = record {
      queued_responses =
          err "connection refused"
          ∷ err "timed out"
          ∷ ok (record { status = 200; headers = []; body = "" })
          ∷ [];
      probed_urls = [];
    };
  };
}

abbrev two_tries : HealthPolicy
two_tries = record default_policy { attempts = 2 }

abbrev router : TrafficRouter MockClient
router = record {
  prepare = λ release x. (ok (handle_of release), x);
  activate = λ route x. (ok tt, x);
  drain = λ route timeout x. (ok completed_gracefully, x);
  remove = λ route x. (ok tt, x);
}

abbrev stopper : ContainerStopper MockClient
stopper = record { stop_container = λ cid x. (ok tt, x) }

abbrev plan : ReleaseOrchestrationPlan
plan = record {
  deployment_id = 20;
  project_id = 30;
  environment = "production";
  container_id = "c2";
  port = 8081;
  url = "http://10.0.0.2";
  health_policy = two_tries;
  drain_timeout = 1_000_000_000;
}

abbrev healthy : Result ReleaseError HealthCheckResult → Bool
healthy (ok r) = r.is_healthy
healthy (err e) = false

finds_unhealthy :
    (probing : Release) (r : HealthCheckResult)
    → (start_probing mock_client router stopper plan unlucky).0 ≡ ok probing
    → (probe_container mock_client router stopper plan
        (start_probing mock_client router stopper plan unlucky).1).0
      ≡ ok r
    → r.is_healthy ≡ false
unfolding start_probing probe_container beside_tables create_release statement transition
    get_release checked_transition commit_transition swap_status record_transition
    wait_until_healthy from_row parse as_str can_transition_to poll pause sleep probe_once verdict
    now_utc new_uuid read write try_write call release_by_id compare_and_set insert_release
    insert_transition
finds_unhealthy probing r started found = sym (ap healthy found)

orchestrate_release-gated_example :
    ((orchestrate_release mock_client router stopper plan unlucky).1.db.tables.active_routes ≡ [])
    × ((res : ReleaseOrchestrationResult)
        → (orchestrate_release mock_client router stopper plan unlucky).0 ≢ ok res)
orchestrate_release-gated_example =
    orchestrate_release-gated mock_client router stopper plan unlucky finds_unhealthy
