-- ===== src/Releases/Orchestrate.antt =====
-- `orchestrate_release` of src/releases.rs: create, probe, switch traffic, retire the predecessor.
use hostinger.Prelude.{ℕ, String, Option, none, some, str_append, if◌then◌else◌}
use hostinger.Exec.{Result, World, Exec, pure, raise, map_err, catch, ◌>>=◌, ◌>>◌}
use hostinger.Health.{
  Message, check_failed, text_of, HealthPolicy, HealthCheckResult, HealthProbeClient,
  wait_until_healthy,
}
use hostinger.Releases.Status.{
  health_checking, ready, draining, stopped, failed, ReleaseError, router_failed,
  health_check_failed,
}
use hostinger.Releases.Record.{Release}
use hostinger.Releases.Controller.{
  Action, Platform, ContainerStopper, outside_call, create_release, get_release, transition,
  activate_traffic,
}
use hostinger.Traffic.{DrainResult, TrafficRouter}

pub record ReleaseOrchestrationPlan : Type 0 where
  pub deployment_id : ℕ
  pub project_id : ℕ
  pub environment : String
  pub container_id : String
  pub port : ℕ
  pub url : String
  pub health_policy : HealthPolicy
  pub drain_timeout : ℕ

pub record ReleaseOrchestrationResult : Type 0 where
  pub active_release : Release
  pub previous_release : Option Release
  pub drain_result : Option DrainResult

-- An action on the outside, run beside the tables.
abbrev put_outside :
    {X E A : Type 0} → World (Platform X) → Result E A × World X → Result E A × World (Platform X)
put_outside w (r, x) = (r, record w { step = x.step; db = record w.db { outside = x.db } })

unfoldable pub beside_tables : {X A : Type 0} → Exec X ReleaseError A → Action X A
beside_tables m w = put_outside w (m (record { env = w.env; step = w.step; db = w.db.outside }))

abbrev pub error_of : HealthCheckResult → Message
error_of r = elim r.final_error [ none ↦ check_failed | some m ↦ m ]

module _ {X : Type 0} (health_client : HealthProbeClient X) (router : TrafficRouter X)
    (container_stopper : ContainerStopper X) where
  -- `let _ = container_stopper.stop_container(cid)`, if there is a container
  unfoldable pub stop_quietly : Option String → Action X (Unit {0})
  stop_quietly none = pure tt
  stop_quietly (some cid) = do catch (outside_call (container_stopper.stop_container cid)); pure tt

  -- The branch of a failed health check, after step 3.
  unfoldable pub abandon : Release → String → Message → Action X ReleaseOrchestrationResult
  abandon release container_id error_msg = do
    stop_quietly (some container_id)
    transition release.id release.version failed
        (some (str_append "health check failed: " (text_of error_msg)))
    raise (health_check_failed error_msg)

  -- Step 6 for a previous active release.
  unfoldable pub retire : ℕ → Release → Action X (Release × DrainResult)
  retire drain_timeout prev = do
    prev_draining ←
        transition prev.id prev.version draining (some "traffic switched to new release")
    prev_route ← map_err router_failed (outside_call (router.prepare prev_draining))
    drain_res ← map_err router_failed (outside_call (router.drain prev_route drain_timeout))
    catch (outside_call (router.remove prev_route))
    stop_quietly prev_draining.container_id
    prev_stopped ←
        transition prev_draining.id prev_draining.version stopped
          (some "drain complete, container stopped")
    pure (prev_stopped, drain_res)

  unfoldable pub retire_previous :
      ℕ → Release → Option Release → Action X ReleaseOrchestrationResult
  retire_previous drain_timeout release none =
      pure (record { active_release = release; previous_release = none; drain_result = none })
  retire_previous drain_timeout release (some prev) = do
    retired ← retire drain_timeout prev
    pure (record {
      active_release = release;
      previous_release = some retired.0;
      drain_result = some retired.1;
    })

  -- Steps 4 to 6, once the container is healthy.
  unfoldable pub promote : ReleaseOrchestrationPlan → Release → Action X ReleaseOrchestrationResult
  promote plan release = do
    ready_release ← transition release.id release.version ready (some "health check passed")
    prev_release ← activate_traffic router ready_release
    active_release ← get_release ready_release.id
    retire_previous plan.drain_timeout active_release prev_release

  -- The branch on the outcome of the health check.
  unfoldable pub conclude :
      ReleaseOrchestrationPlan → Release → HealthCheckResult → Action X ReleaseOrchestrationResult
  conclude plan probing health_res =
      if health_res.is_healthy
      then promote plan probing
      else abandon probing plan.container_id (error_of health_res)

  -- Steps 1 and 2: the new release, up to its health check.
  unfoldable pub start_probing : ReleaseOrchestrationPlan → Action X Release
  start_probing plan = do
    created ←
        create_release plan.deployment_id plan.project_id plan.environment (some plan.container_id)
          (some plan.port) (some plan.url)
    transition created.id created.version health_checking (some "probing container health")

  -- Step 3: the health check, beside the tables.
  unfoldable pub probe_container : ReleaseOrchestrationPlan → Action X HealthCheckResult
  probe_container plan =
      beside_tables (wait_until_healthy health_client plan.url plan.health_policy)

  unfoldable pub orchestrate_release :
      ReleaseOrchestrationPlan → Action X ReleaseOrchestrationResult
  orchestrate_release plan = do
    probing ← start_probing plan
    health_res ← probe_container plan
    conclude plan probing health_res
