-- ===== src/Tests/Health.antt =====
-- Runs of src/health.rs against queued answers.
use Prim.Native.Nat.{max}
use hostinger.Prelude.{◌+◌, String, ◌≡◌, ◌↔◌, false, none, some, [], ◌∷◌, any, take}
use hostinger.Exec.{ok, err, Env, World}
use hostinger.Health.{
  HealthPolicy, default_policy, ProbeResponse, HealthCheckResult, judge, wait_until_healthy,
}
use hostinger.Health.Mock.{MockClient, mock_client}
use hostinger.Health.Outcome.{IsSettled, wait-IsSettled}
use hostinger.Health.Judgement.{Meets, judge-none_iff}
use hostinger.Health.Scripted.{passes, wait-healthy_iff}

abbrev calm : Env
calm = record { fault = λ n. false; uuid = λ n. 100 + n; time = λ n. n }

abbrev fine : ProbeResponse
fine = record { status = 200; headers = ("x-role", "web") ∷ []; body = "status: ok" }

abbrev teapot : ProbeResponse
teapot = record fine { status = 418 }

abbrev strict : HealthPolicy
strict = record default_policy {
  expected_body_contains = some "ok";
  expected_headers = ("X-Role", "web") ∷ [];
}

abbrev scripted : World MockClient
scripted = record {
  env = calm;
  step = 0;
  db = record { queued_responses = err "refused" ∷ ok teapot ∷ ok fine ∷ []; probed_urls = [] };
}

wait-IsSettled_example :
    (r : HealthCheckResult) × ((wait_until_healthy {E = String} mock_client "http://10.0.0.1" strict
        scripted).0
      ≡ ok r)
    × IsSettled (max 5 1) r
wait-IsSettled_example = wait-IsSettled mock_client strict "http://10.0.0.1" scripted

judge-none_iff_example : (judge strict fine ≡ none) ↔ Meets strict fine
judge-none_iff_example = judge-none_iff strict fine

wait-healthy_iff_example :
    (r : HealthCheckResult) × ((wait_until_healthy {E = String} mock_client "http://10.0.0.1/"
        strict scripted).0
      ≡ ok r)
    × (r.is_healthy ≡ any (passes strict) (take (max 5 1) scripted.db.queued_responses))
wait-healthy_iff_example = wait-healthy_iff strict "http://10.0.0.1/" scripted
