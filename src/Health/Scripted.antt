-- ===== src/Health/Scripted.antt =====
-- `wait_until_healthy` against a client that answers from a queue.
use Prim.Native.Nat.{max}
use hostinger.Prelude.{
  ℕ, zero, suc, String, ◌≡◌, refl, Bool, true, false, none, some, ◌||◌, inl, inr, List, [], ◌∷◌,
  ◌++◌, any, take, Bool-cases, ltb,
}
use hostinger.Exec.{Result, ok, World, call, now_utc, sleep, continue}
use hostinger.Health.{
  HealthPolicy, HealthAttemptRecord, HealthCheckResult, ProbeResponse, verdict, last_error,
  probe_once, probe_url, pause, poll, wait_until_healthy,
}
use hostinger.Health.Mock.{MockClient, take_response, mock_client}

abbrev pub passes : HealthPolicy → Result String ProbeResponse → Bool
passes policy answer = (verdict policy answer).1

any-take :
    (policy : HealthPolicy) (left : ℕ) (q : List (Result String ProbeResponse))
    → any (passes policy) (take (suc left) q)
      ≡ (passes policy (take_response q).0 || any (passes policy) (take left (take_response q).1))
unfolding verdict
any-take policy zero [] = refl
any-take policy (suc left) [] = refl
any-take policy left (r ∷ q) = refl

module _ {E : Type 0} (url : String) (policy : HealthPolicy) where
  probe_mock :
      (n : ℕ) (w : World MockClient)
      → (a : HealthAttemptRecord) × (w' : World MockClient) × (probe_once {E = E} mock_client url
            policy n w
          ≡ (ok a, w'))
        × (a.is_healthy ≡ passes policy (take_response w.db.queued_responses).0)
        × (w'.db.queued_responses ≡ (take_response w.db.queued_responses).1)
  unfolding probe_once now_utc call
  probe_mock n w = (_, _, refl, refl, refl)

  pause_mock :
      (left : ℕ) (w : World MockClient)
      → (w' : World MockClient) × (pause {E = E} policy left w ≡ (ok tt, w'))
        × (w'.db.queued_responses ≡ w.db.queued_responses)
  unfolding pause sleep
  pause_mock zero w = (w, refl, refl)
  pause_mock (suc left) w = elim (Bool-cases (ltb 0 policy.interval)) [
    | inl e ↦ (record w { step = suc w.step }, rw e refl, refl)
    | inr e ↦ (w, rw e refl, refl)
  ]

  poll_mock :
      (left n : ℕ) (attempts : List HealthAttemptRecord) (w : World MockClient)
      → (r : HealthCheckResult) × ((poll {E = E} mock_client url policy left n attempts w).0 ≡ ok r)
        × (r.is_healthy ≡ any (passes policy) (take left w.db.queued_responses))
  unfolding poll
  poll_mock zero n attempts w = (
    record { is_healthy = false; attempts = attempts; final_error = some (last_error attempts) },
    refl,
    refl,
  )
  poll_mock (suc left) n attempts w =
      let (a, w', e, v, q) = probe_mock n w in
      elim (Bool-cases a.is_healthy) [
        | inl healthy ↦ (
          record { is_healthy = true; attempts = attempts ++ a ∷ []; final_error = none },
          rw (e, continue, healthy) refl,
          rw any-take (rw (← v) (rw healthy refl)),
        )
        | inr unhealthy ↦
            let (w'', p, q') = pause_mock left w' in
            let (r, s, t) = poll_mock left (suc n) (attempts ++ a ∷ []) w'' in
            (
              r,
              rw (e, continue, unhealthy) (rw (p, continue) s),
              rw any-take (rw (← v) (rw unhealthy (rw (← q, ← q') t))),
            )
      ]

module _ (policy : HealthPolicy) where
  -- Against scripted answers, the wait succeeds exactly if one of the first `attempts` answers (of
  -- the first one, if `attempts` is 0) meets the policy.
  pub wait-healthy_iff :
      {E : Type 0} (base_url : String) (w : World MockClient)
      → (r : HealthCheckResult) × ((wait_until_healthy {E = E} mock_client base_url policy w).0
          ≡ ok r)
        × (r.is_healthy ≡ any (passes policy) (take (max policy.attempts 1) w.db.queued_responses))
  unfolding wait_until_healthy sleep
  wait-healthy_iff {E} base_url w = elim (Bool-cases (ltb 0 policy.grace_period)) [
    | inl e ↦
        let (r, q, s) =
          poll_mock {E = E} (probe_url base_url policy.path) policy (max policy.attempts 1) 1 []
            (record w { step = suc w.step }) in
        (r, rw (e, continue) q, s)
    | inr e ↦
        let (r, q, s) =
          poll_mock {E = E} (probe_url base_url policy.path) policy (max policy.attempts 1) 1 []
            w in
        (r, rw (e, continue) q, s)
  ]
