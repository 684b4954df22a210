-- ===== src/Health/Outcome.antt =====
-- What `wait_until_healthy` returns, for any client and any environment.
use Prim.Native.Nat.{max}
use hostinger.Prelude.{
  ℕ, zero, suc, ◌+◌, ◌≤◌, String, ◌≡◌, refl, ◌⊎◌, inl, inr, true, false, none, some, List, [], ◌∷◌,
  ◌++◌, arith, length, All, length-append, All-append, Bool-cases, ltb,
}
use hostinger.Exec.{ok, World, call, now_utc, sleep, continue}
use hostinger.Health.{
  HealthPolicy, HealthAttemptRecord, HealthCheckResult, HealthProbeClient, Message, last_error,
  probe_once, probe_url, pause, poll, wait_until_healthy,
}

abbrev Unhealthy : HealthAttemptRecord → Type 0
Unhealthy a = a.is_healthy ≡ false

-- The loop stopped at the first healthy attempt, or it made `limit` attempts in vain.
abbrev pub IsSettled : ℕ → HealthCheckResult → Type 0
IsSettled limit r =
    (r.is_healthy ≡ true)
      × (r.final_error ≡ none)
      × (length r.attempts ≤ limit)
      × ((before : List HealthAttemptRecord) × (last : HealthAttemptRecord) × (r.attempts
            ≡ before ++ last ∷ [])
          × All Unhealthy before
          × (last.is_healthy ≡ true))
    ⊎ (r.is_healthy ≡ false)
      × (length r.attempts ≡ limit)
      × All Unhealthy r.attempts
      × ((m : Message) × (r.final_error ≡ some m))

module _ {X E : Type 0} (client : HealthProbeClient X) (url : String) (policy : HealthPolicy) where
  probe_once_ok :
      (n : ℕ) (w : World X)
      → (a : HealthAttemptRecord) × (w' : World X) × (probe_once {E = E} client url policy n w
          ≡ (ok a, w'))
  unfolding probe_once now_utc call
  probe_once_ok n w = (_, _, refl)

  pause_ok : (left : ℕ) (w : World X) → (w' : World X) × (pause {E = E} policy left w ≡ (ok tt, w'))
  unfolding pause sleep
  pause_ok zero w = (w, refl)
  pause_ok (suc left) w = elim (Bool-cases (ltb 0 policy.interval)) [
    | inl e ↦ (record w { step = suc w.step }, rw e refl)
    | inr e ↦ (w, rw e refl)
  ]

  poll-IsSettled :
      (left n limit : ℕ) (attempts : List HealthAttemptRecord) (w : World X)
      → length attempts + left ≡ limit
      → All Unhealthy attempts
      → (r : HealthCheckResult) × ((poll {E = E} client url policy left n attempts w).0 ≡ ok r)
        × IsSettled limit r
  unfolding poll
  poll-IsSettled zero n limit attempts w k h =
      (_, refl, inr (refl, omega arith, h, (last_error attempts, refl)))
  poll-IsSettled (suc left) n limit attempts w k h =
      let (a, w', e) = probe_once_ok n w in
      elim (Bool-cases a.is_healthy) [
        | inl healthy ↦ (
          record { is_healthy = true; attempts = attempts ++ a ∷ []; final_error = none },
          rw (e, continue, healthy) refl,
          inl (
            refl,
            refl,
            omega (arith, length-append attempts (a ∷ [])),
            (attempts, a, refl, h, healthy),
          ),
        )
        | inr unhealthy ↦
            let (w'', p) = pause_ok left w' in
            let (r, q, s) =
              poll-IsSettled left (suc n) limit (attempts ++ a ∷ []) w''
                (omega (arith, length-append attempts (a ∷ [])))
                (All-append Unhealthy attempts (a ∷ []) h (unhealthy, tt)) in
            (r, rw (e, continue, unhealthy) (rw (p, continue) q), s)
      ]

module _ {X E : Type 0} (client : HealthProbeClient X) (policy : HealthPolicy) where
  -- Waiting never fails to return a result: it makes at most `attempts` probes, one if that is 0,
  -- and it either ends at its first healthy attempt, or it has made them all, each unhealthy, and
  -- reports an error.
  pub wait-IsSettled :
      (base_url : String) (w : World X)
      → (r : HealthCheckResult) × ((wait_until_healthy {E = E} client base_url policy w).0 ≡ ok r)
        × IsSettled (max policy.attempts 1) r
  unfolding wait_until_healthy sleep
  wait-IsSettled base_url w = elim (Bool-cases (ltb 0 policy.grace_period)) [
    | inl e ↦
        let (r, q, s) =
          poll-IsSettled {E = E} client (probe_url base_url policy.path) policy
            (max policy.attempts 1) 1 _ [] (record w { step = suc w.step }) (omega arith) tt in
        (r, rw (e, continue) q, s)
    | inr e ↦
        let (r, q, s) =
          poll-IsSettled {E = E} client (probe_url base_url policy.path) policy
            (max policy.attempts 1) 1 _ [] w (omega arith) tt in
        (r, rw (e, continue) q, s)
  ]
