-- ===== src/Agent/Replay.antt =====
-- The processed operations of the validator of src/agent_protocol.rs over time.
use hostinger.Prelude.{
  ℕ, ◌-◌, ◌*◌, ◌≡◌, ◌≢◌, refl, ap, ◌∙◌, inl, inr, Bool, true, false, some, List, [], ◌∷◌, arith,
  All, select, ◌==◌, ltb, Bool-cases,
}
use hostinger.Exec.{ok}
use hostinger.Agent.Commands.{AgentCommand}
use hostinger.Agent.Envelope.{Wire, AgentEnvelope, NodeCredentials}
use hostinger.Agent.Validator.{
  AgentProtocolValidator, register_credentials, revoke_node, get, insert, prune, contains_key,
  process, authenticate, validate_and_unpack,
}
use hostinger.Agent.Safety.{prune-IsFresh}
use hostinger.Agent.Acceptance.{Result-cases, process_ok, validate_and_unpack-IsGenuine}

-- What happens to a validator.
pub data ValidatorEvent : Type 0 where
  to_register : NodeCredentials → ValidatorEvent
  to_revoke : ℕ → ValidatorEvent
  to_validate : ℕ → ℕ → AgentEnvelope → ValidatorEvent

-- What was processed at `start` is not yet pruned then.
abbrev pub within : ℕ → ℕ → ℕ → Bool
within max_skew start instant = ltb (instant - start) (max_skew * 2)

abbrev pub comes_within : ℕ → ℕ → ValidatorEvent → Bool
comes_within max_skew start (to_register creds) = true
comes_within max_skew start (to_revoke node_id) = true
comes_within max_skew start (to_validate now instant envelope) = within max_skew start instant

get-select :
    (p : ℕ × ℕ → Bool) (k t : ℕ) (m : List (ℕ × ℕ))
    → p (k, t) ≡ true
    → get k m ≡ some t
    → get k (select p m) ≡ some t
get-select p k t [] h g = cc
get-select p k t ((j, u) ∷ m) h g = elim (Bool-cases (j == k)) [
  | inl e ↦
      let same_key : j ≡ k = ground (arith, e) in
      let same : u ≡ t = ground (arith, g, e) in
      let met : p (j, u) ≡ true = rw (same_key, same) h in rw (met, e) (ap some same)
  | inr e ↦
      let later = get-select p k t m h (ground (arith, g, e)) in
      elim (Bool-cases (p (j, u))) [ inl q ↦ rw (q, e) later | inr q ↦ rw q later ]
]

get-insert_same : (k t : ℕ) (m : List (ℕ × ℕ)) → get k (insert k t m) ≡ some t
get-insert_same k t [] = ground arith
get-insert_same k t ((j, u) ∷ m) = ground (arith, get-insert_same k t m)

get-insert_other :
    (k i t : ℕ) (m : List (ℕ × ℕ)) → (i == k) ≡ false → get k (insert i t m) ≡ get k m
get-insert_other k i t [] h = ground (arith, h)
get-insert_other k i t ((j, u) ∷ m) h = elim (Bool-cases (j == i)) [
  | inl e ↦ ground (arith, h, e)
  | inr e ↦ ground (arith, h, e, get-insert_other k i t m h)
]

get-contains_key : (k t : ℕ) (m : List (ℕ × ℕ)) → get k m ≡ some t → contains_key k m ≡ true
get-contains_key k t [] h = cc
get-contains_key k t ((j, u) ∷ m) h = ground (arith, get-contains_key k t m)

module _ (wire : Wire) where
  -- The validator after an event, accepted or refused.
  unfoldable pub run_event : ValidatorEvent → AgentProtocolValidator → AgentProtocolValidator
  run_event (to_register creds) v = register_credentials creds v
  run_event (to_revoke node_id) v = revoke_node node_id v
  run_event (to_validate now instant envelope) v =
      (validate_and_unpack wire now instant envelope v).1

  unfoldable pub run_events : List ValidatorEvent → AgentProtocolValidator → AgentProtocolValidator
  run_events [] v = v
  run_events (e ∷ es) v = run_events es (run_event e v)

  -- The validator has the operation as processed at `start`.
  abbrev Remembers : ℕ → ℕ → ℕ → AgentProtocolValidator → Type 0
  Remembers skew operation start v =
      (v.max_skew ≡ skew) × (get operation v.processed_operations ≡ some start)

  pruned-Remembers :
      (operation start instant : ℕ) (v : AgentProtocolValidator)
      → within v.max_skew start instant ≡ true
      → get operation v.processed_operations ≡ some start
      → get operation (prune v.max_skew instant v.processed_operations) ≡ some start
  unfolding prune
  pruned-Remembers operation start instant v h g =
      get-select _ operation start v.processed_operations h g

  process-Remembers :
      (skew operation start instant : ℕ) (envelope : AgentEnvelope) (v : AgentProtocolValidator)
      → within skew start instant ≡ true
      → Remembers skew operation start v
      → Remembers skew operation start (process wire instant envelope v).1
  unfolding process
  process-Remembers skew operation start instant envelope v h (s, g) =
      let ops = prune v.max_skew instant v.processed_operations in
      let kept : get operation ops ≡ some start =
        pruned-Remembers operation start instant v (rw s h) g in
      elim (Bool-cases (contains_key envelope.operation_id ops)) [
        | inl seen ↦ rw seen (s, kept)
        | inr fresh ↦ elim (Bool-cases (envelope.operation_id == operation)) [
          | inl e ↦
              let same : envelope.operation_id ≡ operation = ground (arith, e) in
              absurd (ground (arith, fresh, same, get-contains_key operation start ops kept))
          | inr e ↦
              rw fresh (s, get-insert_other operation envelope.operation_id instant ops e ∙ kept)
        ]
      ]

  run_event-Remembers :
      (skew operation start : ℕ) (e : ValidatorEvent) (v : AgentProtocolValidator)
      → comes_within skew start e ≡ true
      → Remembers skew operation start v
      → Remembers skew operation start (run_event e v)
  unfolding run_event register_credentials revoke_node validate_and_unpack
  run_event-Remembers skew operation start (to_register creds) v h r = r
  run_event-Remembers skew operation start (to_revoke node_id) v h r = r
  run_event-Remembers skew operation start (to_validate now instant envelope) v h r =
      elim (Result-cases (authenticate wire now envelope v)) [
        | inl (e, q) ↦ rw (run_event, validate_and_unpack, q) r
        | inr (u, q) ↦
            rw (run_event, validate_and_unpack, q)
              (process-Remembers skew operation start instant envelope v h r)
      ]

  run_events-Remembers :
      (skew operation start : ℕ) (es : List ValidatorEvent) (v : AgentProtocolValidator)
      → All (λ e. comes_within skew start e ≡ true) es
      → Remembers skew operation start v
      → Remembers skew operation start (run_events es v)
  unfolding run_events
  run_events-Remembers skew operation start [] v h r = r
  run_events-Remembers skew operation start (e ∷ es) v (h, k) r =
      run_events-Remembers skew operation start es (run_event e v) k
        (run_event-Remembers skew operation start e v h r)

  accepted-Remembers :
      (now instant : ℕ) (envelope : AgentEnvelope) (v : AgentProtocolValidator)
      (command : AgentCommand)
      → (validate_and_unpack wire now instant envelope v).0 ≡ ok command
      → Remembers v.max_skew envelope.operation_id instant
          (validate_and_unpack wire now instant envelope v).1
  unfolding validate_and_unpack process
  accepted-Remembers now instant envelope v command h =
      elim (Result-cases (authenticate wire now envelope v)) [
        | inl (e, q) ↦ absurd (ground (arith, h, q))
        | inr (u, q) ↦
            let (fresh, _, _) =
              process_ok wire instant envelope v command (rw (validate_and_unpack, q) at h) in
            rw (validate_and_unpack, process, q, fresh)
              (refl, get-insert_same envelope.operation_id instant _)
      ]

  -- Once `validate_and_unpack` has accepted an operation id, it returns no command for an envelope
  -- with that id within twice the allowed skew, whatever envelopes have been validated within that
  -- time and whatever credentials were registered or revoked in between.
  pub replayed_operation_refused :
      (now instant : ℕ) (envelope : AgentEnvelope) (v : AgentProtocolValidator)
      (command : AgentCommand) (es : List ValidatorEvent) (later later_instant : ℕ)
      (replay : AgentEnvelope) (replayed : AgentCommand)
      → (validate_and_unpack wire now instant envelope v).0 ≡ ok command
      → All (λ e. comes_within v.max_skew instant e ≡ true) es
      → within v.max_skew instant later_instant ≡ true
      → replay.operation_id ≡ envelope.operation_id
      → (validate_and_unpack wire later later_instant replay
          (run_events es (validate_and_unpack wire now instant envelope v).1)).0
        ≢ ok replayed
  replayed_operation_refused now instant envelope v command es later later_instant replay replayed h
        k soon same again =
      let v₁ = (validate_and_unpack wire now instant envelope v).1 in
      let v₂ = run_events es v₁ in
      let (skew, known) =
        run_events-Remembers v.max_skew envelope.operation_id instant es v₁ k
          (accepted-Remembers now instant envelope v command h) in
      let kept =
        pruned-Remembers envelope.operation_id instant later_instant v₂ (rw skew soon) known in
      let genuine =
        (validate_and_unpack-IsGenuine wire later later_instant replay v₂ replayed).0 again in
      let unseen =
        (prune-IsFresh v₂.max_skew later_instant replay.operation_id _).1 genuine.fresh in
      absurd (ground (arith, unseen, same, get-contains_key envelope.operation_id instant _ kept))
