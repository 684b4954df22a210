-- ===== src/Agent/Revocation.antt =====
-- The credentials of `NodeTokenManager` of src/agent_protocol.rs over time.
use hostinger.Prelude.{
  ℕ, ◌^◌, ◌<◌, ◌≡◌, ◌≢◌, refl, sym, ap, ◌∙◌, subst, inl, inr, Bool, true, false, none, some, List,
  [], ◌∷◌, arith, All, ◌==◌, ==_refl, str_eq, eq_iff, if◌then◌else◌, Bool-cases, Option-cases,
}
use hostinger.Prelude.Words.{u64_add}
use hostinger.Exec.{err}
use hostinger.Agent.Envelope.{token_revoked, Wire, NodeCredentials, generate}
use hostinger.Agent.Validator.{get, insert}
use hostinger.Agent.Tokens.{
  NodeTokenManager, revoke_token, is_valid, get_credentials, issue_token, rotate_token,
}

pub data TokenEvent : Type 0 where
  to_issue : ℕ → List ℕ → TokenEvent
  to_rotate : ℕ → List ℕ → TokenEvent
  to_revoke : ℕ → TokenEvent

abbrev pub issues_for : ℕ → TokenEvent → Bool
issues_for i (to_issue node_id key_bytes) = node_id == i
issues_for i (to_rotate node_id key_bytes) = false
issues_for i (to_revoke node_id) = false

get-insert_cases :
    {V : Type 0} (k i : ℕ) (v : V) (m : List (ℕ × V))
    → get k (insert i v m) ≡ (if i == k then some v else get k m)
get-insert_cases k i v [] = ground arith
get-insert_cases k i v ((j, u) ∷ m) = elim (Bool-cases (j == i)) [
  | inl e ↦ ground (arith, e)
  | inr e ↦ ground (arith, e, get-insert_cases k i v m)
]

stored_valid :
    (creds : NodeCredentials) (m : NodeTokenManager)
    → get creds.node_id m.nodes ≡ some (creds, true)
    → is_valid creds m ≡ true
unfolding is_valid
stored_valid creds m h =
    let same : str_eq creds.secret_key creds.secret_key ≡ true =
      (eq_iff creds.secret_key creds.secret_key).1 refl in
    ground (arith, h, same)

outdated :
    (creds current : NodeCredentials) (m : NodeTokenManager) (active : Bool)
    → get creds.node_id m.nodes ≡ some (current, active)
    → current.epoch ≢ creds.epoch
    → is_valid creds m ≡ false
unfolding is_valid
outdated creds current m active h e = ground (arith, h, e)

next_epoch : (n : ℕ) → n < 2 ^ 64 → u64_add n 1 ≢ n
next_epoch n h e = omega (arith, h, e)

-- The node is known, and its credentials are not active.
abbrev pub IsRevoked : ℕ → NodeTokenManager → Type 0
IsRevoked i m = (creds : NodeCredentials) × (get i m.nodes ≡ some (creds, false))

revoke_token-IsRevoked :
    (i : ℕ) (m : NodeTokenManager) (creds : NodeCredentials) (active : Bool)
    → get i m.nodes ≡ some (creds, active)
    → IsRevoked i (revoke_token i m)
unfolding revoke_token
revoke_token-IsRevoked i m creds active h =
    (creds, rw (revoke_token, h) (ground (arith, get-insert_cases i i (creds, false) m.nodes)))

other_IsRevoked : (i j : ℕ) (m : NodeTokenManager) → IsRevoked i m → IsRevoked i (revoke_token j m)
unfolding revoke_token
other_IsRevoked i j m (creds, h) = elim (Option-cases (get j m.nodes)) [
  | inl q ↦ (creds, rw (revoke_token, q) h)
  | inr ((c, a), q) ↦ elim (Bool-cases (j == i)) [
    | inl e ↦ (c, ground (arith, q, e, get-insert_cases i j (c, false) m.nodes))
    | inr e ↦ (creds, ground (arith, q, e, h, get-insert_cases i j (c, false) m.nodes))
  ]
]

module _ (wire : Wire) where
  unfoldable pub run_event : TokenEvent → NodeTokenManager → NodeTokenManager
  run_event (to_issue node_id key_bytes) m = (issue_token wire node_id key_bytes m).1
  run_event (to_rotate node_id key_bytes) m = (rotate_token wire node_id key_bytes m).1
  run_event (to_revoke node_id) m = revoke_token node_id m

  unfoldable pub run_events : List TokenEvent → NodeTokenManager → NodeTokenManager
  run_events [] m = m
  run_events (e ∷ es) m = run_events es (run_event e m)

  issued_IsRevoked :
      (i j : ℕ) (key_bytes : List ℕ) (m : NodeTokenManager)
      → (j == i) ≡ false
      → IsRevoked i m
      → IsRevoked i (issue_token wire j key_bytes m).1
  unfolding issue_token
  issued_IsRevoked i j key_bytes m e (creds, h) =
      (creds, ground (arith, e, h, get-insert_cases i j (generate wire j key_bytes, true) m.nodes))

  rotated_IsRevoked :
      (i j : ℕ) (key_bytes : List ℕ) (m : NodeTokenManager)
      → IsRevoked i m
      → IsRevoked i (rotate_token wire j key_bytes m).1
  unfolding rotate_token
  rotated_IsRevoked i j key_bytes m (creds, h) = elim (Option-cases (get j m.nodes)) [
    | inl q ↦ (creds, rw (rotate_token, q) h)
    | inr ((c, false), q) ↦ (creds, rw (rotate_token, q) h)
    | inr ((c, true), q) ↦ elim (Bool-cases (j == i)) [
      | inl e ↦ let same : j ≡ i = ground (arith, e) in absurd (ground (arith, q, h, same))
      | inr e ↦
          let rotated : NodeCredentials = record (generate wire j key_bytes) {
            epoch = u64_add c.epoch 1;
          } in
          (creds, rw (rotate_token, q) (get-insert_cases i j (rotated, true) m.nodes ∙ rw e h))
    ]
  ]

  run_events-IsRevoked :
      (i : ℕ) (es : List TokenEvent) (m : NodeTokenManager)
      → All (λ e. issues_for i e ≡ false) es
      → IsRevoked i m
      → IsRevoked i (run_events es m)
  unfolding run_events run_event
  run_events-IsRevoked i [] m k r = r
  run_events-IsRevoked i (to_issue j key_bytes ∷ es) m (h, k) r =
      run_events-IsRevoked i es _ k (issued_IsRevoked i j key_bytes m h r)
  run_events-IsRevoked i (to_rotate j key_bytes ∷ es) m (h, k) r =
      run_events-IsRevoked i es _ k (rotated_IsRevoked i j key_bytes m r)
  run_events-IsRevoked i (to_revoke j ∷ es) m (h, k) r =
      run_events-IsRevoked i es _ k (other_IsRevoked i j m r)

  -- After `revoke_node` of a node that has a token, and until a new token is issued to it, no
  -- credentials of the node are valid, `get_credentials` reports that its token is revoked, and
  -- `rotate_token` gives it none, whatever is issued, rotated or revoked in between.
  pub revoked_until_issued :
      (i : ℕ) (m : NodeTokenManager) (held : NodeCredentials) (active : Bool) (es : List TokenEvent)
      (creds : NodeCredentials) (key_bytes : List ℕ)
      → get i m.nodes ≡ some (held, active)
      → All (λ e. issues_for i e ≡ false) es
      → creds.node_id ≡ i
      → (is_valid creds (run_events es (revoke_token i m)) ≡ false)
        × (get_credentials i (run_events es (revoke_token i m)) ≡ err (token_revoked i))
        × ((rotate_token wire i key_bytes (run_events es (revoke_token i m))).0 ≡ none)
  unfolding is_valid get_credentials rotate_token
  revoked_until_issued i m held active es creds key_bytes known k same =
      let (c, q) =
        run_events-IsRevoked i es (revoke_token i m) k
          (revoke_token-IsRevoked i m held active known) in
      (ground (arith, same, q), rw (get_credentials, q) refl, rw (rotate_token, q) refl)

  -- `rotate_token` replaces credentials: those that it returns are valid, and those of the same node
  -- that were valid before (with an epoch that is a u64) are not any more.
  pub rotation_replaces :
      (i : ℕ) (key_bytes : List ℕ) (m : NodeTokenManager) (old fresh : NodeCredentials)
      → (rotate_token wire i key_bytes m).0 ≡ some fresh
      → old.node_id ≡ i
      → old.epoch < 2 ^ 64
      → is_valid old m ≡ true
      → (is_valid fresh (rotate_token wire i key_bytes m).1 ≡ true)
        × (is_valid old (rotate_token wire i key_bytes m).1 ≡ false)
  unfolding is_valid rotate_token generate
  rotation_replaces i key_bytes m old fresh h same small valid =
      elim (Option-cases (get i m.nodes)) [
        | inl q ↦ absurd (ground (arith, h, q))
        | inr ((c, false), q) ↦ absurd (ground (arith, h, q))
        | inr ((c, true), q) ↦
            let rotated : NodeCredentials = record (generate wire i key_bytes) {
              epoch = u64_add c.epoch 1;
            } in
            let is_fresh : rotated ≡ fresh = ground (arith, h, q) in
            let current : c.epoch ≡ old.epoch = ground (arith, valid, same, q) in
            let after : NodeTokenManager = record { nodes = insert i (rotated, true) m.nodes } in
            let stored : get i after.nodes ≡ some (rotated, true) =
              get-insert_cases i i (rotated, true) m.nodes ∙ rw (==_refl i) refl in
            rw (rotate_token, q)
              (
                subst (λ x. is_valid x after ≡ true) is_fresh (stored_valid rotated after stored),
                outdated old rotated after true (rw same stored)
                    (λ e. next_epoch old.epoch small (ap (λ x. u64_add x 1) (sym current) ∙ e)),
              )
      ]
