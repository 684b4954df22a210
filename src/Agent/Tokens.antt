-- ===== src/Agent/Tokens.antt =====
-- `NodeTokenManager` of src/agent_protocol.rs. The random bytes of a new key are an argument.
use hostinger.Prelude.{
  ℕ, Bool, true, false, ◌&&◌, Option, none, some, List, ◌==◌, str_eq, if◌then◌else◌,
}
use hostinger.Prelude.Words.{u64_add}
use hostinger.Exec.{Result, ok, err}
use hostinger.Agent.Envelope.{
  AgentProtocolError, token_revoked, node_not_found, Wire, NodeCredentials, generate,
}
use hostinger.Agent.Validator.{get, insert}

-- The credentials of each node, and whether they are active.
pub record NodeTokenManager : Type 0 where
  pub nodes : List (ℕ × (NodeCredentials × Bool))

unfoldable pub revoke_token : ℕ → NodeTokenManager → NodeTokenManager
revoke_token node_id m = elim (get node_id m.nodes) [
  | none ↦ m
  | some (creds, _) ↦ record { nodes = insert node_id (creds, false) m.nodes }
]

unfoldable pub is_valid : NodeCredentials → NodeTokenManager → Bool
is_valid creds m = elim (get creds.node_id m.nodes) [
  | none ↦ false
  | some (current, active) ↦
      active && current.epoch == creds.epoch && str_eq current.secret_key creds.secret_key
]

unfoldable pub get_credentials : ℕ → NodeTokenManager → Result AgentProtocolError NodeCredentials
get_credentials node_id m = elim (get node_id m.nodes) [
  | none ↦ err (node_not_found node_id)
  | some (creds, active) ↦ if active then ok creds else err (token_revoked node_id)
]

module _ (wire : Wire) where
  unfoldable pub issue_token : ℕ → List ℕ → NodeTokenManager → NodeCredentials × NodeTokenManager
  issue_token node_id key_bytes m =
      let creds = generate wire node_id key_bytes in
      (creds, record { nodes = insert node_id (creds, true) m.nodes })

  unfoldable pub rotate_token :
      ℕ → List ℕ → NodeTokenManager → Option NodeCredentials × NodeTokenManager
  rotate_token node_id key_bytes m = elim (get node_id m.nodes) [
    | none ↦ (none, m)
    | some (old_creds, is_active) ↦
        if is_active
        then (let new_creds = record (generate wire node_id key_bytes) {
          epoch = u64_add old_creds.epoch 1;
        } in
            (some new_creds, record { nodes = insert node_id (new_creds, true) m.nodes }))
        else (none, m)
  ]
