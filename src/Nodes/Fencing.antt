-- ===== src/Nodes/Fencing.antt =====
-- What a returned value says: `rotate_node_identity` and `record_heartbeat` of src/node_registry.rs.
use hostinger.Prelude.{
  ℕ, String, ◌≡◌, refl, inl, inr, Option, none, some, arith, find, ◌==◌, Bool-cases, Option-cases,
}
use hostinger.Exec.{ok, World, or_raise, read, try_write, now_utc}
use hostinger.Exec.Outcomes.{bind_ok, try_write_ok}
use hostinger.Agent.Commands.{HeartbeatCommand, HeartbeatResponse}
use hostinger.Nodes.Record.{
  NodeRegistryError, database, NodeRow, NodeRecord, node_not_found, from_pg_row,
}
use hostinger.Nodes.Tables.{NodeTables, has_node, update_checked, rotated, rotate_epoch, node_by_id}
use hostinger.Nodes.Registry.{get_node, apply_heartbeat, record_heartbeat, rotate_node_identity}

-- The row of node `i`, with an epoch.
abbrev pub HasEpoch : ℕ → ℕ → NodeTables → Type 0
HasEpoch i e t = (x : NodeRow) × (find (has_node i) t.nodes ≡ some x) × (x.epoch ≡ e)

rotate_epoch_found :
    (i : ℕ) (token_hash : String) (now e : ℕ) (t t' : NodeTables)
    → rotate_epoch i token_hash now t ≡ some (some e, t')
    → HasEpoch i e t'
unfolding rotate_epoch
rotate_epoch_found i token_hash now e t t' h =
    elim (Option-cases (update_checked (has_node i) (rotated token_hash now) t.nodes)) [
      | inl q ↦ absurd (ground (arith, h, q))
      | inr (rows, q) ↦ elim (Option-cases (find (has_node i) rows)) [
        | inl r ↦ absurd (ground (arith, h, q, r))
        | inr (x, r) ↦ (x, ground (arith, h, q, r), ground (arith, h, q, r))
      ]
    ]

or_raise-some :
    {D E A : Type 0} (o : Option A) (e : E) (w : World D) (a : A)
    → (or_raise {D = D} o e w).0 ≡ ok a
    → (o ≡ some a) × ((or_raise {D = D} o e w).1 ≡ w)
or_raise-some none e w a h = cc
or_raise-some (some b) e w a h = (cc, refl)

-- A rotation that returns leaves the node's row in the epoch that it returned.
pub rotated_epoch :
    (i : ℕ) (token_hash : String) (w : World NodeTables) (e : ℕ)
    → (rotate_node_identity i token_hash w).0 ≡ ok e
    → HasEpoch i e (rotate_node_identity i token_hash w).1.db
unfolding rotate_node_identity now_utc
rotated_epoch i token_hash w e h =
    let now = w.env.time w.step in
    let w₁ : World NodeTables = (now_utc {E = NodeRegistryError} w).1 in
    let (o, wrote, out, last) =
      bind_ok (try_write database (rotate_epoch i token_hash now))
        (λ o. or_raise o (node_not_found i)) w₁ e h in
    let (t', met, after) = try_write_ok database (rotate_epoch i token_hash now) w₁ o wrote in
    let (got, same) = or_raise-some o (node_not_found i) _ e out in
    let (x, found, epoch) = rotate_epoch_found i token_hash now e w.db t' (rw got at met) in
    (x, rw last (rw same (rw after found)), epoch)

beaten_epoch :
    (cmd : HeartbeatCommand) (node : NodeRecord) (w : World NodeTables) (r : HeartbeatResponse)
    → (apply_heartbeat cmd node w).0 ≡ ok r
    → node.epoch ≡ cmd.epoch
unfolding apply_heartbeat
beaten_epoch cmd node w r h = elim (Bool-cases (cmd.epoch == node.epoch)) [
  | inl e ↦ ground (arith, e)
  | inr e ↦ absurd (ground (arith, h, e))
]

-- A heartbeat that is taken has the epoch of the node's row.
pub heartbeat_epoch :
    (cmd : HeartbeatCommand) (w : World NodeTables) (r : HeartbeatResponse)
    → (record_heartbeat cmd w).0 ≡ ok r
    → HasEpoch cmd.node_id cmd.epoch w.db
unfolding record_heartbeat get_node node_by_id from_pg_row read
heartbeat_epoch cmd w r h = elim (Bool-cases (w.env.fault w.step)) [
  | inl down ↦ absurd (ground (arith, h, down))
  | inr up ↦ elim (Option-cases (find (has_node cmd.node_id) w.db.nodes)) [
    | inl q ↦ absurd (ground (arith, h, up, q))
    | inr (x, q) ↦ (x, q, beaten_epoch cmd (from_pg_row x) _ r (rw (up, q) at h))
  ]
]
