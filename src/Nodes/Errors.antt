-- ===== src/Nodes/Errors.antt =====
-- The operations of src/node_registry.rs where they fail.
use hostinger.Prelude.{
  ℕ, String, ◌≡◌, refl, sym, ap, ◌∙◌, inl, inr, Bool, true, false, not, Option, none, some, List,
  [], ◌∷◌, arith, any, find, ◌==◌, if◌then◌else◌, Bool-cases, Option-cases,
}
use hostinger.Exec.{ok, err, World, pure, raise, or_raise, try_write, ◌>>=◌}
use hostinger.Exec.Moves.{Moves, Moves-raise, Moves-now_utc, moves_rules}
use hostinger.Exec.Outcomes.{try_write_ok}
use hostinger.Exec.Reverts.{
  Same, Same-IsPreorder, Reverts-bind_when, Reverts, Reverts-Same, Reverts-try_write, Reverts-bind,
  Reverts-if, revert_rules,
}
use hostinger.Agent.Commands.{RegisterNodeCommand, HeartbeatCommand, HeartbeatResponse}
use hostinger.Nodes.Record.{
  NodeRegistryError, database, NodeRow, NodeRecord, version_conflict, epoch_mismatch,
  node_not_found,
}
use hostinger.Nodes.Tables.{
  NodeTables, has_node, update_checked, update_nodes, rotated, rotate_epoch, beat, at_version,
}
use hostinger.Nodes.Registry.{
  NodeAction, register_node, get_node, apply_heartbeat, record_heartbeat, set_drain, set_enabled,
  rotate_node_identity, list_active_nodes,
}
use hostinger.Nodes.History.{update_checked_cases}
use hostinger.Nodes.Steps.{rotated_ok}

pub get_node-Same : (i : ℕ) → Moves Same (get_node i)
unfolding get_node
get_node-Same i = search (moves_rules, Same-IsPreorder) depth 8

pub list_active_nodes-Same : (timeout : ℕ) → Moves Same (list_active_nodes timeout)
unfolding list_active_nodes
list_active_nodes-Same timeout = search (moves_rules, Same-IsPreorder) depth 8

-- An update that meets no row changes none.
pub update_checked_unmet :
    {A : Type 0} (p : A → Bool) (f : A → Option A) (xs ys : List A)
    → update_checked p f xs ≡ some ys
    → any p xs ≡ false
    → ys ≡ xs
update_checked_unmet p f [] ys h k = ground arith
update_checked_unmet p f (x ∷ xs) ys h k =
    let (y, zs, e, this, rest) = update_checked_cases p f x xs ys h in
    let same : zs ≡ xs = update_checked_unmet p f xs zs rest (ground (arith, k)) in
    let first : x ≡ y = ground (arith, this, k) in
    e ∙ ap (λ v. v ∷ zs) (sym first) ∙ ap (λ vs. x ∷ vs) same

update_nodes_unmet :
    (p : NodeRow → Bool) (f : NodeRow → Option NodeRow) (t t' : NodeTables)
    → update_nodes p f t ≡ some (false, t')
    → t' ≡ t
unfolding update_nodes
update_nodes_unmet p f t t' h = elim (Option-cases (update_checked p f t.nodes)) [
  | inl e ↦ absurd (ground (arith, h, e))
  | inr (rows, e) ↦
      let same : rows ≡ t.nodes = update_checked_unmet p f t.nodes rows e (ground (arith, h, e)) in
      ground (arith, h, e, same)
]

-- After a rotation of rows that are found, a row is found.
rotated_unmet :
    (i : ℕ) (token_hash : String) (now : ℕ) (xs ys : List NodeRow)
    → update_checked (has_node i) (rotated token_hash now) xs ≡ some ys
    → find (has_node i) ys ≡ none
    → any (has_node i) xs ≡ false
rotated_unmet i token_hash now [] ys h k = refl
rotated_unmet i token_hash now (x ∷ xs) ys h k =
    let (y, zs, e, this, rest) =
      update_checked_cases (has_node i) (rotated token_hash now) x xs ys h in
    elim (Bool-cases (x.id == i)) [
      | inl met ↦
          let same_id : y.id ≡ x.id = (rotated_ok token_hash now x y (rw met at this)).1 in
          absurd (ground (arith, k, e, met, same_id))
      | inr not_met ↦
          let same : x ≡ y = ground (arith, this, not_met) in
          ground (
            arith,
            not_met,
            rotated_unmet i token_hash now xs zs rest (ground (arith, k, e, same, not_met)),
          )
    ]

rotate_epoch_unmet :
    (i : ℕ) (token_hash : String) (now : ℕ) (t t' : NodeTables)
    → rotate_epoch i token_hash now t ≡ some (none, t')
    → t' ≡ t
unfolding rotate_epoch
rotate_epoch_unmet i token_hash now t t' h =
    elim (Option-cases (update_checked (has_node i) (rotated token_hash now) t.nodes)) [
      | inl e ↦ absurd (ground (arith, h, e))
      | inr (rows, e) ↦ elim (Option-cases (find (has_node i) rows)) [
        | inr (r, q) ↦ absurd (ground (arith, h, e, q))
        | inl q ↦
            let same : rows ≡ t.nodes =
              update_checked_unmet (has_node i) (rotated token_hash now) t.nodes rows e
                (rotated_unmet i token_hash now t.nodes rows e q) in
            ground (arith, h, e, q, same)
      ]
    ]

-- What `apply_heartbeat` does with the outcome of its UPDATE.
abbrev reply : HeartbeatCommand → NodeRecord → Bool → NodeAction HeartbeatResponse
reply cmd node updated =
    if updated
    then pure (record { acknowledged = true; drain_requested = node.is_draining })
    else raise (version_conflict cmd.node_id)

beat-Reverts :
    (cmd : HeartbeatCommand) (node : NodeRecord) (now : ℕ)
    → Reverts (
        try_write database (update_nodes (at_version cmd.node_id node.version) (beat cmd now))
        >>= reply cmd node)
beat-Reverts cmd node now =
    Reverts-bind_when statement (reply cmd node) (Reverts-try_write database change) failed
  where
    change : NodeTables → Option (Bool × NodeTables)
    change = update_nodes (at_version cmd.node_id node.version) (beat cmd now)

    statement : NodeAction Bool
    statement = try_write database change

    failed :
        (w : World NodeTables) (updated : Bool) (e : NodeRegistryError)
        → (statement w).0 ≡ ok updated
        → (reply cmd node updated (statement w).1).0 ≡ err e
        → (reply cmd node updated (statement w).1).1.db ≡ w.db
    failed w true e q k = cc
    failed w false e q k =
        let (t', met, last) = try_write_ok database change w false q in
        ap (λ (x : World NodeTables). x.db) last ∙ update_nodes_unmet _ _ w.db t' met

apply_heartbeat-Reverts :
    (cmd : HeartbeatCommand) (node : NodeRecord) → Reverts (apply_heartbeat cmd node)
unfolding apply_heartbeat
apply_heartbeat-Reverts cmd node =
    Reverts-if (not (cmd.epoch == node.epoch)) _ _
      (Reverts-Same _ (Moves-raise Same-IsPreorder (epoch_mismatch node.epoch cmd.epoch)))
      (Reverts-bind _ _ (Moves-now_utc Same-IsPreorder) (beat-Reverts cmd node))

rotate-Reverts :
    (i : ℕ) (token_hash : String) (now : ℕ)
    → Reverts
        (try_write database (rotate_epoch i token_hash now) >>= λ o. or_raise o (node_not_found i))
rotate-Reverts i token_hash now =
    Reverts-bind_when statement (λ o. or_raise o (node_not_found i))
      (Reverts-try_write database change) failed
  where
    change : NodeTables → Option (Option ℕ × NodeTables)
    change = rotate_epoch i token_hash now

    statement : NodeAction (Option ℕ)
    statement = try_write database change

    failed :
        (w : World NodeTables) (o : Option ℕ) (e : NodeRegistryError)
        → (statement w).0 ≡ ok o
        → (or_raise {D = NodeTables} o (node_not_found i) (statement w).1).0 ≡ err e
        → (or_raise {D = NodeTables} o (node_not_found i) (statement w).1).1.db ≡ w.db
    failed w (some n) e q k = cc
    failed w none e q k =
        let (t', met, last) = try_write_ok database change w none q in
        ap (λ (x : World NodeTables). x.db) last ∙ rotate_epoch_unmet i token_hash now w.db t' met

ruleset node_rules = (revert_rules, get_node-Same)

pub register_node-Reverts : (cmd : RegisterNodeCommand) → Reverts (register_node cmd)
unfolding register_node
register_node-Reverts cmd = search node_rules depth 10

pub record_heartbeat-Reverts : (cmd : HeartbeatCommand) → Reverts (record_heartbeat cmd)
unfolding record_heartbeat
record_heartbeat-Reverts cmd = search (node_rules, apply_heartbeat-Reverts) depth 10

pub set_drain-Reverts :
    (i : ℕ) (drains : Bool) (reason : Option String) → Reverts (set_drain i drains reason)
unfolding set_drain
set_drain-Reverts i drains reason = search node_rules depth 10

pub set_enabled-Reverts :
    (i : ℕ) (enabled : Bool) (reason : Option String) → Reverts (set_enabled i enabled reason)
unfolding set_enabled
set_enabled-Reverts i enabled reason = search node_rules depth 10

pub rotate_node_identity-Reverts :
    (i : ℕ) (token_hash : String) → Reverts (rotate_node_identity i token_hash)
unfolding rotate_node_identity
rotate_node_identity-Reverts i token_hash = search (node_rules, rotate-Reverts) depth 10
