-- ===== src/Scheduler/Usage.antt =====
-- The operations of src/node_registry.rs that leave usage and capacity alone.
use hostinger.Prelude.{
  ℕ, String, ◌≡◌, refl, subst, inl, inr, Bool, Option, some, List, [], ◌∷◌, arith, Option-cases,
}
use hostinger.Prelude.Words.{i64_succ}
use hostinger.Exec.{try_write}
use hostinger.Exec.Moves.{Moves, try_write_at, moves_rules}
use hostinger.Agent.Commands.{NodeStatus}
use hostinger.Nodes.Record
use hostinger.Nodes.Record.{
  NodeRegistryError, NodeRow, NodeRecord, NodeEventRecord, PlacementRow, from_pg_row,
}
use hostinger.Nodes.Tables.{update_nodes, rotated, rotate_epoch, insert_event}
use hostinger.Nodes.Registry.{
  drained, enabled_row, with_node_status, get_node, log_event, set_drain, set_enabled,
  rotate_node_identity, demote, demote_all, evaluate_health_and_expiry,
}
use hostinger.Scheduler.Capacity.{IsWithin}
use hostinger.Scheduler.Soundness.{update_nodes-IsSound, rotate_epoch-IsSound, insert_event-IsSound}
use hostinger.Scheduler.Accounts.{Sound, Sound-IsPreorder}

-- A change of a row that its capacity and usage do not notice.
abbrev SameUsage : (NodeRow → Option NodeRow) → Type 0
SameUsage f = (r r' : NodeRow) → IsWithin r → f r ≡ some r' → IsWithin r' × (r'.id ≡ r.id)

changed-SameUsage :
    (f : NodeRow → NodeRow)
    → ((r : NodeRow) → IsWithin r → IsWithin (f r) × ((f r).id ≡ r.id))
    → SameUsage (λ r. some (f r))
changed-SameUsage f k r r' h e =
    let same : f r ≡ r' = cc in subst (λ x. IsWithin x × (x.id ≡ r.id)) same (k r h)

within :
    (r r' : NodeRow)
    → IsWithin r
    → r'.cpu_used_millicores ≡ r.cpu_used_millicores
    → r'.memory_used_bytes ≡ r.memory_used_bytes
    → r'.running_releases_count ≡ r.running_releases_count
    → r'.cpu_total_millicores ≡ r.cpu_total_millicores
    → r'.memory_total_bytes ≡ r.memory_total_bytes
    → r'.max_releases ≡ r.max_releases
    → IsWithin r'
within r r' h a b c d e f = record {
  cpu = omega (arith, h.cpu, a, d);
  memory = omega (arith, h.memory, b, e);
  releases = omega (arith, h.releases, c, f);
  cpu_range = omega (arith, h.cpu_range, d);
  memory_range = omega (arith, h.memory_range, e);
  releases_range = omega (arith, h.releases_range, f);
}

drained-SameUsage : (drains : Bool) (now : ℕ) → SameUsage (drained drains now)
drained-SameUsage drains now =
    changed-SameUsage _ (λ r h. (within r _ h refl refl refl refl refl refl, refl))

enabled-SameUsage : (enabled : Bool) (now : ℕ) → SameUsage (enabled_row enabled now)
enabled-SameUsage enabled now =
    changed-SameUsage _ (λ r h. (within r _ h refl refl refl refl refl refl, refl))

status-SameUsage : (status : NodeStatus) (now : ℕ) → SameUsage (with_node_status status now)
status-SameUsage status now =
    changed-SameUsage _ (λ r h. (within r _ h refl refl refl refl refl refl, refl))

rotated-SameUsage : (token_hash : String) (now : ℕ) → SameUsage (rotated token_hash now)
rotated-SameUsage token_hash now r r' h e = elim (Option-cases (i64_succ r.epoch)) [
  | inl q ↦ absurd (ground (arith, e, q))
  | inr (v, q) ↦
      let same : record r { epoch = v; token_hash = token_hash; updated_at = now } ≡ r' =
        ground (arith, e, q) in
      subst (λ x. IsWithin x × (x.id ≡ r.id)) same
        (within r _ h refl refl refl refl refl refl, refl)
]

update_nodes-Sound :
    (p : NodeRow → Bool) (f : NodeRow → Option NodeRow)
    → SameUsage f
    → Moves {E = NodeRegistryError} Sound (try_write Record.database (update_nodes p f))
update_nodes-Sound p f k = record {
  from = λ w.
      try_write_at Sound-IsPreorder Record.database _ w
        (λ t' b e s. update_nodes-IsSound p f w.db t' b (λ r r' _ _ h q. k r r' h q) e s);
}

rotate_epoch-Sound :
    (i : ℕ) (token_hash : String) (now : ℕ)
    → Moves {E = NodeRegistryError} Sound
        (try_write Record.database (rotate_epoch i token_hash now))
rotate_epoch-Sound i token_hash now = record {
  from = λ w. try_write_at Sound-IsPreorder Record.database _ w (λ t' o e s.
      rotate_epoch-IsSound i token_hash now w.db t' o
        (λ r r' _ _ h q. rotated-SameUsage token_hash now r r' h q) e s);
}

insert_event-Sound :
    (row : NodeEventRecord)
    → Moves {E = NodeRegistryError} Sound (try_write Record.database (insert_event row))
insert_event-Sound row = record {
  from = λ w.
      try_write_at Sound-IsPreorder Record.database _ w
        (λ t' u e s. insert_event-IsSound row w.db t' u e s);
}

ruleset registry_rules = (
  moves_rules, Sound-IsPreorder, update_nodes-Sound, rotate_epoch-Sound, insert_event-Sound,
  drained-SameUsage, enabled-SameUsage, status-SameUsage,
)

pub set_drain-Sound :
    (i : ℕ) (drains : Bool) (reason : Option String) → Moves Sound (set_drain i drains reason)
unfolding set_drain get_node log_event
set_drain-Sound i drains reason = search registry_rules depth 14

pub set_enabled-Sound :
    (i : ℕ) (enabled : Bool) (reason : Option String) → Moves Sound (set_enabled i enabled reason)
unfolding set_enabled get_node log_event
set_enabled-Sound i enabled reason = search registry_rules depth 14

pub rotate_node_identity-Sound :
    (i : ℕ) (token_hash : String) → Moves Sound (rotate_node_identity i token_hash)
unfolding rotate_node_identity
rotate_node_identity-Sound i token_hash = search registry_rules depth 14

demote-Sound : (timeout now : ℕ) (node : NodeRecord) → Moves Sound (demote timeout now node)
unfolding demote log_event
demote-Sound timeout now node = search registry_rules depth 14

demote_all-Sound :
    (timeout now transitioned : ℕ) (rows : List NodeRow)
    → Moves Sound (demote_all timeout now transitioned rows)
unfolding demote_all
demote_all-Sound timeout now transitioned [] = search registry_rules
demote_all-Sound timeout now transitioned (row ∷ rows) =
    let later = λ (n : ℕ). demote_all-Sound timeout now n rows in
    search (registry_rules, demote-Sound, later) depth 8

pub evaluate-Sound : (timeout : ℕ) → Moves Sound (evaluate_health_and_expiry timeout)
unfolding evaluate_health_and_expiry
evaluate-Sound timeout = search (registry_rules, demote_all-Sound) depth 10
