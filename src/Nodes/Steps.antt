-- ===== src/Nodes/Steps.antt =====
-- Each statement on `nodes` in src/node_registry.rs and src/scheduler.rs as steps of its rows.
use hostinger.Prelude.{
  ℕ, String, ◌≡◌, refl, ap, subst, inl, inr, Bool, Option, some, arith, find, Option-cases,
}
use hostinger.Prelude.Words.{i64_add, i64_succ, i64_greatest_sub, i32_succ, i32_greatest_pred}
use hostinger.Prelude.Rows.{Grows-append, Grows-update}
use hostinger.Agent.Commands.{RegisterNodeCommand, HeartbeatCommand, NodeStatus}
use hostinger.Nodes.Record.{NodeRow, NodeEventRecord, PlacementRow}
use hostinger.Nodes.Tables.{
  NodeTables, has_node, update_checked, update_nodes, new_node, registered_again, upsert_node, beat,
  rotated, rotate_epoch, insert_event,
}
use hostinger.Nodes.Registry.{drained, enabled_row, with_node_status}
use hostinger.Nodes.History.{NodeStep, node_history, NodesGrow, RowSteps, update_checked-Grows}
use hostinger.Scheduler.Placement.{insert_placement, charged, discharged, update_usage}

same_epoch-NodeStep : (r r' : NodeRow) → r'.id ≡ r.id → r'.epoch ≡ r.epoch → NodeStep r r'
same_epoch-NodeStep r r' i e = (i, λ h. (omega (arith, h, e), omega (arith, e)))

pub beat-RowSteps : (cmd : HeartbeatCommand) (now : ℕ) → RowSteps (beat cmd now)
beat-RowSteps cmd now r r' h = elim (Option-cases (i64_succ r.version)) [
  | inl e ↦ absurd (ground (arith, h, e))
  | inr (v, e) ↦ same_epoch-NodeStep r r' (ground (arith, h, e)) (ground (arith, h, e))
]

pub drained-RowSteps : (drains : Bool) (now : ℕ) → RowSteps (drained drains now)
drained-RowSteps drains now r r' h =
    same_epoch-NodeStep r r' (ground (arith, h)) (ground (arith, h))

pub enabled-RowSteps : (enabled : Bool) (now : ℕ) → RowSteps (enabled_row enabled now)
enabled-RowSteps enabled now r r' h =
    same_epoch-NodeStep r r' (ground (arith, h)) (ground (arith, h))

pub status-RowSteps : (status : NodeStatus) (now : ℕ) → RowSteps (with_node_status status now)
status-RowSteps status now r r' h = same_epoch-NodeStep r r' (ground (arith, h)) (ground (arith, h))

-- The three sums of a change of usage succeeded.
pub charged_ok :
    (cpu mem now : ℕ) (r r' : NodeRow)
    → charged cpu mem now r ≡ some r'
    → (c m n : ℕ) × (i64_add r.cpu_used_millicores cpu ≡ some c)
      × (i64_add r.memory_used_bytes mem ≡ some m)
      × (i32_succ r.running_releases_count ≡ some n)
      × (r' ≡ record r {
        cpu_used_millicores = c;
        memory_used_bytes = m;
        running_releases_count = n;
        updated_at = now;
      })
charged_ok cpu mem now r r' h = elim (Option-cases (i64_add r.cpu_used_millicores cpu)) [
  | inl e ↦ absurd (ground (arith, h, e))
  | inr (c, e) ↦ elim (Option-cases (i64_add r.memory_used_bytes mem)) [
    | inl e' ↦ absurd (ground (arith, h, e, e'))
    | inr (m, e') ↦ elim (Option-cases (i32_succ r.running_releases_count)) [
      | inl e'' ↦ absurd (ground (arith, h, e, e', e''))
      | inr (n, e'') ↦ (c, m, n, e, e', e'', ground (arith, h, e, e', e''))
    ]
  ]
]

pub discharged_ok :
    (cpu mem now : ℕ) (r r' : NodeRow)
    → discharged cpu mem now r ≡ some r'
    → (c m n : ℕ) × (i64_greatest_sub r.cpu_used_millicores cpu ≡ some c)
      × (i64_greatest_sub r.memory_used_bytes mem ≡ some m)
      × (i32_greatest_pred r.running_releases_count ≡ some n)
      × (r' ≡ record r {
        cpu_used_millicores = c;
        memory_used_bytes = m;
        running_releases_count = n;
        updated_at = now;
      })
discharged_ok cpu mem now r r' h =
    elim (Option-cases (i64_greatest_sub r.cpu_used_millicores cpu)) [
      | inl e ↦ absurd (ground (arith, h, e))
      | inr (c, e) ↦ elim (Option-cases (i64_greatest_sub r.memory_used_bytes mem)) [
        | inl e' ↦ absurd (ground (arith, h, e, e'))
        | inr (m, e') ↦ elim (Option-cases (i32_greatest_pred r.running_releases_count)) [
          | inl e'' ↦ absurd (ground (arith, h, e, e', e''))
          | inr (n, e'') ↦ (c, m, n, e, e', e'', ground (arith, h, e, e', e''))
        ]
      ]
    ]

pub charged-RowSteps : (cpu mem now : ℕ) → RowSteps (charged cpu mem now)
charged-RowSteps cpu mem now r r' h =
    let (c, m, n, _, _, _, e) = charged_ok cpu mem now r r' h in
    same_epoch-NodeStep r r' (ap (λ (x : NodeRow). x.id) e) (ap (λ (x : NodeRow). x.epoch) e)

pub discharged-RowSteps : (cpu mem now : ℕ) → RowSteps (discharged cpu mem now)
discharged-RowSteps cpu mem now r r' h =
    let (c, m, n, _, _, _, e) = discharged_ok cpu mem now r r' h in
    same_epoch-NodeStep r r' (ap (λ (x : NodeRow). x.id) e) (ap (λ (x : NodeRow). x.epoch) e)

pub rotated_ok :
    (token_hash : String) (now : ℕ) (r r' : NodeRow)
    → rotated token_hash now r ≡ some r'
    → (i64_succ r.epoch ≡ some r'.epoch) × (r'.id ≡ r.id)
rotated_ok token_hash now r r' h = elim (Option-cases (i64_succ r.epoch)) [
  | inl e ↦ absurd (ground (arith, h, e))
  | inr (v, e) ↦ (ground (arith, h, e), ground (arith, h, e))
]

pub rotated-RowSteps : (token_hash : String) (now : ℕ) → RowSteps (rotated token_hash now)
rotated-RowSteps token_hash now r r' h =
    let (e, i) = rotated_ok token_hash now r r' h in
    (i, λ small. (ground (arith, e, small), ground (arith, e, small)))

-- The statements.
pub update_nodes-Grows :
    (p : NodeRow → Bool) (f : NodeRow → Option NodeRow)
    → RowSteps f
    → (t t' : NodeTables) (met : Bool) → update_nodes p f t ≡ some (met, t')
    → NodesGrow t.nodes t'.nodes
unfolding update_nodes
update_nodes-Grows p f step t t' met h = elim (Option-cases (update_checked p f t.nodes)) [
  | inl e ↦ absurd (ground (arith, h, e))
  | inr (rows, e) ↦
      let same : rows ≡ t'.nodes = ground (arith, h, e) in
      subst (λ x. NodesGrow t.nodes x) same (update_checked-Grows p f step t.nodes rows e)
]

pub update_usage-Grows :
    (i : ℕ) (f : NodeRow → Option NodeRow)
    → RowSteps f
    → (t t' : NodeTables) (a : Unit {0}) → update_usage i f t ≡ some (a, t')
    → NodesGrow t.nodes t'.nodes
unfolding update_usage
update_usage-Grows i f step t t' a h = elim (Option-cases (update_checked (has_node i) f t.nodes)) [
  | inl e ↦ absurd (ground (arith, h, e))
  | inr (rows, e) ↦
      let same : rows ≡ t'.nodes = ground (arith, h, e) in
      subst (λ x. NodesGrow t.nodes x) same
        (update_checked-Grows (has_node i) f step t.nodes rows e)
]

pub rotate_epoch-Grows :
    (i : ℕ) (token_hash : String) (now : ℕ) (t t' : NodeTables) (a : Option ℕ)
    → rotate_epoch i token_hash now t ≡ some (a, t')
    → NodesGrow t.nodes t'.nodes
unfolding rotate_epoch
rotate_epoch-Grows i token_hash now t t' a h =
    elim (Option-cases (update_checked (has_node i) (rotated token_hash now) t.nodes)) [
      | inl e ↦ absurd (ground (arith, h, e))
      | inr (rows, e) ↦
          let same : rows ≡ t'.nodes = ground (arith, h, e) in
          subst (λ x. NodesGrow t.nodes x) same
            (update_checked-Grows (has_node i) (rotated token_hash now)
              (rotated-RowSteps token_hash now) t.nodes rows e)
    ]

pub upsert_node-Grows :
    (cmd : RegisterNodeCommand) (now : ℕ) (t : NodeTables)
    → NodesGrow t.nodes (upsert_node cmd now t).1.nodes
unfolding upsert_node
upsert_node-Grows cmd now t = elim (Option-cases (find (has_node cmd.node_id) t.nodes)) [
  | inl e ↦
      rw (upsert_node, e)
        (Grows-append node_history t.nodes (new_node cmd now) (omega arith, omega arith))
  | inr (r, e) ↦
      rw (upsert_node, e)
        (Grows-update node_history (has_node cmd.node_id) (registered_again cmd now)
          (λ r. same_epoch-NodeStep r (registered_again cmd now r) refl refl) t.nodes)
]

pub insert_event_nodes :
    (row : NodeEventRecord) (t t' : NodeTables) (a : Unit {0})
    → insert_event row t ≡ some (a, t')
    → t'.nodes ≡ t.nodes
unfolding insert_event
insert_event_nodes row t t' a h = ground arith

pub insert_placement_nodes :
    (row : PlacementRow) (t t' : NodeTables) (a : Unit {0})
    → insert_placement row t ≡ some (a, t')
    → t'.nodes ≡ t.nodes
unfolding insert_placement
insert_placement_nodes row t t' a h = ground arith
