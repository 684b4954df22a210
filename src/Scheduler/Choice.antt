-- ===== src/Scheduler/Choice.antt =====
-- What `schedule_release` of src/scheduler.rs did where it returned.
use hostinger.Prelude.{
  ℕ, suc, ◌≡◌, refl, sym, ap, ◌∙◌, subst, inl, inr, false, some, List, [], ◌∷◌, ◌++◌, arith, any,
  ◌==◌, Bool-cases, Option-cases,
}
use hostinger.Exec.{ok, World, next, pure, read, try_write, new_uuid, now_utc, ◌>>=◌}
use hostinger.Exec.Outcomes.{bind_ok, try_write_ok, transaction_ok}
use hostinger.Nodes.Record.{NodeRecord, PlacementRow}
use hostinger.Nodes.Tables.{NodeTables, has_node, update_checked}
use hostinger.Nodes.Registry.{as_secs, list_active_nodes}
use hostinger.Scheduler.Placement.{
  SchedulerError, database, PlacementRequest, PlacementDecision, insert_placement, charged,
  update_usage,
}
use hostinger.Scheduler.Score.{Float}
use hostinger.Scheduler.Service.{
  lease_end, placement_of, reserve, place_until, place_on, schedule_release,
}
use hostinger.Scheduler.Candidates.{ranked}

-- The tables after a placement: the new row, and its node charged.
pub record Reserved (req : PlacementRequest) (i l p e now : ℕ) (t t' : NodeTables) : Type 0 where
  pub fresh : any (λ (q : PlacementRow). q.id == p) t.placements ≡ false
  pub placed_row : t'.placements ≡ t.placements ++ placement_of req i l p e now ∷ []
  pub node_charged :
      update_checked
        (has_node i)
        (charged req.required_cpu_millicores req.required_memory_bytes now)
        t.nodes
      ≡ some t'.nodes
  pub no_event : t'.node_events ≡ t.node_events

statements-Reserved :
    (req : PlacementRequest) (i l p e now : ℕ) (t s t' : NodeTables) (u v : Unit {0})
    → insert_placement (placement_of req i l p e now) t ≡ some (u, s)
    → update_usage i (charged req.required_cpu_millicores req.required_memory_bytes now) s
      ≡ some (v, t')
    → Reserved req i l p e now t t'
unfolding insert_placement update_usage
statements-Reserved req i l p e now t s t' u v h k =
    elim (Bool-cases (any (λ (q : PlacementRow). q.id == p) t.placements)) [
      | inl a ↦ absurd (ground (arith, h, a))
      | inr a ↦
          let same : s
              ≡ record t { placements = t.placements ++ placement_of req i l p e now ∷ [] } =
            ground (arith, h, a) in
          elim (Option-cases (
            update_checked (has_node i)
              (charged req.required_cpu_millicores req.required_memory_bytes now) t.nodes)) [
                | inl q ↦ absurd (ground (arith, k, same, q))
                | inr (rows, q) ↦ record {
                  fresh = a;
                  placed_row = ground (arith, k, same, q);
                  node_charged = ground (arith, k, same, q);
                  no_event = ground (arith, k, same, q);
                }
              ]
    ]

reserve_ok :
    (req : PlacementRequest) (i l p e now : ℕ) (w : World NodeTables) (u : Unit {0})
    → (reserve req i l p e now w).0 ≡ ok u
    → Reserved req i l p e now w.db (reserve req i l p e now w).1.db
unfolding reserve
reserve_ok req i l p e now w u h =
    let insertion = insert_placement (placement_of req i l p e now) in
    let charge =
      update_usage i (charged req.required_cpu_millicores req.required_memory_bytes now) in
    let (ran, last) =
      transaction_ok database (try_write database insertion >>= λ _. try_write database charge) w u
        h in
    let (v, first_ran, second_ran, after) =
      bind_ok (try_write database insertion) (λ _. try_write database charge) (next w) u ran in
    let (s, inserted, at_s) = try_write_ok database insertion (next w) v first_ran in
    let (t', updated, at_t) =
      try_write_ok database charge (try_write database insertion (next w)).1 u second_ran in
    subst (λ t. Reserved req i l p e now w.db t)
      (sym (last ∙ ap (λ (x : World NodeTables). x.db) (after ∙ at_t)))
      (statements-Reserved req i l p e now w.db s t' v u inserted (rw at_s at updated))

-- What a placement on one node returned.
pub record PlacedOn (req : PlacementRequest) (i : ℕ) (t t' : NodeTables) (d : PlacementDecision)
    : Type 0 where
  pub placement_id : ℕ
  pub begun : ℕ
  pub reserved : Reserved req i d.lease_id placement_id d.lease_expires_at begun t t'
  pub for_request : d.release_id ≡ req.release_id
  pub selected : d.selected_node_id ≡ i
  pub cpu : d.allocated_cpu_millicores ≡ req.required_cpu_millicores
  pub memory : d.allocated_memory_bytes ≡ req.required_memory_bytes

place_until_ok :
    (req : PlacementRequest) (i l p e : ℕ) (w : World NodeTables) (d : PlacementDecision)
    → (place_until req i l p e w).0 ≡ ok d
    → PlacedOn req i w.db (place_until req i l p e w).1.db d
unfolding place_until now_utc
place_until_ok req i l p e w d h =
    let begun = w.env.time w.step in
    let made : PlacementDecision = record {
      release_id = req.release_id;
      selected_node_id = i;
      lease_id = l;
      allocated_cpu_millicores = req.required_cpu_millicores;
      allocated_memory_bytes = req.required_memory_bytes;
      lease_expires_at = e;
    } in
    let (u, ran, returned, last) =
      bind_ok (reserve req i l p e begun) (λ _. pure {E = SchedulerError} made) (next w) d h in
    let is_made : made ≡ d = cc in
    let done : Reserved req i l p e begun w.db (reserve req i l p e begun (next w)).1.db =
      reserve_ok req i l p e begun (next w) u ran in
    subst (λ x. PlacedOn req i w.db (place_until req i l p e w).1.db x) is_made
      (record {
        placement_id = p;
        begun = begun;
        reserved =
            subst (λ (x : World NodeTables). Reserved req i l p e begun w.db x.db) (sym last) done;
        for_request = refl;
        selected = refl;
        cpu = refl;
        memory = refl;
      })

module _ {F : Type 0} (float : Float F) where
  place_on_ok :
      (req : PlacementRequest) (lease : ℕ) (xs : List (NodeRecord × F)) (w : World NodeTables)
      (d : PlacementDecision)
      → (place_on req lease xs w).0 ≡ ok d
      → (n : NodeRecord) × (s : F) × (rest : List (NodeRecord × F)) × (xs ≡ (n, s) ∷ rest)
        × PlacedOn req n.id w.db (place_on req lease xs w).1.db d
  unfolding place_on new_uuid now_utc
  place_on_ok req lease [] w d h = cc
  place_on_ok req lease ((n, s) ∷ rest) w d h =
      let l = w.env.uuid w.step in
      let p = w.env.uuid (suc w.step) in
      elim (Option-cases (lease_end (w.env.time (suc (suc w.step))) (as_secs lease))) [
        | inl q ↦ absurd (ground (arith, h, q))
        | inr (e, q) ↦ (
          n,
          s,
          rest,
          refl,
          rw q (place_until_ok req n.id l p e (next (next (next w))) d (rw q at h)),
        )
      ]

  -- The first of the ranked candidates got the placement.
  pub schedule_release_ok :
      (req : PlacementRequest) (lease : ℕ) (w : World NodeTables) (d : PlacementDecision)
      → (schedule_release float req lease w).0 ≡ ok d
      → (n : NodeRecord) × (s : F) × (rest : List (NodeRecord × F)) × (ranked float req
            (w.env.time w.step)
            w.db
          ≡ (n, s) ∷ rest)
        × PlacedOn req n.id w.db (schedule_release float req lease w).1.db d
  unfolding schedule_release list_active_nodes now_utc read ranked
  schedule_release_ok req lease w d h = elim (Bool-cases (w.env.fault (suc w.step))) [
    | inl down ↦ absurd (ground (arith, h, down))
    | inr up ↦ rw up (place_on_ok req lease _ (next (next w)) d (rw up at h))
  ]
