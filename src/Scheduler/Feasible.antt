-- ===== src/Scheduler/Feasible.antt =====
-- When the statements of a reservation in src/scheduler.rs pass.
use hostinger.Prelude.{
  ℕ, suc, ◌+◌, ◌^◌, ◌<◌, ◌≡◌, refl, sym, ◌∙◌, subst, inl, inr, Bool, true, false, Option, some,
  List, [], ◌∷◌, ◌++◌, arith, any, ◌==◌, ==→eq, ==_refl, Bool-cases,
}
use hostinger.Prelude.Words.{i64_add, i32_succ}
use hostinger.Prelude.Rows.{In, here, there, All-In, In-any}
use hostinger.Exec.{ok, World, next, try_write}
use hostinger.Exec.Progress.{try_write_up, transaction_up, bind_up}
use hostinger.Nodes.Record.{NodeRow, PlacementRow, from_pg_row}
use hostinger.Nodes.Tables.{NodeTables, has_node, update_checked}
use hostinger.Scheduler.Placement.{
  database, PlacementRequest, insert_placement, charged, update_usage,
}
use hostinger.Scheduler.Score.{has_room}
use hostinger.Scheduler.Service.{placement_of, reserve}
use hostinger.Scheduler.Capacity.{IsWithin, room_left}
use hostinger.Scheduler.Soundness.{IsSound, one_row}
use hostinger.Scheduler.Commitment.{Fits, cpu_fits, memory_fits}

charged-some :
    (cpu mem now : ℕ) (r : NodeRow)
    → cpu < 2 ^ 63
    → mem < 2 ^ 63
    → IsWithin r
    → has_room (from_pg_row r) cpu mem ≡ true
    → (r' : NodeRow) × (charged cpu mem now r ≡ some r')
charged-some cpu mem now r c m h room =
    let (room_cpu, room_mem, room_more) = room_left cpu mem r c m h room in
    let sum_cpu : i64_add r.cpu_used_millicores cpu ≡ some (r.cpu_used_millicores + cpu) =
      ground (arith, room_cpu, h.cpu_range, c) in
    let sum_mem : i64_add r.memory_used_bytes mem ≡ some (r.memory_used_bytes + mem) =
      ground (arith, room_mem, h.memory_range, m) in
    let one_more : i32_succ r.running_releases_count ≡ some (suc r.running_releases_count) =
      ground (arith, room_more, h.releases_range) in
    (
      record r {
        cpu_used_millicores = r.cpu_used_millicores + cpu;
        memory_used_bytes = r.memory_used_bytes + mem;
        running_releases_count = suc r.running_releases_count;
        updated_at = now;
      },
      rw (charged, sum_cpu, sum_mem, one_more) refl,
    )

update_checked-some :
    {A : Type 0} (p : A → Bool) (f : A → Option A) (xs : List A)
    → ((x : A) → In x xs → p x ≡ true → (y : A) × (f x ≡ some y))
    → (ys : List A) × (update_checked p f xs ≡ some ys)
update_checked-some p f [] h = ([], refl)
update_checked-some p f (x ∷ xs) h =
    let (ys, e) = update_checked-some p f xs (λ z i. h z (there i)) in
    elim (Bool-cases (p x)) [
      | inl met ↦ let (y, q) = h x here met in (y ∷ ys, ground (arith, met, q, e))
      | inr unmet ↦ (x ∷ ys, ground (arith, unmet, e))
    ]

-- The two statements of a reservation.
pub statements_pass :
    (req : PlacementRequest) (row : NodeRow) (l p e now : ℕ) (t : NodeTables)
    → Fits req
    → IsSound t
    → In row t.nodes
    → has_room (from_pg_row row) req.required_cpu_millicores req.required_memory_bytes ≡ true
    → any (λ (q : PlacementRow). q.id == p) t.placements ≡ false
    → (s t' : NodeTables) × (insert_placement (placement_of req row.id l p e now) t ≡ some (tt, s))
      × (update_usage row.id (charged req.required_cpu_millicores req.required_memory_bytes now) s
          ≡ some (tt, t'))
unfolding insert_placement update_usage
statements_pass req row l p e now t fits sound present room fresh =
    let known : any (has_node row.id) t.nodes ≡ true =
      In-any (has_node row.id) present (==_refl row.id) in
    let (rows, changed) = update_checked-some (has_node row.id) charge t.nodes chargeable in
    let s : NodeTables = record t {
      placements = t.placements ++ placement_of req row.id l p e now ∷ [];
    } in
    (s, record s { nodes = rows }, rw fresh (rw known refl), rw (update_usage, changed) refl)
  where
    charge : NodeRow → Option NodeRow
    charge = charged req.required_cpu_millicores req.required_memory_bytes now

    chargeable :
        (r : NodeRow)
        → In r t.nodes
        → has_node row.id r ≡ true
        → (r' : NodeRow) × (charge r ≡ some r')
    chargeable r i met =
        let same : row ≡ r = one_row present i sound.distinct (sym (==→eq r.id row.id met)) in
        charged-some req.required_cpu_millicores req.required_memory_bytes now r (cpu_fits req fits)
          (memory_fits req fits) (All-In IsWithin i sound.within)
          (subst
            (λ x.
              has_room (from_pg_row x) req.required_cpu_millicores req.required_memory_bytes ≡ true)
            same room)

module _ (w : World NodeTables) (up : (n : ℕ) → w.env.fault n ≡ false) where
  pub reserve_up :
      (req : PlacementRequest) (i l p e now : ℕ) (k : ℕ) (s t' : NodeTables)
      → insert_placement (placement_of req i l p e now) w.db ≡ some (tt, s)
      → update_usage i (charged req.required_cpu_millicores req.required_memory_bytes now) s
        ≡ some (tt, t')
      → (w' : World NodeTables) × (reserve req i l p e now (record w { step = k }) ≡ (ok tt, w'))
  unfolding reserve
  reserve_up req i l p e now k s t' inserted updated =
      let insertion = insert_placement (placement_of req i l p e now) in
      let charge =
        update_usage i (charged req.required_cpu_millicores req.required_memory_bytes now) in
      let w₁ : World NodeTables = record w { step = suc (suc k); db = s } in
      let w₂ : World NodeTables = record w { step = suc (suc (suc k)); db = t' } in
      let first =
        try_write_up database insertion (record w { step = suc k }) tt s (up (suc k)) inserted in
      let second = try_write_up database charge w₁ tt t' (up (suc (suc k))) updated in
      let both =
        bind_up (try_write database insertion) (λ _. try_write database charge)
          (record w { step = suc k }) w₁ tt first in
      (
        next w₂,
        transaction_up database _ (record w { step = k }) w₂ tt (up k) (both ∙ second)
            (up (suc (suc (suc k)))),
      )
