-- ===== src/Scheduler/Capacity.antt =====
-- The capacity of the nodes under src/scheduler.rs: rows, statements and their bounds.
use hostinger.Prelude.{ℕ, suc, ◌+◌, ◌-◌, ◌^◌, ◌≤◌, ◌<◌, ◌≡◌, sym, subst, true, some, arith}
use hostinger.Prelude.Words.{i64_add, i64_greatest_sub, i32_succ, i32_greatest_pred}
use hostinger.Nodes.Record.{NodeRow, PlacementRow, from_pg_row}
use hostinger.Nodes.Steps.{charged_ok, discharged_ok}
use hostinger.Scheduler.Placement.{charged, discharged}
use hostinger.Scheduler.Score.{has_room}

-- The usage of a node is within its capacity, and both are BIGINTs that are not negative.
pub record IsWithin (r : NodeRow) : Type 0 where
  pub cpu : r.cpu_used_millicores ≤ r.cpu_total_millicores
  pub memory : r.memory_used_bytes ≤ r.memory_total_bytes
  pub releases : r.running_releases_count ≤ r.max_releases
  pub cpu_range : r.cpu_total_millicores < 2 ^ 63
  pub memory_range : r.memory_total_bytes < 2 ^ 63
  pub releases_range : r.max_releases < 2 ^ 31

-- What a placement has allocated is a BIGINT that is not negative.
abbrev pub IsModest : PlacementRow → Type 0
IsModest p = (p.cpu_allocated_millicores < 2 ^ 63) × (p.memory_allocated_bytes < 2 ^ 63)

i64_add_small : (a b c : ℕ) → a < 2 ^ 63 → b < 2 ^ 63 → i64_add a b ≡ some c → c ≡ a + b
i64_add_small a b c h k e = ground (arith, e, h, k)

i64_greatest_sub_small :
    (a b c : ℕ) → a < 2 ^ 63 → b < 2 ^ 63 → i64_greatest_sub a b ≡ some c → c ≡ a - b
i64_greatest_sub_small a b c h k e = ground (arith, e, h, k)

i32_succ_small : (a b : ℕ) → a < 2 ^ 31 → i32_succ a ≡ some b → b ≡ suc a
i32_succ_small a b h e = ground (arith, e, h)

i32_greatest_pred_small : (a b : ℕ) → a < 2 ^ 31 → i32_greatest_pred a ≡ some b → b ≡ a - 1
i32_greatest_pred_small a b h e = ground (arith, e, h)

-- The three tests of `has_room`, where the sums do not wrap.
pub room_left :
    (cpu mem : ℕ) (r : NodeRow)
    → cpu < 2 ^ 63
    → mem < 2 ^ 63
    → IsWithin r
    → has_room (from_pg_row r) cpu mem ≡ true
    → (r.cpu_used_millicores + cpu ≤ r.cpu_total_millicores)
      × (r.memory_used_bytes + mem ≤ r.memory_total_bytes)
      × (suc r.running_releases_count ≤ r.max_releases)
unfolding has_room from_pg_row
room_left cpu mem r c m h room = (
  ground (arith, room, c, h.cpu, h.cpu_range),
  ground (arith, room, m, h.memory, h.memory_range),
  ground (arith, room),
)

pub charged-IsWithin :
    (cpu mem now : ℕ) (r r' : NodeRow)
    → cpu < 2 ^ 63
    → mem < 2 ^ 63
    → has_room (from_pg_row r) cpu mem ≡ true
    → IsWithin r
    → charged cpu mem now r ≡ some r'
    → IsWithin r'
charged-IsWithin cpu mem now r r' c m room h e =
    let (a, b, n, ea, eb, en, same) = charged_ok cpu mem now r r' e in
    let (room_cpu, room_mem, room_more) = room_left cpu mem r c m h room in
    let is_a = i64_add_small r.cpu_used_millicores cpu a (omega (arith, h.cpu, h.cpu_range)) c ea in
    let is_b =
      i64_add_small r.memory_used_bytes mem b (omega (arith, h.memory, h.memory_range)) m eb in
    let is_n =
      i32_succ_small r.running_releases_count n (omega (arith, h.releases, h.releases_range)) en in
    subst IsWithin (sym same) (record {
      cpu = omega (arith, is_a, room_cpu);
      memory = omega (arith, is_b, room_mem);
      releases = omega (arith, is_n, room_more);
      cpu_range = h.cpu_range;
      memory_range = h.memory_range;
      releases_range = h.releases_range;
    })

pub discharged-IsWithin :
    (cpu mem now : ℕ) (r r' : NodeRow)
    → cpu < 2 ^ 63
    → mem < 2 ^ 63
    → IsWithin r
    → discharged cpu mem now r ≡ some r'
    → IsWithin r'
discharged-IsWithin cpu mem now r r' c m h e =
    let (a, b, n, ea, eb, en, same) = discharged_ok cpu mem now r r' e in
    let is_a =
      i64_greatest_sub_small r.cpu_used_millicores cpu a (omega (arith, h.cpu, h.cpu_range)) c ea in
    let is_b =
      i64_greatest_sub_small r.memory_used_bytes mem b (omega (arith, h.memory, h.memory_range)) m
        eb in
    let is_n =
      i32_greatest_pred_small r.running_releases_count n
        (omega (arith, h.releases, h.releases_range)) en in
    subst IsWithin (sym same) (record {
      cpu = omega (arith, is_a, h.cpu);
      memory = omega (arith, is_b, h.memory);
      releases = omega (arith, is_n, h.releases);
      cpu_range = h.cpu_range;
      memory_range = h.memory_range;
      releases_range = h.releases_range;
    })
