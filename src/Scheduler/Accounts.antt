-- ===== src/Scheduler/Accounts.antt =====
-- The operations of src/scheduler.rs and src/node_registry.rs as steps that keep the tables sound.
use hostinger.Prelude.{
  ℕ, ◌^◌, ◌<◌, String, ◌≡◌, refl, sym, subst, Bool, Option, none, some, List, [], ◌∷◌, All,
}
use hostinger.Prelude.Order.{All-order_by_desc}
use hostinger.Prelude.Rows.{All-map, All-select}
use hostinger.Exec.{or_raise, read, try_write, update_db, now_utc, ◌>>=◌}
use hostinger.Exec.Moves.{
  IsPreorder, Preserves, Preserves-IsPreorder, Moves, Moves-write, Moves-read, Moves-bind,
  Moves-bind_known, Moves-now_utc, try_write_at, moves_rules,
}
use hostinger.Exec.Outcomes.{read_ok}
use hostinger.Nodes.Record.{PlacementRow}
use hostinger.Nodes.Tables.{NodeTables}
use hostinger.Nodes.Steps.{discharged-RowSteps}
use hostinger.Scheduler.Placement.{
  SchedulerError, database, placement_not_found, discharged, update_usage, update_placements,
  latest_placement, expired_placements,
}
use hostinger.Scheduler.Service.{
  free, for_release, placed_for, release_row, release_placement, expire_rows,
  reconcile_expired_leases,
}
use hostinger.Scheduler.Capacity.{IsModest, discharged-IsWithin}
use hostinger.Scheduler.Soundness.{IsSound, update_usage-IsSound, update_placements-IsSound}

abbrev pub Sound : NodeTables → NodeTables → Type 0
Sound = Preserves IsSound

pub Sound-IsPreorder : IsPreorder Sound
Sound-IsPreorder = Preserves-IsPreorder IsSound

update_placements-Sound :
    (p : PlacementRow → Bool) (status : String) (now : ℕ)
    → Moves {E = SchedulerError} Sound (update_db database (update_placements p status now))
update_placements-Sound p status now =
    Moves-write Sound-IsPreorder database _ (λ t s. update_placements-IsSound p status now t s)

update_usage-Sound :
    (i cpu mem now : ℕ)
    → cpu < 2 ^ 63
    → mem < 2 ^ 63
    → Moves {E = SchedulerError} Sound
        (try_write database (update_usage i (discharged cpu mem now)))
update_usage-Sound i cpu mem now c m = record {
  from = λ w. try_write_at Sound-IsPreorder database _ w (λ t' u e s.
      update_usage-IsSound i (discharged cpu mem now) w.db t' u
        (λ r r' _ _ h q. (
          discharged-IsWithin cpu mem now r r' c m h q,
          (discharged-RowSteps cpu mem now r r' q).0,
        ))
        e s);
}

ruleset sound_rules = (moves_rules, Sound-IsPreorder, update_placements-Sound, update_usage-Sound)

free-Sound :
    (p : PlacementRow → Bool) (status : String) (row : PlacementRow) (now : ℕ)
    → IsModest row
    → Moves Sound (free p status row now)
unfolding free
free-Sound p status row now (c, m) = search (sound_rules, c, m) depth 10

release_row-Sound : (i : ℕ) (row : PlacementRow) → IsModest row → Moves Sound (release_row i row)
unfolding release_row
release_row-Sound i row h =
    let freed = λ (now : ℕ). free-Sound (for_release i) "stopped" row now h in
    search (sound_rules, freed) depth 10

-- A placement that is read from sound tables.
abbrev Found : Option PlacementRow → Type 0
Found o = (row : PlacementRow) → o ≡ some row → IsModest row

latest-Found : (i : ℕ) (t : NodeTables) → IsSound t → Found (latest_placement i t)
unfolding latest_placement
latest-Found i t s row e =
    head _
      (All-order_by_desc _ IsModest _
        (All-map _ _ (λ p h. h.0) _ (All-select IsModest _ t.placements s.modest)))
      e
  where
    head :
        (ps : List PlacementRow)
        → All IsModest ps
        → elim ps [ [] ↦ none | p ∷ _ ↦ some p ] ≡ some row
        → IsModest row
    head [] h e = cc
    head (p ∷ ps) (h, _) e = let same : p ≡ row = cc in subst IsModest same h

pub release_placement-Sound : (i : ℕ) → Moves Sound (release_placement i)
unfolding release_placement
release_placement-Sound i =
    Moves-bind_known IsSound Found (read database (latest_placement i)) _
      (Moves-read Sound-IsPreorder database (latest_placement i))
      (λ w o e s.
        subst Found (sym (read_ok database (latest_placement i) w o e).1) (latest-Found i w.db s))
      found
  where
    found :
        (o : Option PlacementRow)
        → Found o
        → Moves Sound (or_raise o (placement_not_found i) >>= release_row i)
    found none h = search sound_rules depth 8
    found (some row) h =
        let freed = release_row-Sound i row (h row refl) in search (sound_rules, freed) depth 8

expire_rows-Sound :
    (done : List ℕ) (rows : List PlacementRow)
    → All IsModest rows
    → Moves Sound (expire_rows done rows)
unfolding expire_rows
expire_rows-Sound done [] h = search sound_rules
expire_rows-Sound done (row ∷ rows) (h, k) =
    let freed = λ (now : ℕ). free-Sound (placed_for row.release_id) "failed" row now h in
    let later = λ (done' : List ℕ). expire_rows-Sound done' rows k in
    search (sound_rules, freed, later) depth 10

pub reconcile-Sound : Moves Sound reconcile_expired_leases
unfolding reconcile_expired_leases expired_placements
reconcile-Sound = Moves-bind Sound-IsPreorder now_utc _ (Moves-now_utc Sound-IsPreorder) expired
  where
    expired : (now : ℕ) → Moves Sound (read database (expired_placements now) >>= expire_rows [])
    expired now =
        Moves-bind_known IsSound (All IsModest) (read database (expired_placements now)) _
          (Moves-read Sound-IsPreorder database (expired_placements now))
          (λ w rows e s.
            subst (All IsModest) (sym (read_ok database (expired_placements now) w rows e).1)
              (All-map _ _ (λ p h. h.0) _ (All-select IsModest _ w.db.placements s.modest)))
          (λ rows. expire_rows-Sound [] rows)
