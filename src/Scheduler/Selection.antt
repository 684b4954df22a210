-- ===== src/Scheduler/Selection.antt =====
-- Where `schedule_release` of src/scheduler.rs puts a release.
use hostinger.Prelude.{ℕ, ◌≡◌, All, subst}
use hostinger.Exec.{ok, World}
use hostinger.Nodes.Record.{NodeRecord}
use hostinger.Nodes.Tables.{NodeTables}
use hostinger.Scheduler.Placement.{PlacementRequest, PlacementDecision}
use hostinger.Scheduler.Score.{Float}
use hostinger.Scheduler.Service.{schedule_release}
use hostinger.Scheduler.Candidates.{IsFit, IsRead, ranked-IsFit}
use hostinger.Scheduler.Choice.{PlacedOn, schedule_release_ok}

module _ {F : Type 0} (float : Float F) where
  -- Where `schedule_release` returns a decision, there is a node, read from a row of `nodes` that is
  -- online, enabled, not draining and seen within 60 seconds, that is one of the request's candidates
  -- (if it names any) and none of its anti-affinity nodes, and that has the room: with the request
  -- its usage, added as u64, is within its capacity, and it runs fewer releases than it may. The
  -- decision names it; and the tables have changed in two ways only: a new placement on it with a fresh id
  -- and the status 'placed' has been added, and its usage has been charged with the request.
  pub schedule_release-IsFit :
      (req : PlacementRequest) (lease : ℕ) (w : World NodeTables) (d : PlacementDecision)
      → (schedule_release float req lease w).0 ≡ ok d
      → (n : NodeRecord) × IsRead (w.env.time w.step) w.db n
        × IsFit req n
        × PlacedOn req n.id w.db (schedule_release float req lease w).1.db d
  schedule_release-IsFit req lease w d h =
      let (n, s, rest, first, done) = schedule_release_ok float req lease w d h in
      let ((read, fit), _) =
        subst
          (λ xs.
            All (λ (x : NodeRecord × F). IsRead (w.env.time w.step) w.db x.0 × IsFit req x.0) xs)
          first (ranked-IsFit float req (w.env.time w.step) w.db) in
      (n, read, fit, done)
