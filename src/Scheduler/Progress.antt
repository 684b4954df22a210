-- ===== src/Scheduler/Progress.antt =====
-- When `schedule_release` of src/scheduler.rs returns a decision.
use hostinger.Prelude.{
  ℕ, suc, ◌+◌, ◌*◌, ◌^◌, ◌<◌, some, ◌≡◌, refl, ap, ◌∙◌, subst, inl, inr, true, false, List, [], ◌∷◌,
  arith, All, any, ◌==◌, eq_iff, Bool-cases, Option-cases,
}
use hostinger.Prelude.Rows.{In, here, there, In-map, In-select, In-order_by}
use hostinger.Exec.{Result, ok, Env, World, next, pure, read, new_uuid, now_utc}
use hostinger.Exec.Progress.{bind_up}
use hostinger.Nodes.Record.{NodeRow, NodeRecord, PlacementRow, status_of, from_pg_row}
use hostinger.Nodes.Tables.{NodeTables, is_active_node, active_nodes}
use hostinger.Nodes.Registry.{as_secs, list_active_nodes}
use hostinger.Scheduler.Placement.{SchedulerError, PlacementRequest, PlacementDecision}
use hostinger.Scheduler.Score.{
  Float, is_open, has_room, is_candidate, balance, score_node, candidate_scores, sort_scored,
  insert_scored, goes_before,
}
use hostinger.Scheduler.Service.{
  end_of_time, lease_end, reserve, place_until, place_on, schedule_release,
}
use hostinger.Scheduler.Candidates.{IsFit, candidate-IsFit, IsRead, ranked, ranked-IsFit}
use hostinger.Scheduler.Soundness.{IsSound}
use hostinger.Scheduler.Feasible.{statements_pass, reserve_up}
use hostinger.Scheduler.Commitment.{Fits}

active_is_open :
    (now : ℕ) (r : NodeRow) → is_active_node 60 now r ≡ true → is_open (from_pg_row r) ≡ true
unfolding is_open from_pg_row status_of
active_is_open now r h =
    let online_text : r.status ≡ "online" = (eq_iff r.status "online").0 (ground (arith, h)) in
    let enabled : r.is_enabled ≡ true = ground (arith, h) in
    let not_draining : r.is_draining ≡ false = ground (arith, h) in
    rw (online_text, enabled, not_draining) refl

-- Some element comes first.
abbrev Starts : {A : Type 0} → List A → Type 0
Starts {A} xs = (x : A) × (rest : List A) × (xs ≡ x ∷ rest)

module _ {F : Type 0} (float : Float F) (req : PlacementRequest) where
  candidate_scores-Starts :
      {n : NodeRecord} {ns : List NodeRecord}
      → In n ns
      → IsFit req n
      → Starts (candidate_scores float req ns)
  unfolding candidate_scores score_node
  candidate_scores-Starts {n} (here {xs}) fit = (
    (n, balance float n req.required_cpu_millicores req.required_memory_bytes),
    candidate_scores float req xs,
    rw (fit.wanted, fit.open_now, fit.roomy) refl,
  )
  candidate_scores-Starts (there {y} {xs} i) fit =
      let (x, rest, e) = candidate_scores-Starts i fit in
      elim (Bool-cases (is_candidate req y)) [
        | inr c ↦ (x, rest, rw c e)
        | inl c ↦
            elim (Option-cases
              (score_node float y req.required_cpu_millicores req.required_memory_bytes)) [
                | inl q ↦ (x, rest, rw c (rw q e))
                | inr (s, q) ↦ ((y, s), candidate_scores float req xs, rw c (rw q refl))
              ]
      ]

  insert_scored-Starts :
      (a : NodeRecord × F) (xs : List (NodeRecord × F)) → Starts (insert_scored float a xs)
  unfolding insert_scored
  insert_scored-Starts a [] = (a, [], refl)
  insert_scored-Starts a (x ∷ xs) = elim (Bool-cases (goes_before float a x)) [
    | inl e ↦ (a, x ∷ xs, rw e refl)
    | inr e ↦ (x, insert_scored float a xs, rw e refl)
  ]

  sort_scored-Starts : (xs : List (NodeRecord × F)) → Starts xs → Starts (sort_scored float xs)
  unfolding sort_scored
  sort_scored-Starts [] (x, rest, e) = cc
  sort_scored-Starts (y ∷ ys) h = insert_scored-Starts y (sort_scored float ys)

  ranked-Starts :
      (now : ℕ) (t : NodeTables) (row : NodeRow)
      → In row t.nodes
      → is_active_node 60 now row ≡ true
      → IsFit req (from_pg_row row)
      → Starts (ranked float req now t)
  unfolding ranked active_nodes
  ranked-Starts now t row i active fit = sort_scored-Starts _ (
      candidate_scores-Starts
        (In-map from_pg_row (In-order_by _ (In-select (is_active_node 60 now) i active))) fit)

-- At interaction `k` the lease ends in the range of OffsetDateTime.
abbrev IsTimely : Env → ℕ → ℕ → Type 0
IsTimely env lease k =
    (as_secs lease < 2 ^ 63) × (env.time k + as_secs lease * 1_000_000_000 < end_of_time)

timely_end :
    (env : Env) (lease k : ℕ)
    → IsTimely env lease k
    → lease_end (env.time k) (as_secs lease) ≡ some (env.time k + as_secs lease * 1_000_000_000)
timely_end env lease k (short, soon) = ground (arith, short, soon)

module _ {F : Type 0} (float : Float F) where
  schedule_up :
      (req : PlacementRequest) (lease : ℕ) (w : World NodeTables)
      → w.env.fault (suc w.step) ≡ false
      → schedule_release float req lease w
        ≡ place_on req lease (ranked float req (w.env.time w.step) w.db) (next (next w))
  unfolding schedule_release list_active_nodes now_utc read ranked
  schedule_up req lease w up = rw up refl

  place_on_up :
      (req : PlacementRequest) (lease : ℕ) (w : World NodeTables)
      → ((n : ℕ) → w.env.fault n ≡ false)
      → Fits req
      → IsSound w.db
      → any (λ (q : PlacementRow). q.id == w.env.uuid (suc (suc (suc w.step)))) w.db.placements
        ≡ false
      → IsTimely w.env lease (suc (suc (suc (suc w.step))))
      → (row : NodeRow) (s : F) (rest : List (NodeRecord × F)) → In row w.db.nodes
      → has_room (from_pg_row row) req.required_cpu_millicores req.required_memory_bytes ≡ true
      → (d : PlacementDecision) × ((place_on req lease
            ((from_pg_row row, s) ∷ rest)
            (next (next w))).0
          ≡ ok d)
  unfolding place_on place_until new_uuid now_utc from_pg_row
  place_on_up req lease w up fits sound fresh timely row s rest present room =
      let k = suc (suc w.step) in
      let l = w.env.uuid k in
      let p = w.env.uuid (suc k) in
      let now = w.env.time (suc (suc k)) in
      let e = now + as_secs lease * 1_000_000_000 in
      let begun = w.env.time (suc (suc (suc k))) in
      let made : PlacementDecision = record {
        release_id = req.release_id;
        selected_node_id = row.id;
        lease_id = l;
        allocated_cpu_millicores = req.required_cpu_millicores;
        allocated_memory_bytes = req.required_memory_bytes;
        lease_expires_at = e;
      } in
      let (t, t', inserted, updated) =
        statements_pass req row l p e begun w.db fits sound present room fresh in
      let w₆ : World NodeTables = record w { step = suc (suc (suc (suc k))) } in
      let (w', ran) =
        reserve_up w up req row.id l p e begun (suc (suc (suc (suc k)))) t t' inserted updated in
      (
        made,
        rw (timely_end w.env lease (suc (suc k)) timely) (
            ap (λ (x : Result SchedulerError PlacementDecision × World NodeTables). x.0)
              (bind_up (reserve req row.id l p e begun) (λ _. pure made) w₆ w' tt ran)),
      )

  -- `schedule_release` returns a decision where no statement fails, the tables are sound, the request
  -- is below 2 ^ 63, the id that is drawn for the placement is new, and the lease, of less than
  -- 2 ^ 63 seconds, ends before year 10000, if a row of `nodes` is active and its node is allowed by
  -- the request and has the room for it.
  pub schedule_release_returns :
      (req : PlacementRequest) (lease : ℕ) (w : World NodeTables) (row : NodeRow)
      → ((n : ℕ) → w.env.fault n ≡ false)
      → Fits req
      → IsSound w.db
      → any (λ (q : PlacementRow). q.id == w.env.uuid (suc (suc (suc w.step)))) w.db.placements
        ≡ false
      → as_secs lease < 2 ^ 63
      → w.env.time (suc (suc (suc (suc w.step)))) + as_secs lease * 1_000_000_000 < end_of_time
      → In row w.db.nodes
      → is_active_node 60 (w.env.time w.step) row ≡ true
      → is_candidate req (from_pg_row row) ≡ true
      → has_room (from_pg_row row) req.required_cpu_millicores req.required_memory_bytes ≡ true
      → (d : PlacementDecision) × ((schedule_release float req lease w).0 ≡ ok d)
  schedule_release_returns req lease w row up fits sound fresh short soon present active wanted
        room =
      let now = w.env.time w.step in
      let fit : IsFit req (from_pg_row row) =
        candidate-IsFit req (from_pg_row row) wanted (active_is_open now row active) room in
      let ((n, s), rest, starts) = ranked-Starts float req now w.db row present active fit in
      let ((is_read, is_fit), _) =
        subst (λ xs. All (λ (x : NodeRecord × F). IsRead now w.db x.0 × IsFit req x.0) xs) starts
          (ranked-IsFit float req now w.db) in
      let chosen : n ≡ from_pg_row is_read.row = is_read.of_row in
      let (d, placed) =
        place_on_up req lease w up fits sound fresh (short, soon) is_read.row s rest is_read.present
          (subst (λ x. has_room x req.required_cpu_millicores req.required_memory_bytes ≡ true)
            chosen is_fit.roomy) in
      (
        d,
        ap (λ (x : Result SchedulerError PlacementDecision × World NodeTables). x.0)
              (schedule_up req lease w (up (suc w.step)))
            ∙ ap (λ xs. (place_on req lease xs (next (next w))).0)
                (starts ∙ ap (λ m. (m, s) ∷ rest) chosen)
            ∙ placed,
      )
