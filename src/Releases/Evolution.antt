-- ===== src/Releases/Evolution.antt =====
-- Every operation of the controller is a history of the `releases` table, whatever fails on the way.
use hostinger.Prelude.{
  ℕ, String, ◌≡◌, refl, subst, inl, inr, true, Option, some, none, arith, find, Bool-cases,
}
use hostinger.Exec.{Result, ok, World, next, now_utc}
use hostinger.Exec.Moves.{Moves, bind_at, moves_rules, try_write_at, Moves-write, Moves-call}
use hostinger.Releases.Status.{ReleaseStatus, starting, as_str, parse, can_transition_to}
use hostinger.Releases.Record.{Release, ReleaseRow, ActiveRoute}
use hostinger.Releases.Tables.{
  Tables, has_id, insert_release, compare_and_set, insert_transition, upsert_route,
}
use hostinger.Releases.Controller.{
  Platform, statement, outside_call, execute, create_release, get_release, get_routed,
  get_active_release, swap_status, record_transition, commit_transition, checked_transition,
  transition, activate_traffic,
}
use hostinger.Releases.Reading.{statement_at, get_release_ok, get_release-next, Moves-get_release}
use hostinger.Releases.History.{Evolves, Evolves-refl, Evolving, Evolving-IsPreorder}
use hostinger.Releases.History.Statements.{
  insert_release-Evolves, insert_transition-Evolves, upsert_route-Evolves, Swapped-Evolves,
  compare_and_set_cases,
}
use hostinger.Traffic.{TrafficRouter}

module _ {X A : Type 0} where
  pub outside_call-Moves : (f : X → Result String A × X) → Moves Evolving (outside_call f)
  unfolding outside_call
  outside_call-Moves f = Moves-call Evolving-IsPreorder _ (λ p. Evolves-refl p.tables)

module _ {X : Type 0} where
  execute-Moves :
      (context : String) (f : Tables → Tables)
      → ((t : Tables) → Evolves t (f t))
      → Moves Evolving (execute {X = X} context f)
  execute-Moves context f h = Moves-write Evolving-IsPreorder _ _ (λ p. h p.tables)

  pub transition_log-Moves :
      (context : String) (row : _)
      → Moves Evolving (execute {X = X} context (insert_transition row))
  transition_log-Moves context row = execute-Moves context _ (insert_transition-Evolves row)

  pub upsert-Moves :
      (context : String) (route : _) → Moves Evolving (execute {X = X} context (upsert_route route))
  upsert-Moves context route = execute-Moves context _ (upsert_route-Evolves route)

  insert-Moves :
      (context : String) (row : ReleaseRow)
      → row.status ≡ as_str starting
      → row.version ≡ 1
      → Moves Evolving (statement {X = X} context (insert_release row))
  insert-Moves context row s v = record {
    from = λ w.
        statement_at Evolves Evolving-IsPreorder context (insert_release row) w
          (λ t' a e. insert_release-Evolves row w.db.tables t' (s, v) e);
  }

  pub ruleset evolving_rules = (
    moves_rules, Evolving-IsPreorder, outside_call-Moves, transition_log-Moves, upsert-Moves,
    Moves-get_release,
  )

  pub create_release-Evolves :
      (deployment_id project_id : ℕ) (environment : String) (container_id : Option String)
      (port : Option ℕ) (url : Option String)
      → Moves Evolving
          (create_release {X = X} deployment_id project_id environment container_id port url)
  unfolding create_release
  create_release-Evolves deployment_id project_id environment container_id port url =
      search (evolving_rules, insert-Moves) depth 8

-- The compare-and-set, from a state where a row at the expected version has the status that was
-- checked.
swap-Evolves :
    (i v : ℕ) (source target : ReleaseStatus) (now : ℕ) (t t' : Tables) (res : Option ReleaseRow)
    → can_transition_to source target ≡ true
    → ((row : ReleaseRow)
        → find (has_id i) t.releases ≡ some row
        → row.version ≡ v
        → parse row.status ≡ ok source)
    → compare_and_set i v (as_str target) now t ≡ some (res, t')
    → Evolves t t'
swap-Evolves i v source target now t t' res permitted checked e =
    elim (compare_and_set_cases i v (as_str target) now t t' res e) [
      | inl (none_met, unchanged) ↦ rw unchanged (Evolves-refl t)
      | inr (row, row', met, s) ↦ Swapped-Evolves i v (as_str target) now t t' row row' s (record {
        source = source;
        target = target;
        now = now;
        reads = checked row s.met s.at_version;
        permitted = permitted;
        result = refl;
      })
    ]

module _ {X : Type 0} where
  record_transition-Evolves :
      (i : ℕ) (current : Release) (v : ℕ) (target : ReleaseStatus) (reason : Option String)
      (now : ℕ) (res : Option ReleaseRow)
      → Moves Evolving (record_transition {X = X} i current v target reason now res)
  unfolding record_transition
  record_transition-Evolves i current v target reason now res = search evolving_rules depth 8

  -- The part of `transition` past its check, from a state that others may have changed since.
  pub commit-Evolves :
      (i : ℕ) (current : Release) (v : ℕ) (target : ReleaseStatus) (reason : Option String)
      (w : World (Platform X))
      → can_transition_to current.status target ≡ true
      → ((row : ReleaseRow)
          → find (has_id i) w.db.tables.releases ≡ some row
          → row.version ≡ v
          → parse row.status ≡ ok current.status)
      → Evolving w.db (commit_transition i current v target reason w).1.db
  unfolding commit_transition now_utc swap_status
  commit-Evolves i current v target reason w permitted checked =
      let now = w.env.time w.step in
      bind_at Evolving-IsPreorder (swap_status i v target now)
        (record_transition i current v target reason now) (next w)
        (statement_at Evolves Evolving-IsPreorder
          "failed to execute compare-and-set release transition"
          (compare_and_set i v (as_str target) now) (next w)
          (λ t' res.
            swap-Evolves i v current.status target now w.db.tables t' res permitted checked))
        (λ res _.
          (record_transition-Evolves i current v target reason now res).from
            (swap_status i v target now (next w)).1)

  pub transition-Evolves :
      (i v : ℕ) (target : ReleaseStatus) (reason : Option String)
      → Moves Evolving (transition {X = X} i v target reason)
  unfolding transition checked_transition
  transition-Evolves i v target reason = record {
    from = λ w.
        bind_at Evolving-IsPreorder (get_release i) (checked_transition i v target reason) w
          ((Moves-get_release Evolving-IsPreorder i).from w)
          (λ current read.
            let (row, met, s) = get_release_ok i w current read in
            elim (Bool-cases (can_transition_to current.status target)) [
              | inr no_edge ↦ rw no_edge (Evolves-refl _)
              | inl edge ↦ rw edge (
                  commit-Evolves i current v target reason (get_release i w).1 edge (λ row' met' _.
                    let found : find (has_id i) w.db.tables.releases ≡ some row' =
                      rw (get_release-next i w) at met' in
                    let unchanged : row ≡ row' = ground (arith, met) in
                    subst (λ (x : ReleaseRow). parse x.status ≡ ok current.status) unchanged
                      s.status_read))
            ]);
  }

module _ {X : Type 0} where
  get_routed-Evolves : (route : Option ActiveRoute) → Moves Evolving (get_routed {X = X} route)
  unfolding get_routed
  get_routed-Evolves none = search evolving_rules
  get_routed-Evolves (some route) = search evolving_rules

  pub get_active_release-Evolves :
      (project_id : ℕ) (environment : String)
      → Moves Evolving (get_active_release {X = X} project_id environment)
  unfolding get_active_release
  get_active_release-Evolves project_id environment =
      search (moves_rules, Evolving-IsPreorder, get_routed-Evolves)

  pub activate_traffic-Evolves :
      (router : TrafficRouter X) (release : Release)
      → Moves Evolving (activate_traffic router release)
  unfolding activate_traffic
  activate_traffic-Evolves router release =
      search (evolving_rules, get_active_release-Evolves, transition-Evolves) depth 14
