-- ===== src/Releases/Transitions.antt =====
-- What a call of `transition` that returns did.
use hostinger.Prelude.{
  ℕ, suc, String, ◌≡◌, refl, sym, ap, ◌∙◌, subst, inl, inr, true, false, Option, none, some, [],
  ◌∷◌, ◌++◌, arith, find, update, Bool-cases, Option-cases,
}
use hostinger.Exec.{ok, World, next, new_uuid, now_utc, write, try_write, continue}
use hostinger.Exec.Outcomes.{bind_ok}
use hostinger.Releases.Status.{ReleaseStatus, as_str, parse, can_transition_to}
use hostinger.Releases.Status.Graph.{◌⟶◌}
use hostinger.Releases.Record.{Release, ReleaseRow, TransitionRow, from_row}
use hostinger.Releases.Tables.{Tables, has_id, moved, compare_and_set, insert_transition}
use hostinger.Releases.Controller.{
  Platform, statement, get_release, swap_status, record_transition, commit_transition,
  checked_transition, transition,
}
use hostinger.Releases.Reading.{Stands, get_release_ok, get_release-next, from_row-Stands}
use hostinger.Releases.History.Statements.{compare_and_set_cases}

-- The entry of `release_transitions` for a transition.
abbrev pub entry : ℕ → ℕ → ReleaseStatus → ReleaseStatus → Option String → ℕ → TransitionRow
entry id release_id source target reason now = record {
  id = id;
  release_id = release_id;
  from_status = as_str source;
  to_status = as_str target;
  reason = reason;
  created_at = now;
}

module _ {X : Type 0} where
  record_transition_ok :
      (i : ℕ) (current : Release) (v : ℕ) (target : ReleaseStatus) (reason : Option String)
      (now : ℕ) (res : Option ReleaseRow) (w : World (Platform X)) (c : Release)
      → (record_transition i current v target reason now res w).0 ≡ ok c
      → (row' : ReleaseRow) × (res ≡ some row')
        × (from_row row' ≡ ok c)
        × ((record_transition i current v target reason now res w).1.db.tables
            ≡ insert_transition
                (entry (w.env.uuid w.step) i current.status target reason now)
                w.db.tables)
  unfolding record_transition new_uuid write
  record_transition_ok i current v target reason now none w c h = cc
  record_transition_ok i current v target reason now (some row') w c h =
      elim (Bool-cases (w.env.fault (suc w.step))) [
        | inl down ↦ absurd (ground (arith, down))
        | inr up ↦ (row', refl, ground (arith, up), rw (up, continue) refl)
      ]

  -- What a statement on the tables did, if it returned.
  statement_ok :
      {A : Type 0} (context : String) (f : Tables → Option (A × Tables)) (w : World (Platform X))
      (a : A)
      → (statement context f w).0 ≡ ok a
      → (t : Tables) × (f w.db.tables ≡ some (a, t)) × ((statement context f w).1.db.tables ≡ t)
  unfolding statement try_write
  statement_ok context f w a h = elim (Bool-cases (w.env.fault w.step)) [
    | inl down ↦ absurd (ground (arith, down))
    | inr up ↦ elim (Option-cases (f w.db.tables)) [
      | inl q ↦ absurd (ground (arith, up, q))
      | inr ((b, t), q) ↦ (t, ground (arith, up, q), ground (arith, up, q))
    ]
  ]

-- What a transition that returned `c` did, from the tables `t` to the tables `t'`.
pub record Transitioned (i v : ℕ) (target : ReleaseStatus) (reason : Option String) (t t' : Tables)
    (c : Release) : Type 0 where
  pub row : ReleaseRow
  pub source : ReleaseStatus
  pub now : ℕ
  pub log_id : ℕ
  pub met : find (has_id i) t.releases ≡ some row
  pub reads : parse row.status ≡ ok source
  pub at_version : row.version ≡ v
  pub permitted : source ⟶ target
  pub returned : Stands (moved (as_str target) now row) c
  pub releases : t'.releases ≡ update (has_id i) (moved (as_str target) now) t.releases
  pub logged :
      t'.release_transitions ≡ t.release_transitions ++ entry log_id i source target reason now ∷ []
  pub routes : t'.active_routes ≡ t.active_routes

module _ {X : Type 0} where
  commit_transition_ok :
      (i v : ℕ) (target : ReleaseStatus) (reason : Option String) (current : Release)
      (w : World (Platform X)) (row : ReleaseRow) (c : Release)
      → find (has_id i) w.db.tables.releases ≡ some row
      → Stands row current
      → can_transition_to current.status target ≡ true
      → (commit_transition i current v target reason w).0 ≡ ok c
      → Transitioned i v target reason w.db.tables
          (commit_transition i current v target reason w).1.db.tables
          c
  unfolding commit_transition now_utc swap_status insert_transition
  commit_transition_ok i v target reason current w row c met stands permitted h =
      let now = w.env.time w.step in
      let (res, swapped, recorded, last) =
        bind_ok (swap_status i v target now) (record_transition i current v target reason now)
          (next w) c h in
      let (t, e, here) =
        statement_ok "failed to execute compare-and-set release transition"
          (compare_and_set i v (as_str target) now) (next w) res swapped in
      let (row', some_row, from, logged) =
        record_transition_ok i current v target reason now res
          (swap_status i v target now (next w)).1 c recorded in
      elim (compare_and_set_cases i v (as_str target) now w.db.tables t res e) [
        | inl (none_met, unchanged) ↦ absurd (ground (arith, none_met, some_row))
        | inr (old, new, some_new, s) ↦
            let same_row : old ≡ row = ground (arith, met, s.met) in
            let same_new : row' ≡ new = ground (arith, some_row, some_new) in
            let result : row' ≡ moved (as_str target) now row =
              same_new ∙ s.returned ∙ ap (moved (as_str target) now) same_row in
            let swapped_world = (swap_status i v target now (next w)).1 in
            let log_id = swapped_world.env.uuid swapped_world.step in
            let log = entry log_id i current.status target reason now in
            let final : (commit_transition i current v target reason w).1.db.tables
                ≡ insert_transition log t =
              ap (λ (x : World (Platform X)). x.db.tables) last
              ∙ logged
              ∙ ap (insert_transition log) here in
            record {
              row = row;
              source = current.status;
              now = now;
              log_id = log_id;
              met = met;
              reads = stands.status_read;
              at_version = ap (λ (r : ReleaseRow). r.version) (sym same_row) ∙ s.at_version;
              permitted = permitted;
              returned = subst (λ r. Stands r c) result (from_row-Stands row' c from);
              releases = ap (λ (x : Tables). x.releases) final ∙ s.releases;
              logged =
                  ap (λ (x : Tables). x.release_transitions) final
                  ∙ ap (λ l. l ++ log ∷ []) s.transitions;
              routes = ap (λ (x : Tables). x.active_routes) final ∙ s.routes;
            }
      ]

  checked_is_commit :
      (i v : ℕ) (target : ReleaseStatus) (reason : Option String) (current : Release)
      (w : World (Platform X))
      → can_transition_to current.status target ≡ true
      → checked_transition i v target reason current w
        ≡ commit_transition i current v target reason w
  unfolding checked_transition
  checked_is_commit i v target reason current w edge = rw edge refl

  refused :
      (i v : ℕ) (target : ReleaseStatus) (reason : Option String) (current : Release)
      (w : World (Platform X)) (c : Release)
      → can_transition_to current.status target ≡ false
      → ¬ ((checked_transition i v target reason current w).0 ≡ ok c)
  unfolding checked_transition
  refused i v target reason current w c no_edge h = ground (arith, no_edge)

  -- A transition that returns was permitted from the status that the row had, at the version that
  -- was expected. It moved that row, one version up, and no other; it logged exactly this
  -- transition, left the routes alone, and returned the row as it is now.
  pub transition_ok :
      (i v : ℕ) (target : ReleaseStatus) (reason : Option String) (w : World (Platform X))
      (c : Release)
      → (transition i v target reason w).0 ≡ ok c
      → Transitioned i v target reason w.db.tables (transition i v target reason w).1.db.tables c
  unfolding transition
  transition_ok i v target reason w c h =
      let (current, read, checked, last) =
        bind_ok (get_release i) (checked_transition i v target reason) w c h in
      let (row, met, stands) = get_release_ok i w current read in
      let committed : (transition i v target reason w).1
          ≡ (checked_transition i v target reason current (next w)).1 =
        last
        ∙ ap (λ x. (checked_transition i v target reason current x).1) (get_release-next i w) in
      let found : (checked_transition i v target reason current (next w)).0 ≡ ok c =
        rw (get_release-next i w) at checked in
      elim (Bool-cases (can_transition_to current.status target)) [
        | inr no_edge ↦ absurd (refused i v target reason current (next w) c no_edge found)
        | inl edge ↦
            let same = checked_is_commit i v target reason current (next w) edge in
            subst (λ t'. Transitioned i v target reason w.db.tables t' c)
              (sym (ap (λ (x : World (Platform X)). x.db.tables) (committed ∙ ap (λ x. x.1) same)))
              (commit_transition_ok i v target reason current (next w) row c met stands edge
                (sym (ap (λ x. x.0) same) ∙ found))
      ]
