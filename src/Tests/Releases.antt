-- ===== src/Tests/Releases.antt =====
-- Runs of src/releases.rs on small tables.
use hostinger.Prelude.{
  ℕ, ◌+◌, ◌≤◌, ◌<◌, String, ◌≡◌, ◌≢◌, refl, ◌↔◌, ◌⊎◌, inl, inr, true, false, none, some, List, [],
  ◌∷◌, ◌==◌, find, arith, Bool-cases, subst,
}
use hostinger.Exec.{ok, Env, World, try_write, read, write, new_uuid, now_utc}
use hostinger.Releases.Status.{
  ReleaseStatus, starting, health_checking, ready, active, draining, stopped, failed, as_str, parse,
  can_transition_to,
}
use hostinger.Releases.Status.Texts.{parse_exact}
use hostinger.Releases.Status.Graph.{here, then, Walk-bounded, stuck_iff, rank}
use hostinger.Releases.Record.{Release, ReleaseRow, from_row}
use hostinger.Releases.Tables.{Tables, has_id, release_by_id, compare_and_set, insert_transition}
use hostinger.Releases.Controller.{
  Platform, statement, get_release, swap_status, record_transition, commit_transition,
  checked_transition, transition,
}
use hostinger.Releases.History.{Evolves, Evolves-refl}
use hostinger.Releases.Evolution.{transition-Evolves}
use hostinger.Releases.Lifecycle.{Operation, move, reconcile, perform_all, perform_all-Evolves}
use hostinger.Releases.Guarantees.{Fits, AllFit, IsOver, perform_all-AllFit, perform_all-over}
use hostinger.Releases.Transitions.{Transitioned, transition_ok}
use hostinger.Releases.Races.{transition-one_winner, commit_after_others}

abbrev pub calm_env : Env
calm_env = record { fault = λ n. false; uuid = λ n. 100 + n; time = λ n. 50 + n }

abbrev pub row_of : ℕ → String → ℕ → ReleaseRow
row_of i status version = record {
  id = i;
  deployment_id = 20;
  project_id = 30;
  environment = "production";
  status = status;
  version = version;
  container_id = some "c1";
  port = some 8080;
  url = none;
  created_at = 40;
  updated_at = 41;
}

abbrev pub two_releases : Tables
two_releases = record {
  releases = row_of 7 "ready" 3 ∷ row_of 9 "stopped" 5 ∷ [];
  release_transitions = [];
  active_routes = [];
}

abbrev start : World (Platform Unit)
start = record { env = calm_env; step = 0; db = record { tables = two_releases; outside = tt } }

abbrev pub as_release : ReleaseStatus → ℕ → ℕ → Release
as_release status version updated_at = record {
  id = 7;
  deployment_id = 20;
  project_id = 30;
  environment = "production";
  status = status;
  version = version;
  container_id = some "c1";
  port = some 8080;
  url = none;
  created_at = 40;
  updated_at = updated_at;
}

parse_exact_example : (parse "draining" ≡ ok draining) ↔ ("draining" ≡ as_str draining)
parse_exact_example = parse_exact "draining" draining

starts : can_transition_to starting health_checking ≡ true
unfolding can_transition_to
starts = refl

Walk-bounded_example : (1 ≤ 5) × (0 < 1 → starting ≢ health_checking)
Walk-bounded_example = Walk-bounded ((then) starts here)

stuck_iff_example :
    ((t : ReleaseStatus) → can_transition_to draining t ≡ false)
    ↔ ((draining ≡ stopped) ⊎ (draining ≡ failed))
stuck_iff_example = stuck_iff draining

abbrev some_moves : List (Operation Unit)
some_moves = move 7 3 active (some "go") ∷ move 9 5 active none ∷ reconcile ∷ []

perform_all-Evolves_example : Evolves two_releases (perform_all some_moves start).db.tables
perform_all-Evolves_example = perform_all-Evolves some_moves start

activated : (transition 7 3 active (some "go") start).0 ≡ ok (as_release active 4 51)
unfolding transition get_release checked_transition commit_transition swap_status record_transition
    read write try_write statement now_utc new_uuid from_row parse as_str can_transition_to
    release_by_id compare_and_set insert_transition
activated = refl

transition_ok_example :
    Transitioned 7 3 active
      (some "go")
      two_releases
      (transition 7 3 active (some "go") start).1.db.tables
      (as_release active 4 51)
transition_ok_example =
    transition_ok 7 3 active (some "go") start (as_release active 4 51) activated

transition-one_winner_example :
    (transition 7 3 failed none (transition 7 3 active (some "go") start).1).0
    ≢ ok (as_release failed 4 60)
transition-one_winner_example =
    transition-one_winner 7 3 active failed (some "go") none start
      (transition 7 3 active (some "go") start).1 (as_release active 4 51) (as_release failed 4 60)
      activated (Evolves-refl (transition 7 3 active (some "go") start).1.db.tables)

seen : (get_release 7 start).0 ≡ ok (as_release ready 3 41)
unfolding get_release read release_by_id from_row parse
seen = refl

from_ready : can_transition_to ready active ≡ true
unfolding can_transition_to
from_ready = refl

commit_after_others_example :
    Evolves
      (transition 7 3 failed none start).1.db.tables
      (commit_transition 7
        (as_release ready 3 41)
        3
        active
        none
        (transition 7 3 failed none start).1).1.db.tables
commit_after_others_example =
    commit_after_others 7 3 active none (as_release ready 3 41) start
      (transition 7 3 failed none start).1 seen (omega arith) from_ready
      ((transition-Evolves 7 3 failed none).from start)

row7-Fits : Fits (row_of 7 "ready" 3)
unfolding parse rank
row7-Fits = (ready, refl, omega arith)

row9-Fits : Fits (row_of 9 "stopped" 5)
unfolding parse rank
row9-Fits = (stopped, refl, omega arith)

two_releases-AllFit : AllFit two_releases
two_releases-AllFit i r found = elim (Bool-cases (7 == i)) [
  | inl e ↦
      let same : row_of 7 "ready" 3 ≡ r = ground (arith, found, e) in subst Fits same row7-Fits
  | inr e ↦ elim (Bool-cases (9 == i)) [
    | inl e' ↦
        let same : row_of 9 "stopped" 5 ≡ r = ground (arith, found, e, e') in
        subst Fits same row9-Fits
    | inr e' ↦ absurd (ground (arith, found, e, e'))
  ]
]

over : IsOver (row_of 9 "stopped" 5)
unfolding as_str
over = inl refl

perform_all-over_example :
    find (has_id 9) (perform_all some_moves start).db.tables.releases ≡ some (row_of 9 "stopped" 5)
perform_all-over_example = perform_all-over some_moves start 9 (row_of 9 "stopped" 5) refl over

found_over :
    find (has_id 9) (perform_all some_moves start).db.tables.releases ≡ some (row_of 9 "stopped" 5)
found_over = perform_all-over some_moves start 9 (row_of 9 "stopped" 5) refl over

perform_all-AllFit_example : (s : ReleaseStatus) × (parse "stopped" ≡ ok s) × (5 + rank s ≤ 6)
perform_all-AllFit_example =
    perform_all-AllFit some_moves start two_releases-AllFit 9 (row_of 9 "stopped" 5) found_over
