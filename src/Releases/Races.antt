-- ===== src/Releases/Races.antt =====
-- The version check of `transition` against other writers.
use hostinger.Prelude.{
  ℕ, ◌+◌, ◌≤◌, ◌<◌, String, ◌≡◌, ◌≢◌, refl, sym, ap, ◌∙◌, subst, ◌⊎◌, inl, inr, true, Option, some,
  arith, find, find_passes,
}
use hostinger.Exec.{ok, World}
use hostinger.Releases.Status.{ReleaseStatus, as_str, parse, can_transition_to}
use hostinger.Releases.Record.{Release, ReleaseRow}
use hostinger.Releases.Tables.{Tables, has_id, moved}
use hostinger.Releases.Controller.{Platform, get_release, commit_transition, transition}
use hostinger.Releases.Reading.{get_release_ok}
use hostinger.Releases.History.{Advance, Later, same, after, Evolves}
use hostinger.Releases.History.Statements.{find-moved}
use hostinger.Releases.Evolution.{commit-Evolves}
use hostinger.Releases.Transitions.{Transitioned, transition_ok}

Advance-version : {r r' : ReleaseRow} → Advance r r' → r'.version ≡ r.version + 1
Advance-version a = ap (λ (x : ReleaseRow). x.version) a.result

Later-version : {r r' : ReleaseRow} → Later r r' → (r' ≡ r) ⊎ (r.version < r'.version)
Later-version same = inl refl
Later-version (after {r} {s} {t} l a) = elim (Later-version l) [
  | inl e ↦ inr (omega (arith, Advance-version a, ap (λ (x : ReleaseRow). x.version) e))
  | inr lt ↦ inr (omega (arith, Advance-version a))
]

found_moved :
    (i v : ℕ) (target : ReleaseStatus) (reason : Option String) (t t' : Tables) (c : Release)
    → Transitioned i v target reason t t' c
    → (r : ReleaseRow) × (find (has_id i) t'.releases ≡ some r) × (r.version ≡ v + 1)
found_moved i v target reason t t' c d =
    let known : has_id i d.row ≡ true = find_passes (has_id i) t.releases d.row d.met in
    (
      moved (as_str target) d.now d.row,
      rw d.releases
          (rw (find-moved i i (as_str target) d.now t.releases) (rw d.met (rw known refl))),
      omega (arith, d.at_version),
    )

module _ {X : Type 0} where
  -- Of two transitions that expect the same version of a release at most one returns, however the
  -- tables evolved between the two, as sequences of the controller's operations evolve them.
  pub transition-one_winner :
      (i v : ℕ) (a b : ReleaseStatus) (reason reason' : Option String) (w w' : World (Platform X))
      (c c' : Release)
      → (transition i v a reason w).0 ≡ ok c
      → Evolves (transition i v a reason w).1.db.tables w'.db.tables
      → (transition i v b reason' w').0 ≢ ok c'
  transition-one_winner i v a b reason reason' w w' c c' first between second =
      let (r, found, version) =
        found_moved i v a reason _ _ c (transition_ok i v a reason w c first) in
      let (r', found', l) = between.kept i r found in
      let d = transition_ok i v b reason' w' c' second in
      let same_row : d.row ≡ r' = ground (arith, d.met, found') in
      let at_v : r'.version ≡ v =
        ap (λ (x : ReleaseRow). x.version) (sym same_row) ∙ d.at_version in
      elim (Later-version l) [
        | inl e ↦ absurd (omega (arith, version, at_v, ap (λ (x : ReleaseRow). x.version) e))
        | inr lt ↦ absurd (omega (arith, version, at_v))
      ]

  -- The status check of `transition` is made on a read, and the write follows later. Where the caller
  -- expects no newer version than the one that was read, the step from there on keeps the history of
  -- the table lawful, whatever lawful changes others made to the tables in between.
  pub commit_after_others :
      (i v : ℕ) (target : ReleaseStatus) (reason : Option String) (current : Release)
      (w w' : World (Platform X))
      → (get_release i w).0 ≡ ok current
      → v ≤ current.version
      → can_transition_to current.status target ≡ true
      → Evolves w.db.tables w'.db.tables
      → Evolves w'.db.tables (commit_transition i current v target reason w').1.db.tables
  commit_after_others i v target reason current w w' read le edge between =
      let (row, met, stands) = get_release_ok i w current read in
      commit-Evolves i current v target reason w' edge λ row' met' at_v.
        let (r, found, l) = between.kept i row met in
        let same_row : row' ≡ r = ground (arith, met', found) in
        elim (Later-version l) [
          | inl e ↦
              subst (λ (x : ReleaseRow). parse x.status ≡ ok current.status) (sym (same_row ∙ e))
                stands.status_read
          | inr lt ↦ absurd (
              omega (arith, at_v, stands.same_version, ap (λ (x : ReleaseRow). x.version) same_row))
        ]
