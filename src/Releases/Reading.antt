-- ===== src/Releases/Reading.antt =====
-- What the reading operations of the controller return, and that they leave the database alone.
use hostinger.Prelude.{
  ℕ, ◌≡◌, refl, inl, inr, none, some, find, arith, Bool-cases, Option-cases, Option, String, subst,
  ap, if◌then◌else◌,
}
use hostinger.Exec.{Result, ok, err, World, read, or_raise, next, continue}
use hostinger.Exec.Moves.{IsPreorder, Moves, moves_rules, try_write_at}
use hostinger.Releases.Status.{ReleaseStatus, ReleaseError, database, release_not_found, parse}
use hostinger.Releases.Record.{Release, ReleaseRow, with_status, from_row}
use hostinger.Releases.Tables.{Tables, has_id, release_by_id}
use hostinger.Releases.Controller.{Platform, on_tables, statement, get_release}

-- The release that a row stands for.
pub record Stands (row : ReleaseRow) (c : Release) : Type 0 where
  pub same_id : c.id ≡ row.id
  pub same_deployment : c.deployment_id ≡ row.deployment_id
  pub same_project : c.project_id ≡ row.project_id
  pub same_environment : c.environment ≡ row.environment
  pub same_version : c.version ≡ row.version
  pub same_container : c.container_id ≡ row.container_id
  pub same_port : c.port ≡ row.port
  pub same_url : c.url ≡ row.url
  pub same_created : c.created_at ≡ row.created_at
  pub same_updated : c.updated_at ≡ row.updated_at
  pub status_read : parse row.status ≡ ok c.status

with_status-Stands :
    (row : ReleaseRow) (c : Release) (s : Result ReleaseError ReleaseStatus)
    → parse row.status ≡ s
    → with_status row s ≡ ok c
    → Stands row c
with_status-Stands row c (err e) p h = cc
with_status-Stands row c (ok s) p h = record {
  same_id = ground arith;
  same_deployment = ground arith;
  same_project = ground arith;
  same_environment = ground arith;
  same_version = ground arith;
  same_container = ground arith;
  same_port = ground arith;
  same_url = ground arith;
  same_created = ground arith;
  same_updated = ground arith;
  status_read = ground arith;
}

pub from_row-Stands : (row : ReleaseRow) (c : Release) → from_row row ≡ ok c → Stands row c
unfolding from_row
from_row-Stands row c h = with_status-Stands row c (parse row.status) refl h

abbrev read_found : ℕ → Option ReleaseRow → Result ReleaseError Release
read_found i none = err (release_not_found i)
read_found i (some row) = from_row row

module _ {X : Type 0} (i : ℕ) (w : World (Platform X)) where
  pub get_release_lem : get_release i w ≡ (
    if w.env.fault w.step
        then err (database "failed to get release")
        else read_found i (find (has_id i) w.db.tables.releases),
    next w,
  )
  unfolding get_release read release_by_id
  get_release_lem = elim (Bool-cases (w.env.fault w.step)) [
    | inl down ↦ rw (down, continue)
    | inr up ↦
        rw (up, continue)
          (elim (Option-cases (find (has_id i) w.db.tables.releases)) [
            | inl e ↦ rw (e, or_raise, continue)
            | inr (row, e) ↦ rw (e, or_raise, continue)
          ])
  ]

  pub get_release-next : (get_release i w).1 ≡ next w
  get_release-next = ap (λ x. x.1) get_release_lem

  read_found-Stands :
      (o : Option ReleaseRow) (c : Release)
      → read_found i o ≡ ok c
      → (row : ReleaseRow) × (o ≡ some row) × Stands row c
  read_found-Stands none c h = cc
  read_found-Stands (some row) c h = (row, refl, from_row-Stands row c h)

  -- A release that is read stands for the row of its id.
  pub get_release_ok :
      (c : Release)
      → (get_release i w).0 ≡ ok c
      → (row : ReleaseRow) × (find (has_id i) w.db.tables.releases ≡ some row) × Stands row c
  get_release_ok c h = elim (Bool-cases (w.env.fault w.step)) [
    | inl down ↦ absurd (ground (arith, down, ap (λ x. x.0) get_release_lem))
    | inr up ↦ read_found-Stands _ c (ground (arith, up, ap (λ x. x.0) get_release_lem))
  ]

module _ {X : Type 0} {R : Platform X → Platform X → Type 0} (law : IsPreorder R) where
  pub Moves-get_release : (i : ℕ) → Moves R (get_release {X = X} i)
  unfolding get_release
  Moves-get_release i = search (moves_rules, law)

-- A statement on the tables relates them as its function does.
module _ {X A : Type 0} (S : Tables → Tables → Type 0)
    (law : IsPreorder {D = Platform X} (λ p p'. S p.tables p'.tables)) where
  pub statement_at :
      (context : String) (f : Tables → Option (A × Tables)) (w : World (Platform X))
      → ((t' : Tables) (a : A) → f w.db.tables ≡ some (a, t') → S w.db.tables t')
      → S w.db.tables (statement {X = X} context f w).1.db.tables
  unfolding statement
  statement_at context f w h = try_write_at law (database context) (on_tables f) w λ p' a e.
      elim (Option-cases (f w.db.tables)) [
        | inl q ↦ absurd (ground arith)
        | inr ((b, t), q) ↦ subst (S w.db.tables) (ground arith) (h t b q)
      ]
