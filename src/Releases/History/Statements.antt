-- ===== src/Releases/History/Statements.antt =====
-- The statements that write to `releases`, as steps of its history.
use mathlib.Core.Option
use hostinger.Prelude.{
  ℕ, ◌<◌, String, ◌≡◌, refl, sym, subst, ◌∙◌, ◌⊎◌, inl, inr, Option, some, none, List, [], ◌∷◌,
  ◌++◌, arith, find, update, find-append, find-append_cases, find_passes, ==→eq, ◌==◌, Bool-cases,
  if◌then◌else◌,
}
use hostinger.Releases.Record.{ReleaseRow, ActiveRoute, TransitionRow}
use hostinger.Releases.Tables.{
  Tables, has_id, moved, int_max, insert_release, compare_and_set, update_found, insert_transition,
  upsert_route,
}
use hostinger.Releases.History.{Advance, Later, same, after, IsNew, Evolves}

-- A statement that leaves `releases` alone.
pub Evolves-same : (t t' : Tables) → t'.releases ≡ t.releases → Evolves t t'
Evolves-same t t' e = record {
  kept = λ i r h. (r, rw e h, same);
  grown = λ i r h. (r, inl (rw e at h), same);
}

pub insert_transition-Evolves :
    (row : TransitionRow) (t : Tables) → Evolves t (insert_transition row t)
unfolding insert_transition
insert_transition-Evolves row t = Evolves-same t _ refl

pub upsert_route-Evolves : (route : ActiveRoute) (t : Tables) → Evolves t (upsert_route route t)
unfolding upsert_route
upsert_route-Evolves route t = Evolves-same t _ (ground arith)

releases-insert :
    (row : ReleaseRow) (t t' : Tables)
    → insert_release row t ≡ some (tt, t')
    → t'.releases ≡ t.releases ++ row ∷ []
unfolding insert_release
releases-insert row t t' e = ground arith

pub insert_release-Evolves :
    (row : ReleaseRow) (t t' : Tables)
    → IsNew row
    → insert_release row t ≡ some (tt, t')
    → Evolves t t'
insert_release-Evolves row t t' new e = record {
  kept = λ i r h.
      (r, rw (releases-insert row t t' e) (find-append (has_id i) t.releases (row ∷ []) r h), same);
  grown = λ i r h.
      elim (find-append_cases (has_id i) t.releases row r (rw (releases-insert row t t' e) at h)) [
        | inl old ↦ (r, inl old, same)
        | inr fresh ↦ (r, inr (subst IsNew (sym fresh) new), same)
      ];
}

-- The row of id `j` after the row of id `i` has moved.
abbrev pub after_move : ℕ → String → ℕ → ReleaseRow → ReleaseRow
after_move i status now r = if has_id i r then moved status now r else r

pub find-moved :
    (i j : ℕ) (status : String) (now : ℕ) (rows : List ReleaseRow)
    → find (has_id j) (update (has_id i) (moved status now) rows)
      ≡ Option.map (after_move i status now) (find (has_id j) rows)
find-moved i j status now [] = refl
find-moved i j status now (r ∷ rows) = ground (arith, find-moved i j status now rows)

map-some :
    (f : ReleaseRow → ReleaseRow) (o : Option ReleaseRow) (r' : ReleaseRow)
    → Option.map f o ≡ some r'
    → (r : ReleaseRow) × (o ≡ some r) × (r' ≡ f r)
map-some f none r' h = cc
map-some f (some r) r' h = (r, refl, ground arith)

-- What a compare-and-set that goes through has done.
pub record Swapped (i v : ℕ) (status : String) (now : ℕ) (t t' : Tables) (row row' : ReleaseRow)
    : Type 0 where
  pub met : find (has_id i) t.releases ≡ some row
  pub at_version : row.version ≡ v
  pub in_range : row.version < int_max
  pub returned : row' ≡ moved status now row
  pub releases : t'.releases ≡ update (has_id i) (moved status now) t.releases
  pub transitions : t'.release_transitions ≡ t.release_transitions
  pub routes : t'.active_routes ≡ t.active_routes

-- A compare-and-set changes nothing, or it moves the one row that it meets.
abbrev Outcome : ℕ → ℕ → String → ℕ → Tables → Tables → Option ReleaseRow → Type 0
Outcome i v status now t t' res =
    ((res ≡ none) × (t' ≡ t))
    ⊎ ((row : ReleaseRow) × (row' : ReleaseRow) × (res ≡ some row')
        × Swapped i v status now t t' row row')

update_found_cases :
    (i v : ℕ) (status : String) (now : ℕ) (t t' : Tables) (o res : Option ReleaseRow)
    → find (has_id i) t.releases ≡ o
    → update_found status now v t o ≡ some (res, t')
    → Outcome i v status now t t' res
update_found_cases i v status now t t' none res e h = inl (ground arith, ground arith)
update_found_cases i v status now t t' (some row) res e h = elim (Bool-cases (row.version == v)) [
  | inr stale ↦ inl (ground arith, ground arith)
  | inl fresh ↦
      let found : row.id ≡ i = ==→eq row.id i (find_passes (has_id i) t.releases row e) in
      inr (
        row,
        moved status now row,
        ground arith,
        record {
          met = e;
          at_version = ground arith;
          in_range = ground arith;
          returned = refl;
          releases = ground arith;
          transitions = ground arith;
          routes = ground arith;
        },
      )
]

pub compare_and_set_cases :
    (i v : ℕ) (status : String) (now : ℕ) (t t' : Tables) (res : Option ReleaseRow)
    → compare_and_set i v status now t ≡ some (res, t')
    → Outcome i v status now t t' res
unfolding compare_and_set
compare_and_set_cases i v status now t t' res h =
    update_found_cases i v status now t t' (find (has_id i) t.releases) res refl h

module _ (i v : ℕ) (status : String) (now : ℕ) (t t' : Tables) (row row' : ReleaseRow)
    (s : Swapped i v status now t t' row row') (advance : Advance row (moved status now row)) where
  move_advance :
      (j : ℕ) (r : ReleaseRow)
      → find (has_id j) t.releases ≡ some r
      → Later r (after_move i status now r)
  move_advance j r h = elim (Bool-cases (has_id i r)) [
    | inr other ↦ rw other same
    | inl same_id ↦
        let j_is_i : j ≡ i = ground (arith, find_passes (has_id j) t.releases r h) in
        let r_is_row : row ≡ r = ground (arith, s.met, rw j_is_i at h) in
        rw same_id (subst (λ x. Later x (moved status now x)) r_is_row (after same advance))
  ]

  pub Swapped-Evolves : Evolves t t'
  Swapped-Evolves = record {
    kept = λ j r h. (
      after_move i status now r,
      rw s.releases (rw (find-moved i j status now t.releases) (rw h refl)),
      move_advance j r h,
    );
    grown = λ j r' h.
        let (r, found, e) =
          map-some (after_move i status now) (find (has_id j) t.releases) r'
            (sym (find-moved i j status now t.releases) ∙ rw s.releases at h) in
        (r, inl found, rw e (move_advance j r found));
  }
