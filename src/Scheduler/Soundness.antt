-- ===== src/Scheduler/Soundness.antt =====
-- An invariant of the tables under the statements of src/scheduler.rs and src/node_registry.rs.
use hostinger.Prelude.{
  ℕ, String, ◌≡◌, ◌≢◌, refl, sym, ap, ◌∙◌, subst, inl, inr, Bool, true, Option, some, List, [], ◌∷◌,
  map, arith, All, update, if◌then◌else◌, Bool-cases, Option-cases,
}
use hostinger.Prelude.Rows.{In, here, there}
use hostinger.Nodes.Record.{NodeRow, NodeEventRecord, PlacementRow}
use hostinger.Nodes.Tables.{
  NodeTables, has_node, update_checked, update_nodes, rotate_epoch, rotated, insert_event,
}
use hostinger.Nodes.History.{update_checked_cases}
use hostinger.Scheduler.Placement.{update_usage, update_placements, with_placement_status}
use hostinger.Scheduler.Capacity.{IsWithin, IsModest}

abbrev pub ids : List NodeRow → List ℕ
ids rs = map (λ (r : NodeRow). r.id) rs

abbrev pub AreDistinct : List ℕ → Type 0
AreDistinct [] = Unit
AreDistinct (i ∷ is) = All (λ j. j ≢ i) is × AreDistinct is

-- No node is used beyond its capacity, no two rows of `nodes` have the same id, and no placement
-- has a negative allocation.
pub record IsSound (t : NodeTables) : Type 0 where
  pub distinct : AreDistinct (ids t.nodes)
  pub within : All IsWithin t.nodes
  pub modest : All IsModest t.placements

other_id :
    (i : ℕ) {r : NodeRow} {rs : List NodeRow} → In r rs → All (λ j. j ≢ i) (ids rs) → r.id ≢ i
other_id i here (h, k) e = h e
other_id i (there m) (h, k) e = other_id i m k e

-- A row is known by its id.
pub one_row :
    {r s : NodeRow} {rs : List NodeRow}
    → In r rs
    → In s rs
    → AreDistinct (ids rs)
    → r.id ≡ s.id
    → r ≡ s
one_row here here (h, k) e = refl
one_row {r} here (there m) (h, k) e = absurd (other_id r.id m h (sym e))
one_row {s = s} (there m) here (h, k) e = absurd (other_id s.id m h e)
one_row (there m) (there n) (h, k) e = one_row m n k e

-- What an update does to a row of `rs` that it meets.
abbrev pub KeepsWithin : (NodeRow → Bool) → (NodeRow → Option NodeRow) → List NodeRow → Type 0
KeepsWithin p f rs =
    (r r' : NodeRow)
    → In r rs
    → p r ≡ true
    → IsWithin r
    → f r ≡ some r'
    → IsWithin r' × (r'.id ≡ r.id)

update_checked-KeepsWithin :
    (p : NodeRow → Bool) (f : NodeRow → Option NodeRow) (rs rs' : List NodeRow)
    → KeepsWithin p f rs
    → All IsWithin rs
    → update_checked p f rs ≡ some rs'
    → All IsWithin rs' × (ids rs' ≡ ids rs)
update_checked-KeepsWithin p f [] rs' k h e =
    let same : [] ≡ rs' = ground arith in
    subst (λ xs. All IsWithin xs × (ids xs ≡ [])) same (tt, refl)
update_checked-KeepsWithin p f (r ∷ rs) rs' k (h, hs) e =
    let (y, zs, is, this, rest) = update_checked_cases p f r rs rs' e in
    let (ws, same) = update_checked-KeepsWithin p f rs zs (λ s s' i. k s s' (there i)) hs rest in
    let (w, j) = first y this in
    subst (λ xs. All IsWithin xs × (ids xs ≡ ids (r ∷ rs))) (sym is)
      ((w, ws), ap (λ n. n ∷ ids zs) j ∙ ap (λ ns. r.id ∷ ns) same)
  where
    first : (y : NodeRow) → (if p r then f r else some r) ≡ some y → IsWithin y × (y.id ≡ r.id)
    first y this = elim (Bool-cases (p r)) [
      | inl met ↦ k r y here met h (rw met at this)
      | inr unmet ↦
          let same : r ≡ y = ground (arith, this, unmet) in
          subst (λ x. IsWithin x × (x.id ≡ r.id)) same (h, refl)
    ]

-- A checked update of `nodes`.
pub updated-IsSound :
    (p : NodeRow → Bool) (f : NodeRow → Option NodeRow) (t : NodeTables) (rows : List NodeRow)
    → KeepsWithin p f t.nodes
    → update_checked p f t.nodes ≡ some rows
    → IsSound t
    → IsSound (record t { nodes = rows })
updated-IsSound p f t rows k e s =
    let (w, same) = update_checked-KeepsWithin p f t.nodes rows k s.within e in
    record { distinct = subst AreDistinct (sym same) s.distinct; within = w; modest = s.modest }

pub update_nodes-IsSound :
    (p : NodeRow → Bool) (f : NodeRow → Option NodeRow) (t t' : NodeTables) (b : Bool)
    → KeepsWithin p f t.nodes
    → update_nodes p f t ≡ some (b, t')
    → IsSound t
    → IsSound t'
unfolding update_nodes
update_nodes-IsSound p f t t' b k e s = elim (Option-cases (update_checked p f t.nodes)) [
  | inl q ↦ absurd (ground (arith, e, q))
  | inr (rows, q) ↦
      let same : record t { nodes = rows } ≡ t' = ground (arith, e, q) in
      subst IsSound same (updated-IsSound p f t rows k q s)
]

pub update_usage-IsSound :
    (i : ℕ) (f : NodeRow → Option NodeRow) (t t' : NodeTables) (u : Unit {0})
    → KeepsWithin (has_node i) f t.nodes
    → update_usage i f t ≡ some (u, t')
    → IsSound t
    → IsSound t'
unfolding update_usage
update_usage-IsSound i f t t' u k e s =
    elim (Option-cases (update_checked (has_node i) f t.nodes)) [
      | inl q ↦ absurd (ground (arith, e, q))
      | inr (rows, q) ↦
          let same : record t { nodes = rows } ≡ t' = ground (arith, e, q) in
          subst IsSound same (updated-IsSound (has_node i) f t rows k q s)
    ]

pub rotate_epoch-IsSound :
    (i : ℕ) (token_hash : String) (now : ℕ) (t t' : NodeTables) (o : Option ℕ)
    → KeepsWithin (has_node i) (rotated token_hash now) t.nodes
    → rotate_epoch i token_hash now t ≡ some (o, t')
    → IsSound t
    → IsSound t'
unfolding rotate_epoch
rotate_epoch-IsSound i token_hash now t t' o k e s =
    elim (Option-cases (update_checked (has_node i) (rotated token_hash now) t.nodes)) [
      | inl q ↦ absurd (ground (arith, e, q))
      | inr (rows, q) ↦
          let same : record t { nodes = rows } ≡ t' = ground (arith, e, q) in
          subst IsSound same (updated-IsSound (has_node i) (rotated token_hash now) t rows k q s)
    ]

pub insert_event-IsSound :
    (row : NodeEventRecord) (t t' : NodeTables) (u : Unit {0})
    → insert_event row t ≡ some (u, t')
    → IsSound t
    → IsSound t'
unfolding insert_event
insert_event-IsSound row t t' u e s =
    let same_nodes : t.nodes ≡ t'.nodes = ground (arith, e) in
    let same_placements : t.placements ≡ t'.placements = ground (arith, e) in
    record {
      distinct = subst (λ rs. AreDistinct (ids rs)) same_nodes s.distinct;
      within = subst (λ rs. All IsWithin rs) same_nodes s.within;
      modest = subst (λ ps. All IsModest ps) same_placements s.modest;
    }

pub update_placements-IsSound :
    (p : PlacementRow → Bool) (status : String) (now : ℕ) (t : NodeTables)
    → IsSound t
    → IsSound (update_placements p status now t)
unfolding update_placements
update_placements-IsSound p status now t s = record {
  distinct = s.distinct;
  within = s.within;
  modest = kept t.placements s.modest;
}
  where
    kept :
        (ps : List PlacementRow)
        → All IsModest ps
        → All IsModest (update p (with_placement_status status now) ps)
    kept [] h = tt
    kept (x ∷ xs) (h, k) = elim (Bool-cases (p x)) [
      | inl e ↦ rw e (h, kept xs k)
      | inr e ↦ rw e (h, kept xs k)
    ]
