-- ===== src/Nodes/History.antt =====
-- How the rows of `nodes` may change.
use hostinger.Prelude.{
  ℕ, ◌^◌, ◌≤◌, ◌<◌, ◌≡◌, refl, sym, ◌∙◌, subst, inl, inr, Bool, Option, some, List, [], ◌∷◌, arith,
  ◌==◌, find, if◌then◌else◌, Bool-cases, Option-cases,
}
use hostinger.Prelude.Rows.{Grows, added, kept, IsHistory, Grows-refl, Grows-trans}
use hostinger.Exec.Moves.{IsPreorder}
use hostinger.Nodes.Record.{NodeRow}
use hostinger.Nodes.Tables.{NodeTables, has_node, update_checked}

-- The node keeps its id, and its epoch does not go back.
abbrev pub NodeStep : NodeRow → NodeRow → Type 0
NodeStep r r' = (r'.id ≡ r.id) × (r.epoch < 2 ^ 63 → (r'.epoch < 2 ^ 63) × (r.epoch ≤ r'.epoch))

-- A node starts in epoch 1; from there its epoch is an i64 that is not negative.
abbrev pub IsSettled : NodeRow → Type 0
IsSettled r = (1 ≤ r.epoch) × (r.epoch < 2 ^ 63)

pub node_history : IsHistory IsSettled NodeStep
node_history = record {
  reflexive = λ r. (refl, λ h. (h, omega arith));
  transitive = λ r s t a b.
      (b.0 ∙ a.0, λ h. let (k, l) = a.1 h in let (m, n) = b.1 k in (m, omega (arith, l, n)));
  born = λ r s (l, h) a. let (k, m) = a.1 h in (omega (arith, l, m), k);
}

abbrev pub NodesGrow : List NodeRow → List NodeRow → Type 0
NodesGrow = Grows IsSettled NodeStep

abbrev pub Growing : NodeTables → NodeTables → Type 0
Growing t t' = NodesGrow t.nodes t'.nodes

pub Growing-IsPreorder : IsPreorder Growing
Growing-IsPreorder = record {
  reflexive = λ t. Grows-refl node_history t.nodes;
  transitive = λ a b c f g. Grows-trans node_history f g;
}

-- What one row of a checked update became.
pub update_checked_cases :
    {A : Type 0} (p : A → Bool) (f : A → Option A) (x : A) (xs ys : List A)
    → update_checked p f (x ∷ xs) ≡ some ys
    → (y : A) × (zs : List A) × (ys ≡ y ∷ zs)
      × ((if p x then f x else some x) ≡ some y)
      × (update_checked p f xs ≡ some zs)
update_checked_cases p f x xs ys h = elim (Option-cases (if p x then f x else some x)) [
  | inl e ↦ absurd (ground (arith, h, e))
  | inr (y, e) ↦ elim (Option-cases (update_checked p f xs)) [
    | inl e' ↦ absurd (ground (arith, h, e, e'))
    | inr (zs, e') ↦ (y, zs, ground (arith, h, e, e'), e, e')
  ]
]

abbrev pub RowSteps : (NodeRow → Option NodeRow) → Type 0
RowSteps f = (r r' : NodeRow) → f r ≡ some r' → NodeStep r r'

pub update_checked-Grows :
    (p : NodeRow → Bool) (f : NodeRow → Option NodeRow)
    → RowSteps f
    → (rs rs' : List NodeRow) → update_checked p f rs ≡ some rs'
    → NodesGrow rs rs'
update_checked-Grows p f step [] rs' h =
    let same : [] ≡ rs' = ground arith in subst (λ x. NodesGrow [] x) same (added tt)
update_checked-Grows p f step (r ∷ rs) rs' h =
    let (y, zs, e, this, rest) = update_checked_cases p f r rs rs' h in
    subst (λ x. NodesGrow (r ∷ rs) x) (sym e)
      (kept (row_step p f step r y this) (update_checked-Grows p f step rs zs rest))
  where
    row_step :
        (p : NodeRow → Bool) (f : NodeRow → Option NodeRow)
        → RowSteps f
        → (r y : NodeRow) → (if p r then f r else some r) ≡ some y
        → NodeStep r y
    row_step p f step r y this = elim (Bool-cases (p r)) [
      | inl e ↦ step r y (rw e at this)
      | inr e ↦
          let same : r ≡ y = ground (arith, this, e) in
          subst (λ x. NodeStep r x) same (node_history.reflexive r)
    ]

-- A node that is found stays found.
pub find_grown :
    (i : ℕ) {rs rs' : List NodeRow} (x : NodeRow)
    → NodesGrow rs rs'
    → find (has_node i) rs ≡ some x
    → (x' : NodeRow) × (find (has_node i) rs' ≡ some x') × NodeStep x x'
find_grown i x (added k) h = cc
find_grown i x (kept {r} {r'} s g) h = elim (Bool-cases (r.id == i)) [
  | inl e ↦
      let same : r ≡ x = ground (arith, h, e) in
      (r', ground (arith, e, s.0), subst (λ y. NodeStep y r') same s)
  | inr e ↦
      let (x', found, m) = find_grown i x g (ground (arith, h, e)) in
      (x', ground (arith, e, found, s.0), m)
]
