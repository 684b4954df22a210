-- ===== src/Scheduler/Candidates.antt =====
-- The nodes that `schedule_release` of src/scheduler.rs chooses among.
use hostinger.Prelude.{
  ℕ, ◌≡◌, ◌≤◌, ◌<◌, ◌==◌, ==_refl, refl, sym, subst, inl, inr, true, false, some, List, [], ◌∷◌,
  map, arith, All, Bool-cases, Option-cases,
}
use hostinger.Prelude.Order.{All-order_by}
use hostinger.Prelude.Rows.{In, here, there, In-any, All-itself, All-select}
use hostinger.Prelude.Words.{u64_add}
use hostinger.Agent.Commands.{NodeStatus, online}
use hostinger.Nodes.Record.{NodeRow, NodeRecord, from_pg_row}
use hostinger.Nodes.Tables.{NodeTables, is_active_node, active_nodes}
use hostinger.Scheduler.Placement.{PlacementRequest}
use hostinger.Scheduler.Score.{
  Float, is_online, is_open, has_room, contains_id, is_candidate, score_node, candidate_scores,
  sort_scored, insert_scored, goes_before,
}

-- A node that the request may go to: one of its candidates, if it has any, and none of those to keep
-- away from; online, enabled and not draining; with the room for it by `has_room`, and with what is
-- used then (as u64) within its capacity.
pub record IsFit (req : PlacementRequest) (n : NodeRecord) : Type 0 where
  pub wanted : is_candidate req n ≡ true
  pub open_now : is_open n ≡ true
  pub roomy : has_room n req.required_cpu_millicores req.required_memory_bytes ≡ true
  pub among_candidates : (ids : List ℕ) → req.candidate_nodes ≡ some ids → In n.id ids
  pub kept_away : ¬ In n.id req.anti_affinity_nodes
  pub status_online : n.status ≡ online
  pub enabled : n.is_enabled ≡ true
  pub not_draining : n.is_draining ≡ false
  pub cpu_left :
      u64_add n.cpu_used_millicores req.required_cpu_millicores ≤ n.capacity.cpu_millicores
  pub memory_left : u64_add n.memory_used_bytes req.required_memory_bytes ≤ n.capacity.memory_bytes
  pub release_left : n.running_releases_count < n.capacity.max_releases

contains_id-In : (i : ℕ) (ids : List ℕ) → contains_id ids i ≡ true → In i ids
contains_id-In i [] h = cc
contains_id-In i (j ∷ ids) h = elim (Bool-cases (j == i)) [
  | inl e ↦ let same : j ≡ i = ground (arith, e) in subst (λ k. In i (k ∷ ids)) (sym same) here
  | inr e ↦ there (contains_id-In i ids (ground (arith, h, e)))
]

online_is : (s : NodeStatus) → is_online s ≡ true → s ≡ online
online_is online h = refl
online_is _ h = cc

pub candidate-IsFit :
    (req : PlacementRequest) (n : NodeRecord)
    → is_candidate req n ≡ true
    → is_open n ≡ true
    → has_room n req.required_cpu_millicores req.required_memory_bytes ≡ true
    → IsFit req n
unfolding is_candidate is_open has_room
candidate-IsFit req n wanted open_now roomy = record {
  wanted = wanted;
  open_now = open_now;
  roomy = roomy;
  among_candidates = λ ids e. contains_id-In n.id ids (ground (arith, wanted, e));
  kept_away = λ present.
      let found : contains_id req.anti_affinity_nodes n.id ≡ true =
        In-any (λ j. j == n.id) present (==_refl n.id) in
      ground (arith, wanted, found);
  status_online = online_is n.status (ground (arith, open_now));
  enabled = ground (arith, open_now);
  not_draining = ground (arith, open_now);
  cpu_left = ground (arith, roomy);
  memory_left = ground (arith, roomy);
  release_left = ground (arith, roomy);
}

-- The record of an active row of the table.
pub record IsRead (now : ℕ) (t : NodeTables) (n : NodeRecord) : Type 0 where
  pub row : NodeRow
  pub of_row : n ≡ from_pg_row row
  pub present : In row t.nodes
  pub alive : is_active_node 60 now row ≡ true

pub active-IsRead :
    (now : ℕ) (t : NodeTables) → All (IsRead now t) (map from_pg_row (active_nodes 60 now t))
unfolding active_nodes
active-IsRead now t = records _ (
    All-order_by _ _ _
      (All-select (λ r. In r t.nodes) (is_active_node 60 now) t.nodes (All-itself t.nodes)))
  where
    records :
        (rs : List NodeRow)
        → All (λ r. In r t.nodes × (is_active_node 60 now r ≡ true)) rs
        → All (IsRead now t) (map from_pg_row rs)
    records [] h = tt
    records (r ∷ rs) ((i, a), h) =
        (record { row = r; of_row = refl; present = i; alive = a }, records rs h)

module _ {F : Type 0} (float : Float F) where
  scored-IsFit :
      (req : PlacementRequest) (n : NodeRecord) (s : F)
      → is_candidate req n ≡ true
      → score_node float n req.required_cpu_millicores req.required_memory_bytes ≡ some s
      → IsFit req n
  unfolding score_node
  scored-IsFit req n s c h = elim (Bool-cases (is_open n)) [
    | inr e ↦ absurd (ground (arith, h, e))
    | inl e ↦ elim (Bool-cases (has_room n req.required_cpu_millicores req.required_memory_bytes)) [
      | inr k ↦ absurd (ground (arith, h, e, k))
      | inl k ↦ candidate-IsFit req n c e k
    ]
  ]

  pub All-candidate_scores :
      (P : NodeRecord → Type 0) (req : PlacementRequest) (ns : List NodeRecord)
      → All P ns
      → All (λ (x : NodeRecord × F). P x.0 × IsFit req x.0) (candidate_scores float req ns)
  unfolding candidate_scores
  All-candidate_scores P req [] h = tt
  All-candidate_scores P req (n ∷ ns) (h, k) =
      let rest = All-candidate_scores P req ns k in
      elim (Bool-cases (is_candidate req n)) [
        | inr e ↦ rw e rest
        | inl e ↦
            elim (Option-cases
              (score_node float n req.required_cpu_millicores req.required_memory_bytes)) [
                | inl q ↦ rw (e, q) rest
                | inr (s, q) ↦ rw (e, q) ((h, scored-IsFit req n s e q), rest)
              ]
      ]

  All-insert_scored :
      (P : NodeRecord × F → Type 0) (a : NodeRecord × F) (xs : List (NodeRecord × F))
      → P a
      → All P xs
      → All P (insert_scored float a xs)
  unfolding insert_scored
  All-insert_scored P a [] h k = (h, tt)
  All-insert_scored P a (x ∷ xs) h (i, k) = elim (Bool-cases (goes_before float a x)) [
    | inl e ↦ rw e (h, (i, k))
    | inr e ↦ rw e (i, All-insert_scored P a xs h k)
  ]

  pub All-sort_scored :
      (P : NodeRecord × F → Type 0) (xs : List (NodeRecord × F))
      → All P xs
      → All P (sort_scored float xs)
  unfolding sort_scored
  All-sort_scored P [] h = tt
  All-sort_scored P (x ∷ xs) (h, k) =
      All-insert_scored P x (sort_scored float xs) h (All-sort_scored P xs k)

  -- The candidates in the order of preference.
  unfoldable pub ranked : PlacementRequest → ℕ → NodeTables → List (NodeRecord × F)
  ranked req now t =
      sort_scored float (candidate_scores float req (map from_pg_row (active_nodes 60 now t)))

  pub ranked-IsFit :
      (req : PlacementRequest) (now : ℕ) (t : NodeTables)
      → All (λ (x : NodeRecord × F). IsRead now t x.0 × IsFit req x.0) (ranked req now t)
  unfolding ranked
  ranked-IsFit req now t =
      All-sort_scored _ _ (All-candidate_scores (IsRead now t) req _ (active-IsRead now t))
