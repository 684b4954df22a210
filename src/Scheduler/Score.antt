-- ===== src/Scheduler/Score.antt =====
-- `score_node` of src/scheduler.rs and the choice among the scored nodes. Floating point is the
-- language's, so its operations are a parameter.
use hostinger.Prelude.{
  ℕ, Bool, true, false, not, ◌&&◌, ◌||◌, Option, none, some, List, [], ◌∷◌, ◌==◌, ltb, leb, any,
  if◌then◌else◌,
}
use hostinger.Prelude.Words.{u64_add}
use hostinger.Agent.Commands.{NodeStatus, online}
use hostinger.Nodes.Record.{NodeRecord}
use hostinger.Scheduler.Placement.{PlacementRequest}

pub data Ordering : Type 0 where
  less equal greater : Ordering

-- f64
pub record Float (F : Type 0) : Type 0 where
  pub of_u64 : ℕ → F
  pub one : F
  pub two : F
  pub sub : F → F → F
  pub add : F → F → F
  pub div : F → F → F
  pub partial_cmp : F → F → Option Ordering

abbrev pub is_online : NodeStatus → Bool
is_online online = true
is_online _ = false

-- The two early returns of `score_node`.
unfoldable pub is_open : NodeRecord → Bool
is_open node = is_online node.status && node.is_enabled && not node.is_draining

unfoldable pub has_room : NodeRecord → ℕ → ℕ → Bool
has_room node req_cpu req_mem = not (
    ltb node.capacity.cpu_millicores (u64_add node.cpu_used_millicores req_cpu)
    || ltb node.capacity.memory_bytes (u64_add node.memory_used_bytes req_mem)
    || leb node.capacity.max_releases node.running_releases_count)

abbrev pub contains_id : List ℕ → ℕ → Bool
contains_id ids i = any (λ j. j == i) ids

-- The two `continue`s of the loop over the active nodes.
unfoldable pub is_candidate : PlacementRequest → NodeRecord → Bool
is_candidate req node =
    elim req.candidate_nodes [ none ↦ true | some ids ↦ contains_id ids node.id ]
    && not (contains_id req.anti_affinity_nodes node.id)

module _ {F : Type 0} (float : Float F) where
  unfoldable pub balance : NodeRecord → ℕ → ℕ → F
  balance node req_cpu req_mem =
      let future_cpu = u64_add node.cpu_used_millicores req_cpu in
      let future_mem = u64_add node.memory_used_bytes req_mem in
      let remaining_cpu_pct =
        float.sub float.one
          (float.div (float.of_u64 future_cpu) (float.of_u64 node.capacity.cpu_millicores)) in
      let remaining_mem_pct =
        float.sub float.one
          (float.div (float.of_u64 future_mem) (float.of_u64 node.capacity.memory_bytes)) in
      float.div (float.add remaining_cpu_pct remaining_mem_pct) float.two

  unfoldable pub score_node : NodeRecord → ℕ → ℕ → Option F
  score_node node req_cpu req_mem =
      if not (is_open node)
      then none
      else if not (has_room node req_cpu req_mem)
      then none
      else some (balance node req_cpu req_mem)

  unfoldable pub candidate_scores : PlacementRequest → List NodeRecord → List (NodeRecord × F)
  candidate_scores req [] = []
  candidate_scores req (node ∷ nodes) =
      let rest = candidate_scores req nodes in
      if is_candidate req node
      then elim (score_node node req.required_cpu_millicores req.required_memory_bytes) [
        | none ↦ rest
        | some score ↦ (node, score) ∷ rest
      ]
      else rest

  -- `a` goes before `b` in the sort: the higher score, then the lower id; scores that do not compare
  -- count as equal.
  unfoldable pub goes_before : NodeRecord × F → NodeRecord × F → Bool
  goes_before (a_node, a_score) (b_node, b_score) = elim (float.partial_cmp b_score a_score) [
    | some less ↦ true
    | some greater ↦ false
    | some equal ↦ leb a_node.id b_node.id
    | none ↦ leb a_node.id b_node.id
  ]

  unfoldable pub insert_scored : NodeRecord × F → List (NodeRecord × F) → List (NodeRecord × F)
  insert_scored a [] = a ∷ []
  insert_scored a (b ∷ bs) = if goes_before a b then a ∷ b ∷ bs else b ∷ insert_scored a bs

  -- `sort_by`, as a stable insertion sort.
  unfoldable pub sort_scored : List (NodeRecord × F) → List (NodeRecord × F)
  unfolding insert_scored
  sort_scored [] = []
  sort_scored (x ∷ xs) = insert_scored x (sort_scored xs)
