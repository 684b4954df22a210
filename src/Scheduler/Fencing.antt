-- ===== src/Scheduler/Fencing.antt =====
-- The epochs of src/node_registry.rs, over any operations on the cluster.
use hostinger.Prelude.{ℕ, ◌^◌, ◌<◌, String, ◌≡◌, ◌≢◌, sym, ◌∙◌, some, List, arith}
use hostinger.Exec.{ok, World}
use hostinger.Agent.Commands.{HeartbeatCommand, HeartbeatResponse}
use hostinger.Nodes.Tables.{NodeTables}
use hostinger.Nodes.Registry.{record_heartbeat, rotate_node_identity}
use hostinger.Nodes.History.{find_grown}
use hostinger.Nodes.Fencing.{rotated_epoch, heartbeat_epoch}
use hostinger.Scheduler.Score.{Float}
use hostinger.Scheduler.Cluster.{ClusterOperation, run_all}
use hostinger.Scheduler.Evolution.{cluster-Grows}

module _ {F : Type 0} (float : Float F) where
  -- Once `rotate_node_identity` has returned an epoch (below 2 ^ 63) for a node, `record_heartbeat`
  -- takes no heartbeat of that node with an earlier epoch, whatever operations on the cluster come
  -- between, returned or failed, and whatever the environment answers.
  pub stale_heartbeat_refused :
      (i : ℕ) (token_hash : String) (w : World NodeTables) (e : ℕ) (os : List ClusterOperation)
      (cmd : HeartbeatCommand) (reply : HeartbeatResponse)
      → (rotate_node_identity i token_hash w).0 ≡ ok e
      → e < 2 ^ 63
      → cmd.node_id ≡ i
      → cmd.epoch < e
      → (record_heartbeat cmd (run_all float os (rotate_node_identity i token_hash w).1)).0
        ≢ ok reply
  stale_heartbeat_refused i token_hash w e os cmd reply returned small same stale taken =
      let w₁ : World NodeTables = (rotate_node_identity i token_hash w).1 in
      let (x, found, is_e) = rotated_epoch i token_hash w e returned in
      let (x', found', (_, later)) = find_grown i x (cluster-Grows float os w₁) found in
      let (_, no_earlier) = later (omega (arith, small, is_e)) in
      let (y, met, is_old) = heartbeat_epoch cmd (run_all float os w₁) reply taken in
      let one : some x' ≡ some y = sym found' ∙ (rw same at met) in
      ground (arith, one, is_old, no_earlier, is_e, stale)
