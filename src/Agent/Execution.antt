-- ===== src/Agent/Execution.antt =====
-- What `handle_envelope` of src/agent_server.rs lets through to the runtime.
use hostinger.Prelude.{ℕ, ◌≡◌, ◌≢◌, refl, inl, inr, Bool, true, false, ◌&&◌, Bool-cases}
use hostinger.Agent.Commands
use hostinger.Agent.Commands.{AgentCommand}
use hostinger.Agent.Envelope.{Wire, AgentEnvelope}
use hostinger.Agent.Validator.{validate_and_unpack}
use hostinger.Agent.Responses.{AgentRuntimeAdapter}
use hostinger.Agent.Server.{
  AgentServer, is_create, dispatch, execute_command_direct, handle_envelope,
}
use hostinger.Agent.Acceptance.{Result-cases, IsGenuine, validate_and_unpack-IsGenuine}

-- A command for the runtime: not one that the scheduler handles.
abbrev pub is_local : AgentCommand → Bool
is_local (Commands.register_node cmd) = false
is_local (Commands.heartbeat cmd) = false
is_local _ = true

module _ {S : Type 0} (adapter : AgentRuntimeAdapter S) (wire : Wire) where
  dispatch_untouched :
      (instant start_time : ℕ) (draining : Bool) (command : AgentCommand) (s : S)
      → is_local command ≡ false
      → (dispatch adapter instant draining start_time command s).1 ≡ s
  unfolding dispatch
  dispatch_untouched instant start_time draining (Commands.register_node c) s h = refl
  dispatch_untouched instant start_time draining (Commands.heartbeat c) s h = refl
  dispatch_untouched instant start_time draining (Commands.create_release c) s h = cc
  dispatch_untouched instant start_time draining (Commands.start_release i t) s h = cc
  dispatch_untouched instant start_time draining (Commands.stop_release i t g) s h = cc
  dispatch_untouched instant start_time draining (Commands.drain_release i t) s h = cc
  dispatch_untouched instant start_time draining (Commands.release_logs i k l) s h = cc
  dispatch_untouched instant start_time draining (Commands.release_stats i) s h = cc
  dispatch_untouched instant start_time draining Commands.health s h = cc

  -- Where `handle_envelope` has changed the state of the runtime, the envelope is genuine, its
  -- command is neither a registration nor a heartbeat, and it is no creation of a release on a node
  -- that is draining.
  pub handle_envelope-IsGenuine :
      (now instant later : ℕ) (envelope : AgentEnvelope) (server : AgentServer S)
      → (handle_envelope adapter wire now instant later envelope server).1.runtime ≢ server.runtime
      → (command : AgentCommand) × IsGenuine wire now instant envelope server.validator command
        × (is_local command ≡ true)
        × ((server.is_draining && is_create command) ≡ false)
  unfolding handle_envelope execute_command_direct
  handle_envelope-IsGenuine now instant later envelope server changed =
      elim (Result-cases (validate_and_unpack wire now instant envelope server.validator).0) [
        | inl (e, q) ↦ absurd (changed (rw (handle_envelope, q) refl))
        | inr (command, q) ↦ elim (Bool-cases (server.is_draining && is_create command)) [
          | inl drains ↦ absurd (changed (rw (handle_envelope, q, drains) refl))
          | inr open_now ↦ elim (Bool-cases (is_local command)) [
            | inl here_only ↦ (
              command,
              (validate_and_unpack-IsGenuine wire now instant envelope server.validator command).0
                  q,
              here_only,
              open_now,
            )
            | inr elsewhere ↦ absurd (
                changed (
                  rw (handle_envelope, q, open_now)
                    (dispatch_untouched later server.start_time server.is_draining command
                      server.runtime elsewhere)))
          ]
        ]
      ]
