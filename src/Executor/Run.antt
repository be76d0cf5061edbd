-- ===== src/Executor/Run.antt =====
-- The main loop of the executor (`DAGExecutor.run`).
pub mod Stall
pub mod Ends
pub mod Once
use multi_agent_workflow.Prelude.{
  ℕ, zero, suc, String, Bool, true, false, not, ◌&&◌, Option, none, some, List, [], ◌∷◌, length,
  if◌then◌else◌, Result, ok, raise, Error, out_of_fuel, node_failed, rejected, stalled,
}
use multi_agent_workflow.Executor.State.{
  Config, Executor, Action, continue, ◌>>=◌, ◌>>◌, pure, throw, lift, gets,
}
use multi_agent_workflow.Executor.Environment.{Environment}
use multi_agent_workflow.Executor.Decision.{
  ready_nodes, has_waiting_approval, all_terminal, rejected_abort_node,
}
use multi_agent_workflow.Executor.Passes.{settle}
use multi_agent_workflow.Executor.Wave.{wave}

-- The texts that `run` returns; a failed run raises.
pub data RunOutcome : Type 0 where
  done waiting_approval paused : RunOutcome

-- Where the loop goes after it has settled: it ends, or it executes a wave.
pub data Turn : Type 0 where
  stop : Result RunOutcome → Turn
  go : List String → Turn

abbrev by_ready : Executor → Result (List String) → Turn
by_ready s (raise e) = stop (raise e)
by_ready s (ok (nid ∷ nids)) = go (nid ∷ nids)
by_ready s (ok []) =
    if has_waiting_approval s.states
    then stop (ok waiting_approval)
    else if all_terminal s.states
    then stop (ok done)
    else stop (raise stalled)

abbrev unless_rejected : Environment → Config → Executor → Option String → Turn
unless_rejected env c s (some nid) = stop (raise (node_failed nid))
unless_rejected env c s none =
    if s.pause_requested && not (all_terminal s.states)
    then stop (ok paused)
    else by_ready s (ready_nodes env.python c.nodes s.states)

abbrev unless_failed : Environment → Config → Executor → List String → Turn
unless_failed env c s (nid ∷ nids) = stop (raise (node_failed nid))
unless_failed env c s [] = unless_rejected env c s (rejected_abort_node c.nodes s.states)

-- The tests between the settled state and the next wave, in their order.
unfoldable pub turn : Environment → Config → Executor → Turn
turn env c s = unless_failed env c s s.failed

-- `run`; the fuel is the number of waves.
unfoldable pub run_from : Environment → Config → ℕ → Action RunOutcome
run_from env c zero s = (raise out_of_fuel, s)
run_from env c (suc fuel) s =
    continue
      (λ _ s'. elim (turn env c s') [
        | stop r ↦ (r, s')
        | go nids ↦ continue (λ _. run_from env c fuel) (wave env c nids s')
      ])
      (settle env c (suc (length c.nodes)) s)

-- Every wave executes a node, so the number of nodes bounds the waves.
unfoldable pub run : Environment → Config → Action RunOutcome
run env c = run_from env c (suc (length c.nodes))
