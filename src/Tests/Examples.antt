-- ===== src/Tests/Examples.antt =====
-- Each theorem at an example.
use multi_agent_workflow.Prelude.{
  raise, false, String, All, is_some, ◌⊎◌, dag_error, ℕ, ◌≤◌, true, none, some, [], ◌∷◌, ◌≡◌, refl,
  ok, arith, ltb,
}
use multi_agent_workflow.Prelude.Dict.{lookup, Unique}
use multi_agent_workflow.Json.{end}
use multi_agent_workflow.Core.Dag.{Node}
use multi_agent_workflow.StateStore.Rows as Rows
use multi_agent_workflow.StateStore.Memory.{empty, run_nodes}
use multi_agent_workflow.StateStore.Approvals.Cas.{
  Decision, decide, winners, winners-le_one, decide_deadline,
}
use multi_agent_workflow.Executor.State.{init}
use multi_agent_workflow.Executor.Ensures.{Ensures, Gives}
use multi_agent_workflow.Executor.Decision.{node_decision, ready_nodes}
use multi_agent_workflow.Executor.Decision.Ready.{Lists, ready_nodes-Lists}
use multi_agent_workflow.Executor.Decision.Total.{Unblocked, all_ended, node_decision-Gives}
use multi_agent_workflow.Executor.Passes.{settle}
use multi_agent_workflow.Executor.Passes.Settle.{Settled, settle-Settled}
use multi_agent_workflow.Executor.Attempts.{completed, execute_once}
use multi_agent_workflow.Executor.Attempts.Idempotent.{execute_once-repeat}
use multi_agent_workflow.Executor.Node.{finish_node}
use multi_agent_workflow.Executor.Node.Denied.{Fails, finish_node-Denies}
use multi_agent_workflow.Executor.Wave.{wave}
use multi_agent_workflow.Executor.Wave.Effect.{Waved, wave-Waved}
use multi_agent_workflow.Executor.Run.{run}
use multi_agent_workflow.Executor.Run.Ends.{Ended}
use multi_agent_workflow.Executor.Approve.{approve, decided_state}
use multi_agent_workflow.Executor.Approve.Effect.{Atomic, Approved, approve-Atomic}
use multi_agent_workflow.Executor.Approve.Survives.{resumed_decision}
use multi_agent_workflow.Executor.Resume.{from_checkpoint}
use multi_agent_workflow.Executor.Resume.Restores.{InGraph, state_from, from_checkpoint-lookup}
use multi_agent_workflow.Executor.State.{initial_states}
use multi_agent_workflow.Executor.Passes.Count.{count_pending-le-length}
use multi_agent_workflow.Core.Dag.{Edge}
use multi_agent_workflow.Core.Dag.Kahn.{check_cycle}
use multi_agent_workflow.Core.Dag.Kahn.Drain.{Ranked, Ends, check_cycle-Ranked}
use multi_agent_workflow.Core.Dag.Build.Accepted.{build-Accepted}
use multi_agent_workflow.Executor.Resume.Loaded.{Loads, loaded-Ended, resume_executor-Ended}
use multi_agent_workflow.Core.Dag.Kahn.Accepts.{check_cycle-accepts}
use multi_agent_workflow.Prelude.{arith, ◌<◌, key_error, none, raise}
use multi_agent_workflow.Executor.Invariant.{IsClosed}
use multi_agent_workflow.Tests.Samples.{rank}
use multi_agent_workflow.Tests.Runs.{
  graph_lem, saved_lem, given, given_value, given_lem, given-Unique, shipped, shipped_lem,
  refused_lem, refusing-Readable, refusing-Denies, fresh_ready, asked-is_open,
}
use multi_agent_workflow.Tests.Samples.{
  skeleton, edges, graph, skeleton-Skeleton, saved, loader, release, release-Sound, python,
  answering, passing, refusing, scan, ship, fresh, fresh-Inv, asked, asking, asking-Inv, shipping,
}

loaded-Ended_example :
    Ensures (Ended (answering passing) release) (run (answering passing) release fresh)
loaded-Ended_example =
    loaded-Ended (answering passing) true skeleton edges graph "r1" "acme" end empty
      skeleton-Skeleton graph_lem

saved-InGraph : InGraph release (run_nodes "r1" saved)
unfolding lookup
saved-InGraph = (refl, (refl, tt))

pub loader-Loads : Loads loader
loader-Loads yaml g e = build-Accepted false skeleton edges skeleton-Skeleton g e

resume_executor-Ended_example :
    Ensures
      (Ended (answering passing) release)
      (run (answering passing) release (from_checkpoint release saved))
resume_executor-Ended_example =
    resume_executor-Ended loader "r1" "acme" saved (answering passing) release
      (from_checkpoint release saved) loader-Loads saved_lem saved-InGraph

skeleton-Unique : Unique graph.nodes
unfolding lookup
skeleton-Unique = (refl, (refl, (refl, tt)))

edges-known : All (λ (e : Edge). is_some (lookup e.target graph.nodes) ≡ true) edges
unfolding lookup
edges-known = (refl, (refl, tt))

check_cycle-Ranked_example :
    (Ends graph.nodes edges edges
      × (((r : String → ℕ) × All (λ (e : Edge). r e.source < r e.target) edges
            × (check_cycle graph.nodes edges ≡ ok tt))
          ⊎ (check_cycle graph.nodes edges ≡ raise (dag_error "cycle"))))
    ⊎ ((k : String) × (check_cycle graph.nodes edges ≡ raise (key_error k))
        × (lookup k graph.nodes ≡ none))
check_cycle-Ranked_example = check_cycle-Ranked graph.nodes edges skeleton-Unique

edges-sources : All (λ (e : Edge). is_some (lookup e.source graph.nodes) ≡ true) edges
unfolding lookup
edges-sources = (refl, (refl, tt))

edges-Ranked : Ranked graph.nodes edges skeleton-Unique edges-known rank
edges-Ranked = (omega arith, (omega arith, tt))

check_cycle-accepts_example : check_cycle graph.nodes edges ≡ ok tt
check_cycle-accepts_example =
    check_cycle-accepts graph.nodes edges skeleton-Unique edges-known edges-sources rank
      edges-Ranked

asked-Unique : Unique (run_nodes "r1" asked)
unfolding lookup
asked-Unique = (refl, (refl, tt))

from_checkpoint-lookup_example :
    lookup "confirm" (from_checkpoint release asked).states
    ≡ state_from release "confirm" (lookup "confirm" (run_nodes "r1" asked))
from_checkpoint-lookup_example = from_checkpoint-lookup release asked "confirm" asked-Unique

release-IsClosed : IsClosed release
unfolding lookup
release-IsClosed = (tt, ((refl, tt), ((refl, tt), tt)))

approve-Atomic_example :
    Atomic asking
      (λ v s'. Approved (answering passing) release "confirm" true "lead" "" asking v s')
      (approve (answering passing) release "confirm" true "lead" "" asking)
unfolding lookup
approve-Atomic_example =
    approve-Atomic (answering passing) release asking asking-Inv.covered "confirm" true "lead" ""
      release-IsClosed refl

resumed_decision_example :
    (n : Node) × (lookup "confirm" release.nodes ≡ some n)
    × (lookup "confirm" (from_checkpoint release given.1.store).states
        ≡ some (record (decided_state true given_value n) { params = none }))
unfolding lookup
resumed_decision_example =
    resumed_decision (answering passing) release "confirm" true "lead" "" asking given.1 given_value
      asking-Inv.covered release-IsClosed refl given-Unique given_lem

execute_once-repeat_example :
    execute_once (answering refusing) release ship end (some "r1:ship") (shipped passing).1
    ≡ (ok (completed passing), (shipped passing).1)
execute_once-repeat_example =
    execute_once-repeat (answering passing) (answering refusing) release ship end end "r1:ship"
      asking (shipped passing).1 (shipped passing).1 passing refl refl shipped_lem refl

finish_node-Denies_example :
    Fails shipping refusing
      (shipped refusing).1
      (finish_node (answering refusing) release shipping asking)
finish_node-Denies_example =
    finish_node-Denies (answering refusing) release shipping refusing (some "r1:ship") asking
      (shipped refusing).1 refl refused_lem refusing-Readable refusing-Denies

abbrev decision_at : ℕ → Rows.ApprovalStatus → Decision
decision_at time to = record {
  time = time;
  approval_id = "ap_r1_confirm";
  to = to;
  by = some "lead";
  comment = none;
}

winners-le_one_example :
    winners "ap_r1_confirm"
      (decision_at 5 Rows.approved
        ∷ decision_at 6 Rows.rejected
        ∷ decision_at 9 Rows.timed_out
        ∷ [])
      asked
    ≤ 1
winners-le_one_example =
    winners-le_one "ap_r1_confirm"
      (decision_at 5 Rows.approved
        ∷ decision_at 6 Rows.rejected
        ∷ decision_at 9 Rows.timed_out
        ∷ [])
      asked (refl, (refl, (refl, tt)))

decide_deadline_example : (decide (decision_at 9 Rows.approved) asked).1 ≡ ltb 9 9
unfolding lookup
decide_deadline_example =
    decide_deadline (decision_at 9 Rows.approved) asked 9 asked-is_open refl refl

settle-Settled_example :
    Ensures
      (λ _ s'. Settled (answering passing) release [] release-Sound.known fresh s')
      (settle (answering passing) release 4 fresh)
settle-Settled_example =
    settle-Settled (answering passing) release [] release-Sound.known 4 fresh fresh-Inv
      (omega (arith, count_pending-le-length release.nodes fresh.states))

ready_nodes-Lists_example :
    Gives (Lists python release fresh release.nodes) (ready_nodes python release.nodes fresh.states)
unfolding lookup
ready_nodes-Lists_example =
    ready_nodes-Lists python release fresh [] fresh-Inv
      ((refl, tt), ((refl, (refl, tt)), ((refl, (refl, tt)), tt)))

node_decision-Gives_example :
    Gives
      (Unblocked (all_ended asking.states ship.in_edges))
      (node_decision python asking.states ship)
unfolding lookup
node_decision-Gives_example =
    node_decision-Gives python release [] asking asking-Inv ship (refl, tt)

wave-Waved_example :
    Ensures
      (λ _ s'. Waved (answering passing) release release-Sound.known fresh s')
      (wave (answering passing) release ("scan" ∷ []) fresh)
unfolding lookup init initial_states
wave-Waved_example =
    wave-Waved (answering passing) release release-Sound.known "scan" [] fresh fresh-Inv (refl, tt)
      (scan, refl, refl, fresh_ready)
