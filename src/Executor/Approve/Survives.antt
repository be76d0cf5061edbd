-- ===== src/Executor/Approve/Survives.antt =====
-- A decision (`DAGExecutor.approve`) and a restart (`from_checkpoint`) after it.
use multi_agent_workflow.Prelude.{
  String, Bool, true, false, none, some, ◌≡◌, refl, ◌∙◌, ap, ok, is_some, subst,
}
use multi_agent_workflow.Prelude.Dict.{lookup, Unique}
use multi_agent_workflow.Json.{Value}
use multi_agent_workflow.Core.Dag.{Node}
use multi_agent_workflow.StateStore.Memory.{run_nodes}
use multi_agent_workflow.Executor.State.{Config, Executor}
use multi_agent_workflow.Executor.Environment.{Environment}
use multi_agent_workflow.Executor.Invariant.{Covered, IsClosed}
use multi_agent_workflow.Executor.Approve.{decided_state, approve}
use multi_agent_workflow.Executor.Approve.Effect.{Approved, Atomic, approve-Atomic}
use multi_agent_workflow.Executor.Resume.{from_checkpoint}
use multi_agent_workflow.Executor.Resume.Restores.{brought_back, state_from, from_checkpoint-lookup}

kept_decision :
    (approved : Bool) (v : Value) (n : Node)
    → brought_back (decided_state approved v n)
      ≡ record (decided_state approved v n) { params = none }
kept_decision true v n = refl
kept_decision false v n = refl

-- An executor that is rebuilt from the store after a decision was accepted has the decided state of
-- the approval, with the decision's output and without the parameters. The checkpoints have
-- different node ids. The node is one of the graph, the edges of the graph start at its nodes, and
-- exactly the nodes of the graph have a state; the other nodes may be running or have failed.
pub resumed_decision :
    (env : Environment) (c : Config) (nid : String) (approved : Bool) (by comment : String)
    (s s' : Executor) (v : Value)
    → Covered c s
    → IsClosed c
    → is_some (lookup nid c.nodes) ≡ true
    → Unique (run_nodes c.run_id s'.store)
    → approve env c nid approved by comment s ≡ (ok v, s')
    → (n : Node) × (lookup nid c.nodes ≡ some n)
      × (lookup nid (from_checkpoint c s'.store).states
          ≡ some (record (decided_state approved v n) { params = none }))
resumed_decision env c nid approved by comment s s' v covered known there u e =
    let a : Approved env c nid approved by comment s v s' =
      subst (Atomic s (λ v s'. Approved env c nid approved by comment s v s')) e
        (approve-Atomic env c s covered nid approved by comment known there) in
    (
      a.node,
      a.found,
      from_checkpoint-lookup c s'.store nid u
          ∙ ap (state_from c nid) a.checkpoint
          ∙ ap some (kept_decision approved v a.node),
    )
