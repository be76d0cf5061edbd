-- ===== src/Executor/Resume.antt =====
-- Resuming a run from its checkpoints (`DAGExecutor.from_checkpoint`, and
-- agentflow/executor/resume.py).
pub mod Restores
pub mod Loaded
use multi_agent_workflow.Prelude.{
  String, Bool, ◌||◌, Option, none, some, List, [], ◌∷◌, if◌then◌else◌, Result, ok, raise,
  key_error, missing_run, missing_snapshot, ◌>>=◌,
}
use multi_agent_workflow.Prelude.Dict.{Dict, lookup}
use multi_agent_workflow.Core.Dag.{Node, Dag, is_terminal, is_waiting}
use multi_agent_workflow.StateStore.Rows.{NodeState, Checkpoint, Run}
use multi_agent_workflow.StateStore.Memory.{Store, run_nodes}
use multi_agent_workflow.Executor.State.{Config, Executor, fresh_state, init, set_state}

-- What a checkpoint brings back: a state that has ended or that waits is kept, without its
-- parameters; any other one is reset.
unfoldable pub restored : NodeState → NodeState
restored cp =
    if is_terminal cp.status || is_waiting cp.status
    then record cp { params = none }
    else fresh_state

unfoldable pub restore_all : Dict Checkpoint → Executor → Executor
restore_all [] s = s
restore_all ((nid, cp) ∷ cps) s = restore_all cps (set_state nid (restored cp.state) s)

-- `from_checkpoint`.
unfoldable pub from_checkpoint : Config → Store → Executor
from_checkpoint c store = restore_all (run_nodes c.run_id store) (init c store)

abbrev or_raise {ℓ} : {A : Type ℓ} → Option A → Result A → Result A
or_raise none r = r
or_raise (some a) r = ok a

-- `load_snapshot_workflow`; `load` is `Workflow.load_yaml` without the strict checks.
unfoldable pub load_snapshot_workflow : (String → Result Dag) → String → Store → Result Dag
load_snapshot_workflow load key store = do
  yaml ← or_raise (lookup key store.snapshots) (raise (missing_snapshot key))
  load yaml

-- `resume_executor`: the constants of the run and the executor.
unfoldable pub resume_executor :
    (String → Result Dag) → String → String → Store → Result (Config × Executor)
resume_executor load run_id tenant_id store = do
  run ← or_raise (lookup run_id store.runs) (raise (missing_run run_id))
  key ← or_raise run.snapshot_id (raise (key_error "workflow_snapshot_id"))
  dag ← load_snapshot_workflow load key store
  let c : Config = record {
    run_id = run_id;
    tenant_id = tenant_id;
    nodes = dag.nodes;
    inputs = run.inputs;
  }
  ok (c, from_checkpoint c store)
