-- ===== src/Core/Workflow.antt =====
-- Loading a workflow (`Workflow.load_yaml` of agentflow/core/workflow.py), once its document is
-- read.
pub mod Ordered
use multi_agent_workflow.Prelude.{String, Bool, List, Result, ok, raise, ◌>>=◌, ◌>>◌}
use multi_agent_workflow.Prelude.Dict.{Dict}
use multi_agent_workflow.Core.Dag.{Node, Edge, Dag}
use multi_agent_workflow.Core.Dag.Build.{build}
use multi_agent_workflow.Core.Dag.Refs.{check_params_refs}

-- `load_yaml`, of the nodes and edges in the document.
unfoldable pub load_workflow : Bool → Dict Node → List Edge → Result Dag
load_workflow strict skeleton edges = do
  g ← build strict skeleton edges
  check_params_refs g.nodes
  ok g
