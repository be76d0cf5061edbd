-- ===== src/StateStore/Memory.antt =====
-- `InMemoryStateStore` (agentflow/statestore/memory.py): snapshots, runs, checkpoints, approvals
-- and attempts. The audit log, the traces and the listings are not here.
use multi_agent_workflow.Prelude.{
  ℕ, ◌+◌, String, Bool, true, false, ◌&&◌, Option, none, some, [], ◌∷◌, ◌==◌, if◌then◌else◌,
}
use multi_agent_workflow.Prelude.Dict.{Dict, lookup, insert}
use multi_agent_workflow.Json.{Value, null, Fields, end}
use multi_agent_workflow.Core.Dag.NodeStatus.{Status}
use multi_agent_workflow.StateStore.Rows.{
  RunStatus, running, is_active, same_run_status, Run, NodeState, Checkpoint, Approval, Attempt,
}

pub record Store : Type 0 where
  pub snapshots : Dict String
  pub runs : Dict Run
  pub nodes : Dict (Dict Checkpoint)
  pub approvals : Dict Approval
  pub attempts : Dict Attempt

abbrev pub empty : Store
empty = record { snapshots = []; runs = []; nodes = []; approvals = []; attempts = [] }

-- `save_snapshot`: the first snapshot under a hash is kept. A snapshot is its canonical YAML.
unfoldable pub save_snapshot : String → String → Store → Store
save_snapshot hash yaml s = elim (lookup hash s.snapshots) [
  | some kept ↦ s
  | none ↦ record s { snapshots = insert hash yaml s.snapshots }
]

unfoldable pub create_run : String → String → String → Fields → Store → Store
create_run run_id tenant_id snapshot_id inputs s =
    let run : Run = record {
      tenant_id = some tenant_id;
      snapshot_id = some snapshot_id;
      status = some running;
      inputs = inputs;
    } in
    record s { runs = insert run_id run s.runs }

abbrev blank_run : Run
blank_run = record { tenant_id = none; snapshot_id = none; status = none; inputs = end }

abbrev pub or_blank : Option Run → Run
or_blank none = blank_run
or_blank (some run) = run

-- `update_run` with a status; a run that is not there is made.
unfoldable pub update_run : String → RunStatus → Store → Store
update_run run_id status s = record s {
  runs = insert run_id (record (or_blank (lookup run_id s.runs)) { status = some status }) s.runs;
}

abbrev pub status_is : RunStatus → Option RunStatus → Bool
status_is from none = false
status_is from (some status) = same_run_status status from

-- `cas_update_run_status`.
unfoldable pub cas_update_run_status : String → RunStatus → RunStatus → Store → Store × Bool
cas_update_run_status run_id from to s = elim (lookup run_id s.runs) [
  | none ↦ (s, false)
  | some run ↦
      if status_is from run.status
      then (record s { runs = insert run_id (record run { status = some to }) s.runs }, true)
      else (s, false)
]

abbrev pub text_is : String → Option String → Bool
text_is t none = false
text_is t (some u) = u == t

abbrev pub active : Option RunStatus → Bool
active none = false
active (some status) = is_active status

unfoldable pub count_runs : String → Dict Run → ℕ
count_runs tenant [] = 0
count_runs tenant ((k, run) ∷ runs) =
    let rest = count_runs tenant runs in
    if text_is tenant run.tenant_id && active run.status then rest + 1 else rest

unfoldable pub count_active_runs : String → Store → ℕ
unfolding count_runs
count_active_runs tenant s = count_runs tenant s.runs

abbrev pub run_nodes : String → Store → Dict Checkpoint
run_nodes run_id s = elim (lookup run_id s.nodes) [ none ↦ [] | some nodes ↦ nodes ]

-- `put_node`: the whole checkpoint is replaced.
unfoldable pub put_node : String → String → String → NodeState → Store → Store
put_node run_id tenant_id node_id cp s =
    let row : Checkpoint = record { state = cp; tenant_id = some tenant_id } in
    record s { nodes = insert run_id (insert node_id row (run_nodes run_id s)) s.nodes }

abbrev with_status : Status → Option Value → Option Checkpoint → Checkpoint
with_status status output none = record {
  state = record {
    status = status;
    output = elim output [ none ↦ null | some v ↦ v ];
    params = none;
    error = none;
  };
  tenant_id = none;
}
with_status status none (some row) = record row { state = record row.state { status = status } }
with_status status (some v) (some row) = record row {
  state = record row.state { status = status; output = v };
}

-- `update_node_status`: an output of `None` leaves the old one.
unfoldable pub update_node_status : String → String → Status → Option Value → Store → Store
update_node_status run_id node_id status output s =
    let nodes = run_nodes run_id s in
    let row = with_status status output (lookup node_id nodes) in
    record s { nodes = insert run_id (insert node_id row nodes) s.nodes }
