-- ===== src/Tests/Samples.antt =====
-- A small workflow and its surroundings: two agents, an approval between them, and a node that runs
-- only if the approval was given.
use multi_agent_workflow.Prelude.{
  Result, ℕ, String, true, false, Option, none, some, List, [], ◌∷◌, ◌==◌, if◌then◌else◌, arith,
  refl,
}
use multi_agent_workflow.Prelude.Int.{pos}
use multi_agent_workflow.Json.{
  Value, null, boolean, text, object, array, nil, cons, Fields, end, field, Python,
}
use multi_agent_workflow.Prelude.Dict.{Dict, lookup}
use multi_agent_workflow.Core.Dag.{Node, Edge, Dag, Status, done, waiting_approval, pending}
use multi_agent_workflow.Core.Dag.Build.{build}
use multi_agent_workflow.Core.Dag.Build.Accepted.{Skeleton}
use multi_agent_workflow.StateStore.Rows.{
  NodeState, Checkpoint, Approval, ApprovalStatus, RunStatus,
}
use multi_agent_workflow.StateStore.Memory.{Store, empty}
use multi_agent_workflow.Executor.State.{Config, Executor, init}
use multi_agent_workflow.Executor.Environment.{Environment, returned}
use multi_agent_workflow.Executor.Invariant.{Inv}
use multi_agent_workflow.Executor.Node.{Task, call}
use multi_agent_workflow.Executor.Resume.Restores.{init-Inv}
use multi_agent_workflow.Executor.Run.Ends.{Sound}

abbrev pub python : Python
python = record {
  parse_float = λ _. none;
  float_eq = λ a b. a == b;
  float_eq_int = λ _ _. false;
  float_is_true = λ _. true;
  int_of_float = λ _. none;
  str_of = λ _. "value";
  message = λ _. "failed";
  class_name = λ _. "Exception";
}

abbrev pub edge : String → String → Option String → Edge
edge from to when = record { source = from; target = to; when = when }

abbrev pub node : String → String → Option String → List Edge → Fields → Node
node id kind agent in_edges params = record {
  id = id;
  kind = kind;
  agent = agent;
  in_edges = in_edges;
  when = none;
  join = "any";
  required_edges = [];
  retry = pos 1;
  params = params;
  on_failure = "abort";
  on_reject = "abort";
  require = [];
  timeout = none;
  idempotency_key = none;
}

abbrev pub scan : Node
scan = node "scan" "agent" (some "scanner") [] end

abbrev pub confirm : Node
confirm =
    node "confirm" "approval" none (edge "scan" "confirm" none ∷ [])
      (field "approvers" (array (cons (text "lead") nil)) end)

abbrev pub ship : Node
ship =
    node "ship" "agent" (some "deployer")
      (edge "confirm" "ship" (some "confirm.output.approved == true") ∷ []) end

abbrev pub release : Config
release = record {
  run_id = "r1";
  tenant_id = "acme";
  nodes = ("scan", scan) ∷ ("confirm", confirm) ∷ ("ship", ship) ∷ [];
  inputs = end;
}

abbrev pub passing : Value
passing = object (field "deployed" (boolean true) end)

abbrev pub refusing : Value
refusing = object (field "deployed" (boolean false) end)

-- Every agent answers the same, at the time 5.
abbrev pub answering : Value → Environment
answering v = record {
  python = python;
  runner = λ _ _ _. returned v 1;
  tickets = none;
  tools = λ _ _. none;
  clock = λ _. 5;
  execution_id = λ _ nid _. nid;
  pick = λ _ _ _. none;
}

abbrev pub rank : String → ℕ
rank nid = if nid == "scan" then 0 else if nid == "confirm" then 1 else 2

pub release-Sound : Sound release rank
unfolding lookup
release-Sound = record {
  unique = (refl, (refl, (refl, tt)));
  known = ((refl, tt), ((refl, (refl, tt)), ((refl, (refl, tt)), tt)));
  ranked = (tt, ((omega arith, tt), ((omega arith, tt), tt)));
}

abbrev pub fresh : Executor
fresh = init release empty

-- The executor and the store while the approval is open until the time 9.
abbrev pub with_status : Status → NodeState
with_status status = record { status = status; output = null; params = none; error = none }

abbrev pub request : Approval
request = record {
  approval_id = "ap_r1_confirm";
  run_id = "r1";
  node_id = "confirm";
  tenant_id = "acme";
  status = ApprovalStatus.waiting;
  params = end;
  approvers = "lead" ∷ [];
  timeout_at = some 9;
  approved_by = none;
  comment = none;
}

abbrev pub checkpoint : NodeState → Checkpoint
checkpoint st = record { state = st; tenant_id = some "acme" }

abbrev pub asked : Store
asked = record empty {
  nodes =
      (
        "r1",
        ("scan", checkpoint (with_status done))
            ∷ ("confirm", checkpoint (with_status waiting_approval))
            ∷ [],
      )
      ∷ [];
  approvals = ("ap_r1_confirm", request) ∷ [];
}

abbrev pub asking : Executor
asking = record {
  states =
      ("scan", with_status done)
      ∷ ("confirm", with_status waiting_approval)
      ∷ ("ship", with_status pending)
      ∷ [];
  failed = [];
  pause_requested = false;
  store = asked;
}

pub asking-Inv : Inv release [] asking
unfolding lookup
asking-Inv = record {
  covered = λ k. ground arith;
  unique = (refl, (refl, (refl, tt)));
  settled = λ k. ground arith;
}

pub fresh-Inv : Inv release [] fresh
fresh-Inv = init-Inv release empty release-Sound.unique

abbrev pub shipping : Task
shipping = record { nid = "ship"; node = ship; params = end; work = call (some "r1:ship") }

-- The workflow before its edges are bound, and as it is loaded.
abbrev pub bare : Node → Node
bare n = record n { in_edges = [] }

abbrev pub skeleton : Dict Node
skeleton = ("scan", bare scan) ∷ ("confirm", bare confirm) ∷ ("ship", bare ship) ∷ []

abbrev pub edges : List Edge
edges =
    edge "scan" "confirm" none ∷ edge "confirm" "ship" (some "confirm.output.approved == true") ∷ []

abbrev pub graph : Dag
graph = record { nodes = release.nodes; edges = edges }

pub skeleton-Skeleton : Skeleton skeleton
unfolding lookup
skeleton-Skeleton = record {
  unique = (refl, (refl, (refl, tt)));
  bare = (refl, (refl, (refl, tt)));
}

-- The store of a run that has stopped at the approval.
abbrev pub saved : Store
saved = record asked {
  snapshots = ("h1", "release") ∷ [];
  runs =
      (
        "r1",
        record { tenant_id = some "acme"; snapshot_id = some "h1"; status = none; inputs = end },
      )
      ∷ [];
}

abbrev pub loader : String → Result Dag
loader yaml = build false skeleton edges

-- The same store, with a row of the run as the service and the worker write it.
abbrev pub with_row : RunStatus → Store
with_row status = record saved {
  runs =
      (
        "r1",
        record {
          tenant_id = some "acme";
          snapshot_id = some "h1";
          status = some status;
          inputs = end;
        },
      )
      ∷ [];
}
