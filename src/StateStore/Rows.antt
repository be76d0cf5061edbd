-- ===== src/StateStore/Rows.antt =====
-- The rows of the state store (agentflow/statestore/base.py, memory.py). Time is a number of
-- microseconds since the epoch; the columns `created_at` and `updated_at` are left out.
use multi_agent_workflow.Prelude.{ℕ, String, Bool, true, false, Option, List, Error}
use multi_agent_workflow.Json.{Value, Fields}
use multi_agent_workflow.Core.Dag.NodeStatus.{Status}

pub data RunStatus : Type 0 where
  running queued waiting_approval paused done failed cancelled : RunStatus

pub data ApprovalStatus : Type 0 where
  waiting approved rejected timed_out : ApprovalStatus

abbrev pub same_run_status : RunStatus → RunStatus → Bool
same_run_status running running = true
same_run_status queued queued = true
same_run_status waiting_approval waiting_approval = true
same_run_status paused paused = true
same_run_status done done = true
same_run_status failed failed = true
same_run_status cancelled cancelled = true
same_run_status _ _ = false

-- `ACTIVE_RUN_STATUSES`: the statuses that count towards a tenant's quota.
abbrev pub is_active : RunStatus → Bool
is_active running = true
is_active queued = true
is_active waiting_approval = true
is_active paused = true
is_active _ = false

abbrev pub is_waiting : ApprovalStatus → Bool
is_waiting waiting = true
is_waiting _ = false

abbrev pub same_status : ApprovalStatus → ApprovalStatus → Bool
same_status waiting waiting = true
same_status approved approved = true
same_status rejected rejected = true
same_status timed_out timed_out = true
same_status _ _ = false

-- A row that `update_run` made for an unknown run has only the fields that were written.
pub record Run : Type 0 where
  pub tenant_id : Option String
  pub snapshot_id : Option String
  pub status : Option RunStatus
  pub inputs : Fields

-- A node's state, in the executor and in its checkpoint. `output` is `null` when
-- it is `None`; the times and the usage counts are left out.
pub record NodeState : Type 0 where
  pub status : Status
  pub output : Value
  pub params : Option Fields
  pub error : Option Error

-- A checkpoint: a node's state with the tenant beside it.
pub record Checkpoint : Type 0 where
  pub state : NodeState
  pub tenant_id : Option String

-- `timeout_at` is the parsed deadline; `none` stands for one that is missing or unreadable.
pub record Approval : Type 0 where
  pub approval_id : String
  pub run_id : String
  pub node_id : String
  pub tenant_id : String
  pub status : ApprovalStatus
  pub params : Fields
  pub approvers : List String
  pub timeout_at : Option ℕ
  pub approved_by : Option String
  pub comment : Option String

pub record Attempt : Type 0 where
  pub run_id : String
  pub node_id : String
  pub attempt : ℕ
  pub succeeded : Bool
  pub output : Value
  pub external_operation_id : Option String
  pub error : Option Error
