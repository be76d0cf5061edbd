-- ===== src/Core/Dag/NodeStatus.antt =====
-- The statuses of a node (agentflow/core/dag.py, and `cancelled` of agentflow/service.py).
use multi_agent_workflow.Prelude.{Bool, true, false, String}

pub data Status : Type 0 where
  pending running done skipped waiting_approval rejected rejected_canceled failed : Status
  cancelled : Status

-- The set `TERMINAL`: `failed` is not in it, so a resumed run executes a failed node again.
abbrev pub is_terminal : Status → Bool
is_terminal done = true
is_terminal skipped = true
is_terminal rejected = true
is_terminal rejected_canceled = true
is_terminal _ = false

abbrev pub is_pending : Status → Bool
is_pending pending = true
is_pending _ = false

abbrev pub is_waiting : Status → Bool
is_waiting waiting_approval = true
is_waiting _ = false

abbrev pub is_done : Status → Bool
is_done done = true
is_done _ = false

abbrev pub is_rejected : Status → Bool
is_rejected rejected = true
is_rejected _ = false

abbrev pub is_failed : Status → Bool
is_failed failed = true
is_failed _ = false

-- The statuses whose nodes have an output that conditions can read.
abbrev pub has_output : Status → Bool
has_output done = true
has_output rejected = true
has_output rejected_canceled = true
has_output _ = false

unfoldable pub status_text : Status → String
status_text pending = "pending"
status_text running = "running"
status_text done = "done"
status_text skipped = "skipped"
status_text waiting_approval = "waiting_approval"
status_text rejected = "rejected"
status_text rejected_canceled = "rejected-canceled"
status_text failed = "failed"
status_text cancelled = "cancelled"
