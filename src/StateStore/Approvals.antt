-- ===== src/StateStore/Approvals.antt =====
-- Approvals in the in-memory store (agentflow/statestore/memory.py) and their time guard
-- (agentflow/statestore/base.py).
pub mod Cas
use Prim.Native.String.{◌++◌}
use multi_agent_workflow.Prelude.{
  ℕ, String, Bool, true, false, not, ◌&&◌, Option, none, some, List, [], ◌∷◌, ◌==◌, leb,
  if◌then◌else◌,
}
use multi_agent_workflow.Prelude.Dict.{Dict, lookup, insert}
use multi_agent_workflow.Json.{Fields}
use multi_agent_workflow.StateStore.Rows.{
  ApprovalStatus, waiting, approved, rejected, timed_out, is_waiting, same_status, Approval,
}
use multi_agent_workflow.StateStore.Memory.{Store}

pub data TimeGuard : Type 0 where
  unguarded unexpired expired : TimeGuard

-- `approval_time_guard`.
unfoldable pub approval_time_guard : ApprovalStatus → ApprovalStatus → TimeGuard
approval_time_guard waiting waiting = unguarded
approval_time_guard waiting timed_out = expired
approval_time_guard waiting _ = unexpired
approval_time_guard _ _ = unguarded

-- The test of `cas_update_approval` on the deadline.
unfoldable pub guard_passes : TimeGuard → Option ℕ → ℕ → Bool
guard_passes unguarded deadline now = true
guard_passes expired none now = false
guard_passes expired (some deadline) now = leb deadline now
guard_passes unexpired none now = true
guard_passes unexpired (some deadline) now = not (leb deadline now)

unfoldable pub approval_key : String → String → String
approval_key run_id node_id = "ap_" ++ (run_id ++ ("_" ++ node_id))

-- `create_approval`; a second one for the same node replaces the first.
unfoldable pub create_approval :
    String → String → String → Fields → List String → Option ℕ → Store → Store
create_approval run_id node_id tenant_id params approvers timeout_at s =
    let aid = approval_key run_id node_id in
    let row : Approval = record {
      approval_id = aid;
      run_id = run_id;
      node_id = node_id;
      tenant_id = tenant_id;
      status = waiting;
      params = params;
      approvers = approvers;
      timeout_at = timeout_at;
      approved_by = none;
      comment = none;
    } in
    record s { approvals = insert aid row s.approvals }

unfoldable pub get_approval : String → String → Store → Option Approval
get_approval run_id node_id s = lookup (approval_key run_id node_id) s.approvals

pending_rows : Dict Approval → List Approval
pending_rows [] = []
pending_rows ((k, row) ∷ rows) =
    let rest = pending_rows rows in if is_waiting row.status then row ∷ rest else rest

unfoldable pub get_pending_approvals : Store → List Approval
unfolding pending_rows
get_pending_approvals s = pending_rows s.approvals

abbrev or_kept {ℓ} : {A : Type ℓ} → Option A → Option A → Option A
or_kept none kept = kept
or_kept (some new) kept = some new

-- The row after a decision: without a person or a comment the old ones stay.
abbrev pub decided : ApprovalStatus → Option String → Option String → Approval → Approval
decided to by comment row = record row {
  status = to;
  approved_by = or_kept by row.approved_by;
  comment = or_kept comment row.comment;
}

-- `cas_update_approval`, at the time `now`.
unfoldable pub cas_update_approval :
    ℕ
    → String
    → ApprovalStatus
    → ApprovalStatus
    → Option String
    → Option String
    → Store
    → Store × Bool
cas_update_approval now aid from to by comment s = elim (lookup aid s.approvals) [
  | none ↦ (s, false)
  | some row ↦
      if same_status row.status from
        && guard_passes (approval_time_guard from to) row.timeout_at now
      then (record s { approvals = insert aid (decided to by comment row) s.approvals }, true)
      else (s, false)
]
