-- ===== src/Sweeper.antt =====
-- The sweeper of overdue approvals (agentflow/approval/sweeper.py), on the in-memory store. The
-- notification of the approvers is left out.
pub mod Safe
pub mod Rounds
use Prim.Native.String.{◌++◌}
use multi_agent_workflow.Prelude.{
  ℕ, String, Bool, true, false, Option, none, some, List, [], ◌∷◌, leb, if◌then◌else◌,
}
use multi_agent_workflow.Json.{Value, boolean, text, object, end, field}
use multi_agent_workflow.Core.Dag.{rejected_canceled}
use multi_agent_workflow.StateStore.Rows.{Approval, waiting, timed_out}
use multi_agent_workflow.StateStore.Memory.{Store, update_node_status}
use multi_agent_workflow.StateStore.Approvals.{get_pending_approvals, cas_update_approval}

-- The command that resumes a run after a timeout.
pub record Resume : Type 0 where
  pub tenant_id : String
  pub run_id : String
  pub trigger : String

-- The store, the published commands and the approvals that the round has timed out, the latest
-- first.
pub record Sweep : Type 0 where
  pub store : Store
  pub published : List Resume
  pub swept : List Approval

-- An approval without a readable deadline is never due.
unfoldable pub is_due : ℕ → Approval → Bool
is_due now ap = elim ap.timeout_at [ none ↦ false | some deadline ↦ leb deadline now ]

abbrev pub timeout_output : Value
timeout_output = object (field "approved" (boolean false) (field "reason" (text "timeout") end))

-- What follows an update that was won.
unfoldable pub time_out : Approval → Store → Sweep → Sweep
time_out ap store w = record {
  store = update_node_status ap.run_id ap.node_id rejected_canceled (some timeout_output) store;
  published =
      record { tenant_id = ap.tenant_id; run_id = ap.run_id; trigger = "approval_timeout" }
      ∷ w.published;
  swept = ap ∷ w.swept;
}

-- One approval of the list; `clock` is the time at which the store looks at it.
unfoldable pub scan_row : (Store → ℕ) → ℕ → Approval → Sweep → Sweep
scan_row clock now ap w =
    let r =
      cas_update_approval (clock w.store) ap.approval_id waiting timed_out none (some "审批超时自动拒绝")
        w.store in
    if is_due now ap then (if r.1 then time_out ap r.0 w else w) else w

unfoldable pub scan_rows : (Store → ℕ) → ℕ → List Approval → Sweep → Sweep
scan_rows clock now [] w = w
scan_rows clock now (ap ∷ aps) w = scan_rows clock now aps (scan_row clock now ap w)

-- `_scan`.
unfoldable pub scan : (Store → ℕ) → ℕ → Store → Sweep
scan clock now s =
    scan_rows clock now (get_pending_approvals s) (record { store = s; published = []; swept = [] })
