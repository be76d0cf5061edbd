-- ===== src/Executor/Approve.antt =====
-- A person's decision on an approval, in the executor (`DAGExecutor.approve`).
pub mod Effect
pub mod Survives
use multi_agent_workflow.Prelude.{
  String, Bool, true, false, not, Option, none, some, List, [], ◌∷◌, if◌then◌else◌, Result, ok,
  raise, Error, assertion, approval_race,
}
use multi_agent_workflow.Prelude as P
use multi_agent_workflow.Prelude.Dict.{lookup}
use multi_agent_workflow.Json.{Value, null, boolean, text, object, Fields, end, field, put}
use multi_agent_workflow.Core.Dag.{Node, done, rejected, is_approval, is_waiting, upstreams}
use multi_agent_workflow.StateStore.Rows.{ApprovalStatus, NodeState, Approval}
use multi_agent_workflow.StateStore.Rows as Rows
use multi_agent_workflow.StateStore.Memory.{Store}
use multi_agent_workflow.StateStore.Approvals.{approval_key, get_approval, cas_update_approval}
use multi_agent_workflow.Executor.State.{
  Config, Executor, Action, continue, ◌>>=◌, ◌>>◌, pure, throw, lift, gets, modify, or_missing,
  state_of, set_state,
}
use multi_agent_workflow.Executor.Environment.{Environment}
use multi_agent_workflow.Executor.Decision.{States}
use multi_agent_workflow.Executor.Passes.{persist}

abbrev pub verdict_of : Bool → ApprovalStatus
verdict_of true = Rows.approved
verdict_of false = Rows.rejected

abbrev verdict_text : Bool → String
verdict_text true = "APPROVED"
verdict_text false = "REJECTED"

-- `{u: self.node_states[u].get("output") for u in node.upstreams}`.
unfoldable pub upstream_output : States → List String → Fields → Result Fields
upstream_output states [] fs = ok fs
upstream_output states (u ∷ us) fs = elim (state_of u states) [
  | raise e ↦ raise e
  | ok st ↦ upstream_output states us (put u st.output fs)
]

-- The output of a decided approval.
abbrev pub verdict : Bool → String → String → Fields → Value
verdict approved by comment upstream = object (
    field "status" (text (verdict_text approved)) (
      field "approved" (boolean approved) (
        field "approver" (text by)
          (field "comment" (text comment) (field "upstream_output" (object upstream) end)))))

abbrev pub decided_state : Bool → Value → Node → NodeState
decided_state approved output n = record {
  status = if approved then done else rejected;
  output = output;
  params = some n.params;
  error = none;
}

abbrev require : String → Bool → Action (Unit {0})
require message b = if b then pure tt else throw (assertion message)

abbrev is_timed_out : Option Approval → Bool
is_timed_out none = false
is_timed_out (some row) = Rows.same_status row.status Rows.timed_out

-- The exception after a lost update.
abbrev race : String → Option Approval → Error
race nid row = approval_race (if is_timed_out row then "timed out" else nid)

module _ (env : Environment) (c : Config) where
  abbrev try_update : String → Bool → String → String → Action Bool
  try_update nid approved by comment s =
      let r =
        cas_update_approval (env.clock s) (approval_key c.run_id nid) Rows.waiting
          (verdict_of approved) (some by) (some comment) s.store in
      (ok r.1, record s { store = r.0 })

  -- The rest of `approve` after the update was won.
  unfoldable pub settle_approval : String → Node → Bool → String → String → Action Value
  settle_approval nid n approved by comment = do
    upstream ← gets (λ s. upstream_output s.states (upstreams n) end)
    fs ← lift upstream
    let output = verdict approved by comment fs
    modify (set_state nid (decided_state approved output n))
    persist c nid
    pure output

  unfoldable pub approve : String → Bool → String → String → Action Value
  approve nid approved by comment = do
    n ← lift (or_missing nid (lookup nid c.nodes))
    require nid (is_approval n)
    found ← gets (λ s. state_of nid s.states)
    st ← lift found
    require nid (is_waiting st.status)
    won ← try_update nid approved by comment
    if won
        then settle_approval nid n approved by comment
        else do row ← gets (λ s. get_approval c.run_id nid s.store); throw (race nid row)
