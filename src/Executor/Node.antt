-- ===== src/Executor/Node.antt =====
-- The execution of one node: up to its call of the agent, and from the agent's answer on
-- (`_exec_node`, `_exec_node_inner`, `_halt_output`, `_closed_output`).
pub mod Total
pub mod Effect
pub mod Denied
use multi_agent_workflow.Prelude.{
  ℕ, String, Bool, true, false, not, ◌&&◌, ◌||◌, Option, none, some, List, [], ◌∷◌, ◌++◌, ◌==◌, map,
  is_empty, is_some, if◌then◌else◌, Result, ok, raise, Error, node_failed,
}
use multi_agent_workflow.Prelude.Text.{strip, drop_prefix}
use multi_agent_workflow.Prelude.Dict.{Dict, lookup}
use multi_agent_workflow.Json.{
  Value, null, boolean, text, array, object, Fields, end, field, get_or_null, items, strings,
  truthy, Python,
}
use multi_agent_workflow.Core.Dag.{
  Node, Edge, Status, running, done, failed, is_pending, is_halt, is_closed,
}
use multi_agent_workflow.StateStore.Rows.{NodeState}
use multi_agent_workflow.Executor.State.{
  Config, Executor, Action, ◌>>=◌, ◌>>◌, pure, throw, lift, gets, modify, state_of, set_state,
  or_missing,
}
use multi_agent_workflow.Executor.Environment.{Environment}
use multi_agent_workflow.Executor.Decision.{Decision, States, node_decision, edge_active}
use multi_agent_workflow.Executor.Params.{Context, resolve_params}
use multi_agent_workflow.Executor.Verdict.{check_answer}
use multi_agent_workflow.Executor.Attempts.{
  Outcome, completed, node_error, run_with_retry, external_operation_id,
}
use multi_agent_workflow.Executor.Passes.{persist, mark_skipped, process_approvals}

abbrev add_source : Edge → Result Bool → Result (List String) → Result (List String)
add_source e (ok b) (ok rest) = ok (if b then e.source ∷ rest else rest)
add_source e (raise x) _ = raise x
add_source e (ok b) (raise x) = raise x

-- The sources of the active edges into a node.
unfoldable pub triggers : Python → States → List Edge → Result (List String)
triggers py states [] = ok []
triggers py states (e ∷ es) = add_source e (edge_active py states e) (triggers py states es)

abbrev name_of : Python → Value → String
name_of py (text t) = t
name_of py v = py.str_of v

abbrev is_blank : String → Bool
is_blank t = strip t == ""

unfoldable pub not_blank : List String → List String
not_blank [] = []
not_blank (t ∷ ts) = let rest = not_blank ts in if is_blank t then rest else t ∷ rest

-- `_as_str_list`.
unfoldable pub as_str_list : Python → Value → List String
as_str_list py (text t) = if is_blank t then [] else t ∷ []
as_str_list py (array vs) = not_blank (map (name_of py) (items vs))
as_str_list py (Value.null) = []
as_str_list py v = py.str_of v ∷ []

abbrev first_true : Python → Value → Value → Value
first_true py v w = if truthy py v then v else w

-- The reason and the missing data that a halt node repeats: those of the first trigger that has
-- them.
abbrev why : Python → Fields → Option String → Option String
why py out (some reason) = some reason
why py out none =
    let t = first_true py (get_or_null "summary" out) (get_or_null "reason" out) in
    if truthy py t then some (name_of py t) else none

abbrev lacks : Python → Fields → List String → List String
lacks py out [] = as_str_list py (get_or_null "missing" out)
lacks py out (m ∷ ms) = m ∷ ms

abbrev output_fields : Option NodeState → Option Fields
output_fields none = none
output_fields (some st) = elim st.output [ object fs ↦ some fs | _ ↦ none ]

unfoldable pub gather :
    Python → States → List String → Option String → List String → Option String × List String
gather py states [] reason missing = (reason, missing)
gather py states (nid ∷ nids) reason missing = elim (output_fields (lookup nid states)) [
  | none ↦ gather py states nids reason missing
  | some out ↦ gather py states nids (why py out reason) (lacks py out missing)
]

abbrev or_default : String → Option String → String
or_default d none = d
or_default d (some t) = if t == "" then d else t

abbrev describe : Python → States → Result (List String) → Result Value
describe py states (raise e) = raise e
describe py states (ok nids) =
    let (reason, missing) = gather py states nids none [] in
    ok (
      object (
        field "halted" (boolean true) (
          field "triggered_by" (array (strings nids)) (
            field "reason" (text (or_default "上游判定证据不足，流程在此中断" reason))
              (field "missing" (array (strings missing)) end)))))

-- `_halt_output`.
unfoldable pub halt_output : Python → States → Node → Result Value
halt_output py states n = describe py states (triggers py states n.in_edges)

abbrev plain_reason : Value → String
plain_reason (text t) = if is_some (drop_prefix "$." (strip t)) then "" else strip t
plain_reason _ = ""

-- `_closed_output`: a reason that is a reference is not used.
unfoldable pub closed_output : Node → Value
closed_output n = object (
    field "closed" (boolean true) (
      field "node" (text n.id) (
        field "reason"
          (text (or_default "工单处理流程到此结束" (some (plain_reason (get_or_null "reason" n.params)))))
          end)))

-- What a started node still has to do: store an output that is known, or make its call.
pub data Work : Type 0 where
  known : Value → Work
  call : Option String → Work

pub record Task : Type 0 where
  pub nid : String
  pub node : Node
  pub params : Fields
  pub work : Work

abbrev pub context : Config → Executor → Context
context c s = record { nodes = s.states; inputs = c.inputs }

abbrev pub with_status : Status → NodeState → NodeState
with_status status st = record st { status = status }

abbrev pub with_parameters : Fields → NodeState → NodeState
with_parameters params st = record st { params = some params }

abbrev to_known : Result Value → Result Work
to_known (ok v) = ok (known v)
to_known (raise e) = raise e

abbrev to_call : Result (Option String) → Result Work
to_call (ok key) = ok (call key)
to_call (raise e) = raise e

module _ (env : Environment) (c : Config) where
  -- The work of a node, as the executor begins it.
  unfoldable pub work_of : Node → Executor → Result Work
  work_of n s =
      if is_halt n
      then to_known (halt_output env.python s.states n)
      else if is_closed n
      then ok (known (closed_output n))
      else to_call (external_operation_id env.python c n (context c s))

  -- A node that is ready: it is marked as running and its checkpoint is written.
  unfoldable pub begin_node : String → Node → NodeState → Action (Option Task)
  begin_node nid n st = do
    modify (set_state nid (with_status running st))
    resolved ← gets (λ s. resolve_params (context c s) n.params)
    params ← lift resolved
    modify (set_state nid (with_parameters params (with_status running st)))
    persist c nid
    work ← gets (work_of n)
    w ← lift work
    pure (some (record { nid = nid; node = n; params = params; work = w }))

  abbrev pub start_by : String → Node → NodeState → Decision → Action (Option Task)
  start_by nid n st Decision.ready = begin_node nid n st
  start_by nid n st Decision.skipped = do mark_skipped c nid; pure none
  start_by nid n st Decision.blocked = pure none

  -- `_exec_node` up to the call: the node is looked at again before it starts.
  unfoldable pub start_node : String → Action (Option Task)
  start_node nid = do
    n ← lift (or_missing nid (lookup nid c.nodes))
    found ← gets (λ s. state_of nid s.states)
    st ← lift found
    if not (is_pending st.status) then pure none else do
      decision ← gets (λ s. node_decision env.python s.states n)
      d ← lift decision
      start_by nid n st d

  -- The end of a node that was executed: its checkpoint, and the approvals that are ready now.
  unfoldable pub complete : Task → Value → Action (Unit {0})
  complete t output = do
    modify (
        set_state t.nid
          (record { status = done; output = output; params = some t.params; error = none }))
    persist c t.nid
    process_approvals env c

  -- The end of a node that failed.
  unfoldable pub fail : Task → Error → Value → Action (Unit {0})
  fail t e output = do
    modify (
        set_state t.nid
          (record { status = failed; output = output; params = none; error = some e }))
    persist c t.nid
    modify (λ s. record s { failed = s.failed ++ t.nid ∷ [] })
    throw (node_failed t.nid)

  abbrev pub judged : Task → Value → Option Error → Action (Unit {0})
  judged t output none = complete t output
  judged t output (some e) = fail t e output

  abbrev pub conclude : Task → Outcome → Action (Unit {0})
  conclude t (node_error e kept) = fail t e kept
  conclude t (completed output) = do
    check ← gets (λ s. check_answer env.python (env.tools s t.node) t.node.agent output)
    verdict ← lift check
    judged t output verdict

  abbrev pub finish_by : Task → Work → Action (Unit {0})
  finish_by t (known output) = complete t output
  finish_by t (call key) = do outcome ← run_with_retry env c t.node t.params key; conclude t outcome

  -- `_exec_node_inner` from the call on.
  unfoldable pub finish_node : Task → Action (Unit {0})
  finish_node t = finish_by t t.work
