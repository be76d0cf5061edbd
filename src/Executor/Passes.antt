-- ===== src/Executor/Passes.antt =====
-- The passes over the graph that skip nodes and open approvals (`_process_skips`,
-- `_process_approvals`), repeated until no status changes.
pub mod Progress
pub mod Count
pub mod Settle
use multi_agent_workflow.Prelude.{
  ℕ, zero, suc, ◌+◌, ◌*◌, String, Bool, true, false, not, ◌&&◌, ◌||◌, Option, none, some, List, [],
  ◌∷◌, ◌==◌, map, if◌then◌else◌, Result, ok, raise, Error, value_error, type_error, out_of_fuel,
  eqb,
}
use multi_agent_workflow.Prelude.Int.{ℤ, pos, negsuc}
use multi_agent_workflow.Prelude.Text.{parse_int, characters}
use multi_agent_workflow.Prelude.Dict.{Dict, lookup}
use multi_agent_workflow.Json.{
  Value, null, boolean, int, float, text, array, object, Fields, end, field, get, items, Python,
}
use multi_agent_workflow.Core.Dag.{
  Node, Status, pending, running, done, skipped, waiting_approval, rejected, rejected_canceled,
  failed, cancelled, is_pending, is_approval,
}
use multi_agent_workflow.StateStore.Rows.{NodeState}
use multi_agent_workflow.StateStore.Memory.{put_node}
use multi_agent_workflow.StateStore.Approvals.{create_approval}
use multi_agent_workflow.Executor.State.{
  Config, Executor, Action, continue, ◌>>=◌, ◌>>◌, pure, throw, lift, gets, modify, state_of,
  set_state,
}
use multi_agent_workflow.Executor.Environment.{Environment}
use multi_agent_workflow.Executor.Decision.{Decision, States, node_decision, halt_triggered}

-- `for nid, node in self.dag.nodes.items()`.
unfoldable pub for_nodes : (String → Node → Action (Unit {0})) → Dict Node → Action (Unit {0})
for_nodes step [] = pure tt
for_nodes step ((nid, n) ∷ nodes) = do step nid n; for_nodes step nodes

-- `_persist`.
unfoldable pub persist : Config → String → Action (Unit {0})
persist c nid = do
  st ← gets (λ s. state_of nid s.states)
  cp ← lift st
  modify (λ s. record s { store = put_node c.run_id c.tenant_id nid cp s.store })

abbrev pub skipped_state : NodeState
skipped_state = record { status = skipped; output = null; params = none; error = none }

-- `_mark_skipped`.
unfoldable pub mark_skipped : Config → String → Action (Unit {0})
mark_skipped c nid = do modify (set_state nid skipped_state); persist c nid

-- `int(params.get("timeout", 3600))`.
abbrev pub seconds : Python → Option Value → Result ℤ
seconds py none = ok (pos 3600)
seconds py (some (int n)) = ok n
seconds py (some (boolean true)) = ok (pos 1)
seconds py (some (boolean false)) = ok (pos 0)
seconds py (some (text t)) = elim (parse_int t) [ none ↦ raise (value_error t) | some n ↦ ok n ]
seconds py (some (float x)) = elim (py.int_of_float x) [
  | none ↦ raise (value_error x)
  | some n ↦ ok n
]
seconds py (some _) = raise type_error

-- The deadline in microseconds.
abbrev deadline : ℕ → ℤ → ℕ
deadline now (pos n) = now + n * 1000000
deadline now (negsuc n) = 0

abbrev name_of : Python → Value → String
name_of py (text t) = t
name_of py v = py.str_of v

abbrev keys : Fields → List String
keys end = []
keys (field k v fs) = k ∷ keys fs

-- `list(params.get("approvers", []))`.
abbrev pub approvers_of : Python → Option Value → Result (List String)
approvers_of py none = ok []
approvers_of py (some (array vs)) = ok (map (name_of py) (items vs))
approvers_of py (some (text t)) = ok (characters t)
approvers_of py (some (object fs)) = ok (keys fs)
approvers_of py (some _) = raise type_error

module _ (env : Environment) (c : Config) where
  -- The branch of `_process_approvals` for an approval that is ready.
  unfoldable pub open_approval : String → Node → Action (Unit {0})
  open_approval nid n = do
    timeout ← lift (seconds env.python (get "timeout" n.params))
    now ← gets env.clock
    modify (
        set_state nid (record {
          status = waiting_approval;
          output = null;
          params = some n.params;
          error = none;
        }))
    persist c nid
    approvers ← lift (approvers_of env.python (get "approvers" n.params))
    modify (λ s. record s {
      store =
          create_approval c.run_id nid c.tenant_id n.params approvers (some (deadline now timeout))
            s.store;
    })

  abbrev pub approval_by : String → Node → Decision → Action (Unit {0})
  approval_by nid n Decision.skipped = mark_skipped c nid
  approval_by nid n Decision.ready = open_approval nid n
  approval_by nid n Decision.blocked = pure tt

  -- What both loops do with a node that is still pending: they act on its decision.
  unfoldable pub act_on : String → Node → (Decision → Action (Unit {0})) → Action (Unit {0})
  act_on nid n act = do
    found ← gets (λ s. state_of nid s.states)
    st ← lift found
    if not (is_pending st.status)
        then pure tt
        else do decision ← gets (λ s. node_decision env.python s.states n); d ← lift decision; act d

  -- One round of the loop of `_process_approvals`.
  unfoldable pub approval_step : String → Node → Action (Unit {0})
  approval_step nid n = if not (is_approval n) then pure tt else act_on nid n (approval_by nid n)

  abbrev pub skip_by : String → Decision → Action (Unit {0})
  skip_by nid Decision.skipped = mark_skipped c nid
  skip_by nid _ = pure tt

  -- One round of the second loop of `_process_skips`.
  unfoldable pub skip_step : String → Node → Action (Unit {0})
  skip_step nid n = if is_approval n then pure tt else act_on nid n (skip_by nid)

  -- One round of the loop that ends a run whose halt node was executed.
  unfoldable pub halt_step : String → Node → Action (Unit {0})
  halt_step nid n = do
    found ← gets (λ s. state_of nid s.states)
    st ← lift found
    if is_pending st.status then mark_skipped c nid else pure tt

  unfoldable pub process_approvals : Action (Unit {0})
  process_approvals = for_nodes approval_step c.nodes

  unfoldable pub process_skips : Action (Unit {0})
  process_skips s =
      for_nodes (if halt_triggered c.nodes s.states then halt_step else skip_step) c.nodes s

abbrev pub same_node_status : Status → Status → Bool
same_node_status pending pending = true
same_node_status running running = true
same_node_status done done = true
same_node_status skipped skipped = true
same_node_status waiting_approval waiting_approval = true
same_node_status rejected rejected = true
same_node_status rejected_canceled rejected_canceled = true
same_node_status failed failed = true
same_node_status cancelled cancelled = true
same_node_status _ _ = false

abbrev pub status_found : Status → Option NodeState → Bool
status_found status none = false
status_found status (some st) = same_node_status st.status status

-- Each entry of the first dictionary has its status in the second too. No pass adds or removes a
-- key, so this is the equality of the two snapshots.
unfoldable pub same_statuses : States → States → Bool
same_statuses [] t = true
same_statuses ((nid, st) ∷ s) t = status_found st.status (lookup nid t) && same_statuses s t

-- The inner loop of `run`: the two passes in turn until no status changes.
unfoldable pub settle : Environment → Config → ℕ → Action (Unit {0})
settle env c zero s = (raise out_of_fuel, s)
settle env c (suc fuel) s =
    let again = settle env c fuel in
    continue (λ _ s'. if same_statuses s.states s'.states then (ok tt, s') else again s')
      ((process_approvals env c >> process_skips env c) s)
