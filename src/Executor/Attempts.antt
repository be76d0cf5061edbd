-- ===== src/Executor/Attempts.antt =====
-- Idempotent execution with retries (agentflow/executor/idempotency.py, `_run_with_retry` and
-- `_external_operation_id` of the executor, and the attempts of the in-memory store).
pub mod Keeps
pub mod Idempotent
use Prim.Native.String.{◌++◌}
use multi_agent_workflow.Prelude.{
  ℕ, zero, suc, ◌+◌, String, Bool, true, false, not, ◌&&◌, ◌||◌, Option, none, some, List, [], ◌∷◌,
  ◌==◌, map, contains, is_empty, ltb, eqb, if◌then◌else◌, Result, ok, raise, Error, assertion,
  timed_out, unwired, node_input,
}
use multi_agent_workflow.Prelude.Int.{rounds_after}
use multi_agent_workflow.Prelude.Dict.{Dict, insert}
use multi_agent_workflow.Json.{
  Value, null, boolean, text, array, object, Fields, end, field, get_or_null, strings, usable,
  Python,
}
use multi_agent_workflow.Core.Dag.{Node, is_ticket}
use multi_agent_workflow.StateStore.Rows.{Attempt}
use multi_agent_workflow.StateStore.Memory.{Store}
use multi_agent_workflow.Executor.State.{
  Config, Executor, Action, ◌>>=◌, ◌>>◌, pure, throw, lift, gets, modify,
}
use multi_agent_workflow.Executor.Environment.{Environment, Response, returned, raised}
use multi_agent_workflow.Executor.Params.{Context, resolve_text}
use multi_agent_workflow.Executor.Verdict.{side_effect_agents}

-- `get_succeeded_attempt`: the first success of the same run, node and operation.
abbrev matches : String → String → String → Attempt → Bool
matches run_id node_id op a =
    a.run_id == run_id
    && a.node_id == node_id
    && a.succeeded
    && elim a.external_operation_id [ none ↦ false | some o ↦ o == op ]

unfoldable pub find_success : String → String → String → Dict Attempt → Option Attempt
find_success run_id node_id op [] = none
find_success run_id node_id op ((k, a) ∷ rows) =
    let rest = find_success run_id node_id op rows in
    if matches run_id node_id op a then some a else rest

unfoldable pub get_succeeded_attempt : String → String → String → Store → Option Attempt
get_succeeded_attempt run_id node_id op s = find_success run_id node_id op s.attempts

-- `record_attempt`.
unfoldable pub record_attempt : String → Attempt → Store → Store
record_attempt execution_id a s = record s { attempts = insert execution_id a s.attempts }

-- How a node's execution ends without another exception: with an output, or with
-- `WorkflowNodeFailed`, its cause and the output that it keeps.
pub data Outcome : Type 0 where
  completed : Value → Outcome
  node_error : Error → Value → Outcome

abbrev reason : Python → Error → String
reason py (node_input missing) = "入参不满足 require " ++ py.str_of (array (strings missing))
reason py e = py.class_name e ++ (": " ++ py.message e)

abbrev missing_of : Error → List String
missing_of (node_input missing) = missing
missing_of e = []

-- `negative_evidence`.
unfoldable pub negative_evidence : Python → Error → Value
negative_evidence py e = object (
    field "found" (boolean false) (
      field "summary" (text ("【本路取证失败，**不是**「无异常」】" ++ (reason py e ++ "。该维度没有证据，判断根因时不得当作已验证过。")))
        (field "missing" (array (strings (missing_of e)))
          (field "error" (text (py.message e)) end))))

-- `on_error` of `_run_with_retry`.
unfoldable pub on_error : Python → Node → Error → Outcome
on_error py n e =
    if n.on_failure == "continue" then completed (negative_evidence py e) else node_error e null

-- The require keys whose parameters are not usable.
unfoldable pub missing_inputs : List String → Fields → List String
missing_inputs [] params = []
missing_inputs (k ∷ ks) params =
    let rest = missing_inputs ks params in if usable (get_or_null k params) then rest else k ∷ rest

-- `asyncio.wait_for` with the node's limit; a limit of 0 is none.
abbrev within : Option ℕ → ℕ → Bool
within none took = true
within (some limit) took = eqb limit 0 || not (ltb limit took)

unfoldable pub answer : Node → Response → Result Value
answer n (returned v took) = if within n.timeout took then ok v else raise (timed_out n.id)
answer n (raised e took) = if within n.timeout took then raise e else raise (timed_out n.id)

abbrev call_tickets :
    Option (Executor → Fields → Response) → Node → Fields → Executor → Result Value
call_tickets none n params s = raise (unwired n.id)
call_tickets (some create) n params s = answer n (create s params)

-- `invoke`: a ticket node calls the ticket store, any other node the runner.
unfoldable pub invoke : Environment → Node → Fields → Executor → Result Value
invoke env n params s =
    if is_ticket n then call_tickets env.tickets n params s else answer n (env.runner s n params)

module _ (env : Environment) (c : Config) (n : Node) (params : Fields) (op : Option String) where
  abbrev attempt_row : ℕ → Result Value → Attempt
  attempt_row i (ok v) = record {
    run_id = c.run_id;
    node_id = n.id;
    attempt = i;
    succeeded = true;
    output = v;
    external_operation_id = op;
    error = none;
  }
  attempt_row i (raise e) = record {
    run_id = c.run_id;
    node_id = n.id;
    attempt = i;
    succeeded = false;
    output = null;
    external_operation_id = op;
    error = some e;
  }

  -- One call of `action`, written to the store whatever it gave.
  unfoldable pub attempt_once : ℕ → Executor → Result Value × Executor
  attempt_once i s =
      let r = invoke env n params s in
      (r, record s { store = record_attempt (env.execution_id s n.id i) (attempt_row i r) s.store })

  abbrev out_of_rounds : Option Error → Result Outcome
  out_of_rounds none = raise (assertion "last_exc is not None")
  out_of_rounds (some e) = ok (on_error env.python n e)

  -- The `for` loop of `execute_with_idempotency`, with the rounds left and the last exception.
  unfoldable pub attempts : ℕ → ℕ → Option Error → Action Outcome
  attempts zero i last s = (out_of_rounds last, s)
  attempts (suc rounds) i last s =
      let (r, s') = attempt_once i s in
      elim r [ ok v ↦ (ok (completed v), s') | raise e ↦ attempts rounds (i + 1) (some e) s' ]

  abbrev pub reuse : Option String → Store → Option Attempt
  reuse none s = none
  reuse (some key) s = if key == "" then none else get_succeeded_attempt c.run_id n.id key s

  -- `execute_with_idempotency`.
  unfoldable pub execute_once : Action Outcome
  execute_once s = elim (reuse op s.store) [
    | some a ↦ (ok (completed a.output), s)
    | none ↦ attempts (rounds_after n.retry) 0 none s
  ]

  -- `_run_with_retry`.
  unfoldable pub run_with_retry : Action Outcome
  run_with_retry s =
      let missing = missing_inputs n.require params in
      if is_empty missing
      then execute_once s
      else (ok (on_error env.python n (node_input missing)), s)

abbrev pub is_side_effect : Option String → Bool
is_side_effect none = false
is_side_effect (some agent) = contains agent side_effect_agents

abbrev text_of : Python → Value → String
text_of py (text t) = t
text_of py v = py.str_of v

abbrev pub default_key : Config → Node → Option String
default_key c n = some (c.run_id ++ (":" ++ n.id))

abbrev pub declared_key : Option String → Option String
declared_key none = none
declared_key (some key) = if key == "" then none else some key

abbrev pub key_or_default : Python → Config → Node → Result Value → Result (Option String)
key_or_default py c n (raise e) = raise e
key_or_default py c n (ok v) = ok (if usable v then some (text_of py v) else default_key c n)

-- `_external_operation_id`: the declared key, or the run and the node for a declared key that
-- resolves to nothing and for the agents with side effects.
unfoldable pub external_operation_id : Python → Config → Node → Context → Result (Option String)
external_operation_id py c n ctx = elim (declared_key n.idempotency_key) [
  | none ↦ ok (if is_side_effect n.agent then default_key c n else none)
  | some key ↦ key_or_default py c n (resolve_text ctx key)
]
