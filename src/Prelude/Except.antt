-- ===== src/Prelude/Except.antt =====
-- Python exceptions as values: what a function that may raise returns.
use Prim.Native.String.{String}
use mathlib.Core.List.{List}

-- Python's own exceptions first: a missing dictionary key, a `ValueError`, a failed `assert`.
-- `type_error` is what an operation on a value of a wrong type raises: a `TypeError`, an
-- `AttributeError`, or what a dictionary raises when it is sliced. `agent_error` is whatever an
-- agent, a tool or a ticket store raised. `node_failed`, `node_input`, `stalled` and
-- `approval_race` are the executor's exception classes; `timed_out` is its `TimeoutError`.
-- `delivery_unmet`, `verdict_negative` and `artifacts_unsupported` are the causes of a failed node
-- whose agent answered. `dag_error` is the `WorkflowDAGError` of a graph that is not accepted.
-- `quota_exceeded`, `approver_denied` and `invalid_inputs` are those of the run service,
-- `action_refused` is that of the actions on a cluster. `out_of_fuel` is no exception: a loop of
-- the model has not ended.
pub data Error : Type 0 where
  key_error value_error assertion agent_error : String → Error
  node_failed timed_out approval_race unwired : String → Error
  node_input : List String → Error
  delivery_unmet : List String → Error
  verdict_negative artifacts_unsupported : String → Error
  missing_run missing_snapshot dag_error : String → Error
  quota_exceeded approver_denied invalid_inputs action_refused : String → Error
  rejected stalled type_error out_of_fuel : Error

pub data Result {ℓ} (A : Type ℓ) : Type ℓ where
  ok : A → Result A
  raise : Error → Result A

infixl 5 ◌>>=◌
abbrev pub ◌>>=◌ {κ μ} : {B : Type κ} {C : Type μ} → Result B → (B → Result C) → Result C
(raise x) >>= next = raise x
(ok x) >>= next = next x

infixl 5 ◌>>◌
abbrev pub ◌>>◌ {κ} : {C : Type κ} → Result (Unit {0}) → Result C → Result C
first >> second = first >>= λ _. second
