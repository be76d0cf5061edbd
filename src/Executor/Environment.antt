-- ===== src/Executor/Environment.antt =====
-- What the executor meets outside: the agents' answers, the clock, the event loop's choices, and
-- the parts of Python that are parameters.
use multi_agent_workflow.Prelude.{ℕ, String, Option, List, Error}
use multi_agent_workflow.Json.{Value, Fields, Python}
use multi_agent_workflow.Core.Dag.{Node}
use multi_agent_workflow.Executor.State.{Executor}

-- What one call of a node runner or a ticket store does, and how many milliseconds it takes.
pub data Response : Type 0 where
  returned : Value → ℕ → Response
  raised : Error → ℕ → Response

-- A row of a node's tool calls: the tool's name and how the call ended.
pub record ToolCall : Type 0 where
  pub name : String
  pub result_state : Option String

-- `runner` and `tickets` answer the call that the executor makes in a given state. `tickets` is
-- `none` where the executor has no ticket store, and `tools` answers `none` where the runner has no
-- `peek_tool_calls`.
-- `pick` is the event loop: which of the running nodes goes on next, or `none` to start the next
-- node of the wave.
pub record Environment : Type 0 where
  pub python : Python
  pub runner : Executor → Node → Fields → Response
  pub tickets : Option (Executor → Fields → Response)
  pub tools : Executor → Node → Option (List ToolCall)
  pub clock : Executor → ℕ
  pub execution_id : Executor → String → ℕ → String
  pub pick : Executor → List String → List String → Option ℕ
