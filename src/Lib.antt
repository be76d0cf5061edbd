-- ===== src/Lib.antt =====
-- A model of the workflow engine of agentflow, which executes incident workflows: graphs of agent
-- calls, approvals by people, tickets and end nodes.
--
-- Parts and files
--
-- - Core: the graph. Core/Dag and Core/Dag/NodeStatus are agentflow/core/dag.py (`Node`, `Edge`,
--   `DAG`, the statuses and `TERMINAL`); Core/Dag/Build binds the edges (`DAG.build` from its second
--   step, `_validate`), Core/Dag/Kahn is `_check_cycle`, Core/Dag/Checks the three other static checks
--   and Core/Dag/Refs the check of references in parameters (`check_params_refs`); Core/Workflow is
--   `load_yaml` of agentflow/core/workflow.py; Core/Expressions is agentflow/core/expressions.py
--   (`get_path`, `coerce_literal`, `eval_condition`).
-- - StateStore: the database. StateStore/Rows has its rows, StateStore/Memory the in-memory store of
--   agentflow/statestore/memory.py, StateStore/Approvals its approvals with the time guard of
--   agentflow/statestore/base.py, and StateStore/Router the cache of stores of
--   agentflow/statestore/router.py (`get`, `aclose`).
-- - Executor: the executor of one run, agentflow/executor/dag_executor.py. State is the object
--   (`__init__`, `node_states`, `failed`), Decision the functions that only read it (`_edge_active`,
--   `_node_decision`, `_ready_nodes`, `halt_triggered`, `rejected_abort_node`), Passes the passes that
--   are made between waves (`_process_approvals`, `_process_skips`, `_mark_skipped`, `_persist`),
--   Params the references in parameters (`_path_steps`, `_walk`, `_resolve_param`), Attempts the
--   execution with retries (`_run_with_retry`, and agentflow/executor/idempotency.py), Verdict the
--   checks of an answer (`_raise_on_negative_verdict` and its two neighbours), Node one node
--   (`_exec_node`, `_exec_node_inner`, `_halt_output`, `_closed_output`), Wave the concurrent
--   execution of the ready nodes, Run the main loop (`run`), Approve a person's decision (`approve`),
--   Resume the restart from checkpoints (`from_checkpoint`, and agentflow/executor/resume.py).
-- - Sweeper is agentflow/approval/sweeper.py, which times out overdue approvals in the store and
--   publishes commands to resume their runs; Sweeper/Rounds is a round over several tenants (`run_once`).
--   Lock is agentflow/lock/memory.py; ToolPolicy is
--   agentflow/sandbox/policy.py (`decide`, `allowed_tools`); Tenants is the configuration of
--   agentflow/tenants.py, with the quota and approver checks of agentflow/service.py.
-- - Queue is agentflow/queue/memory.py with the topics of agentflow/queue/base.py. Queue/Fifo has the
--   calls of producers and consumers as a sequence.
-- - Worker is `Worker` of agentflow/worker.py: its handlers (`handle_trigger`, `handle_command`), its
--   tasks (`_execute`), and its leases, whose keys are in agentflow/lock/__init__.py. It takes runs from
--   the queue by a compare-and-set in the store and drives an executor. Worker/System is several workers
--   on one store as a step relation, with the messages in any order, crashes, and the writes of the
--   service.
-- - Service is `RunService` of agentflow/service.py. Service/State has its state, its checks and the end
--   of a run (`_check_quota`, `_acquire_tenant_lock`, `_run_context`, `_run_and_persist`,
--   `_mark_cancelled`, `executor_alive`), Service/Create the new runs (`_create`, `create_run`,
--   `start_run`), Service/Commands the commands (`pause_run`, `resume_run`, `stop_run`, `approve`). With
--   a queue it publishes messages to the workers, without one it drives executors itself.
-- - Actions is agentflow/sandbox/action_executor.py (`execute`, its handlers and their checks); a call of
--   the cluster is a row of a log, and the cluster may refuse it. Actions/Quantity is `_parse_quantity`.
-- - Agents is `extract_json` and `run_agent` of agentflow/agents/scopes.py, which find the JSON object in
--   the answer of an agent; a text is a list of code points.
-- - Executor/Environment holds what the executor meets outside as parameters: the agents' answers, the
--   ticket store, the tool calls on record, the clock, the execution ids, and `pick`, the event
--   loop's choices.
-- - Prelude and Json are the Python underneath: dictionaries in insertion order, texts, JSON values,
--   exceptions as results. Json.Python holds as parameters what is not computed here: floats, `str`
--   of values and exceptions.
-- - Tests has a small workflow that is executed, stopped at an approval, decided and resumed, and
--   each theorem at an example.
--
-- How code corresponds to definitions
--
-- An asynchronous method is an action: a function from the executor, with its store, to a result and
-- the executor after it; what was written before an exception stays written. A call of an agent
-- splits a node into its start and its end. A wave is a sequence of starts and ends in the order that
-- `pick` chooses, whatever it is; all attempts of one node run in its end. A task of a worker, or a
-- background task of the service, goes on by one turn of the main loop at a time (Executor/Run/Once),
-- and is cancelled between two turns. A dictionary is an
-- association list. A time is a number of microseconds, a node's limit one of milliseconds.
--
-- Fuel
--
-- Five loops run on fuel: that of the cycle check, on the number of nodes, since each round pops
-- another node; the search for the nodes above a node, on the size of its stack, the edges into nodes
-- that it has not seen and one, since each round takes a node off the stack and an edge puts one on it
-- once; the loop of the two passes, on the number of nodes and one, since each round but
-- the last takes a node out of `pending`; the wave, on two steps for each node and one; the main
-- loop, on the number of nodes and one, since each wave takes a node out of `pending`. The
-- exception `out_of_fuel` marks a loop that has not ended. `Ensures` and `Gives` refuse it, as
-- they refuse a missing key and the exception of a stalled run.
--
-- Not modelled
--
-- Reading a node's fields from the YAML document; logs, audit rows, node timings, usage counts and
-- trace rows; the texts of error messages; what the other nodes of a wave do after one of them has
-- raised an exception; digits outside ASCII in `int` and in quantities, and the floats of quantities,
-- which are a parameter; YAML, `json.loads` and the hashing of snapshots; the building of a tenant's
-- stores, and the service and the workers on more than one store; the subscription loops
-- and the pool that starts workers for new tenants; what a cancellation cuts off inside a turn of the
-- main loop; the preparation of a workspace, and what its failure or a failing queue leaves behind; the
-- kafka queue and the redis lock, but that a lock may not answer; SQL stores, HTTP
-- handlers, the calls of language models, sandboxes and workspaces, which are services and libraries
-- that this code calls.
pub mod Prelude
pub mod Json
pub mod Core
pub mod StateStore
pub mod Executor
pub mod Lock
pub mod Sweeper
pub mod Tenants
pub mod ToolPolicy
pub mod Queue
pub mod Worker
pub mod Service
pub mod Actions
pub mod Agents
pub mod Tests
