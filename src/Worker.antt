-- ===== src/Worker.antt =====
-- A worker (agentflow/worker.py: `Worker`), with one store for all tenants. A task goes on by one
-- turn of the executor's loop at a time; what happens inside a turn is not interrupted.
pub mod Claims
pub mod Effect
pub mod Handlers
pub mod System
pub mod Repeats
pub mod Cancels
pub mod Ends
pub mod Takes
use Prim.Native.String.{◌++◌}
use multi_agent_workflow.Prelude.{
  ℕ, String, Bool, true, false, not, ◌&&◌, ◌||◌, Option, none, some, List, [], ◌∷◌, ◌==◌, is_some,
  if◌then◌else◌, Result, ok, raise, Error, key_error, node_failed,
}
use multi_agent_workflow.Prelude.Dict.{Dict, lookup, insert, remove}
use multi_agent_workflow.Json.{null}
use multi_agent_workflow.Core.Dag.{Dag, cancelled, is_terminal}
use multi_agent_workflow.StateStore.Rows.{
  RunStatus, queued, running, waiting_approval, paused, Run, NodeState,
}
use multi_agent_workflow.StateStore.Rows as Rows
use multi_agent_workflow.StateStore.Memory.{Store, cas_update_run_status, update_run, put_node}
use multi_agent_workflow.Lock.{Holders, acquire, release, refresh}
use multi_agent_workflow.Executor.State.{Config, Executor, request_pause}
use multi_agent_workflow.Executor.Environment.{Environment}
use multi_agent_workflow.Executor.Run.{RunOutcome, done}
use multi_agent_workflow.Executor.Run as Run
use multi_agent_workflow.Executor.Run.Once.{loop_once}
use multi_agent_workflow.Executor.Resume.{resume_executor}

-- A message of the queue; a field that is missing or empty is the empty text.
pub record Message : Type 0 where
  pub type : String
  pub run_id : String
  pub tenant_id : String

-- The time in microseconds, and whether the lock's server answers.
pub record Moment : Type 0 where
  pub now : ℕ
  pub reachable : Bool

-- A `DAGExecutor`: its constants and its state.
pub record Job : Type 0 where
  pub config : Config
  pub executor : Executor

-- `_tasks` (whether the task has begun), `_executors`, and `_lease_tasks` (whether the renewal has
-- ended).
pub record Worker : Type 0 where
  pub tasks : Dict Bool
  pub executors : Dict Job
  pub lease_tasks : Dict Bool

-- A worker with the store and the lock that it shares with others.
pub record World : Type 0 where
  pub worker : Worker
  pub store : Store
  pub holders : Holders

-- `LEASE_TTL_SEC`.
abbrev pub lease_ttl : ℕ
lease_ttl = 60000000

unfoldable pub run_exec_lease_key : String → String
run_exec_lease_key run_id = "run-exec:" ++ run_id

-- `run.get("status") in TERMINAL or run.get("status") in ("cancelled", "failed")`.
abbrev pub is_over : Option RunStatus → Bool
is_over (some Rows.done) = true
is_over (some Rows.cancelled) = true
is_over (some Rows.failed) = true
is_over _ = false

-- The claim from the first of some statuses that the run has.
unfoldable pub cas_from : List RunStatus → String → Store → Store × Bool
cas_from [] run_id s = (s, false)
cas_from (from ∷ froms) run_id s =
    let r = cas_update_run_status run_id from running s in
    let later = cas_from froms run_id r.0 in if r.1 then r else later

abbrev pub cancelled_state : NodeState
cancelled_state = record { status = cancelled; output = null; params = none; error = none }

-- The loop of `_mark_cancelled` over the nodes.
unfoldable pub cancel_nodes : String → String → Dict NodeState → Store → Store
cancel_nodes run_id tenant [] s = s
cancel_nodes run_id tenant ((nid, st) ∷ states) s =
    cancel_nodes run_id tenant states
      (if is_terminal st.status then s else put_node run_id tenant nid cancelled_state s)

abbrev pub outcome_status : RunOutcome → RunStatus
outcome_status done = Rows.done
outcome_status Run.waiting_approval = waiting_approval
outcome_status Run.paused = paused

abbrev pub write_outcome : String → Option RunStatus → World → World
write_outcome run_id none w = w
write_outcome run_id (some status) w = record w { store = update_run run_id status w.store }

-- What `_execute` writes: the outcome, or `failed` for a failed node; another exception ends the
-- task without a write.
abbrev pub written : Result RunOutcome → Option RunStatus
written (ok o) = some (outcome_status o)
written (raise (node_failed nid)) = some Rows.failed
written (raise e) = none

-- `_cmd_pause`.
unfoldable pub cmd_pause : String → World → World
cmd_pause run_id w = elim (lookup run_id w.worker.executors) [
  | none ↦ w
  | some job ↦
      let asked = record job { executor = request_pause job.executor } in
      record w { worker = record w.worker { executors = insert run_id asked w.worker.executors } }
]

module _ (has_lock : Bool) where
  abbrev pub with_lease : String → Holders × Bool → World → World
  with_lease run_id r w =
      if r.1
      then record w {
        holders = r.0;
        worker = record w.worker { lease_tasks = insert run_id false w.worker.lease_tasks };
      }
      else record w { holders = r.0 }

  -- `_claim_lease`: without a lease the run is executed all the same.
  unfoldable pub claim_lease : Moment → String → World → World
  claim_lease m run_id w =
      if has_lock && m.reachable
      then with_lease run_id (acquire (run_exec_lease_key run_id) lease_ttl m.now w.holders) w
      else w

  abbrev pub renewed : String → Holders × Bool → World → World
  renewed run_id r w = record w {
    holders = r.0;
    worker = record w.worker { lease_tasks = insert run_id (not r.1) w.worker.lease_tasks };
  }

  -- One round of `_renew_lease`; a renewal that is refused ends.
  unfoldable pub renew_lease : Moment → String → World → World
  renew_lease m run_id w = elim (lookup run_id w.worker.lease_tasks) [
    | some false ↦
        if m.reachable
        then renewed run_id (refresh (run_exec_lease_key run_id) lease_ttl m.now w.holders) w
        else w
    | _ ↦ w
  ]

  -- `_release_lease`.
  unfoldable pub release_lease : Moment → String → World → World
  release_lease m run_id w = record w {
    worker = record w.worker { lease_tasks = remove run_id w.worker.lease_tasks };
    holders =
        if has_lock && m.reachable
        then release (run_exec_lease_key run_id) w.holders
        else w.holders;
  }

  -- The `finally` of `_execute`.
  unfoldable pub finish_task : Moment → String → World → World
  finish_task m run_id w = release_lease m run_id (record w {
    worker = record w.worker {
      tasks = remove run_id w.worker.tasks;
      executors = remove run_id w.worker.executors;
    };
  })

  -- After a turn: the task waits for its next turn, or it ends.
  abbrev pub after_turn :
      Moment → String → Job → Result (Option RunOutcome) × Executor → World → World
  after_turn m run_id job (ok none, s) w = record w {
    store = s.store;
    worker = record w.worker {
      tasks = insert run_id true w.worker.tasks;
      executors = insert run_id (record job { executor = s }) w.worker.executors;
    };
  }
  after_turn m run_id job (ok (some o), s) w =
      write_outcome run_id (written (ok o)) (finish_task m run_id (record w { store = s.store }))
  after_turn m run_id job (raise e, s) w =
      write_outcome run_id (written (raise e)) (finish_task m run_id (record w { store = s.store }))

  -- The task of a run goes on by one turn of `_execute`.
  unfoldable pub advance : Environment → Moment → String → World → World
  advance env m run_id w = elim (lookup run_id w.worker.tasks) [
    | none ↦ w
    | some begun ↦ elim (lookup run_id w.worker.executors) [
      | none ↦ w
      | some job ↦
          after_turn m run_id job
            (loop_once env job.config (record job.executor { store = w.store })) w
    ]
  ]

  -- The first part of `_cmd_stop`: the task is cancelled. One that has not begun runs no `finally`.
  unfoldable pub cancel_task : Moment → String → World → World
  cancel_task m run_id w = elim (lookup run_id w.worker.tasks) [
    | none ↦ w
    | some true ↦ finish_task m run_id w
    | some false ↦ record w { worker = record w.worker { tasks = remove run_id w.worker.tasks } }
  ]

  module _ (load : String → Result Dag) where
    abbrev pub started :
        Moment → String → World → Result (Config × Executor) → Result (Unit {0}) × World
    started m run_id w (raise e) = (raise e, w)
    started m run_id w (ok (c, s)) =
        let job : Job = record { config = c; executor = s } in
        let leased = claim_lease m run_id w in
        (
          ok tt,
          record leased {
            worker = record leased.worker {
              executors = insert run_id job leased.worker.executors;
              tasks = insert run_id false leased.worker.tasks;
            };
          },
        )

    abbrev pub claimed : Moment → String → String → Store × Bool → World → Result (Unit {0}) × World
    claimed m run_id tenant (s, false) w = (ok tt, w)
    claimed m run_id tenant (s, true) w =
        let taken = record w { store = s } in
        started m run_id taken (resume_executor load run_id tenant s)

    abbrev pub take_row :
        List RunStatus → Moment → String → World → Option Run → Result (Unit {0}) × World
    take_row froms m run_id w none = (ok tt, w)
    take_row froms m run_id w (some run) =
        if is_over run.status then (ok tt, w) else elim run.tenant_id [
          | none ↦ (raise (key_error "tenant_id"), w)
          | some tenant ↦ claimed m run_id tenant (cas_from froms run_id w.store) w
        ]

    -- The common part of `handle_trigger` and `_cmd_resume`, with the statuses to claim from.
    unfoldable pub take_up : List RunStatus → Moment → String → World → Result (Unit {0}) × World
    take_up froms m run_id w =
        if is_some (lookup run_id w.worker.tasks)
        then (ok tt, w)
        else take_row froms m run_id w (lookup run_id w.store.runs)

    unfoldable pub handle_trigger : Moment → Message → World → Result (Unit {0}) × World
    handle_trigger m msg w =
        if msg.run_id == "" then (ok tt, w) else take_up (queued ∷ []) m msg.run_id w

    unfoldable pub cmd_resume : Moment → String → World → Result (Unit {0}) × World
    cmd_resume m run_id w = take_up (paused ∷ waiting_approval ∷ []) m run_id w

    abbrev pub cancel_restored :
        String → String → Store → Result (Config × Executor) → Result (Unit {0}) × Store
    cancel_restored run_id tenant s (raise e) = (raise e, s)
    cancel_restored run_id tenant s (ok (c, ex)) =
        (ok tt, update_run run_id Rows.cancelled (cancel_nodes run_id tenant ex.states s))

    -- `_mark_cancelled` of the module.
    unfoldable pub mark_cancelled : String → Store → Result (Unit {0}) × Store
    mark_cancelled run_id s = elim (lookup run_id s.runs) [
      | none ↦ (ok tt, s)
      | some run ↦ elim run.tenant_id [
        | none ↦ (raise (key_error "tenant_id"), s)
        | some tenant ↦ cancel_restored run_id tenant s (resume_executor load run_id tenant s)
      ]
    ]

    -- `_cmd_stop`.
    unfoldable pub cmd_stop : Moment → String → World → Result (Unit {0}) × World
    cmd_stop m run_id w =
        let stopped = cancel_task m run_id w in
        let r = mark_cancelled run_id stopped.store in (r.0, record stopped { store = r.1 })

    -- `handle_command`.
    unfoldable pub handle_command : Moment → Message → World → Result (Unit {0}) × World
    handle_command m msg w =
        if msg.run_id == "" || msg.type == ""
        then (ok tt, w)
        else if msg.type == "resume"
        then cmd_resume m msg.run_id w
        else if msg.type == "pause"
        then (ok tt, cmd_pause msg.run_id w)
        else if msg.type == "stop"
        then cmd_stop m msg.run_id w
        else (ok tt, w)
