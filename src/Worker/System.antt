-- ===== src/Worker/System.antt =====
-- Several workers on one store and one lock (agentflow/worker.py: `WorkerPool` in one process, or a
-- process for each worker). The messages may come in any order, twice, or not at all. The run
-- service (agentflow/service.py) writes rows of its own.
pub mod Single
use multi_agent_workflow.Prelude.{
  String, Bool, true, Option, none, [], ◌==◌, ◌≡◌, is_some, if◌then◌else◌, Result,
}
use multi_agent_workflow.Prelude.Dict.{lookup}
use multi_agent_workflow.Json.{Fields}
use multi_agent_workflow.Core.Dag.{Dag}
use multi_agent_workflow.StateStore.Rows.{queued, running, paused}
use multi_agent_workflow.StateStore.Memory.{Store, create_run, update_run, cas_update_run_status}
use multi_agent_workflow.Lock.{Holders}
use multi_agent_workflow.Executor.Environment.{Environment}
use multi_agent_workflow.Worker.{
  Worker, World, Moment, Message, renew_lease, advance, handle_trigger, handle_command,
}

-- A worker for each name.
pub record System : Type 0 where
  pub workers : String → Worker
  pub store : Store
  pub holders : Holders

abbrev pub idle : Worker
idle = record { tasks = []; executors = []; lease_tasks = [] }

abbrev pub view : String → System → World
view k sys = record { worker = sys.workers k; store = sys.store; holders = sys.holders }

abbrev pub change : (String → Worker) → String → Worker → String → Worker
change workers k w j = if k == j then w else workers j

-- The system after a step of one worker.
abbrev pub put_back : String → World → System → System
put_back k w sys = record {
  workers = change sys.workers k w.worker;
  store = w.store;
  holders = w.holders;
}

abbrev pub executes : System → String → String → Bool
executes sys k run_id = is_some (lookup run_id (sys.workers k).tasks)

module _ (has_lock : Bool) (load : String → Result Dag) (env : Environment) where
  -- A step of worker `k`: a message that it handles, a turn of a task, or a renewal of a lease. A
  -- worker may also crash. The service creates a run under a new id and puts it on the queue; it
  -- pauses a run by force, here where in truth nobody executes it; its other writes leave the rows
  -- of the runs alone.
  pub data Step (sys : System) : System → Type 0 where
    triggers :
        (k : String) (m : Moment) (msg : Message)
        → Step sys (put_back k (handle_trigger has_lock load m msg (view k sys)).1 sys)
    commands :
        (k : String) (m : Moment) (msg : Message)
        → Step sys (put_back k (handle_command has_lock load m msg (view k sys)).1 sys)
    turns :
        (k : String) (m : Moment) (run_id : String)
        → Step sys (put_back k (advance has_lock env m run_id (view k sys)) sys)
    renews :
        (k : String) (m : Moment) (run_id : String)
        → Step sys (put_back k (renew_lease has_lock m run_id (view k sys)) sys)
    crashes : (k : String) → Step sys (record sys { workers = change sys.workers k idle })
    creates :
        (run_id tenant_id snapshot_id : String) (inputs : Fields)
        → lookup run_id sys.store.runs ≡ none
        → Step sys (record sys {
          store =
              update_run run_id queued (create_run run_id tenant_id snapshot_id inputs sys.store);
        })
    pauses :
        (run_id : String)
        → ((k : String) → lookup run_id (sys.workers k).tasks ≡ none)
        → Step sys
            (record sys { store = (cas_update_run_status run_id running paused sys.store).0 })
    writes : (store : Store) → store.runs ≡ sys.store.runs → Step sys (record sys { store = store })

  -- What can come about after the workers have started.
  pub data Reach (s : Store) (h : Holders) : System → Type 0 where
    start : Reach s h (record { workers = λ _. idle; store = s; holders = h })
    later : {sys sys' : System} → Reach s h sys → Step sys sys' → Reach s h sys'
