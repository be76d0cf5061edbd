-- ===== src/Worker/Takes.antt =====
-- A run that waits on the queue, from its trigger message to its end (`handle_trigger`,
-- `_execute`).
use multi_agent_workflow.Prelude.{
  suc, String, Bool, true, false, Option, none, some, [], ◌∷◌, ◌==◌, ◌≡◌, refl, sym, ap, ◌∙◌, subst,
  length, Result, ok,
}
use multi_agent_workflow.Prelude.Dict.{lookup, insert, lookup-insert_same}
use multi_agent_workflow.Json.{Fields}
use multi_agent_workflow.Core.Dag.{Dag}
use multi_agent_workflow.StateStore.Rows.{RunStatus, queued, running, Run}
use multi_agent_workflow.StateStore.Memory.{Store, cas_update_run_status, run_nodes}
use multi_agent_workflow.Executor.State.{Config, Executor}
use multi_agent_workflow.Executor.Environment.{Environment}
use multi_agent_workflow.Executor.Ensures.{Ensures}
use multi_agent_workflow.Executor.Run.{run}
use multi_agent_workflow.Executor.Run.Ends.{Ended}
use multi_agent_workflow.Executor.Resume.{resume_executor}
use multi_agent_workflow.Executor.Resume.Restores.{InGraph}
use multi_agent_workflow.Executor.Resume.Loaded.{Loads}
use multi_agent_workflow.Worker.{
  World, Moment, Message, written, cas_from, take_up, take_row, started, handle_trigger,
}
use multi_agent_workflow.Worker.Effect.{claim_lease-Idle}
use multi_agent_workflow.Worker.Ends.{advance_all, GivenBack, advance_all-GivenBack}

-- A row as the service writes it.
abbrev pub row_of : String → Option String → Fields → RunStatus → Run
row_of tenant snapshot_id inputs status = record {
  tenant_id = some tenant;
  snapshot_id = snapshot_id;
  status = some status;
  inputs = inputs;
}

-- The worker executes the run, from the state `s`.
pub record TakenUp (c : Config) (s : Executor) (run_id : String) (store : Store)
    (r : Result (Unit {0}) × World) : Type 0 where
  pub result : r.0 ≡ ok tt
  pub task : lookup run_id r.1.worker.tasks ≡ some false
  pub executor : lookup run_id r.1.worker.executors ≡ some (record { config = c; executor = s })
  pub store_after : r.1.store ≡ store

module _ (has_lock : Bool) (load : String → Result Dag) (m : Moment) (run_id : String) where
  started-TakenUp :
      (w : World) (c : Config) (s : Executor)
      → TakenUp c s run_id w.store (started has_lock load m run_id w (ok (c, s)))
  started-TakenUp w c s = record {
    result = refl;
    task = lookup-insert_same run_id false _;
    executor = lookup-insert_same run_id _ _;
    store_after = (claim_lease-Idle has_lock m run_id w).store;
  }

  module _ (tenant : String) (snapshot_id : Option String) (inputs : Fields) (w : World)
      (waits : lookup run_id w.store.runs ≡ some (row_of tenant snapshot_id inputs queued)) where
    -- The store after the claim.
    abbrev pub claimed_store : Store
    claimed_store = record w.store {
      runs = insert run_id (row_of tenant snapshot_id inputs running) w.store.runs;
    }

    cas_from-queued : cas_from (queued ∷ []) run_id w.store ≡ (claimed_store, true)
    unfolding cas_from cas_update_run_status
    cas_from-queued = rw (waits, cas_from, cas_update_run_status) refl

    pub take_up-TakenUp :
        (c : Config) (s : Executor)
        → lookup run_id w.worker.tasks ≡ none
        → resume_executor load run_id tenant claimed_store ≡ ok (c, s)
        → TakenUp c s run_id claimed_store (take_up has_lock load (queued ∷ []) m run_id w)
    unfolding take_up
    take_up-TakenUp c s idle resumed =
        rw (idle, waits, cas_from-queued, resumed, take_up, take_row)
          (started-TakenUp (record w { store = claimed_store }) c s)

-- A run whose row is `queued` is executed to its end by the worker that gets its trigger message,
-- if the worker is left alone with it: the message is handled without an exception, and after one
-- turn more than the graph has nodes the worker has given the run back, with the store that `run`
-- leaves and the outcome in the row. The executor can be rebuilt from the store, from a loader that
-- gives accepted graphs only and checkpoints of nodes of the graph.
pub handle_trigger-GivenBack :
    (has_lock : Bool) (load : String → Result Dag) (env : Environment) (m m' : Moment)
    (msg : Message) (tenant : String) (snapshot_id : Option String) (inputs : Fields) (w : World)
    (c : Config) (s : Executor)
    (waits : lookup msg.run_id w.store.runs ≡ some (row_of tenant snapshot_id inputs queued))
    → Loads load
    → (msg.run_id == "") ≡ false
    → lookup msg.run_id w.worker.tasks ≡ none
    → resume_executor load msg.run_id tenant
        (claimed_store has_lock load m msg.run_id tenant snapshot_id inputs w waits)
      ≡ ok (c, s)
    → InGraph c (run_nodes c.run_id w.store)
    → ((handle_trigger has_lock load m msg w).0 ≡ ok tt)
      × Ensures (Ended env c) (run env c s)
      × GivenBack has_lock env m' msg.run_id (written (run env c s).0) (run env c s).1.store (
          advance_all has_lock env m' msg.run_id
            (suc (length c.nodes))
            (handle_trigger has_lock load m msg w).1)
unfolding handle_trigger
handle_trigger-GivenBack has_lock load env m m' msg tenant snapshot_id inputs w c s waits loads
      named idle resumed known =
    let t =
      take_up-TakenUp has_lock load m msg.run_id tenant snapshot_id inputs w waits c s idle
        resumed in
    let after = (take_up has_lock load (queued ∷ []) m msg.run_id w).1 in
    let (ends, back) =
      advance_all-GivenBack has_lock env m' msg.run_id load tenant after c s loads
        (ap (resume_executor load msg.run_id tenant) t.store_after ∙ resumed)
        (subst (λ x. InGraph c (run_nodes c.run_id x)) (sym t.store_after) known) t.task
        t.executor in
    rw (named, handle_trigger) (t.result, ends, back)
