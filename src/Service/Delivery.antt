-- ===== src/Service/Delivery.antt =====
-- A new run on its way through the queue (agentflow/service.py: `_create`; agentflow/worker.py:
-- `handle_trigger`).
use multi_agent_workflow.Prelude.{String, true, some, [], ◌∷◌, ◌++◌, ◌≡◌, Result, ok, raise}
use multi_agent_workflow.Prelude.Dict.{lookup}
use multi_agent_workflow.Json.{Fields}
use multi_agent_workflow.StateStore.Rows.{Run, running, queued}
use multi_agent_workflow.StateStore.Memory.{Store, save_snapshot}
use multi_agent_workflow.Queue.{topic_trigger}
use multi_agent_workflow.Queue.Fifo.{waiting}
use multi_agent_workflow.Worker.{Message}
use multi_agent_workflow.Service.State.{Deployment, Service}
use multi_agent_workflow.Service.Create.{Workflow}

abbrev pub trigger_message : String → String → Message
trigger_message tenant_id run_id = record {
  type = "trigger";
  run_id = run_id;
  tenant_id = tenant_id;
}

module _ (d : Deployment) (queue : d.has_queue ≡ true) (tenant_id : String) (wf : Workflow)
    (inputs : Fields) (run_id : String) where
  -- The row that `_create` gives to the run, before it is queued.
  abbrev pub created : Run
  created = record {
    tenant_id = some tenant_id;
    snapshot_id = some wf.hash;
    status = some running;
    inputs = inputs;
  }

  -- What the critical section leaves when it was passed.
  record Stored (s s' : Store) : Type 0 where
    row : lookup run_id s'.runs ≡ some created
    snapshots : s'.snapshots ≡ (save_snapshot wf.hash wf.yaml s).snapshots

  abbrev Stores : Store → Result (Unit {0}) × Store → Type 0
  Stores s (raise e, s') = s' ≡ s
  Stores s (ok u, s') = Stored s s'

  -- What stands in the store and on the queue after a run was created.
  pub record Published (svc after : Service) : Type 0 where
    pub row : lookup run_id after.store.runs ≡ some (record created { status = some queued })
    pub snapshots : after.store.snapshots ≡ (save_snapshot wf.hash wf.yaml svc.store).snapshots
    pub message :
        waiting (topic_trigger tenant_id) after.topics
        ≡ waiting (topic_trigger tenant_id) svc.topics
          ++ (run_id, trigger_message tenant_id run_id) ∷ []

  -- A refusal writes nothing to the store and puts nothing on the queue.
  abbrev pub Announces : Service → Result String × Service → Type 0
  Announces svc (raise e, after) = (after.store ≡ svc.store) × (after.topics ≡ svc.topics)
  Announces svc (ok rid, after) = (rid ≡ run_id) × Published svc after
