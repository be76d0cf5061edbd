-- ===== src/Service/Create.antt =====
-- New runs (agentflow/service.py: `_create`, `create_run`, `start_run`). The preparation of the
-- workspace leaves the state alone and never raises; only the test that asks for it is here.
use multi_agent_workflow.Prelude.{
  ℕ, String, Bool, false, not, ◌&&◌, ◌||◌, Option, none, some, List, [], ◌∷◌, contains, is_some,
  if◌then◌else◌, Result, ok, raise, invalid_inputs,
}
use multi_agent_workflow.Prelude.Dict.{Dict, insert}
use multi_agent_workflow.Json.{Fields, get}
use multi_agent_workflow.Core.Dag.{Node, Dag}
use multi_agent_workflow.StateStore.Rows.{queued}
use multi_agent_workflow.StateStore.Memory.{Store, save_snapshot, create_run, update_run}
use multi_agent_workflow.Lock.{Holders, release}
use multi_agent_workflow.Queue.{publish, topic_trigger}
use multi_agent_workflow.Executor.State.{Config, init}
use multi_agent_workflow.Executor.Environment.{Environment}
use multi_agent_workflow.Worker.{Job}
use multi_agent_workflow.Service.State.{
  Deployment, Service, Poll, check_run_quota, acquire_tenant_lock, run_and_persist, Summary,
  summary,
}

-- A workflow: its graph, and its snapshot's hash and text.
pub record Workflow : Type 0 where
  pub dag : Dag
  pub hash : String
  pub yaml : String

-- `WORKSPACE_AGENTS`.
abbrev pub workspace_agents : List String
workspace_agents =
    "code-locator" ∷ "fix-implementer" ∷ "tester" ∷ "reviewer" ∷ "committer" ∷ "ci-builder"
    ∷ "merger" ∷ []

abbrev uses_workspace : Option String → Bool
uses_workspace none = false
uses_workspace (some agent) = contains agent workspace_agents

-- The test of `_prepare_workspace`.
unfoldable pub needs_workspace : Dict Node → Bool
needs_workspace [] = false
needs_workspace ((nid, n) ∷ nodes) = uses_workspace n.agent || needs_workspace nodes

-- The critical section of `_create`: the quota, the snapshot and the row of the run.
unfoldable pub reserve :
    Deployment → String → Workflow → Fields → String → Store → Result (Unit {0}) × Store
reserve d tenant_id wf inputs run_id s = elim (check_run_quota d.registry tenant_id s) [
  | raise e ↦ (raise e, s)
  | ok _ ↦ (ok tt, create_run run_id tenant_id wf.hash inputs (save_snapshot wf.hash wf.yaml s))
]

abbrev pub released : Option String → Service → Service
released none svc = svc
released (some key) svc = record svc { holders = release key svc.holders }

-- The rest of `_create` when the critical section was passed.
unfoldable pub announce : Deployment → String → String → Service → Service
announce d tenant_id run_id svc =
    if d.has_queue
    then record svc {
      store = update_run run_id queued svc.store;
      topics =
          publish (topic_trigger tenant_id) run_id
            (record { type = "trigger"; run_id = run_id; tenant_id = tenant_id }) svc.topics;
    }
    else svc

module _ (d : Deployment) (tenant_id : String) (wf : Workflow) (inputs : Fields)
    (run_id : String) where
  abbrev pub leave : Option String → Service → Result (Unit {0}) × Store → Result String × Service
  leave key svc (raise e, s) = (raise e, released key (record svc { store = s }))
  leave key svc (ok _, s) =
      (ok run_id, announce d tenant_id run_id (released key (record svc { store = s })))

  abbrev pub locked : Service → Result String × Holders → Result String × Service
  locked svc (raise e, h) = (raise e, record svc { holders = h })
  locked svc (ok key, h) =
      leave (some key) (record svc { holders = h }) (reserve d tenant_id wf inputs run_id svc.store)

  abbrev pub repos_refused : Bool
  repos_refused = is_some (get "repos" inputs) && not d.shared_datasources

  -- `_create`, with the new id of the run.
  unfoldable pub create : ℕ → List Poll → Service → Result String × Service
  create deadline polls svc =
      if repos_refused
      then (raise (invalid_inputs "repos"), svc)
      else if d.has_lock
      then locked svc (acquire_tenant_lock tenant_id deadline polls svc.holders)
      else leave none svc (reserve d tenant_id wf inputs run_id svc.store)

  abbrev new_job : Store → Job
  new_job s =
      let c : Config = record {
        run_id = run_id;
        tenant_id = tenant_id;
        nodes = wf.dag.nodes;
        inputs = inputs;
      } in
      record { config = c; executor = init c s }

  abbrev executed : Environment → Result String × Service → Result Summary × Service
  executed env (raise e, svc) = (raise e, svc)
  executed env (ok rid, svc) =
      if d.has_queue
      then (ok (summary rid svc), svc)
      else let job = new_job svc.store in
        let (r, after) =
          run_and_persist env rid job (record svc { executors = insert rid job svc.executors }) in
        (elim r [ raise e ↦ raise e | ok _ ↦ ok (summary rid after) ], after)

  -- `create_run`.
  unfoldable pub create_run_of : Environment → ℕ → List Poll → Service → Result Summary × Service
  create_run_of env deadline polls svc = executed env (create deadline polls svc)

  abbrev in_background : Result String × Service → Result String × Service
  in_background (raise e, svc) = (raise e, svc)
  in_background (ok rid, svc) = if d.has_queue then (ok rid, svc) else (
    ok rid,
    record svc {
      executors = insert rid (new_job svc.store) svc.executors;
      tasks = insert rid false svc.tasks;
    },
  )

  -- `start_run`.
  unfoldable pub start_run : ℕ → List Poll → Service → Result String × Service
  start_run deadline polls svc = in_background (create deadline polls svc)
