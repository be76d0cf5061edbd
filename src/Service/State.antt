-- ===== src/Service/State.antt =====
-- The state of the run service, its checks, and the end of a run (agentflow/service.py).
use Prim.Native.String.{◌++◌}
use multi_agent_workflow.Prelude.{
  ℕ, String, Bool, true, false, ◌&&◌, ◌||◌, Option, none, some, List, [], ◌∷◌, ◌==◌, ltb,
  if◌then◌else◌, Result, ok, raise, timed_out, out_of_fuel, value_error, key_error, quota_exceeded,
  approver_denied,
}
use multi_agent_workflow.Prelude.Dict.{Dict, lookup, insert}
use multi_agent_workflow.Core.Dag.{is_terminal, is_failed, is_waiting, Status}
use multi_agent_workflow.StateStore.Rows.{RunStatus, Run, NodeState}
use multi_agent_workflow.StateStore.Rows as Rows
use multi_agent_workflow.StateStore.Memory.{Store, update_run, put_node, count_active_runs}
use multi_agent_workflow.Lock.{Holders, acquire, is_locked}
use multi_agent_workflow.Tenants.{TenantRegistry, check_quota, check_approver}
use multi_agent_workflow.Queue.{Topics}
use multi_agent_workflow.Executor.State.{Executor}
use multi_agent_workflow.Executor.Environment.{Environment}
use multi_agent_workflow.Executor.Run.{RunOutcome, run}
use multi_agent_workflow.Executor.Run.Once.{loop_once}
use multi_agent_workflow.Worker.{
  Message, Moment, Job, outcome_status, written, cancelled_state, run_exec_lease_key,
}

-- How the service is put together: `tenant_registry`, and whether it has a lock and a queue.
pub record Deployment : Type 0 where
  pub registry : Option TenantRegistry
  pub has_lock : Bool
  pub has_queue : Bool
  pub shared_datasources : Bool

-- `_executors`, and `_tasks` (whether the task has ended), with the store, the lock and the queue.
pub record Service : Type 0 where
  pub executors : Dict Job
  pub tasks : Dict Bool
  pub store : Store
  pub holders : Holders
  pub topics : Topics Message

-- `_check_quota`.
unfoldable pub check_run_quota : Option TenantRegistry → String → Store → Result (Unit {0})
check_run_quota none tid s = ok tt
check_run_quota (some reg) tid s =
    if check_quota reg tid (count_active_runs tid s) then ok tt else raise (quota_exceeded tid)

-- `_check_approver`.
unfoldable pub require_approver :
    Option TenantRegistry → String → String → String → Result (Unit {0})
require_approver none tid nid by = ok tt
require_approver (some reg) tid nid by =
    if check_approver reg tid nid by then ok tt else raise (approver_denied by)

-- One poll of the lock: when it is made, and what others did to the lock before.
pub record Poll : Type 0 where
  pub now : ℕ
  pub meanwhile : Holders → Holders

abbrev pub quota_key : String → String
quota_key tenant_id = "tenant-quota:" ++ tenant_id

-- `timeout + 5.0` seconds.
abbrev pub quota_ttl : ℕ
quota_ttl = 15000000

-- `_acquire_tenant_lock`, with the polls that there are.
unfoldable pub acquire_tenant_lock : String → ℕ → List Poll → Holders → Result String × Holders
acquire_tenant_lock tenant_id deadline [] h = (raise out_of_fuel, h)
acquire_tenant_lock tenant_id deadline (p ∷ ps) h =
    let r = acquire (quota_key tenant_id) quota_ttl p.now (p.meanwhile h) in
    let later = acquire_tenant_lock tenant_id deadline ps r.0 in
    if r.1
    then (ok (quota_key tenant_id), r.0)
    else if ltb deadline p.now
    then (raise (timed_out tenant_id), r.0)
    else later

-- `_run_context`: the row and the tenant of a run. An empty text stands for no tenant.
abbrev pub known_row : String → String → Option Run → Result (Run × String)
known_row run_id tenant none = raise (value_error run_id)
known_row run_id tenant (some run) = ok (run, tenant)

abbrev pub owned_row : String → Option Run → Result (Run × String)
owned_row run_id none = raise (value_error run_id)
owned_row run_id (some run) = elim run.tenant_id [
  | none ↦ raise (key_error "tenant_id")
  | some tenant ↦ ok (run, tenant)
]

abbrev pub tenant_of : String → Option Job → String
tenant_of tenant none = tenant
tenant_of tenant (some job) = if tenant == "" then job.config.tenant_id else tenant

unfoldable pub run_context : String → String → Service → Result (Run × String)
run_context run_id tenant_id svc =
    let tenant = tenant_of tenant_id (lookup run_id svc.executors) in
    let row = lookup run_id svc.store.runs in
    if tenant == "" then owned_row run_id row else known_row run_id tenant row

-- The loop of `_mark_cancelled`: the executor's states, and the store.
unfoldable pub cancel_states : String → String → Dict NodeState → Store → Dict NodeState × Store
cancel_states run_id tenant [] s = ([], s)
cancel_states run_id tenant ((nid, st) ∷ states) s =
    let ended = is_terminal st.status || is_failed st.status in
    let r =
      cancel_states run_id tenant states
        (if ended then s else put_node run_id tenant nid cancelled_state s) in
    ((nid, if ended then st else cancelled_state) ∷ r.0, r.1)

-- `_mark_cancelled`.
unfoldable pub mark_cancelled : String → Job → Service → Service
mark_cancelled run_id job svc =
    let r = cancel_states run_id job.config.tenant_id job.executor.states svc.store in
    record svc {
      store = update_run run_id Rows.cancelled r.1;
      executors =
          insert run_id (record job { executor = record job.executor { states = r.0 } })
            svc.executors;
    }

abbrev with_executor : String → Job → Executor → Service → Service
with_executor run_id job s svc = record svc {
  store = s.store;
  executors = insert run_id (record job { executor = s }) svc.executors;
}

abbrev pub persisted :
    String → Job → Result RunOutcome × Executor → Service → Result RunStatus × Service
persisted run_id job (r, s) svc =
    let kept = with_executor run_id job s svc in
    elim (written r) [
      | some status ↦ (ok status, record kept { store = update_run run_id status kept.store })
      | none ↦ (elim r [ ok o ↦ ok (outcome_status o) | raise e ↦ raise e ], kept)
    ]

-- `_run_and_persist`, where the caller waits for it.
unfoldable pub run_and_persist : Environment → String → Job → Service → Result RunStatus × Service
run_and_persist env run_id job svc =
    persisted run_id job (run env job.config (record job.executor { store = svc.store })) svc

abbrev after_turn : String → Job → Result (Option RunOutcome) × Executor → Service → Service
after_turn run_id job (ok none, s) svc = with_executor run_id job s svc
after_turn run_id job (ok (some o), s) svc =
    let kept = (persisted run_id job (ok o, s) svc).1 in
    record kept { tasks = insert run_id true kept.tasks }
after_turn run_id job (raise e, s) svc =
    let kept = (persisted run_id job (raise e, s) svc).1 in
    record kept { tasks = insert run_id true kept.tasks }

-- `_run_background` goes on by one turn of the executor's loop.
unfoldable pub run_background : Environment → String → Service → Service
run_background env run_id svc = elim (lookup run_id svc.tasks) [
  | some false ↦ elim (lookup run_id svc.executors) [
    | none ↦ svc
    | some job ↦
        after_turn run_id job (loop_once env job.config (record job.executor { store = svc.store }))
          svc
  ]
  | _ ↦ svc
]

-- `executor_alive`: `none` where it cannot be known.
unfoldable pub executor_alive : Deployment → Moment → String → Holders → Holders × Option Bool
executor_alive d m run_id h =
    let r = is_locked (run_exec_lease_key run_id) m.now h in
    if d.has_lock && m.reachable then (r.0, some r.1) else (h, none)

-- `pending_approvals`, and the statuses of the nodes.
unfoldable pub pending_approvals : Dict NodeState → List String
pending_approvals [] = []
pending_approvals ((nid, st) ∷ states) =
    let rest = pending_approvals states in if is_waiting st.status then nid ∷ rest else rest

unfoldable pub node_statuses : Dict NodeState → Dict Status
node_statuses [] = []
node_statuses ((nid, st) ∷ states) = (nid, st.status) ∷ node_statuses states

pub record Summary : Type 0 where
  pub run_id : String
  pub status : Dict Status
  pub pending_approvals : List String

-- `_summary`.
unfoldable pub summary : String → Service → Summary
summary run_id svc = elim (lookup run_id svc.executors) [
  | none ↦ record { run_id = run_id; status = []; pending_approvals = [] }
  | some job ↦ record {
    run_id = run_id;
    status = node_statuses job.executor.states;
    pending_approvals = pending_approvals job.executor.states;
  }
]
