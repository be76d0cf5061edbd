-- ===== src/Service/Commands.antt =====
-- The commands on a run (agentflow/service.py: `pause_run`, `resume_run`, `stop_run`, `approve`).
use multi_agent_workflow.Prelude.{
  String, Bool, true, false, Option, none, some, is_some, if◌then◌else◌, Result, ok, raise,
}
use multi_agent_workflow.Prelude.Dict.{lookup, insert}
use multi_agent_workflow.Json.{Value}
use multi_agent_workflow.Core.Dag.{Dag}
use multi_agent_workflow.StateStore.Rows.{RunStatus, running, paused, Run, same_run_status}
use multi_agent_workflow.StateStore.Rows as Rows
use multi_agent_workflow.StateStore.Memory.{Store, update_run, cas_update_run_status, status_is}
use multi_agent_workflow.Lock.{Holders}
use multi_agent_workflow.Queue.{publish, topic_command}
use multi_agent_workflow.Executor.State.{Config, Executor, request_pause}
use multi_agent_workflow.Executor.Environment.{Environment}
use multi_agent_workflow.Executor.Approve as Approve
use multi_agent_workflow.Executor.Resume.{resume_executor}
use multi_agent_workflow.Worker.{Moment, Job}
use multi_agent_workflow.Service.State.{
  Deployment, Service, check_run_quota, require_approver, run_context, mark_cancelled,
  run_and_persist, executor_alive, Summary, summary,
}

-- A message on the topic of the tenant's commands.
unfoldable pub command : String → String → String → Service → Service
command type run_id tenant svc = record svc {
  topics =
      publish (topic_command tenant) run_id
        (record { type = type; run_id = run_id; tenant_id = tenant }) svc.topics;
}

abbrev pub ask_pause : String → Service → Option Job → Service
ask_pause run_id svc none = svc
ask_pause run_id svc (some job) = record svc {
  executors = insert run_id (record job { executor = request_pause job.executor }) svc.executors;
}

abbrev pub job_of : Config × Executor → Job
job_of (c, s) = record { config = c; executor = s }

module _ (d : Deployment) where
  -- The ordinary way of `pause_run`.
  unfoldable pub pause_softly : String → String → Service → Service
  pause_softly run_id tenant svc =
      if d.has_queue
      then command "pause" run_id tenant svc
      else ask_pause run_id svc (lookup run_id svc.executors)

  abbrev pub forced : String → String → Service → Store × Bool → Bool × Service
  forced run_id tenant svc (s, true) = (true, record svc { store = s })
  forced run_id tenant svc (s, false) =
      (false, pause_softly run_id tenant (record svc { store = s }))

  abbrev pub by_alive : String → String → Service → Holders × Option Bool → Bool × Service
  by_alive run_id tenant svc (h, some false) =
      let asked = record svc { holders = h } in
      forced run_id tenant asked (cas_update_run_status run_id running paused asked.store)
  by_alive run_id tenant svc (h, _) =
      (false, pause_softly run_id tenant (record svc { holders = h }))

  abbrev pub pause_row : Moment → String → Service → Result (Run × String) → Result Bool × Service
  pause_row m run_id svc (raise e) = (raise e, svc)
  pause_row m run_id svc (ok (run, tenant)) =
      let r = by_alive run_id tenant svc (executor_alive d m run_id svc.holders) in
      if status_is running run.status
      then (ok r.0, r.1)
      else (ok false, pause_softly run_id tenant svc)

  -- `pause_run`: whether the pause was forced.
  unfoldable pub pause_run : Moment → String → String → Service → Result Bool × Service
  pause_run m run_id tenant_id svc = pause_row m run_id svc (run_context run_id tenant_id svc)

  -- The first part of `stop_run` in the process: the task is cancelled, and marks its run if it has
  -- not ended.
  abbrev pub cancel_background : String → Service → Option Bool → Option Job → Service
  cancel_background run_id svc (some false) (some job) =
      let marked = mark_cancelled run_id job svc in
      record marked { tasks = insert run_id true marked.tasks }
  cancel_background run_id svc (some false) none = record svc {
    tasks = insert run_id true svc.tasks;
  }
  cancel_background run_id svc _ job = svc

  abbrev pub mark : String → Service → Option Job → Service
  mark run_id svc none = record svc { store = update_run run_id Rows.cancelled svc.store }
  mark run_id svc (some job) = mark_cancelled run_id job svc

  abbrev pub stop_row : String → Service → Result (Run × String) → Result (Unit {0}) × Service
  stop_row run_id svc (raise e) = (raise e, svc)
  stop_row run_id svc (ok (run, tenant)) =
      if d.has_queue
      then (ok tt, command "stop" run_id tenant svc)
      else let stopped =
          cancel_background run_id svc (lookup run_id svc.tasks) (lookup run_id svc.executors) in
        (ok tt, mark run_id stopped (lookup run_id stopped.executors))

  -- `stop_run`.
  unfoldable pub stop_run : String → String → Service → Result (Unit {0}) × Service
  stop_run run_id tenant_id svc = stop_row run_id svc (run_context run_id tenant_id svc)

  module _ (env : Environment) (load : String → Result Dag) where
    abbrev continued : String → Result RunStatus × Service → Result Summary × Service
    continued run_id (raise e, svc) = (raise e, svc)
    continued run_id (ok status, svc) = (ok (summary run_id svc), svc)

    abbrev run_again : String → Service → Result (Config × Executor) → Result Summary × Service
    run_again run_id svc (raise e) = (raise e, svc)
    run_again run_id svc (ok cs) = continued run_id (
        run_and_persist env run_id (job_of cs)
          (record svc { executors = insert run_id (job_of cs) svc.executors }))

    abbrev pub resume_row : String → Service → Result (Run × String) → Result Summary × Service
    resume_row run_id svc (raise e) = (raise e, svc)
    resume_row run_id svc (ok (run, tenant)) = elim (check_run_quota d.registry tenant svc.store) [
      | raise e ↦ (raise e, svc)
      | ok _ ↦
          if d.has_queue
          then (ok (summary run_id svc), command "resume" run_id tenant svc)
          else run_again run_id svc (resume_executor load run_id tenant svc.store)
    ]

    -- `resume_run`.
    unfoldable pub resume_run : String → String → Service → Result Summary × Service
    resume_run run_id tenant_id svc = resume_row run_id svc (run_context run_id tenant_id svc)

    -- What `approve` returns: the decision and the status of the run, without the summary.
    abbrev answered : Value → Result RunStatus × Service → Result (Value × RunStatus) × Service
    answered out (raise e, svc) = (raise e, svc)
    answered out (ok status, svc) = (ok (out, status), svc)

    -- The executor that is kept in the process is the one that was changed.
    abbrev write_back : String → Job → Executor → Service → Service
    write_back run_id job s svc = record svc {
      store = s.store;
      executors =
          if is_some (lookup run_id svc.executors)
          then insert run_id (record job { executor = s }) svc.executors
          else svc.executors;
    }

    abbrev after_decision :
        String
        → String
        → Job
        → Service
        → Result Value × Executor
        → Result (Value × RunStatus) × Service
    after_decision run_id tenant job svc (raise e, s) = (raise e, write_back run_id job s svc)
    after_decision run_id tenant job svc (ok out, s) =
        let kept = write_back run_id job s svc in
        if d.has_queue
        then (ok (out, Rows.queued), command "resume" run_id tenant kept)
        else answered out (run_and_persist env run_id (record job { executor = s }) kept)

    abbrev decide :
        String
        → String
        → Bool
        → String
        → String
        → String
        → Service
        → Job
        → Result (Value × RunStatus) × Service
    decide run_id nid approved by comment tenant svc job = after_decision run_id tenant job svc (
        Approve.approve env job.config nid approved by comment
          (record job.executor { store = svc.store }))

    abbrev decide_restored :
        String
        → String
        → Bool
        → String
        → String
        → String
        → Service
        → Result (Config × Executor)
        → Result (Value × RunStatus) × Service
    decide_restored run_id nid approved by comment tenant svc (raise e) = (raise e, svc)
    decide_restored run_id nid approved by comment tenant svc (ok cs) =
        let job = job_of cs in
        let kept =
          if d.has_queue then svc else record svc { executors = insert run_id job svc.executors } in
        decide run_id nid approved by comment tenant kept job

    abbrev guarded {ℓ} :
        {A : Type ℓ} → Result (Unit {0}) → Service → Result A × Service → Result A × Service
    guarded (raise e) svc rest = (raise e, svc)
    guarded (ok _) svc rest = rest

    abbrev approve_row :
        String
        → String
        → Bool
        → String
        → String
        → Service
        → Result (Run × String)
        → Result (Value × RunStatus) × Service
    approve_row run_id nid approved by comment svc (raise e) = (raise e, svc)
    approve_row run_id nid approved by comment svc (ok (run, tenant)) =
        guarded (require_approver d.registry tenant nid by) svc (
          decide_restored run_id nid approved by comment tenant svc
            (resume_executor load run_id tenant svc.store))

    abbrev approve_kept :
        String
        → String
        → Bool
        → String
        → String
        → Service
        → Job
        → Result (Value × RunStatus) × Service
    approve_kept run_id nid approved by comment svc job =
        guarded (require_approver d.registry job.config.tenant_id nid by) svc
          (decide run_id nid approved by comment job.config.tenant_id svc job)

    -- `approve`: with an executor in the process, else with one that is rebuilt.
    unfoldable pub approve :
        String
        → String
        → String
        → Bool
        → String
        → String
        → Service
        → Result (Value × RunStatus) × Service
    approve run_id tenant_id nid approved by comment svc = elim (lookup run_id svc.executors) [
      | none ↦ approve_row run_id nid approved by comment svc (run_context run_id tenant_id svc)
      | some job ↦ approve_kept run_id nid approved by comment svc job
    ]
