-- ===== src/Tests/RunService.antt =====
-- The theorems on the run service at the example workflow.
use multi_agent_workflow.Prelude.{
  true, false, some, List, [], ◌∷◌, ◌≡◌, refl, ok, raise, quota_exceeded, arith,
}
use multi_agent_workflow.Prelude.Dict.{lookup}
use multi_agent_workflow.Json.{end}
use multi_agent_workflow.StateStore.Rows.{RunStatus, running, paused, queued, NodeState, Run}
use multi_agent_workflow.StateStore.Rows as Rows
use multi_agent_workflow.StateStore.Memory.{
  Store, empty, run_nodes, count_active_runs, count_runs, cas_update_run_status,
}
use multi_agent_workflow.Lock.{is_locked}
use multi_agent_workflow.Tenants.{TenantRegistry, standard, for_tenant}
use multi_agent_workflow.Worker.{Moment, Job, cancelled_state}
use multi_agent_workflow.Worker.Takes.{row_of}
use multi_agent_workflow.Service.State.{
  Deployment, Service, Poll, run_context, executor_alive, run_and_persist, mark_cancelled,
}
use multi_agent_workflow.Service.Create.{Workflow, create}
use multi_agent_workflow.Service.Commands.{pause_run, resume_run}
use multi_agent_workflow.Service.Quota.{Within, create-Within}
use multi_agent_workflow.Service.Effects.{Row, run_and_persist-Row, Answers, pause_run-Answers}
use multi_agent_workflow.Service.Stops.{state_in, mark_cancelled-Stopped}
use multi_agent_workflow.Service.Resumes.{resume_run-own_quota}
use multi_agent_workflow.Tests.Samples.{
  graph, with_row, asking, asking-Inv, loader, release, answering, passing,
}

-- A tenant that may have one run.
abbrev small : TenantRegistry
small = record {
  default = standard 2;
  tenants = ("acme", record (standard 1) { tenant_id = "acme" }) ∷ [];
}

abbrev queue_mode : Deployment
queue_mode = record {
  registry = some small;
  has_lock = true;
  has_queue = true;
  shared_datasources = false;
}

abbrev inline_mode : Deployment
inline_mode = record queue_mode { has_queue = false }

abbrev serving : Store → Service
serving s = record { executors = []; tasks = []; store = s; holders = []; topics = [] }

abbrev workflow : Workflow
workflow = record { dag = graph; hash = "h1"; yaml = "release" }

abbrev polls : List Poll
polls = record { now = 3; meanwhile = λ h. h } ∷ []

none-Within : Within small empty
unfolding count_active_runs count_runs
none-Within tid = omega arith

create-Within_example :
    Within small (create queue_mode "acme" workflow end "r1" 10 polls (serving empty)).1.store
unfolding lookup
create-Within_example =
    create-Within queue_mode small refl "acme" workflow end "r1" 10 polls (serving empty) refl
      none-Within

abbrev job : Job
job = record { config = release; executor = asking }

run_and_persist-Row_example :
    Row "r1"
      (with_row paused)
      (run_and_persist (answering passing) "r1" job (serving (with_row paused))).0
      (run_and_persist (answering passing) "r1" job (serving (with_row paused))).1.store
run_and_persist-Row_example =
    run_and_persist-Row "r1" job (serving (with_row paused)) (answering passing)

abbrev soon : Moment
soon = record { now = 5; reachable = true }

pause_run-Answers_example :
    Answers queue_mode soon "r1"
      (serving (with_row running))
      "acme"
      (pause_run queue_mode soon "r1" "acme" (serving (with_row running)))
pause_run-Answers_example =
    pause_run-Answers queue_mode soon "r1" (serving (with_row running)) "acme"

-- Nobody holds the lease, so the pause is forced.
pause_run_sample : (pause_run queue_mode soon "r1" "acme" (serving (with_row running))).0 ≡ ok true
unfolding pause_run run_context executor_alive is_locked lookup cas_update_run_status
pause_run_sample = refl

mark_cancelled-Stopped_example :
    (lookup "r1" (mark_cancelled "r1" job (serving (with_row running))).store.runs
      ≡ some (row_of "acme" (some "h1") end Rows.cancelled))
    × (lookup "confirm"
          (run_nodes "r1" (mark_cancelled "r1" job (serving (with_row running))).store)
        ≡ some (record { state = cancelled_state; tenant_id = some "acme" }))
    × (state_in "confirm"
          (lookup "r1" (mark_cancelled "r1" job (serving (with_row running))).executors)
        ≡ some cancelled_state)
unfolding lookup
mark_cancelled-Stopped_example =
    mark_cancelled-Stopped "r1" "confirm" job (serving (with_row running)) asking-Inv.unique

resume_run-own_quota_example :
    resume_run queue_mode (answering passing) loader "r1" "acme" (serving (with_row paused))
    ≡ (raise (quota_exceeded "acme"), serving (with_row paused))
unfolding run_context lookup for_tenant
resume_run-own_quota_example =
    resume_run-own_quota queue_mode (answering passing) loader small "r1" "acme" "acme"
      (row_of "acme" (some "h1") end paused) (serving (with_row paused)) refl refl refl refl refl
