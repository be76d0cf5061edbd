-- ===== src/Service/Resumes.antt =====
-- The quota at a manual resume (agentflow/service.py: `resume_run`), and the way of a new run to
-- the worker that takes it up.
use multi_agent_workflow.Prelude.{
  ◌≤◌, String, true, false, Option, some, [], ◌∷◌, ◌≡◌, refl, arith, eq_refl, Result, ok, raise,
  quota_exceeded,
}
use multi_agent_workflow.Prelude.Dict.{Dict, lookup}
use multi_agent_workflow.Core.Dag.{Dag}
use multi_agent_workflow.StateStore.Rows.{Run}
use multi_agent_workflow.StateStore.Memory.{Store, count_active_runs, count_runs, active}
use multi_agent_workflow.Tenants.{TenantRegistry, for_tenant, check_quota}
use multi_agent_workflow.Executor.Environment.{Environment}
use multi_agent_workflow.Service.State.{Deployment, Service, check_run_quota, run_context}
use multi_agent_workflow.Service.Commands.{resume_run, resume_row}
use multi_agent_workflow.Service.Quota.{weight}
use multi_agent_workflow.Service.Effects.{run_context-row}

-- A run that counts is among those that are counted.
weight-count :
    (tenant run_id : String) (runs : Dict Run)
    → weight tenant (lookup run_id runs) ≤ count_runs tenant runs
unfolding count_runs lookup
weight-count tenant run_id [] = ground arith
weight-count tenant run_id ((k, run) ∷ runs) = ground (arith, weight-count tenant run_id runs)

full_alone :
    (reg : TenantRegistry) (tenant run_id : String) (run : Run) (s : Store)
    → (for_tenant reg tenant).max_concurrent_runs ≡ 1
    → lookup run_id s.runs ≡ some run
    → run.tenant_id ≡ some tenant
    → active run.status ≡ true
    → check_quota reg tenant (count_active_runs tenant s) ≡ false
unfolding check_quota count_active_runs
full_alone reg tenant run_id run s one row own live =
    let counted : 1 ≤ count_runs tenant s.runs =
      ground (arith, weight-count tenant run_id s.runs, row, own, live, eq_refl tenant) in
    ground (arith, one, counted)

refused :
    (registry : Option TenantRegistry) (reg : TenantRegistry) (tenant : String) (s : Store)
    → registry ≡ some reg
    → check_quota reg tenant (count_active_runs tenant s) ≡ false
    → check_run_quota registry tenant s ≡ raise (quota_exceeded tenant)
unfolding check_run_quota
refused registry reg tenant s here full = rw (here, full, check_run_quota) refl

-- A tenant that may have one run cannot resume it by hand while the run is active, though it is the
-- only one: the run itself fills the quota. The service stays as it was.
pub resume_run-own_quota :
    (d : Deployment) (env : Environment) (load : String → Result Dag) (reg : TenantRegistry)
    (run_id tenant_id tenant : String) (run : Run) (svc : Service)
    → d.registry ≡ some reg
    → (for_tenant reg tenant).max_concurrent_runs ≡ 1
    → run_context run_id tenant_id svc ≡ ok (run, tenant)
    → run.tenant_id ≡ some tenant
    → active run.status ≡ true
    → resume_run d env load run_id tenant_id svc ≡ (raise (quota_exceeded tenant), svc)
unfolding resume_run
resume_run-own_quota d env load reg run_id tenant_id tenant run svc here one known own live =
    let row = run_context-row run_id tenant_id tenant svc run known in
    let full = full_alone reg tenant run_id run svc.store one row own live in
    rw (known, refused d.registry reg tenant svc.store here full, resume_run, resume_row) refl
