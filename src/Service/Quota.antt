-- ===== src/Service/Quota.antt =====
-- The number of active runs of the tenants, and their quotas (`count_active_runs`, `_check_quota`).
use multi_agent_workflow.Prelude.{
  ℕ, ◌+◌, ◌≤◌, String, Bool, true, false, ◌&&◌, Option, none, some, List, [], ◌∷◌, ◌≡◌, refl, ap,
  ◌∙◌, arith, eq_iff, if◌then◌else◌, Result, ok, raise, Bool-cases, Option-cases, inl, inr,
}
use multi_agent_workflow.Prelude.Dict.{Dict, lookup, insert, lookup-insert_same}
use multi_agent_workflow.Json.{Fields}
use multi_agent_workflow.StateStore.Rows.{running, Run}
use multi_agent_workflow.StateStore.Memory.{
  Store, count_runs, count_active_runs, text_is, active, save_snapshot, create_run, update_run,
}
use multi_agent_workflow.Lock.{Holders, release}
use multi_agent_workflow.Tenants.{TenantRegistry, for_tenant, check_quota}
use multi_agent_workflow.Service.State.{
  Deployment, Service, Poll, acquire_tenant_lock, check_run_quota,
}
use multi_agent_workflow.Service.Create.{
  Workflow, reserve, announce, leave, locked, create, repos_refused,
}

-- 1 for a run that counts towards the quota of the tenant.
abbrev pub weight : String → Option Run → ℕ
weight tenant none = 0
weight tenant (some run) = if text_is tenant run.tenant_id && active run.status then 1 else 0

pub count_runs-insert :
    (tenant run_id : String) (run : Run) (runs : Dict Run)
    → count_runs tenant (insert run_id run runs) + weight tenant (lookup run_id runs)
      ≡ count_runs tenant runs + weight tenant (some run)
unfolding count_runs insert lookup
count_runs-insert tenant run_id run [] = ground arith
count_runs-insert tenant run_id run ((k, old) ∷ runs) =
    ground (arith, count_runs-insert tenant run_id run runs)

-- No tenant has more active runs than its quota.
abbrev pub Within : TenantRegistry → Store → Type 0
Within reg s = (tid : String) → count_active_runs tid s ≤ (for_tenant reg tid).max_concurrent_runs

module _ (reg : TenantRegistry) (tenant_id run_id : String) (s : Store) where
  -- A row that replaces one with the same weight, or a lighter one.
  lighter-Within :
      (run : Run)
      → ((tid : String) → weight tid (some run) ≤ weight tid (lookup run_id s.runs))
      → Within reg s
      → Within reg (record s { runs = insert run_id run s.runs })
  unfolding count_active_runs
  lighter-Within run lighter w tid =
      omega (arith, count_runs-insert tid run_id run s.runs, lighter tid, w tid)

  save_snapshot-runs : (hash yaml : String) → (save_snapshot hash yaml s).runs ≡ s.runs
  unfolding save_snapshot
  save_snapshot-runs hash yaml = elim (Option-cases (lookup hash s.snapshots)) [
    | inl e ↦ rw (e, save_snapshot) refl
    | inr (kept, e) ↦ rw (e, save_snapshot) refl
  ]

  create_run-Within :
      (hash : String) (inputs : Fields)
      → lookup run_id s.runs ≡ none
      → check_quota reg tenant_id (count_active_runs tenant_id s) ≡ true
      → Within reg s
      → Within reg (create_run run_id tenant_id hash inputs s)
  unfolding count_active_runs create_run check_quota
  create_run-Within hash inputs new room w tid =
      let run : Run = record {
        tenant_id = some tenant_id;
        snapshot_id = some hash;
        status = some running;
        inputs = inputs;
      } in
      ground
        (arith, count_runs-insert tid run_id run s.runs, new, room, w tid, eq_iff tenant_id tid)

same-Within :
    (reg : TenantRegistry) (s s' : Store) → s'.runs ≡ s.runs → Within reg s → Within reg s'
unfolding count_active_runs
same-Within reg s s' e w tid = rw e (w tid)

module _ (d : Deployment) (reg : TenantRegistry) (here : d.registry ≡ some reg) (tenant_id : String)
    (wf : Workflow) (inputs : Fields) (run_id : String) where
  abbrev pub new_run : Run
  new_run = record {
    tenant_id = some tenant_id;
    snapshot_id = some wf.hash;
    status = some running;
    inputs = inputs;
  }

  -- The critical section was passed.
  pub record Reserved (s s' : Store) : Type 0 where
    pub room : check_quota reg tenant_id (count_active_runs tenant_id s) ≡ true
    pub row : lookup run_id s'.runs ≡ some new_run
    pub snapshots : s'.snapshots ≡ (save_snapshot wf.hash wf.yaml s).snapshots
    pub within : lookup run_id s.runs ≡ none → Within reg s → Within reg s'

  -- It refuses and writes nothing, or there was room and the row is written.
  abbrev pub Reserves : Store → Result (Unit {0}) × Store → Type 0
  Reserves s (raise e, s') = s' ≡ s
  Reserves s (ok u, s') = Reserved s s'

  written-Reserved :
      (s : Store)
      → check_quota reg tenant_id (count_active_runs tenant_id s) ≡ true
      → Reserved s (create_run run_id tenant_id wf.hash inputs (save_snapshot wf.hash wf.yaml s))
  unfolding create_run count_active_runs
  written-Reserved s room =
      let saved = save_snapshot wf.hash wf.yaml s in
      let e = save_snapshot-runs reg tenant_id run_id s wf.hash wf.yaml in
      record {
        room = room;
        row = lookup-insert_same run_id new_run saved.runs;
        snapshots = refl;
        within = λ new w.
            create_run-Within reg tenant_id run_id saved wf.hash inputs (ap (lookup run_id) e ∙ new)
              (same_room saved s e room) (same-Within reg s saved e w);
      }
    where
      same_room :
          (t u : Store)
          → t.runs ≡ u.runs
          → check_quota reg tenant_id (count_active_runs tenant_id u) ≡ true
          → check_quota reg tenant_id (count_active_runs tenant_id t) ≡ true
      same_room t u e h = ap (λ runs. check_quota reg tenant_id (count_runs tenant_id runs)) e ∙ h

  pub reserve-Reserves : (s : Store) → Reserves s (reserve d tenant_id wf inputs run_id s)
  unfolding reserve check_run_quota
  reserve-Reserves s =
      elim (Bool-cases (check_quota reg tenant_id (count_active_runs tenant_id s))) [
        | inl e ↦ rw (here, e, reserve, check_run_quota) (written-Reserved s e)
        | inr e ↦ rw (here, e, reserve, check_run_quota) refl
      ]

  -- `queued` counts as `running` does.
  announce-Within :
      (svc : Service)
      → (run : Run) → lookup run_id svc.store.runs ≡ some run
      → run.status ≡ some running
      → Within reg svc.store
      → Within reg (announce d tenant_id run_id svc).store
  unfolding announce update_run
  announce-Within svc run row now w = elim (Bool-cases d.has_queue) [
    | inr e ↦ rw (e, announce) w
    | inl e ↦
        rw (e, announce)
          (lighter-Within reg tenant_id run_id svc.store _ (λ tid. rw (row, now) (omega arith)) w)
  ]

  either :
      (b : Bool) (x y : Result String × Service)
      → Within reg x.1.store
      → Within reg y.1.store
      → Within reg (if b then x else y).1.store
  either true x y h k = h
  either false x y h k = k

  leave-Within :
      (key : Option String) (svc : Service) (r : Result (Unit {0}) × Store)
      → Reserves svc.store r
      → lookup run_id svc.store.runs ≡ none
      → Within reg svc.store
      → Within reg (leave d tenant_id wf inputs run_id key svc r).1.store
  leave-Within none svc (raise e, s) h new w = same-Within reg svc.store s (ap (λ x. x.runs) h) w
  leave-Within (some key) svc (raise e, s) h new w =
      same-Within reg svc.store s (ap (λ x. x.runs) h) w
  leave-Within none svc (ok u, s) h new w =
      announce-Within (record svc { store = s }) new_run h.row refl (h.within new w)
  leave-Within (some key) svc (ok u, s) h new w =
      announce-Within (record svc { store = s; holders = release key svc.holders }) new_run h.row
        refl (h.within new w)

  locked-Within :
      (svc : Service) (r : Result String × Holders)
      → lookup run_id svc.store.runs ≡ none
      → Within reg svc.store
      → Within reg (locked d tenant_id wf inputs run_id svc r).1.store
  locked-Within svc (raise e, h) new w = w
  locked-Within svc (ok key, h) new w =
      leave-Within (some key) (record svc { holders = h })
        (reserve d tenant_id wf inputs run_id svc.store) (reserve-Reserves svc.store) new w

  -- A new run never takes a tenant over its quota: if no tenant has more active runs than its
  -- quota, none has after `_create` either, whether it succeeds, refuses or gives up on the lock,
  -- and with or without a lock and a queue. The id of the run is new.
  pub create-Within :
      (deadline : ℕ) (polls : List Poll) (svc : Service)
      → lookup run_id svc.store.runs ≡ none
      → Within reg svc.store
      → Within reg (create d tenant_id wf inputs run_id deadline polls svc).1.store
  unfolding create
  create-Within deadline polls svc new w =
      either (repos_refused d tenant_id wf inputs run_id) _ _ w (
        either d.has_lock _ _
          (locked-Within svc (acquire_tenant_lock tenant_id deadline polls svc.holders) new w)
          (leave-Within none svc (reserve d tenant_id wf inputs run_id svc.store)
            (reserve-Reserves svc.store) new w))
