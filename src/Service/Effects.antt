-- ===== src/Service/Effects.antt =====
-- What the commands on a run do to its row, the lock and the queue (agentflow/service.py).
use multi_agent_workflow.Prelude.{
  ℕ, String, Bool, true, false, ◌&&◌, Option, none, some, [], ◌∷◌, ◌++◌, ◌==◌, ◌≡◌, refl, ap, ◌∙◌,
  arith, if◌then◌else◌, Result, ok, raise, node_failed, key_error, Bool-cases, Option-cases, inl,
  inr,
}
use multi_agent_workflow.Prelude.Dict.{lookup, lookup-insert_same}
use multi_agent_workflow.StateStore.Rows.{RunStatus, running, paused, Run}
use multi_agent_workflow.StateStore.Memory.{
  Store, update_run, cas_update_run_status, status_is, or_blank,
}
use multi_agent_workflow.Queue.{topic_command, publish, or_empty}
use multi_agent_workflow.Queue.Fifo.{waiting}
use multi_agent_workflow.Lock.{Holders, held, is_locked}
use multi_agent_workflow.Executor.State.{Executor, request_pause}
use multi_agent_workflow.Executor.Environment.{Environment}
use multi_agent_workflow.Executor.Run.{RunOutcome, run}
use multi_agent_workflow.Executor.Frame.Waves.{run_from-Quiet}
use multi_agent_workflow.Worker.{Moment, Job, run_exec_lease_key}
use multi_agent_workflow.Service.State.{
  Deployment, Service, run_context, known_row, owned_row, tenant_of, persisted, run_and_persist,
  executor_alive,
}
use multi_agent_workflow.Service.Commands.{pause_run, pause_row, by_alive, pause_softly, command}

-- The status that is returned stands in the row; after an exception the row is as it was.
abbrev pub Row : String → Store → Result RunStatus → Store → Type 0
Row run_id s (ok status) s' =
    lookup run_id s'.runs ≡ some (record (or_blank (lookup run_id s.runs)) { status = some status })
Row run_id s (raise e) s' = lookup run_id s'.runs ≡ lookup run_id s.runs

module _ (run_id : String) (job : Job) (svc : Service) where
  persisted-Row :
      (r : Result RunOutcome × Executor)
      → r.1.store.runs ≡ svc.store.runs
      → Row run_id svc.store (persisted run_id job r svc).0 (persisted run_id job r svc).1.store
  unfolding update_run
  persisted-Row (ok o, s) e = lookup-insert_same run_id _ s.store.runs ∙ rw e refl
  persisted-Row (raise (node_failed nid), s) e =
      lookup-insert_same run_id _ s.store.runs ∙ rw e refl
  persisted-Row (raise x, s) e = ap (lookup run_id) e

  -- When the caller of `_run_and_persist` gets a status back, the row of the run has that status
  -- and is otherwise as it was; this includes `failed` after a node that failed. When it gets an
  -- exception, the row is as it was before the run.
  pub run_and_persist-Row :
      (env : Environment)
      → Row run_id svc.store
          (run_and_persist env run_id job svc).0
          (run_and_persist env run_id job svc).1.store
  unfolding run_and_persist run
  run_and_persist-Row env =
      persisted-Row (run env job.config (record job.executor { store = svc.store }))
        (run_from-Quiet env job.config _ (record job.executor { store = svc.store })).runs

known_row-row :
    (run_id tenant_id tenant : String) (o : Option Run) (run : Run)
    → known_row run_id tenant_id o ≡ ok (run, tenant)
    → o ≡ some run
known_row-row run_id tenant_id tenant none run e = cc
known_row-row run_id tenant_id tenant (some r) run e = cc

owned_row-row :
    (run_id tenant : String) (o : Option Run) (run : Run)
    → owned_row run_id o ≡ ok (run, tenant)
    → o ≡ some run
owned_row-row run_id tenant none run e = cc
owned_row-row run_id tenant (some r) run e = by r.tenant_id e
  where
    by :
        (o : Option String)
        → elim o as (λ _. Result (Run × String)) [
          | none ↦ raise (key_error "tenant_id")
          | some t ↦ ok (r, t)
        ]
          ≡ ok (run, tenant)
        → some r ≡ some run
    by none f = cc
    by (some t) f = cc

-- The row of the run context is that of the store.
pub run_context-row :
    (run_id tenant_id tenant : String) (svc : Service) (run : Run)
    → run_context run_id tenant_id svc ≡ ok (run, tenant)
    → lookup run_id svc.store.runs ≡ some run
unfolding run_context
run_context-row run_id tenant_id tenant svc run e =
    by (tenant_of tenant_id (lookup run_id svc.executors) == "") e
  where
    by :
        (b : Bool)
        → (if b
            then owned_row run_id (lookup run_id svc.store.runs)
            else known_row run_id
                (tenant_of tenant_id (lookup run_id svc.executors))
                (lookup run_id svc.store.runs))
          ≡ ok (run, tenant)
        → lookup run_id svc.store.runs ≡ some run
    by true f = owned_row-row run_id tenant (lookup run_id svc.store.runs) run f
    by false f = known_row-row run_id _ tenant (lookup run_id svc.store.runs) run f

is_locked-held :
    (key : String) (now : ℕ) (h : Holders)
    → (is_locked key now h).1 ≡ false
    → held (lookup key h) now ≡ false
unfolding is_locked
is_locked-held key now h e = ground (arith, e)

module _ (d : Deployment) (m : Moment) (run_id : String) (svc : Service) where
  -- What a forced pause says: nobody holds the lease of the run, and the row went from `running` to
  -- `paused`; an ordinary pause writes nothing to the store.
  pub record Forced (after : Service) : Type 0 where
    pub row : Run
    pub before : lookup run_id svc.store.runs ≡ some row
    pub was : row.status ≡ some running
    pub now : lookup run_id after.store.runs ≡ some (record row { status = some paused })
    pub topics : after.topics ≡ svc.topics
    pub lock : (d.has_lock && m.reachable) ≡ true
    pub unheld : held (lookup (run_exec_lease_key run_id) svc.holders) m.now ≡ false

  -- With a queue, the last message on the topic of the tenant's commands asks for the pause;
  -- without one, the executor of the run is told to pause, if there is one.
  abbrev pub Requested : Bool → String → Service → Type 0
  Requested true tenant after =
      (waiting (topic_command tenant) after.topics
        ≡ waiting (topic_command tenant) svc.topics
          ++ (run_id, record { type = "pause"; run_id = run_id; tenant_id = tenant }) ∷ [])
      × (after.executors ≡ svc.executors)
  Requested false tenant after = (after.topics ≡ svc.topics) × elim (lookup run_id svc.executors) [
    | none ↦ after.executors ≡ svc.executors
    | some job ↦
        (told : Job) × (lookup run_id after.executors ≡ some told)
        × (told.config ≡ job.config)
        × (told.executor ≡ record job.executor { pause_requested = true })
  ]

  -- An ordinary pause of a run of the tenant writes nothing to the store.
  pub record Asked (tenant : String) (after : Service) : Type 0 where
    pub store : after.store ≡ svc.store
    pub requested : Requested d.has_queue tenant after

  abbrev pub Paused : String → Bool → Service → Type 0
  Paused tenant true after = Forced after
  Paused tenant false after = Asked tenant after

  pause_softly-Asked :
      (tenant : String) (h : Holders)
      → Asked tenant (pause_softly d run_id tenant (record svc { holders = h }))
  unfolding pause_softly command publish request_pause
  pause_softly-Asked tenant h = elim (Bool-cases d.has_queue) [
    | inl e ↦
        rw (e, pause_softly)
          (record {
            store = refl;
            requested =
                (ap or_empty (lookup-insert_same (topic_command tenant) _ svc.topics), refl);
          })
    | inr e ↦ elim (Option-cases (lookup run_id svc.executors)) [
      | inl f ↦ rw (e, f, pause_softly) (record { store = refl; requested = rw f (refl, refl) })
      | inr (job, f) ↦
          rw (e, f, pause_softly)
            (record {
              store = refl;
              requested = rw f (
                refl,
                (
                  record job { executor = request_pause job.executor },
                  lookup-insert_same run_id _ svc.executors,
                  refl,
                  refl,
                ),
              );
            })
    ]
  ]

  -- The lock was asked, and answered that nobody holds the lease.
  abbrev Known : Option Bool → Type 0
  Known alive =
      alive ≡ some false
      → ((d.has_lock && m.reachable) ≡ true)
        × (held (lookup (run_exec_lease_key run_id) svc.holders) m.now ≡ false)

  executor_alive-Known : Known (executor_alive d m run_id svc.holders).1
  unfolding executor_alive
  executor_alive-Known e = elim (Bool-cases (d.has_lock && m.reachable)) [
    | inr off ↦ let f : none ≡ some false = rw (off, executor_alive) at e in cc
    | inl on ↦
        let f : some (is_locked (run_exec_lease_key run_id) m.now svc.holders).1 ≡ some false =
          rw (on, executor_alive) at e in
        (on, is_locked-held (run_exec_lease_key run_id) m.now svc.holders (cc f))
  ]

  module _ (row : Run) (tenant : String) (before : lookup run_id svc.store.runs ≡ some row)
      (was : status_is running row.status ≡ true) where
    status_is-running : (o : Option RunStatus) → status_is running o ≡ true → o ≡ some running
    status_is-running none e = cc
    status_is-running (some st) e = ground (arith, e)

    by_alive-Paused :
        (x : Holders × Option Bool)
        → Known x.1
        → Paused tenant (by_alive d run_id tenant svc x).0 (by_alive d run_id tenant svc x).1
    unfolding cas_update_run_status
    by_alive-Paused (h, none) known = pause_softly-Asked tenant h
    by_alive-Paused (h, some true) known = pause_softly-Asked tenant h
    by_alive-Paused (h, some false) known =
        let (on, free) = known refl in
        rw (before, was, cas_update_run_status)
          (record {
            row = row;
            before = before;
            was = status_is-running row.status was;
            now = lookup-insert_same run_id _ svc.store.runs;
            topics = refl;
            lock = on;
            unheld = free;
          })

  -- Of an answer, if it is no exception: the run has a row.
  abbrev pub Answers : String → Result Bool × Service → Type 0
  Answers tenant_id (raise e, after) = after ≡ svc
  Answers tenant_id (ok b, after) =
      (row : Run) × (tenant : String) × (run_context run_id tenant_id svc ≡ ok (row, tenant))
      × Paused tenant b after

  pause_row-Answers :
      (tenant_id : String) (r : Result (Run × String))
      → run_context run_id tenant_id svc ≡ r
      → Answers tenant_id (pause_row d m run_id svc r)
  pause_row-Answers tenant_id (raise x) e = refl
  pause_row-Answers tenant_id (ok (run, tenant)) e =
      elim (Bool-cases (status_is running run.status)) [
        | inl was ↦ rw was (
          run,
          tenant,
          e,
          by_alive-Paused run tenant (run_context-row run_id tenant_id tenant svc run e) was
              (executor_alive d m run_id svc.holders) executor_alive-Known,
        )
        | inr other ↦ rw other (run, tenant, e, pause_softly-Asked tenant svc.holders)
      ]

  -- A pause is forced only where the lock answers that nobody holds the lease of the run, and only
  -- on a run whose row says `running`: then the row says `paused` and nothing is put on the queue.
  -- Where the lease is held, or where the service has no lock or the lock does not answer, the
  -- store is as it was and the pause is asked for: with a queue, by a message that is put last on
  -- the topic of the tenant's commands; without one, the executor of the run in this process is
  -- told to pause, if there is one. An exception leaves the service as it was.
  pub pause_run-Answers :
      (tenant_id : String) → Answers tenant_id (pause_run d m run_id tenant_id svc)
  unfolding pause_run
  pause_run-Answers tenant_id = pause_row-Answers tenant_id (run_context run_id tenant_id svc) refl
