-- ===== src/Worker/Handlers.antt =====
-- The handlers of a worker and the turns of its tasks, as steps on its tasks and on the rows.
use multi_agent_workflow.Prelude.{
  String, Bool, true, false, ◌||◌, Option, none, some, List, [], ◌∷◌, ◌==◌, ◌≡◌, ◌⊎◌, refl, ap, ◌∙◌,
  All, arith, eq_refl, is_some, if◌then◌else◌, Bool-cases, Option-cases, inl, inr, Result, ok,
  raise, key_error,
}
use multi_agent_workflow.Prelude.Dict.{
  lookup, remove, lookup-insert_same, lookup-insert_other, lookup-remove,
}
use multi_agent_workflow.Core.Dag.{Dag}
use multi_agent_workflow.StateStore.Rows.{RunStatus, queued, paused, waiting_approval, Run}
use multi_agent_workflow.StateStore.Rows as Rows
use multi_agent_workflow.StateStore.Memory.{Store}
use multi_agent_workflow.Executor.State.{Config, Executor}
use multi_agent_workflow.Executor.Environment.{Environment}
use multi_agent_workflow.Executor.Run.{RunOutcome}
use multi_agent_workflow.Executor.Resume.{resume_executor}
use multi_agent_workflow.Executor.Frame.Waves.{loop_once-Quiet}
use multi_agent_workflow.Worker.{
  World, Moment, Message, Job, claim_lease, finish_task, release_lease, written, after_turn,
  advance, cmd_pause, cancel_task, started, claimed, take_row, take_up, handle_trigger, cmd_resume,
  cancel_restored, mark_cancelled, cmd_stop, handle_command, cas_from, write_outcome, is_over,
  cancel_nodes,
}
use multi_agent_workflow.Worker.Claims.{
  taken, is_taken, Won, Claims, cas_from-Claims, Apart, update_run-Apart, update_run-taken,
  cancel_nodes-runs,
}
use multi_agent_workflow.Worker.Effect.{
  busy, allowed_refl, Touches, Touches-Allowed, unchanged, Idle, Idle-Allowed, Allowed,
  Allowed-trans, claim_lease-Idle,
}

module _ (has_lock : Bool) (load : String → Result Dag) (m : Moment) (run_id : String) where
  started-Touches :
      (w : World) (s : Store)
      → lookup run_id w.worker.tasks ≡ none
      → Won run_id w.store s
      → (r : Result (Config × Executor))
      → Touches run_id w (started has_lock load m run_id (record w { store = s }) r).1
  started-Touches w s idle won (raise e) = record {
    tasks = λ k h. refl;
    rows = won.others;
    own = ground (arith, idle, won.free, won.held);
  }
  started-Touches w s idle won (ok (c, ex)) =
      let leased = claim_lease-Idle has_lock m run_id (record w { store = s }) in
      record {
        tasks = λ k h. lookup-insert_other run_id k _ _ h ∙ ap (lookup k) leased.tasks;
        rows = λ k h. ap (lookup k) leased.runs ∙ won.others k h;
        own =
            rw
              (
                lookup-insert_same run_id false
                    (claim_lease has_lock m run_id (record w { store = s })).worker.tasks,
                leased.runs,
                idle,
                won.free,
                won.held,
              )
              refl;
      }

  claimed-Touches :
      (tenant : String) (w : World)
      → lookup run_id w.worker.tasks ≡ none
      → (r : Store × Bool) → Claims run_id w.store r
      → Touches run_id w (claimed has_lock load m run_id tenant r w).1
  claimed-Touches tenant w idle (s, false) h = unchanged run_id w
  claimed-Touches tenant w idle (s, true) (inl e) = cc
  claimed-Touches tenant w idle (s, true) (inr won) =
      started-Touches w s idle won.1 (resume_executor load run_id tenant s)

  module _ (froms : List RunStatus) (free : All (λ from. is_taken from ≡ false) froms) where
    take_row-Touches :
        (w : World)
        → lookup run_id w.worker.tasks ≡ none
        → (o : Option Run) → Touches run_id w (take_row has_lock load froms m run_id w o).1
    take_row-Touches w idle none = unchanged run_id w
    take_row-Touches w idle (some run) = elim (Bool-cases (is_over run.status)) [
      | inl e ↦ rw e (unchanged run_id w)
      | inr e ↦ rw e (by run.tenant_id)
    ]
      where
        by :
            (o : Option String)
            → Touches run_id w
                (elim o as (λ _. Result (Unit {0}) × World) [
                  | none ↦ (raise (key_error "tenant_id"), w)
                  | some tenant ↦
                      claimed has_lock load m run_id tenant (cas_from froms run_id w.store) w
                ]).1
        by none = unchanged run_id w
        by (some tenant) =
            claimed-Touches tenant w idle _ (cas_from-Claims run_id froms w.store free)

    take_up-Touches : (w : World) → Touches run_id w (take_up has_lock load froms m run_id w).1
    unfolding take_up
    take_up-Touches w = elim (Option-cases (lookup run_id w.worker.tasks)) [
      | inl e ↦ rw (e, take_up) (take_row-Touches w e (lookup run_id w.store.runs))
      | inr (begun, e) ↦ rw (e, take_up) (unchanged run_id w)
    ]

module _ (has_lock : Bool) (m : Moment) (run_id : String) where
  cmd_pause-Idle : (w : World) → Idle w (cmd_pause run_id w)
  unfolding cmd_pause
  cmd_pause-Idle w = elim (Option-cases (lookup run_id w.worker.executors)) [
    | inl e ↦ rw (e, cmd_pause) (record { tasks = refl; runs = refl; store = refl })
    | inr (job, e) ↦ rw (e, cmd_pause) (record { tasks = refl; runs = refl; store = refl })
  ]

  -- The task of the run is gone, and the row may be another one.
  gives_back :
      (w w' : World)
      → busy w run_id ≡ true
      → w'.worker.tasks ≡ remove run_id w.worker.tasks
      → Apart run_id w.store w'.store
      → Touches run_id w w'
  gives_back w w' was gone rows = record {
    tasks = λ k other. rw gone (ground (arith, other, lookup-remove run_id k w.worker.tasks));
    rows = rows;
    own =
        let e : lookup run_id w'.worker.tasks ≡ none =
          rw gone (ground (arith, lookup-remove run_id run_id w.worker.tasks, eq_refl run_id)) in
        ground (arith, e, was);
  }

  cancel_task-Touches : (w : World) → Touches run_id w (cancel_task has_lock m run_id w)
  unfolding cancel_task finish_task release_lease
  cancel_task-Touches w = elim (Option-cases (lookup run_id w.worker.tasks)) [
    | inl e ↦ rw (e, cancel_task) (unchanged run_id w)
    | inr (true, e) ↦ rw (e, cancel_task) (gives_back w _ (ap is_some e) refl (λ k _. refl))
    | inr (false, e) ↦ rw (e, cancel_task) (gives_back w _ (ap is_some e) refl (λ k _. refl))
  ]

  write_outcome-Apart :
      (o : Option RunStatus) (w : World)
      → (Apart run_id w.store (write_outcome run_id o w).store)
        × ((write_outcome run_id o w).worker ≡ w.worker)
  write_outcome-Apart none w = ((λ k _. refl), refl)
  write_outcome-Apart (some status) w = (update_run-Apart run_id status w.store, refl)

  ended-Touches :
      (s : Executor) (w : World)
      → busy w run_id ≡ true
      → s.store.runs ≡ w.store.runs
      → (o : Option RunStatus)
      → Touches run_id w
          (write_outcome run_id o (finish_task has_lock m run_id (record w { store = s.store })))
  unfolding finish_task release_lease
  ended-Touches s w was same o =
      let (rows, worker) =
        write_outcome-Apart o (finish_task has_lock m run_id (record w { store = s.store })) in
      gives_back w _ was (ap (λ x. x.tasks) worker) λ k other. rows k other ∙ ap (lookup k) same

  after_turn-Touches :
      (job : Job) (w : World)
      → busy w run_id ≡ true
      → (r : Result (Option RunOutcome) × Executor) → r.1.store.runs ≡ w.store.runs
      → Touches run_id w (after_turn has_lock m run_id job r w)
  after_turn-Touches job w was (ok none, s) same = record {
    tasks = λ k. lookup-insert_other run_id k true w.worker.tasks;
    rows = λ k _. ap (lookup k) same;
    own = rw (was, lookup-insert_same run_id true w.worker.tasks, same) (ground arith);
  }
  after_turn-Touches job w was (ok (some o), s) same = ended-Touches s w was same (written (ok o))
  after_turn-Touches job w was (raise e, s) same = ended-Touches s w was same (written (raise e))

  pub advance-Touches :
      (env : Environment) (w : World) → Touches run_id w (advance has_lock env m run_id w)
  unfolding advance
  advance-Touches env w = elim (Option-cases (lookup run_id w.worker.tasks)) [
    | inl e ↦ rw (e, advance) (unchanged run_id w)
    | inr (begun, e) ↦ elim (Option-cases (lookup run_id w.worker.executors)) [
      | inl f ↦ rw (e, f, advance) (unchanged run_id w)
      | inr (job, f) ↦
          rw (e, f, advance)
            (after_turn-Touches job w (ap is_some e) _
              (loop_once-Quiet env job.config (record job.executor { store = w.store })).runs)
    ]
  ]

-- What a cancellation writes to the rows: nothing, or `cancelled` in the row of the run.
abbrev Cancels : String → Store → Store → Type 0
Cancels run_id s s' = (s'.runs ≡ s.runs) ⊎ (taken s' run_id ≡ true) × Apart run_id s s'

module _ (has_lock : Bool) (load : String → Result Dag) where
  cancel_restored-Cancels :
      (run_id tenant : String) (s : Store) (r : Result (Config × Executor))
      → Cancels run_id s (cancel_restored has_lock load run_id tenant s r).1
  cancel_restored-Cancels run_id tenant s (raise e) = inl refl
  cancel_restored-Cancels run_id tenant s (ok (c, ex)) =
      let s' = cancel_nodes run_id tenant ex.states s in
      inr (
        update_run-taken run_id Rows.cancelled s',
        λ k other.
            update_run-Apart run_id Rows.cancelled s' k other
            ∙ ap (lookup k) (cancel_nodes-runs run_id tenant ex.states s),
      )

  mark_cancelled-Cancels :
      (run_id : String) (s : Store) → Cancels run_id s (mark_cancelled has_lock load run_id s).1
  unfolding mark_cancelled
  mark_cancelled-Cancels run_id s = elim (Option-cases (lookup run_id s.runs)) [
    | inl e ↦ rw (e, mark_cancelled) (inl refl)
    | inr (run, e) ↦ elim (Option-cases run.tenant_id) [
      | inl f ↦ rw (e, f, mark_cancelled) (inl refl)
      | inr (tenant, f) ↦
          rw (e, f, mark_cancelled)
            (cancel_restored-Cancels run_id tenant s (resume_executor load run_id tenant s))
    ]
  ]

  Cancels-Touches :
      (run_id : String) (w : World) (s : Store)
      → Cancels run_id w.store s
      → Touches run_id w (record w { store = s })
  Cancels-Touches run_id w s (inl e) = record {
    tasks = λ k _. refl;
    rows = λ k _. ap (lookup k) e;
    own = rw e (allowed_refl (busy w run_id) (taken w.store run_id));
  }
  Cancels-Touches run_id w s (inr h) = record {
    tasks = λ k _. refl;
    rows = h.1;
    own = ground (arith, h.0);
  }

  module _ (m : Moment) where
    cmd_stop-Allowed :
        (run_id : String) (w : World) → Allowed w (cmd_stop has_lock load m run_id w).1
    unfolding cmd_stop
    cmd_stop-Allowed run_id w =
        let stopped = cancel_task has_lock m run_id w in
        Allowed-trans w stopped _
          (Touches-Allowed run_id w stopped (cancel_task-Touches has_lock m run_id w))
          (Touches-Allowed run_id stopped _
            (Cancels-Touches run_id stopped _ (mark_cancelled-Cancels run_id stopped.store)))

    cmd_resume-Allowed :
        (run_id : String) (w : World) → Allowed w (cmd_resume has_lock load m run_id w).1
    unfolding cmd_resume
    cmd_resume-Allowed run_id w = Touches-Allowed run_id w _ (
        take_up-Touches has_lock load m run_id (paused ∷ waiting_approval ∷ []) (refl, (refl, tt))
          w)

    pub handle_trigger-Allowed :
        (msg : Message) (w : World) → Allowed w (handle_trigger has_lock load m msg w).1
    unfolding handle_trigger
    handle_trigger-Allowed msg w = elim (Bool-cases (msg.run_id == "")) [
      | inl e ↦ rw (e, handle_trigger) (Touches-Allowed msg.run_id w w (unchanged msg.run_id w))
      | inr e ↦
          rw (e, handle_trigger)
            (Touches-Allowed msg.run_id w _
              (take_up-Touches has_lock load m msg.run_id (queued ∷ []) (refl, tt) w))
    ]

    by_type :
        (run_id : String) (w : World) (resumes pauses stops : Bool)
        → Allowed w
            (if resumes
              then cmd_resume has_lock load m run_id w
              else if pauses
              then (ok tt, cmd_pause run_id w)
              else if stops
              then cmd_stop has_lock load m run_id w
              else (ok tt, w)).1
    by_type run_id w true pauses stops = cmd_resume-Allowed run_id w
    by_type run_id w false true stops = Idle-Allowed w _ (cmd_pause-Idle has_lock m run_id w)
    by_type run_id w false false true = cmd_stop-Allowed run_id w
    by_type run_id w false false false = Touches-Allowed run_id w w (unchanged run_id w)

    pub handle_command-Allowed :
        (msg : Message) (w : World) → Allowed w (handle_command has_lock load m msg w).1
    unfolding handle_command
    handle_command-Allowed msg w = elim (Bool-cases (msg.run_id == "" || msg.type == "")) [
      | inl e ↦ rw (e, handle_command) (Touches-Allowed msg.run_id w w (unchanged msg.run_id w))
      | inr e ↦
          rw (e, handle_command)
            (by_type msg.run_id w (msg.type == "resume") (msg.type == "pause") (msg.type == "stop"))
    ]
