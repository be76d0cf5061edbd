-- ===== src/Worker/Ends.antt =====
-- The tasks of a worker from their start to their end (`_execute`).
use multi_agent_workflow.Prelude.{
  ℕ, zero, suc, String, Bool, true, false, ◌&&◌, Option, none, some, length, ◌≡◌, refl, sym, ap,
  subst, ◌∙◌, arith, eq_refl, Result, ok, raise,
}
use multi_agent_workflow.Prelude.Dict.{Dict, lookup, remove, lookup-insert_same, lookup-remove}
use multi_agent_workflow.Core.Dag.{Dag}
use multi_agent_workflow.StateStore.Rows.{RunStatus}
use multi_agent_workflow.StateStore.Memory.{Store, update_run, run_nodes}
use multi_agent_workflow.Lock.{release}
use multi_agent_workflow.Executor.State.{Config, Executor, continue}
use multi_agent_workflow.Executor.Environment.{Environment}
use multi_agent_workflow.Executor.Ensures.{Ensures}
use multi_agent_workflow.Executor.Run.{RunOutcome, run_from, run}
use multi_agent_workflow.Executor.Run.Once.{loop_once, or_again, run_from-loop_once}
use multi_agent_workflow.Executor.Run.Ends.{Ended}
use multi_agent_workflow.Executor.Resume.{resume_executor}
use multi_agent_workflow.Executor.Resume.Restores.{InGraph, from_checkpoint-store}
use multi_agent_workflow.Executor.Resume.Loaded.{
  Loads, resume_executor-Ended, resume_executor-Restores,
}
use multi_agent_workflow.Worker.{
  World, Moment, Job, run_exec_lease_key, written, write_outcome, finish_task, release_lease,
  after_turn, advance,
}

module _ (has_lock : Bool) (env : Environment) (m : Moment) (run_id : String) where
  -- A worker that is left alone with the task of a run.
  unfoldable pub advance_all : ℕ → World → World
  advance_all zero w = w
  advance_all (suc n) w = advance_all n (advance has_lock env m run_id w)

  -- The worker has given the run back, and has written its outcome.
  pub record GivenBack (o : Option RunStatus) (s : Store) (w : World) : Type 0 where
    pub task : lookup run_id w.worker.tasks ≡ none
    pub executor : lookup run_id w.worker.executors ≡ none
    pub lease_task : lookup run_id w.worker.lease_tasks ≡ none
    pub lease :
        (has_lock && m.reachable) ≡ true → lookup (run_exec_lease_key run_id) w.holders ≡ none
    pub store : w.store ≡ (elim o [ none ↦ s | some status ↦ update_run run_id status s ])

  gone : {V : Type 0} (k : String) (d : Dict V) → lookup k (remove k d) ≡ none
  gone k d = ground (arith, lookup-remove k k d, eq_refl k)

  finish_task-GivenBack :
      (w : World) (s : Store) (o : Option RunStatus)
      → GivenBack o s
          (write_outcome run_id o (finish_task has_lock m run_id (record w { store = s })))
  unfolding finish_task release_lease release
  finish_task-GivenBack w s none = record {
    task = gone run_id w.worker.tasks;
    executor = gone run_id w.worker.executors;
    lease_task = gone run_id w.worker.lease_tasks;
    lease = λ e. rw e (gone (run_exec_lease_key run_id) w.holders);
    store = refl;
  }
  finish_task-GivenBack w s (some status) = record {
    task = gone run_id w.worker.tasks;
    executor = gone run_id w.worker.executors;
    lease_task = gone run_id w.worker.lease_tasks;
    lease = λ e. rw e (gone (run_exec_lease_key run_id) w.holders);
    store = refl;
  }

  advance_all-idle : (n : ℕ) (w : World) → lookup run_id w.worker.tasks ≡ none → advance_all n w ≡ w
  unfolding advance_all advance
  advance_all-idle zero w e = refl
  advance_all-idle (suc n) w e =
      let same : advance has_lock env m run_id w ≡ w = rw (e, advance) refl in
      ap (advance_all n) same ∙ advance_all-idle n w e

  -- What the worker has after the turns, given how the run ends.
  abbrev After : Result RunOutcome × Executor → World → Type 0
  After r w = GivenBack (written r.0) r.1.store w

  -- The run ends within its fuel.
  abbrev Finishes : Result RunOutcome × Executor → Type 0
  Finishes r = Ensures (λ _ _. Unit) r

  -- That a worker with the task does what the loop does, with some fuel.
  abbrev Follows : ℕ → Type 0
  Follows fuel =
      (w : World) (begun : Bool) (job : Job)
      → lookup run_id w.worker.tasks ≡ some begun
      → lookup run_id w.worker.executors ≡ some job
      → Finishes (run_from env job.config fuel (record job.executor { store = w.store }))
      → After (run_from env job.config fuel (record job.executor { store = w.store }))
          (advance_all fuel w)

  ended-After :
      (fuel : ℕ) (w : World) (o : Option RunStatus) (s : Store)
      → GivenBack o s (
          advance_all fuel
            (write_outcome run_id o (finish_task has_lock m run_id (record w { store = s }))))
  ended-After fuel w o s =
      let h = finish_task-GivenBack w s o in
      subst (GivenBack o s) (sym (advance_all-idle fuel _ h.task)) h

  after_turn-After :
      (fuel : ℕ) (w : World) (job : Job)
      → Follows fuel
      → (x : Result (Option RunOutcome) × Executor)
      → Finishes (continue (or_again (run_from env job.config fuel)) x)
      → After
          (continue (or_again (run_from env job.config fuel)) x)
          (advance_all fuel (after_turn has_lock m run_id job x w))
  after_turn-After fuel w job follows (ok none, t) h =
      follows (after_turn has_lock m run_id job (ok none, t) w) true (record job { executor = t })
        (lookup-insert_same run_id true w.worker.tasks)
        (lookup-insert_same run_id (record job { executor = t }) w.worker.executors) h
  after_turn-After fuel w job follows (ok (some o), t) h =
      ended-After fuel w (written (ok o)) t.store
  after_turn-After fuel w job follows (raise e, t) h =
      ended-After fuel w (written (raise e)) t.store

  run_from-Follows : (fuel : ℕ) → Follows fuel
  unfolding run_from advance_all advance
  run_from-Follows zero w begun job task ex h = absurd h
  run_from-Follows (suc fuel) w begun job task ex h =
      let s = record job.executor { store = w.store } in
      let e = run_from-loop_once env job.config fuel s in
      let turned : advance has_lock env m run_id w
          ≡ after_turn has_lock m run_id job (loop_once env job.config s) w =
        rw (task, ex, advance) refl in
      let r = continue (or_again (run_from env job.config fuel)) (loop_once env job.config s) in
      subst (λ x. After x (advance_all fuel (advance has_lock env m run_id w))) (sym e)
        (subst (λ x. After r (advance_all fuel x)) (sym turned)
          (after_turn-After fuel w job (run_from-Follows fuel) (loop_once env job.config s)
            (subst Finishes e h)))

  Ensures-Finishes :
      (P : RunOutcome → Executor → Type 0) (r : Result RunOutcome × Executor)
      → Ensures P r
      → Finishes r
  Ensures-Finishes P (ok o, s) h = tt
  Ensures-Finishes P (raise e, s) h = h

  -- A run that a worker has rebuilt from its snapshot and its checkpoints, and whose task has not
  -- begun, ends: after one turn more than the graph has nodes the worker has no task, executor or
  -- lease for it, the lock is free if the worker has one that answers, and the store is the one
  -- that `run` leaves, with the outcome in the row of the run: what `run` returns, `failed` if it
  -- raises for a failed node, and nothing for another exception, which is neither a missing key nor
  -- a stall. The loader gives accepted graphs only, and the checkpoints are of nodes of the graph.
  pub advance_all-GivenBack :
      (load : String → Result Dag) (tenant : String) (w : World) (c : Config) (s : Executor)
      → Loads load
      → resume_executor load run_id tenant w.store ≡ ok (c, s)
      → InGraph c (run_nodes c.run_id w.store)
      → lookup run_id w.worker.tasks ≡ some false
      → lookup run_id w.worker.executors ≡ some (record { config = c; executor = s })
      → Ensures (Ended env c) (run env c s)
        × GivenBack
            (written (run env c s).0)
            (run env c s).1.store
            (advance_all (suc (length c.nodes)) w)
  unfolding run
  advance_all-GivenBack load tenant w c s loads resumed known task ex =
      let ends = resume_executor-Ended load run_id tenant w.store env c s loads resumed known in
      let (back, _) = resume_executor-Restores load run_id tenant w.store c s resumed in
      let same : record s { store = w.store } ≡ s =
        subst (λ x. record x { store = w.store } ≡ x) (sym back)
          (from_checkpoint-store c w.store) in
      (
        ends,
        subst
            (λ x.
              After (run_from env c (suc (length c.nodes)) x)
                (advance_all (suc (length c.nodes)) w))
            same
            (run_from-Follows (suc (length c.nodes)) w false (record { config = c; executor = s })
              task ex
              (subst (λ x. Finishes (run_from env c (suc (length c.nodes)) x)) (sym same)
                (Ensures-Finishes (Ended env c) (run env c s) ends))),
      )
