-- ===== src/Worker/System/Single.antt =====
-- Who executes a run, in a system of several workers.
use multi_agent_workflow.Prelude.{
  String, Bool, true, false, ◌==◌, ◌≡◌, refl, ap, subst, ◌∙◌, arith, eq_iff, is_some, Bool-cases,
  inl, inr, Result,
}
use multi_agent_workflow.Prelude.Dict.{lookup, lookup-insert_other}
use multi_agent_workflow.Json.{Fields}
use multi_agent_workflow.Core.Dag.{Dag}
use multi_agent_workflow.StateStore.Memory.{Store, create_run, update_run}
use multi_agent_workflow.StateStore.Rows.{queued, running, paused}
use multi_agent_workflow.Lock.{Holders}
use multi_agent_workflow.Executor.Environment.{Environment}
use multi_agent_workflow.Worker.{World}
use multi_agent_workflow.Worker.Claims.{
  taken, row_taken, Apart, update_run-Apart, cas_update_run_status-Apart,
}
use multi_agent_workflow.Worker.Effect.{Allowed, Touches-Allowed, Idle-Allowed, renew_lease-Idle}
use multi_agent_workflow.Worker.Handlers.{
  advance-Touches, handle_trigger-Allowed, handle_command-Allowed,
}
use multi_agent_workflow.Worker.System.{
  System, idle, view, change, put_back, executes, Step, triggers, commands, turns, renews, crashes,
  creates, pauses, writes, Reach, start, later,
}

-- A run is executed by one worker at most, and the row of a run that is executed says `running` or
-- `cancelled`.
pub record Single (sys : System) : Type 0 where
  pub one :
      (j k run_id : String) → executes sys j run_id ≡ true → executes sys k run_id ≡ true → j ≡ k
  pub rows : (k run_id : String) → executes sys k run_id ≡ true → taken sys.store run_id ≡ true

-- The other workers keep their tasks.
executes-put_back :
    (k j run_id : String) (w : World) (sys : System)
    → (k == j) ≡ false
    → executes (put_back k w sys) j run_id ≡ executes sys j run_id
executes-put_back k j run_id w sys other = rw other refl

executes-own :
    (k j run_id : String) (w : World) (sys : System)
    → (k == j) ≡ true
    → executes (put_back k w sys) j run_id ≡ is_some (lookup run_id w.worker.tasks)
executes-own k j run_id w sys same = rw same refl

module _ (k : String) (w : World) (sys : System) (h : Single sys) (a : Allowed (view k sys) w) where
  abbrev after : System
  after = put_back k w sys

  -- Of the runs that the worker executes after its step: it did before, or nobody did.
  put_back-one :
      (i j run_id : String)
      → executes after i run_id ≡ true
      → executes after j run_id ≡ true
      → i ≡ j
  put_back-one i j run_id x y = ground (
    arith,
    a.at run_id,
    h.one i j run_id,
    h.one k i run_id,
    h.one k j run_id,
    h.rows i run_id,
    h.rows j run_id,
    h.rows k run_id,
    eq_iff k i,
    eq_iff k j,
    x,
    y,
  )

  put_back-rows : (j run_id : String) → executes after j run_id ≡ true → taken w.store run_id ≡ true
  put_back-rows j run_id x =
      ground (arith, a.at run_id, h.one k j run_id, h.rows j run_id, h.rows k run_id, eq_iff k j, x)

  put_back-Single : Single after
  put_back-Single = record { one = put_back-one; rows = put_back-rows }

-- A step that changes no worker, and the rows of runs that nobody executes only.
store-Single :
    (sys : System) (run_id : String) (store : Store)
    → Single sys
    → ((k : String) → executes sys k run_id ≡ false)
    → Apart run_id sys.store store
    → Single (record sys { store = store })
store-Single sys run_id store h nobody apart = record {
  one = h.one;
  rows = λ k r x. elim (Bool-cases (run_id == r)) [
    | inl same ↦
        let e : executes sys k r ≡ false =
          subst (λ i. executes sys k i ≡ false) ((eq_iff run_id r).0 same) (nobody k) in
        cc
    | inr other ↦ ap row_taken (apart r other) ∙ h.rows k r x
  ];
}

crash-Single :
    (sys : System) (k : String)
    → Single sys
    → Single (record sys { workers = change sys.workers k idle })
unfolding lookup
crash-Single sys k h = record {
  one = λ i j run_id x y. h.one i j run_id (lives i run_id x) (lives j run_id y);
  rows = λ i run_id x. h.rows i run_id (lives i run_id x);
}
  where
    lives :
        (i run_id : String)
        → executes (record sys { workers = change sys.workers k idle }) i run_id ≡ true
        → executes sys i run_id ≡ true
    lives i run_id x = elim (Bool-cases (k == i)) [
      | inl same ↦ let e : false ≡ true = rw same at x in cc
      | inr other ↦ rw other at x
    ]

create-Apart :
    (run_id tenant_id snapshot_id : String) (inputs : Fields) (s : Store)
    → Apart run_id s (update_run run_id queued (create_run run_id tenant_id snapshot_id inputs s))
unfolding create_run
create-Apart run_id tenant_id snapshot_id inputs s k other =
    update_run-Apart run_id queued (create_run run_id tenant_id snapshot_id inputs s) k other
    ∙ lookup-insert_other run_id k _ s.runs other

module _ (has_lock : Bool) (load : String → Result Dag) (env : Environment) where
  Step-Single : {sys sys' : System} → Step has_lock load env sys sys' → Single sys → Single sys'
  Step-Single {sys} (triggers k m msg) h =
      put_back-Single k _ sys h (handle_trigger-Allowed has_lock load m msg (view k sys))
  Step-Single {sys} (commands k m msg) h =
      put_back-Single k _ sys h (handle_command-Allowed has_lock load m msg (view k sys))
  Step-Single {sys} (turns k m run_id) h =
      put_back-Single k _ sys h
        (Touches-Allowed run_id (view k sys) _ (advance-Touches has_lock m run_id env (view k sys)))
  Step-Single {sys} (renews k m run_id) h =
      put_back-Single k _ sys h
        (Idle-Allowed (view k sys) _ (renew_lease-Idle has_lock m run_id (view k sys)))
  Step-Single {sys} (crashes k) h = crash-Single sys k h
  Step-Single {sys} (creates run_id tenant_id snapshot_id inputs new) h =
      store-Single sys run_id _ h (λ k. ground (arith, h.rows k run_id, new))
        (create-Apart run_id tenant_id snapshot_id inputs sys.store)
  Step-Single {sys} (pauses run_id nobody) h =
      store-Single sys run_id _ h (λ k. ap is_some (nobody k))
        (cas_update_run_status-Apart run_id running paused sys.store)
  Step-Single (writes store same) h = record {
    one = h.one;
    rows = λ k run_id x. ap (λ runs. row_taken (lookup run_id runs)) same ∙ h.rows k run_id x;
  }

  start-Single :
      (s : Store) (hs : Holders) → Single (record { workers = λ _. idle; store = s; holders = hs })
  unfolding lookup
  start-Single s hs = record { one = λ j k r x y. cc; rows = λ k r x. cc }

  Reach-Single :
      {s : Store} {hs : Holders} {sys : System} → Reach has_lock load env s hs sys → Single sys
  Reach-Single {s} {hs} start = start-Single s hs
  Reach-Single (later r st) = Step-Single st (Reach-Single r)

  -- In every system of workers that can come about, whatever messages are delivered, in whatever
  -- order and however often, whichever worker crashes, and with or without a lock, a run is
  -- executed by one worker at most, and its row says `running` or `cancelled` while it is executed.
  -- The forced pause of the service is used on a run only that no worker executes.
  pub executes-Single :
      (s : Store) (hs : Holders) (sys : System) (j k run_id : String)
      → Reach has_lock load env s hs sys
      → executes sys j run_id ≡ true
      → executes sys k run_id ≡ true
      → (j ≡ k) × (taken sys.store run_id ≡ true)
  executes-Single s hs sys j k run_id r x y =
      let h = Reach-Single r in (h.one j k run_id x y, h.rows j run_id x)
