-- ===== src/Worker/Repeats.antt =====
-- Messages that come again, and messages for runs that are over.
use multi_agent_workflow.Prelude.{
  String, Bool, true, false, Option, none, some, List, [], ◌∷◌, ◌==◌, ◌≡◌, ◌⊎◌, refl, sym, ap, ◌∙◌,
  All, is_some, Bool-cases, Option-cases, inl, inr, Result, ok, raise,
}
use multi_agent_workflow.Prelude.Dict.{lookup, lookup-insert_same}
use multi_agent_workflow.Core.Dag.{Dag}
use multi_agent_workflow.StateStore.Rows.{RunStatus, queued, Run}
use multi_agent_workflow.StateStore.Rows as Rows
use multi_agent_workflow.StateStore.Memory.{Store}
use multi_agent_workflow.Executor.State.{Config, Executor}
use multi_agent_workflow.Executor.Resume.{resume_executor}
use multi_agent_workflow.Worker.{
  World, Moment, Message, started, claimed, take_row, take_up, handle_trigger, cmd_resume,
  handle_command, cas_from, is_over,
}
use multi_agent_workflow.Worker.Claims.{taken, is_taken, Claims, cas_from-Claims}
use multi_agent_workflow.Worker.Effect.{busy}

module _ (has_lock : Bool) (load : String → Result Dag) (run_id : String) where
  take_up-busy :
      (froms : List RunStatus) (m : Moment) (w : World)
      → busy w run_id ≡ true
      → (take_up has_lock load froms m run_id w).1 ≡ w
  unfolding take_up
  take_up-busy froms m w b = rw (b, take_up) refl

  -- A step, given the moment at which it is made: it claims nothing at any moment, or the row is
  -- taken after it.
  abbrev Settled : World → (Moment → World) → Type 0
  Settled w after =
      ((m : Moment) → after m ≡ w)
      ⊎ ((m : Moment) → (busy (after m) run_id ≡ true) ⊎ (taken (after m).store run_id ≡ true))

  started-taken :
      (m : Moment) (w : World) (s : Store)
      → taken s run_id ≡ true
      → (r : Result (Config × Executor))
      → (busy (started has_lock load m run_id (record w { store = s }) r).1 run_id ≡ true)
        ⊎ (taken (started has_lock load m run_id (record w { store = s }) r).1.store run_id ≡ true)
  started-taken m w s held (raise e) = inr held
  started-taken m w s held (ok (c, ex)) = inl (ap is_some (lookup-insert_same run_id false _))

  claimed-Settled :
      (tenant : String) (w : World) (r : Store × Bool)
      → Claims run_id w.store r
      → Settled w (λ m. (claimed has_lock load m run_id tenant r w).1)
  claimed-Settled tenant w (s, false) h = inl (λ m. refl)
  claimed-Settled tenant w (s, true) (inl e) = cc
  claimed-Settled tenant w (s, true) (inr won) =
      inr (λ m. started-taken m w s won.1.held (resume_executor load run_id tenant s))

  -- A claim of a row that is taken is refused.
  claimed-taken :
      (m : Moment) (tenant : String) (w : World) (r : Store × Bool)
      → taken w.store run_id ≡ true
      → Claims run_id w.store r
      → (claimed has_lock load m run_id tenant r w).1 ≡ w
  claimed-taken m tenant w (s, false) t h = refl
  claimed-taken m tenant w (s, true) t (inl e) = cc
  claimed-taken m tenant w (s, true) t (inr won) = let f = won.1.free in cc

  module _ (froms : List RunStatus) (free : All (λ from. is_taken from ≡ false) froms) where
    -- `take_row` does nothing, or it makes the claim.
    take_row-cases :
        (P : (Moment → World) → Type 0) (w : World)
        → P (λ _. w)
        → ((tenant : String)
            → P (λ m. (claimed has_lock load m run_id tenant (cas_from froms run_id w.store) w).1))
        → (o : Option Run) → P (λ m. (take_row has_lock load froms m run_id w o).1)
    take_row-cases P w p claims none = p
    take_row-cases P w p claims (some run) = elim (Bool-cases (is_over run.status)) [
      | inl e ↦ rw e p
      | inr e ↦ elim (Option-cases run.tenant_id) [
        | inl f ↦ rw (e, f) p
        | inr (tenant, f) ↦ rw (e, f) (claims tenant)
      ]
    ]

    take_up-cases :
        (P : (Moment → World) → Type 0) (w : World)
        → P (λ _. w)
        → ((tenant : String)
            → P (λ m. (claimed has_lock load m run_id tenant (cas_from froms run_id w.store) w).1))
        → P (λ m. (take_up has_lock load froms m run_id w).1)
    unfolding take_up
    take_up-cases P w p claims = elim (Bool-cases (busy w run_id)) [
      | inl b ↦ rw (b, take_up) p
      | inr b ↦ rw (b, take_up) (take_row-cases P w p claims (lookup run_id w.store.runs))
    ]

    take_up-Settled : (w : World) → Settled w (λ m. (take_up has_lock load froms m run_id w).1)
    take_up-Settled w =
        take_up-cases (Settled w) w (inl (λ m. refl))
          λ tenant. claimed-Settled tenant w _ (cas_from-Claims run_id froms w.store free)

    take_up-taken :
        (m : Moment) (w : World)
        → taken w.store run_id ≡ true
        → (take_up has_lock load froms m run_id w).1 ≡ w
    take_up-taken m w t =
        take_up-cases (λ x. x m ≡ w) w refl
          λ tenant. claimed-taken m tenant w _ t (cas_from-Claims run_id froms w.store free)

    take_up-repeat :
        (m m' : Moment) (w : World)
        → (take_up has_lock load froms m' run_id (take_up has_lock load froms m run_id w).1).1
          ≡ (take_up has_lock load froms m run_id w).1
    take_up-repeat m m' w = by (take_up-Settled w)
      where
        once : World
        once = (take_up has_lock load froms m run_id w).1

        ignored :
            (busy once run_id ≡ true) ⊎ (taken once.store run_id ≡ true)
            → (take_up has_lock load froms m' run_id once).1 ≡ once
        ignored (inl b) = take_up-busy froms m' once b
        ignored (inr t) = take_up-taken m' once t

        by :
            Settled w (λ n. (take_up has_lock load froms n run_id w).1)
            → (take_up has_lock load froms m' run_id once).1 ≡ once
        by (inl e) = ap (λ x. (take_up has_lock load froms m' run_id x).1) (e m) ∙ e m' ∙ sym (e m)
        by (inr h) = ignored (h m)

  take_up-over :
      (froms : List RunStatus) (m : Moment) (w : World) (run : Run)
      → lookup run_id w.store.runs ≡ some run
      → is_over run.status ≡ true
      → (take_up has_lock load froms m run_id w).1 ≡ w
  unfolding take_up
  take_up-over froms m w run e over = elim (Bool-cases (busy w run_id)) [
    | inl b ↦ rw (b, take_up) refl
    | inr b ↦ rw (b, e, over, take_up) refl
  ]

-- A trigger message that a worker has handled changes nothing when it comes a second time, whatever
-- the first one did and also if it raised.
pub handle_trigger-repeat :
    (has_lock : Bool) (load : String → Result Dag) (m m' : Moment) (msg : Message) (w : World)
    → (handle_trigger has_lock load m' msg (handle_trigger has_lock load m msg w).1).1
      ≡ (handle_trigger has_lock load m msg w).1
unfolding handle_trigger
handle_trigger-repeat has_lock load m m' msg w = elim (Bool-cases (msg.run_id == "")) [
  | inl e ↦ rw (e, handle_trigger) refl
  | inr e ↦
      rw (e, handle_trigger)
        (take_up-repeat has_lock load msg.run_id (queued ∷ []) (refl, tt) m m' w)
]

-- The row says that the run is done, has failed or was cancelled.
abbrev pub Finished : Option RunStatus → Type 0
Finished status =
    (status ≡ some Rows.done) ⊎ (status ≡ some Rows.failed) ⊎ (status ≡ some Rows.cancelled)

Finished-is_over : (status : Option RunStatus) → Finished status → is_over status ≡ true
Finished-is_over status over = elim over [
  | inl e ↦ rw e refl
  | inr other ↦ elim other [ inl e ↦ rw e refl | inr e ↦ rw e refl ]
]

-- A run whose row says `done`, `failed` or `cancelled` is not taken up again: a trigger and a
-- resume message for it change neither the worker nor the store nor the lock.
pub handle_message-over :
    (has_lock : Bool) (load : String → Result Dag) (m : Moment) (msg : Message) (w : World)
    (run : Run)
    → lookup msg.run_id w.store.runs ≡ some run
    → Finished run.status
    → ((handle_trigger has_lock load m msg w).1 ≡ w)
      × ((handle_command has_lock load m (record msg { type = "resume" }) w).1 ≡ w)
unfolding handle_trigger handle_command cmd_resume
handle_message-over has_lock load m msg w run e over = elim (Bool-cases (msg.run_id == "")) [
  | inl empty ↦ rw (empty, handle_trigger, handle_command) (refl, refl)
  | inr named ↦
      rw (named, handle_trigger, handle_command, cmd_resume)
        (
          take_up-over has_lock load msg.run_id _ m w run e (Finished-is_over run.status over),
          take_up-over has_lock load msg.run_id _ m w run e (Finished-is_over run.status over),
        )
]
