-- ===== src/Executor/Run/Ends.antt =====
-- The end of the main loop (`DAGExecutor.run`).
use multi_agent_workflow.Prelude.{
  ℕ, zero, suc, ◌<◌, String, true, false, not, ◌&&◌, Option, none, some, List, [], ◌∷◌, ◌≡◌, refl,
  arith, All, All-map, All-zip, length, Result, ok, raise, Bool-cases, inl, inr,
}
use multi_agent_workflow.Prelude.Dict.{Entries-self, Unique}
use multi_agent_workflow.Executor.State.{Config, Executor, continue}
use multi_agent_workflow.Executor.Environment.{Environment}
use multi_agent_workflow.Executor.Ensures.{Gives, Ensures, Ensures-continue}
use multi_agent_workflow.Executor.Invariant.{Inv}
use multi_agent_workflow.Executor.Decision.{
  ready_nodes, has_waiting_approval, all_terminal, rejected_abort_node,
}
use multi_agent_workflow.Executor.Decision.Ready.{ReadyNode, NoneReady, Lists, ready_nodes-Lists}
use multi_agent_workflow.Executor.Passes.{settle}
use multi_agent_workflow.Executor.Passes.Progress.{Mono}
use multi_agent_workflow.Executor.Passes.Count.{
  count_pending, count_pending_mono, count_pending-le-length,
}
use multi_agent_workflow.Executor.Passes.Settle.{
  AllKnown, Quiet, Settled, settle-Settled, count_pending-Moved,
}
use multi_agent_workflow.Executor.Wave.{wave}
use multi_agent_workflow.Executor.Wave.Effect.{Waved, wave-Waved}
use multi_agent_workflow.Executor.Run.{
  RunOutcome, Turn, stop, go, done, waiting_approval, paused, by_ready, unless_rejected,
  unless_failed, turn, run_from, run,
}
use multi_agent_workflow.Executor.Run.Stall.{IsRanked, stall_free}

-- A graph that `load_dag` accepts: its nodes have different ids, its edges start at nodes, and it
-- has no cycle.
pub record Sound (c : Config) (rank : String → ℕ) : Type 0 where
  pub unique : Unique c.nodes
  pub known : AllKnown c
  pub ranked : IsRanked c rank

module _ (env : Environment) (c : Config) where
  -- What each outcome says of the final states.
  abbrev pub Outcome : RunOutcome → Executor → Type 0
  Outcome done s = all_terminal s.states ≡ true
  Outcome waiting_approval s =
      (has_waiting_approval s.states ≡ true) × NoneReady env.python c s c.nodes
  Outcome paused s = (s.pause_requested ≡ true) × (all_terminal s.states ≡ false)

  -- A run that returns has no failed node and no rejection that aborts it.
  pub record Ended (o : RunOutcome) (s : Executor) : Type 0 where
    pub inv : Inv c [] s
    pub unfailed : s.failed ≡ []
    pub accepted : rejected_abort_node c.nodes s.states ≡ none
    pub outcome : Outcome o s

  abbrev Turns : Executor → Turn → Type 0
  Turns s (stop r) = Gives (λ o. Ended o s) r
  Turns s (go []) = ⊥
  Turns s (go (nid ∷ nids)) = All (ReadyNode env.python c s) (nid ∷ nids)

  module _ (rank : String → ℕ) (sound : Sound c rank) (s : Executor) (inv : Inv c [] s)
      (quiet : Quiet env.python c s.states) where
    module _ (unfailed : s.failed ≡ [])
        (accepted : rejected_abort_node c.nodes s.states ≡ none) where
      idle-Turns : NoneReady env.python c s c.nodes → Turns s (by_ready s (ok []))
      idle-Turns none_ = elim (Bool-cases (has_waiting_approval s.states)) [
        | inl w ↦
            rw w
              (record { inv = inv; unfailed = unfailed; accepted = accepted; outcome = (w, none_) })
        | inr w ↦
            let over = stall_free env c s inv sound.known rank sound.ranked quiet none_ w in
            rw (w, over)
              (record { inv = inv; unfailed = unfailed; accepted = accepted; outcome = over })
      ]

      by_ready-Turns :
          (r : Result (List String))
          → Gives (Lists env.python c s c.nodes) r
          → Turns s (by_ready s r)
      by_ready-Turns (raise e) g = g
      by_ready-Turns (ok (nid ∷ nids)) g = g.0
      by_ready-Turns (ok []) g = idle-Turns (g.1 refl)

      pausing-Turns : Turns s (unless_rejected env c s none)
      pausing-Turns = elim (Bool-cases (s.pause_requested && not (all_terminal s.states))) [
        | inl p ↦ rw p (record {
          inv = inv;
          unfailed = unfailed;
          accepted = accepted;
          outcome = (ground (arith, p), ground (arith, p));
        })
        | inr p ↦ rw p (
            by_ready-Turns (ready_nodes env.python c.nodes s.states) (
              ready_nodes-Lists env.python c s [] inv (
                All-zip _ _ c.nodes (Entries-self c.nodes sound.unique)
                  (All-map c.nodes (λ e k. k.1) sound.known))))
      ]

    by_rejected-Turns :
        s.failed ≡ []
        → (o : Option String) → rejected_abort_node c.nodes s.states ≡ o
        → Turns s (unless_rejected env c s o)
    by_rejected-Turns f (some nid) e = tt
    by_rejected-Turns f none e = pausing-Turns f e

    by_failed-Turns : (xs : List String) → s.failed ≡ xs → Turns s (unless_failed env c s xs)
    by_failed-Turns (nid ∷ nids) f = tt
    by_failed-Turns [] f = by_rejected-Turns f (rejected_abort_node c.nodes s.states) refl

    turn-Turns : Turns s (turn env c s)
    unfolding turn
    turn-Turns = by_failed-Turns s.failed refl

  module _ (rank : String → ℕ) (sound : Sound c rank) where
    abbrev Runs : ℕ → Type 0
    Runs fuel =
        (s : Executor)
        → Inv c [] s
        → count_pending c.nodes s.states < fuel
        → Ensures Ended (run_from env c fuel s)

    -- A wave leaves fewer pending nodes.
    wave_lt :
        (s t u : Executor)
        → Inv c [] t
        → Mono s t
        → Waved env c sound.known t u
        → count_pending c.nodes u.states < count_pending c.nodes s.states
    wave_lt s t u inv mono w = omega (
      arith,
      count_pending-Moved env c [] sound.known t u inv w.finished.mono w.moved,
      count_pending_mono s.states t.states mono c.nodes,
    )

    by_turn :
        (fuel : ℕ) (s t : Executor)
        → Runs fuel
        → count_pending c.nodes s.states < suc fuel
        → Mono s t
        → Inv c [] t
        → (d : Turn) → Turns t d
        → Ensures Ended (elim d [
          | stop r ↦ (r, t)
          | go nids ↦ continue (λ _. run_from env c fuel) (wave env c nids t)
        ])
    by_turn fuel s t again enough mono inv (stop (ok o)) e = e
    by_turn fuel s t again enough mono inv (stop (raise x)) e = e
    by_turn fuel s t again enough mono inv (go []) e = elim e [ ]
    by_turn fuel s t again enough mono inv (go (nid ∷ nids)) e =
        Ensures-continue (λ _ u. Waved env c sound.known t u) _ (wave env c (nid ∷ nids) t) _
          (wave-Waved env c sound.known nid nids t inv (All-map (nid ∷ nids) (λ k r. rw r.found) e)
            (e.0.node, e.0.found, e.0.waits, e.0.decision))
          λ _ u w. again u w.finished.inv (omega (arith, wave_lt s t u inv mono w))

    run_from-Ended : (fuel : ℕ) → Runs fuel
    unfolding run_from
    run_from-Ended zero s inv enough = elim enough [ ]
    run_from-Ended (suc fuel) s inv enough =
        Ensures-continue (λ _ t. Settled env c [] sound.known s t) _
          (settle env c (suc (length c.nodes)) s) _
          (settle-Settled env c [] sound.known (suc (length c.nodes)) s inv
            (omega (arith, count_pending-le-length c.nodes s.states)))
          λ _ t q.
            by_turn fuel s t (run_from-Ended fuel) enough q.mono q.inv (turn env c t)
              (turn-Turns rank sound t q.inv q.quiet)

    pub run-Ended : (s : Executor) → Inv c [] s → Ensures Ended (run env c s)
    unfolding run
    run-Ended s inv =
        run_from-Ended (suc (length c.nodes)) s inv
          (omega (arith, count_pending-le-length c.nodes s.states))
