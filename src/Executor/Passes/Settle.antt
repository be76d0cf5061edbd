-- ===== src/Executor/Passes/Settle.antt =====
-- The inner loop of `run` over the two passes.
use multi_agent_workflow.Prelude.{
  ℕ, zero, suc, ◌<◌, String, Bool, true, false, List, ◌≡◌, refl, arith, if◌then◌else◌, Bool-cases,
  inl, inr, ◌⊎◌, subst, sym, ok, ◌∙◌,
}
use multi_agent_workflow.Prelude.Dict.{Entries}
use multi_agent_workflow.Json.{Python}
use multi_agent_workflow.Executor.State.{Config, Executor, ◌>>◌}
use multi_agent_workflow.Executor.Environment.{Environment}
use multi_agent_workflow.Executor.Ensures.{Ensures, Ensures-continue, Ensures-map}
use multi_agent_workflow.Executor.Invariant.{Inv}
use multi_agent_workflow.Executor.Decision.{States, halt_triggered}
use multi_agent_workflow.Executor.Passes.{
  process_approvals, process_skips, settle, same_statuses, approval_step, skip_step, halt_step,
}
use multi_agent_workflow.Executor.Passes.Progress.{
  Mono, Moved, Pass, Pass-trans, IsKnown, for_nodes-Pass, QuietApproval, QuietNode,
  approval_step-Pass, skip_step-Pass, halt_step-Pass,
}
use multi_agent_workflow.Executor.Passes.Count.{
  count_pending, count_pending_lt, pending-same_statuses, same_statuses_refl,
}

abbrev pub AllKnown : Config → Type 0
AllKnown c = Entries (IsKnown c) c.nodes

abbrev pub Approvals : Python → Config → States → Type 0
Approvals py c states = Entries (λ nid n. QuietApproval py nid n states) c.nodes

abbrev pub Nodes : Python → Config → States → Type 0
Nodes py c states = Entries (λ nid n. QuietNode py nid n states) c.nodes

-- No pass has anything to do.
abbrev pub Quiet : Python → Config → States → Type 0
Quiet py c states = Approvals py c states × Nodes py c states

module _ (env : Environment) (c : Config) (busy : List String) (known : AllKnown c) where
  pub process_approvals-Pass :
      (s : Executor)
      → Inv c busy s
      → Ensures
          (λ _ s'. Pass c busy (Approvals env.python c s.states) s s')
          (process_approvals env c s)
  unfolding process_approvals
  process_approvals-Pass s inv =
      for_nodes-Pass c busy (λ nid n states. QuietApproval env.python nid n states)
        (approval_step env c) (λ nid n s inv k. approval_step-Pass env c busy nid n s inv k.0 k.1)
        c.nodes s inv known

  process_skips-Pass :
      (s : Executor)
      → Inv c busy s
      → Ensures (λ _ s'. Pass c busy (Nodes env.python c s.states) s s') (process_skips env c s)
  unfolding process_skips
  process_skips-Pass s inv = elim (Bool-cases (halt_triggered c.nodes s.states)) [
    | inl h ↦ rw h (
        for_nodes-Pass c busy (λ nid n states. QuietNode env.python nid n states) (halt_step env c)
          (λ nid n s inv k. halt_step-Pass env c busy nid n s inv k.0 k.1) c.nodes s inv known)
    | inr h ↦ rw h (
        for_nodes-Pass c busy (λ nid n states. QuietNode env.python nid n states) (skip_step env c)
          (λ nid n s inv k. skip_step-Pass env c busy nid n s inv k.0 k.1) c.nodes s inv known)
  ]

  -- Both passes in turn.
  passes-Pass :
      (s : Executor)
      → Inv c busy s
      → Ensures
          (λ _ s'. Pass c busy (Quiet env.python c s.states) s s')
          ((process_approvals env c >> process_skips env c) s)
  passes-Pass s inv =
      Ensures-continue (λ _ s'. Pass c busy (Approvals env.python c s.states) s s') _
        (process_approvals env c s) _ (process_approvals-Pass s inv)
        λ _ t p.
          Ensures-map _ _ (process_skips env c t) (process_skips-Pass t p.inv)
            λ _ u q. Pass-trans (Approvals env.python c) (Nodes env.python c) p q

  pub count_pending-Moved :
      (s s' : Executor)
      → Inv c busy s
      → Mono s s'
      → Moved s s'
      → count_pending c.nodes s'.states < count_pending c.nodes s.states
  count_pending-Moved s s' inv mono (k, was, now) =
      count_pending_lt s.states s'.states mono k c.nodes (ground (arith, inv.covered k)) was now

  -- What `settle` leaves.
  pub record Settled (s s' : Executor) : Type 0 where
    pub inv : Inv c busy s'
    pub mono : Mono s s'
    pub failed : s'.failed ≡ s.failed
    pub quiet : Quiet env.python c s'.states

  abbrev Settles : ℕ → Type 0
  Settles fuel =
      (s : Executor)
      → Inv c busy s
      → count_pending c.nodes s.states < fuel
      → Ensures (λ _ s'. Settled s s') (settle env c fuel s)

  -- The test for a fixed point, and the rest of the loop.
  after_passes :
      (fuel : ℕ) (s t : Executor)
      → Settles fuel
      → Inv c busy s
      → count_pending c.nodes s.states < suc fuel
      → Pass c busy (Quiet env.python c s.states) s t
      → (b : Bool) → same_statuses s.states t.states ≡ b
      → (t.states ≡ s.states) × Quiet env.python c s.states ⊎ Moved s t
      → Ensures (λ _ s'. Settled s s') (if b then (ok tt, t) else settle env c fuel t)
  after_passes fuel s t again inv enough p true e (inl (same, q)) = record {
    inv = p.inv;
    mono = p.mono;
    failed = p.failed;
    quiet = subst (Quiet env.python c) (sym same) q;
  }
  after_passes fuel s t again inv enough p true e (inr (k, was, now)) =
      absurd (ground (arith, pending-same_statuses k s.states t.states e was, now))
  after_passes fuel s t again inv enough p false e (inl (same, q)) =
      absurd (ground (arith, same_statuses_refl s.states inv.unique, rw same at e))
  after_passes fuel s t again inv enough p false e (inr m) =
      Ensures-map (λ _ s'. Settled t s') _ (settle env c fuel t)
        (again t p.inv (omega (arith, count_pending-Moved s t inv p.mono m)))
        λ _ u q. record {
          inv = q.inv;
          mono = λ k h. q.mono k (p.mono k h);
          failed = q.failed ∙ p.failed;
          quiet = q.quiet;
        }

  -- The inner loop ends within the pending nodes and one round more, keeps the states in order and
  -- makes no node pending again; after it no pass has anything left to do: a pending approval is
  -- blocked, and any other pending node is ready or blocked.
  pub settle-Settled :
      (fuel : ℕ) (s : Executor)
      → Inv c busy s
      → count_pending c.nodes s.states < fuel
      → Ensures (λ _ s'. Settled s s') (settle env c fuel s)
  unfolding settle
  settle-Settled zero s inv enough = elim enough [ ]
  settle-Settled (suc fuel) s inv enough =
      Ensures-continue (λ _ s'. Pass c busy (Quiet env.python c s.states) s s') _
        ((process_approvals env c >> process_skips env c) s) _ (passes-Pass s inv)
        λ _ t p.
          after_passes fuel s t (settle-Settled fuel) inv enough p (same_statuses s.states t.states)
            refl p.moved
