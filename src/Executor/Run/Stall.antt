-- ===== src/Executor/Run/Stall.antt =====
-- The states in which `run` would raise `WorkflowStalledError`.
use multi_agent_workflow.Prelude.{
  ℕ, zero, suc, ◌<◌, String, Bool, true, false, Option, none, some, List, [], ◌∷◌, ◌≡◌, refl, arith,
  eq_iff, eq_refl, is_some, All, Result, ok, Bool-cases, inl, inr,
}
use multi_agent_workflow.Prelude.Dict.{lookup, Entries, Entries-lookup, Unique}
use multi_agent_workflow.Core.Dag.{
  Node, Edge, Status, pending, is_pending, is_terminal, is_waiting, is_approval,
}
use multi_agent_workflow.StateStore.Rows.{NodeState}
use multi_agent_workflow.Executor.State.{Config, Executor}
use multi_agent_workflow.Executor.Environment.{Environment}
use multi_agent_workflow.Executor.Ensures.{Gives}
use multi_agent_workflow.Executor.Invariant.{pending_at, Inv, is_settled}
use multi_agent_workflow.Executor.Decision.{
  Decision, blocked, node_decision, has_waiting_approval, all_terminal, States,
}
use multi_agent_workflow.Executor.Decision.Total.{
  Unblocked, all_ended, terminal_at, node_decision-Gives,
}
use multi_agent_workflow.Executor.Decision.Ready.{NoneReady, NotReady}
use multi_agent_workflow.Executor.Passes.Progress.{IsKnown, QuietApproval, QuietNode}
use multi_agent_workflow.Executor.Passes.Settle.{AllKnown, Quiet}

-- Each edge goes from a lower rank to a higher one, so the graph has no cycle.
abbrev pub IsRanked : Config → (String → ℕ) → Type 0
IsRanked c rank =
    Entries (λ nid (n : Node). All (λ (e : Edge). rank e.source < rank nid) n.in_edges) c.nodes

no_waiting :
    (k : String) (states : States) (st : NodeState)
    → has_waiting_approval states ≡ false
    → lookup k states ≡ some st
    → is_waiting st.status ≡ false
unfolding has_waiting_approval lookup
no_waiting k [] st h e = cc
no_waiting k ((nid, x) ∷ states) st h e = ground (arith, no_waiting k states st)

pending_of :
    (a : Status)
    → is_settled a ≡ true
    → is_waiting a ≡ false
    → is_terminal a ≡ false
    → is_pending a ≡ true
pending_of pending s w t = refl
pending_of a s w t = ground arith

ended_everywhere :
    (states : States)
    → Unique states
    → ((k : String) (st : NodeState) → lookup k states ≡ some st → is_terminal st.status ≡ true)
    → all_terminal states ≡ true
unfolding all_terminal lookup
ended_everywhere [] u h = refl
ended_everywhere ((nid, st) ∷ states) u h =
    rw (h nid st (rw (eq_refl nid) refl))
      (ended_everywhere states u.1 λ k x e. h k x (ground (arith, e, u.0, eq_iff nid k)))

contradiction :
    (b : Bool) (m : Result Decision) → Gives (Unblocked b) m → b ≡ true → m ≡ ok blocked → ⊥
contradiction b m g ended e = rw (ended, e) at g

module _ (env : Environment) (c : Config) (s : Executor) (inv : Inv c [] s) (known : AllKnown c)
    (rank : String → ℕ) (ranked : IsRanked c rank) (quiet : Quiet env.python c s.states)
    (none_ready : NoneReady env.python c s c.nodes)
    (none_open : has_waiting_approval s.states ≡ false) where
  -- No pending node has all its sources ended.
  not_pending :
      (nid : String) (n : Node)
      → lookup nid c.nodes ≡ some n
      → all_ended s.states n.in_edges ≡ true
      → pending_at (lookup nid s.states) ≡ true
      → ⊥
  not_pending nid n e ended p = elim (Bool-cases (is_approval n)) [
    | inl a ↦
        blocks (
          Entries-lookup (λ k m. QuietApproval env.python k m s.states) nid n c.nodes quiet.0 e a p)
    | inr a ↦
        elim (Entries-lookup (λ k m. QuietNode env.python k m s.states) nid n c.nodes quiet.1 e a
          p) [
            | inl r ↦ Entries-lookup (NotReady env.python c s) nid n c.nodes none_ready e a p r
            | inr b ↦ blocks b
          ]
  ]
    where
      blocks : node_decision env.python s.states n ≡ ok blocked → ⊥
      blocks b =
          contradiction (all_ended s.states n.in_edges) (node_decision env.python s.states n)
            (node_decision-Gives env.python c [] s inv n
              (Entries-lookup (IsKnown c) nid n c.nodes known e).1)
            ended b

  -- The state of a node whose sources have ended has ended.
  ended_after :
      (nid : String) (n : Node)
      → lookup nid c.nodes ≡ some n
      → all_ended s.states n.in_edges ≡ true
      → (o : Option NodeState) → lookup nid s.states ≡ o
      → terminal_at o ≡ true
  ended_after nid n e ended none f = absurd (ground (arith, inv.covered nid))
  ended_after nid n e ended (some st) f = elim (Bool-cases (is_terminal st.status)) [
    | inl h ↦ h
    | inr h ↦ absurd (
        not_pending nid n e ended (
          rw f (
            pending_of st.status (ground (arith, inv.settled nid))
              (no_waiting nid s.states st none_open f) h)))
  ]

  abbrev Ended : ℕ → Type 0
  Ended k =
      (nid : String) (n : Node)
      → lookup nid c.nodes ≡ some n
      → rank nid < k
      → terminal_at (lookup nid s.states) ≡ true

  sources_done :
      (k : ℕ) (es : List Edge)
      → Ended k
      → All (λ (e : Edge). is_some (lookup e.source c.nodes) ≡ true) es
      → All (λ (e : Edge). rank e.source < k) es
      → all_ended s.states es ≡ true
  sources_done k [] before h r = refl
  sources_done k (e ∷ es) before h r =
      rw (by_lookup (lookup e.source c.nodes) refl) (sources_done k es before h.1 r.1)
    where
      by_lookup :
          (o : Option Node)
          → lookup e.source c.nodes ≡ o
          → terminal_at (lookup e.source s.states) ≡ true
      by_lookup none f = absurd (ground (arith, h.0))
      by_lookup (some m) f = before e.source m f r.0

  -- By induction on the rank, every node has ended.
  terminal_below : (k : ℕ) → Ended k
  terminal_below zero nid n e r = elim r [ ]
  terminal_below (suc k) nid n e r =
      ended_after nid n e
        (sources_done (rank nid) n.in_edges (λ m x f q. terminal_below k m x f (omega arith))
          (Entries-lookup (IsKnown c) nid n c.nodes known e).1
          (Entries-lookup (λ m (x : Node). All (λ (e : Edge). rank e.source < rank m) x.in_edges)
            nid n c.nodes ranked e))
        (lookup nid s.states) refl

  ended_state :
      (nid : String) (st : NodeState)
      → lookup nid s.states ≡ some st
      → (o : Option Node) → lookup nid c.nodes ≡ o
      → is_terminal st.status ≡ true
  ended_state nid st e none f = absurd (ground (arith, inv.covered nid))
  ended_state nid st e (some n) f =
      let h = terminal_below (suc (rank nid)) nid n f (omega arith) in rw e at h

  -- So the loop does not stall.
  pub stall_free : all_terminal s.states ≡ true
  stall_free =
      ended_everywhere s.states inv.unique λ k st e. ended_state k st e (lookup k c.nodes) refl
