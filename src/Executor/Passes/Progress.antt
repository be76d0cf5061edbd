-- ===== src/Executor/Passes/Progress.antt =====
-- What one pass (`_process_approvals`, `_process_skips`) does to the node states.
use multi_agent_workflow.Prelude.{
  String, Bool, true, false, not, Option, none, some, List, [], ◌∷◌, ◌≡◌, refl, ◌∙◌, arith, eq_refl,
  is_some, All, if◌then◌else◌, Result, ok, raise, Bool-cases, inl, inr, ◌⊎◌, subst, value_error,
}
use multi_agent_workflow.Prelude.Int.{ℤ}
use multi_agent_workflow.Prelude.Text.{parse_int}
use multi_agent_workflow.Prelude.Dict.{Dict, lookup, insert, lookup-insert, Entries}
use multi_agent_workflow.Json.{Value, boolean, int, text, Python, get, float, array, object}
use multi_agent_workflow.Core.Dag.{Node, Edge, is_pending, is_approval}
use multi_agent_workflow.StateStore.Rows.{NodeState}
use multi_agent_workflow.StateStore.Memory.{Store, put_node}
use multi_agent_workflow.Executor.State.{Config, Executor, set_state, state_of, Action, pure}
use multi_agent_workflow.Executor.Environment.{Environment}
use multi_agent_workflow.Executor.Ensures.{
  Gives, Ensures, Ensures-lift, Ensures-continue, Ensures-map, Gives-map,
}
use multi_agent_workflow.Executor.Invariant.{
  pending_at, Inv, is_settled, set_state-Inv, state_of-Gives,
}
use multi_agent_workflow.Executor.Decision.{
  Decision, ready, skipped, blocked, States, node_decision,
}
use multi_agent_workflow.Executor.Decision.Total.{node_decision-Gives, Any}
use multi_agent_workflow.Executor.Passes.{
  persist, mark_skipped, skipped_state, open_approval, approval_step, approval_by, for_nodes,
  act_on, skip_step, skip_by, halt_step, seconds, approvers_of,
}

-- No node becomes `pending` again.
abbrev pub Mono : Executor → Executor → Type 0
Mono s s' =
    (k : String) → pending_at (lookup k s.states) ≡ false → pending_at (lookup k s'.states) ≡ false

-- A node has left `pending`.
abbrev pub Moved : Executor → Executor → Type 0
Moved s s' =
    (k : String) × (pending_at (lookup k s.states) ≡ true)
    × (pending_at (lookup k s'.states) ≡ false)

pub record Pass (c : Config) (busy : List String) (Q : Type 0) (s s' : Executor) : Type 0 where
  pub inv : Inv c busy s'
  pub mono : Mono s s'
  pub failed : s'.failed ≡ s.failed
  pub paused : s'.pause_requested ≡ s.pause_requested
  pub moved : (s'.states ≡ s.states) × Q ⊎ Moved s s'

module _ (c : Config) (nid : String) (st : NodeState) (s : Executor) where
  -- Writing a state and its checkpoint.
  abbrev written : Executor
  written = record s {
    states = insert nid st s.states;
    store = put_node c.run_id c.tenant_id nid st s.store;
  }

  pub persist-set_state : persist c nid (set_state nid st s) ≡ (ok tt, written)
  unfolding persist set_state state_of
  persist-set_state = simp (lookup-insert, eq_refl)

  module _ (busy : List String) (inv : Inv c busy s) (known : is_some (lookup nid c.nodes) ≡ true)
      (fits : is_settled st.status ≡ true) where
    written-Inv : Inv c busy written
    unfolding set_state
    written-Inv =
        let i = set_state-Inv c busy busy nid st s inv known (rw fits refl) (λ k _ h. h) in
        record { covered = i.covered; unique = i.unique; settled = i.settled }

    -- A pending node takes a status that is not `pending`.
    written-Pass :
        {Q : Type 0}
        → pending_at (lookup nid s.states) ≡ true
        → is_pending st.status ≡ false
        → Pass c busy Q s written
    written-Pass was now = record {
      inv = written-Inv;
      mono = λ k h. ground (arith, lookup-insert nid k st s.states);
      failed = refl;
      paused = refl;
      moved = inr (nid, was, ground (arith, lookup-insert nid nid st s.states, eq_refl nid));
    }

unchanged :
    {c : Config} {busy : List String} {Q : Type 0} (s : Executor)
    → Inv c busy s
    → Q
    → Pass c busy Q s s
unchanged s inv q = record {
  inv = inv;
  mono = λ k h. h;
  failed = refl;
  paused = refl;
  moved = inl (refl, q);
}

-- What a step writes to the store does not matter here.
with_store :
    {c : Config} {busy : List String} {Q : Type 0} {s : Executor} (s' : Executor) (store : Store)
    → Pass c busy Q s s'
    → Pass c busy Q s (record s' { store = store })
with_store s' store p = record {
  inv = record { covered = p.inv.covered; unique = p.inv.unique; settled = p.inv.settled };
  mono = p.mono;
  failed = p.failed;
  paused = p.paused;
  moved = p.moved;
}

seconds-Gives : (py : Python) (o : Option Value) → Gives Any (seconds py o)
seconds-Gives py none = tt
seconds-Gives py (some (int n)) = tt
seconds-Gives py (some (boolean true)) = tt
seconds-Gives py (some (boolean false)) = tt
seconds-Gives py (some (text t)) = go (parse_int t)
  where
    go : (o : Option ℤ) → Gives Any (elim o [ none ↦ raise (value_error t) | some n ↦ ok n ])
    go none = tt
    go (some n) = tt
seconds-Gives py (some (float x)) = by (py.int_of_float x)
  where
    by :
        (r : Option ℤ)
        → Gives Any (elim r as (λ _. Result ℤ) [ none ↦ raise (value_error x) | some n ↦ ok n ])
    by none = tt
    by (some n) = tt
seconds-Gives py (some _) = tt

approvers_of-Gives : (py : Python) (o : Option Value) → Gives Any (approvers_of py o)
approvers_of-Gives py none = tt
approvers_of-Gives py (some (array vs)) = tt
approvers_of-Gives py (some (text t)) = tt
approvers_of-Gives py (some (object fs)) = tt
approvers_of-Gives py (some _) = tt

module _ (py : Python) (nid : String) (n : Node) (states : States) where
  -- After an approval step that changed nothing, a pending approval is blocked.
  abbrev pub QuietApproval : Type 0
  QuietApproval =
      is_approval n ≡ true
      → pending_at (lookup nid states) ≡ true
      → node_decision py states n ≡ ok blocked

  -- After a skip step that changed nothing, a pending node that is no approval is ready
  -- or blocked.
  abbrev pub QuietNode : Type 0
  QuietNode =
      is_approval n ≡ false
      → pending_at (lookup nid states) ≡ true
      → (node_decision py states n ≡ ok ready) ⊎ (node_decision py states n ≡ ok blocked)

module _ (env : Environment) (c : Config) (busy : List String) (nid : String) (n : Node)
    (s : Executor) (inv : Inv c busy s) (known : is_some (lookup nid c.nodes) ≡ true)
    (sources : All (λ (e : Edge). is_some (lookup e.source c.nodes) ≡ true) n.in_edges) where
  abbrev Steps : Type 0 → Result (Unit {0}) × Executor → Type 0
  Steps Q = Ensures (λ _ s'. Pass c busy Q s s')

  pub mark_skipped-Pass :
      (Q : Type 0) → pending_at (lookup nid s.states) ≡ true → Steps Q (mark_skipped c nid s)
  unfolding mark_skipped
  mark_skipped-Pass Q was =
      rw (persist-set_state c nid skipped_state s)
        (written-Pass c nid skipped_state s busy inv known refl was refl)

  open_approval-Pass :
      (Q : Type 0) → pending_at (lookup nid s.states) ≡ true → Steps Q (open_approval env c nid n s)
  unfolding open_approval
  open_approval-Pass Q was =
      Ensures-lift Any (λ _ s'. Pass c busy Q s s') (seconds env.python (get "timeout" n.params)) s
        _ (seconds-Gives env.python (get "timeout" n.params))
        λ timeout _ _. rw (persist-set_state c nid _ s) (
          Ensures-lift Any (λ _ s'. Pass c busy Q s s')
            (approvers_of env.python (get "approvers" n.params)) _ _
            (approvers_of-Gives env.python (get "approvers" n.params))
            λ approvers _ _. with_store _ _ (written-Pass c nid _ s busy inv known refl was refl))

  act_on-Pass :
      (Q : Type 0) (act : Decision → Action (Unit {0}))
      → (pending_at (lookup nid s.states) ≡ false → Q)
      → ((d : Decision)
          → node_decision env.python s.states n ≡ ok d
          → pending_at (lookup nid s.states) ≡ true
          → Steps Q (act d s))
      → Steps Q (act_on env c nid n act s)
  unfolding act_on
  act_on-Pass Q act idle acts =
      Ensures-lift (λ st. lookup nid s.states ≡ some st) _ (state_of nid s.states) s _
        (state_of-Gives c busy nid s inv known)
        λ st _ found. elim (Bool-cases (is_pending st.status)) [
          | inr over ↦ rw over (unchanged s inv (idle (rw (found, over))))
          | inl was ↦ rw was (
              Ensures-lift Any (λ _ s'. Pass c busy Q s s') (node_decision env.python s.states n) s
                act
                (Gives-map _ Any _ (node_decision-Gives env.python c busy s inv n sources)
                  (λ _ _. tt))
                λ d e _. acts d e (rw (found, was)))
        ]

  approval_by-Pass :
      (d : Decision)
      → node_decision env.python s.states n ≡ ok d
      → pending_at (lookup nid s.states) ≡ true
      → Steps (QuietApproval env.python nid n s.states) (approval_by env c nid n d s)
  approval_by-Pass skipped e was = mark_skipped-Pass _ was
  approval_by-Pass ready e was = open_approval-Pass _ was
  approval_by-Pass blocked e was = unchanged s inv (λ _ _. e)

  pub approval_step-Pass :
      Steps (QuietApproval env.python nid n s.states) (approval_step env c nid n s)
  unfolding approval_step
  approval_step-Pass = go (is_approval n) refl
    where
      go :
          (b : Bool)
          → is_approval n ≡ b
          → Steps
              (QuietApproval env.python nid n s.states)
              ((if not b then pure tt else act_on env c nid n (approval_by env c nid n)) s)
      go false other = unchanged s inv (λ a _. cc)
      go true approval = act_on-Pass _ _ (λ over _ p. cc) approval_by-Pass

  skip_by-Pass :
      (d : Decision)
      → node_decision env.python s.states n ≡ ok d
      → pending_at (lookup nid s.states) ≡ true
      → Steps (QuietNode env.python nid n s.states) (skip_by env c nid d s)
  skip_by-Pass skipped e was = mark_skipped-Pass _ was
  skip_by-Pass ready e was = unchanged s inv (λ _ _. inl e)
  skip_by-Pass blocked e was = unchanged s inv (λ _ _. inr e)

  pub skip_step-Pass : Steps (QuietNode env.python nid n s.states) (skip_step env c nid n s)
  unfolding skip_step
  skip_step-Pass = go (is_approval n) refl
    where
      go :
          (b : Bool)
          → is_approval n ≡ b
          → Steps
              (QuietNode env.python nid n s.states)
              ((if b then pure tt else act_on env c nid n (skip_by env c nid)) s)
      go true approval = unchanged s inv (λ a _. cc)
      go false other = act_on-Pass _ _ (λ over _ p. cc) skip_by-Pass

  pub halt_step-Pass : Steps (QuietNode env.python nid n s.states) (halt_step env c nid n s)
  unfolding halt_step
  halt_step-Pass =
      Ensures-lift (λ st. lookup nid s.states ≡ some st) _ (state_of nid s.states) s _
        (state_of-Gives c busy nid s inv known)
        λ st _ found. elim (Bool-cases (is_pending st.status)) [
          | inr over ↦ rw over (unchanged s inv (λ _ p. absurd (ground (arith, found))))
          | inl was ↦ rw was (mark_skipped-Pass _ (rw (found, was)))
        ]

module _ {c : Config} {busy : List String} (Q R : States → Type 0) {s t u : Executor}
    (p : Pass c busy (Q s.states) s t) (q : Pass c busy (R t.states) t u) where
  passes-Moved :
      (t.states ≡ s.states) × Q s.states ⊎ Moved s t
      → (u.states ≡ t.states) × R t.states ⊎ Moved t u
      → (u.states ≡ s.states) × (Q s.states × R s.states) ⊎ Moved s u
  passes-Moved (inl (e, x)) (inl (f, y)) = inl (f ∙ e, (x, subst R e y))
  passes-Moved (inl (e, x)) (inr (k, was, now)) =
      inr (k, subst (λ states. pending_at (lookup k states) ≡ true) e was, now)
  passes-Moved (inr (k, was, now)) _ = inr (k, was, q.mono k now)

  -- One pass behind another.
  pub Pass-trans : Pass c busy (Q s.states × R s.states) s u
  Pass-trans = record {
    inv = q.inv;
    mono = λ k h. q.mono k (p.mono k h);
    failed = q.failed ∙ p.failed;
    paused = q.paused ∙ p.paused;
    moved = passes-Moved p.moved q.moved;
  }

abbrev pub IsKnown : Config → String → Node → Type 0
IsKnown c nid n =
    (is_some (lookup nid c.nodes) ≡ true)
    × All (λ (e : Edge). is_some (lookup e.source c.nodes) ≡ true) n.in_edges

module _ (c : Config) (busy : List String) (Q : String → Node → States → Type 0)
    (step : String → Node → Action (Unit {0}))
    (step-Pass : (nid : String) (n : Node) (s : Executor)
      → Inv c busy s
      → IsKnown c nid n
      → Ensures (λ _ s'. Pass c busy (Q nid n s.states) s s') (step nid n s)) where
  -- A loop over nodes, of a step that is a pass.
  pub for_nodes-Pass :
      (nodes : Dict Node) (s : Executor)
      → Inv c busy s
      → Entries (IsKnown c) nodes
      → Ensures
          (λ _ s'. Pass c busy (Entries (λ nid n. Q nid n s.states) nodes) s s')
          (for_nodes step nodes s)
  unfolding for_nodes
  for_nodes-Pass [] s inv known = unchanged s inv tt
  for_nodes-Pass ((nid, n) ∷ nodes) s inv known =
      Ensures-continue (λ _ s'. Pass c busy (Q nid n s.states) s s') _ (step nid n s) _
        (step-Pass nid n s inv known.0)
        λ _ t p.
          Ensures-map _ _ (for_nodes step nodes t) (for_nodes-Pass nodes t p.inv known.1)
            λ _ u q. Pass-trans (Q nid n) (λ states. Entries (λ nid n. Q nid n states) nodes) p q
