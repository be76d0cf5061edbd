-- ===== src/Executor/Node/Effect.antt =====
-- What starting and finishing a node do to the node states.
use multi_agent_workflow.Prelude.{
  String, true, false, Option, none, some, List, ◌∷◌, ◌==◌, ◌≡◌, refl, ◌∙◌, arith, eq_refl, is_some,
  contains, ok, Error, Bool-cases, inl, inr, ◌≢◌, ◌⊎◌,
}
use multi_agent_workflow.Prelude.Dict.{lookup, insert, lookup-insert, Entries-lookup}
use multi_agent_workflow.Json.{Value, Fields}
use multi_agent_workflow.Core.Dag.{Node, Status, running, done, is_pending}
use multi_agent_workflow.StateStore.Rows.{NodeState}
use multi_agent_workflow.StateStore.Memory.{Store}
use multi_agent_workflow.Executor.State.{Config, Executor, set_state, state_of, or_missing}
use multi_agent_workflow.Executor.Environment.{Environment}
use multi_agent_workflow.Executor.Ensures.{
  Gives, Gives-map, Ensures, Ensures-lift, Ensures-continue, Ensures-map,
}
use multi_agent_workflow.Executor.Invariant.{pending_at, Inv, set_state-Inv, state_of-Gives}
use multi_agent_workflow.Executor.Decision.{Decision, ready, skipped, blocked, node_decision}
use multi_agent_workflow.Executor.Decision.Total.{Any, node_decision-Gives}
use multi_agent_workflow.Executor.Params.{resolve_params}
use multi_agent_workflow.Executor.Params.Total.{resolve_params-Gives}
use multi_agent_workflow.Executor.Verdict.{check_answer}
use multi_agent_workflow.Executor.Attempts.Keeps.{SameNodes, run_with_retry-Keeps}
use multi_agent_workflow.Executor.Attempts.{Outcome, completed, node_error, run_with_retry}
use multi_agent_workflow.Executor.Passes.{process_approvals}
use multi_agent_workflow.Executor.Passes.Progress.{
  Mono, Moved, Pass, persist-set_state, mark_skipped-Pass, IsKnown,
}
use multi_agent_workflow.Executor.Passes.Settle.{AllKnown, process_approvals-Pass}
use multi_agent_workflow.Executor.Node.{
  Task, Work, call, judged, conclude, finish_by, begin_node, start_by, start_node, complete, fail,
  finish_node, work_of, with_status, with_parameters, context,
}
use multi_agent_workflow.Executor.Node.Total.{work_of-Gives, check_answer-Gives}

abbrev pub busy_with : Option Task → List String → List String
busy_with none busy = busy
busy_with (some t) busy = t.nid ∷ busy

abbrev pub OptionKnown : Config → Option Task → Type 0
OptionKnown c none = Unit
OptionKnown c (some t) = is_some (lookup t.nid c.nodes) ≡ true

-- What starting a node does: it is busy now, or it was skipped, or nothing happened.
pub record Started (c : Config) (busy : List String) (Q : Type 0) (o : Option Task)
    (s s' : Executor) : Type 0 where
  pub inv : Inv c (busy_with o busy) s'
  pub known : OptionKnown c o
  pub mono : Mono s s'
  pub failed : s'.failed ≡ s.failed
  pub moved : Moved s s' ⊎ Q

module _ (env : Environment) (c : Config) (busy : List String) (nid : String) (n : Node)
    (s : Executor) (inv : Inv c busy s) (known : is_some (lookup nid c.nodes) ≡ true) where
  abbrev BusyNow : Executor → Executor → Type 0
  BusyNow s s' = Inv c (nid ∷ busy) s' × Mono s s' × (s'.failed ≡ s.failed) × Moved s s'

  -- The two writes that mark a node as running.
  marked :
      (params : Fields) (st : NodeState) (store : Store)
      → pending_at (lookup nid s.states) ≡ true
      → BusyNow s (record s {
        states =
            insert nid
              (with_parameters params (with_status running st))
              (insert nid (with_status running st) s.states);
        store = store;
      })
  unfolding set_state
  marked params st store was =
      let one = with_status running st in
      let two = with_parameters params one in
      let i =
        set_state-Inv c busy (nid ∷ busy) nid one s inv known (rw (eq_refl nid))
          (λ k _ h. ground (arith, h)) in
      let j =
        set_state-Inv c (nid ∷ busy) (nid ∷ busy) nid two (set_state nid one s) i known
          (rw (eq_refl nid)) (λ k _ h. h) in
      (
        record { covered = j.covered; unique = j.unique; settled = j.settled },
        (λ k h. ground (
          arith,
          lookup-insert nid k one s.states,
          lookup-insert nid k two (insert nid one s.states),
        )),
        refl,
        (
          nid,
          was,
          ground (arith, lookup-insert nid nid two (insert nid one s.states), eq_refl nid),
        ),
      )

  begin_node-Started :
      (Q : Type 0) (st : NodeState)
      → pending_at (lookup nid s.states) ≡ true
      → Ensures (λ o s'. Started c busy Q o s s') (begin_node env c nid n st s)
  unfolding begin_node set_state
  begin_node-Started Q st was =
      let one = set_state nid (with_status running st) s in
      Ensures-lift Any _ (resolve_params (context c one) n.params) one _
        (resolve_params-Gives (context c one) n.params)
        λ params _ _.
          rw (persist-set_state c nid (with_parameters params (with_status running st)) one) (
            Ensures-lift Any _ (work_of env c n _) _ _ (work_of-Gives env c n _) λ w _ _.
              let (i, mono, failed, moved) = marked params st _ was in
              record { inv = i; known = known; mono = mono; failed = failed; moved = inl moved })

-- A node that is not pending, or not ready.
abbrev pub Idle : Environment → Config → String → Executor → Type 0
Idle env c nid s =
    (n : Node)
    → lookup nid c.nodes ≡ some n
    → pending_at (lookup nid s.states) ≡ true
    → node_decision env.python s.states n ≢ ok ready

or_missing-Gives :
    {A : Type 0} (k : String) (o : Option A)
    → is_some o ≡ true
    → Gives (λ a. o ≡ some a) (or_missing k o)
or_missing-Gives k none h = cc
or_missing-Gives k (some a) h = refl

module _ (env : Environment) (c : Config) (busy : List String) (known : AllKnown c) (nid : String)
    (s : Executor) (inv : Inv c busy s) (here : is_some (lookup nid c.nodes) ≡ true) where
  Idle-Started : Idle env c nid s → Started c busy (Idle env c nid s) none s s
  Idle-Started idle = record {
    inv = inv;
    known = tt;
    mono = λ k h. h;
    failed = refl;
    moved = inr idle;
  }

  start_by-Started :
      (n : Node) (st : NodeState) (d : Decision)
      → lookup nid c.nodes ≡ some n
      → node_decision env.python s.states n ≡ ok d
      → pending_at (lookup nid s.states) ≡ true
      → IsKnown c nid n
      → Ensures (λ o s'. Started c busy (Idle env c nid s) o s s') (start_by env c nid n st d s)
  start_by-Started n st ready e d was k = begin_node-Started env c busy nid n s inv here _ st was
  start_by-Started n st skipped e d was k =
      Ensures-continue (λ _ s'. Pass c busy ⊥ s s') _ _ _
        (mark_skipped-Pass env c busy nid n s inv k.0 k.1 ⊥ was)
        λ _ s' p. record {
          inv = p.inv;
          known = tt;
          mono = p.mono;
          failed = p.failed;
          moved = elim p.moved [ inl (_, absurdity) ↦ absurd absurdity | inr m ↦ inl m ];
        }
  start_by-Started n st blocked e d was k = Idle-Started (λ m f _ r. ground (arith, e, d, f, r))

  pub start_node-Started :
      Ensures (λ o s'. Started c busy (Idle env c nid s) o s s') (start_node env c nid s)
  unfolding start_node
  start_node-Started =
      Ensures-lift (λ n. lookup nid c.nodes ≡ some n) _ (or_missing nid (lookup nid c.nodes)) s _
        (or_missing-Gives nid (lookup nid c.nodes) here)
        λ n _ e.
          Ensures-lift (λ st. lookup nid s.states ≡ some st) _ (state_of nid s.states) s _
            (state_of-Gives c busy nid s inv here)
            λ st _ found. elim (Bool-cases (is_pending st.status)) [
              | inr over ↦ rw over (Idle-Started (λ _ _ p. absurd (ground (arith, found))))
              | inl was ↦
                  let k = Entries-lookup (IsKnown c) nid n c.nodes known e in
                  rw was (
                    Ensures-lift Any _ (node_decision env.python s.states n) s
                      (start_by env c nid n st)
                      (Gives-map _ Any _ (node_decision-Gives env.python c busy s inv n k.1)
                        (λ _ _. tt))
                      λ d f _. start_by-Started n st d e f (rw (found, was)) k)
            ]

-- What ends a node whose number of busy nodes falls.
pub record Finished (c : Config) (busy : List String) (s s' : Executor) : Type 0 where
  pub inv : Inv c busy s'
  pub mono : Mono s s'
  pub failed : s'.failed ≡ s.failed

Inv-same :
    {c : Config} {busy : List String} {s : Executor} (s' : Executor)
    → s'.states ≡ s.states
    → Inv c busy s
    → Inv c busy s'
Inv-same s' e inv = record {
  covered = λ k. rw e (inv.covered k);
  unique = rw e inv.unique;
  settled = λ k. rw e (inv.settled k);
}

module _ (env : Environment) (c : Config) (busy busy' : List String) (known : AllKnown c) (t : Task)
    (here : is_some (lookup t.nid c.nodes) ≡ true)
    (frees : (k : String)
      → (t.nid == k) ≡ false
      → contains k busy ≡ true
      → contains k busy' ≡ true) where
  complete-Finished :
      (output : Value) (s : Executor)
      → Inv c busy s
      → Ensures (λ _ s'. Finished c busy' s s') (complete env c t output s)
  unfolding complete set_state
  complete-Finished output s inv =
      let st : NodeState = record {
        status = done;
        output = output;
        params = some t.params;
        error = none;
      } in
      let i = set_state-Inv c busy busy' t.nid st s inv here refl frees in
      rw (persist-set_state c t.nid st s) (
        Ensures-map _ _ (process_approvals env c _)
          (process_approvals-Pass env c busy' known _
            (record { covered = i.covered; unique = i.unique; settled = i.settled }))
          λ _ s' p. record {
            inv = p.inv;
            mono = λ k h. p.mono k (ground (arith, lookup-insert t.nid k st s.states, h));
            failed = p.failed;
          })

  fail-Finished :
      (e : Error) (output : Value) (s : Executor)
      → Ensures (λ _ s'. Finished c busy' s s') (fail env c t e output s)
  unfolding fail
  fail-Finished e output s =
      rw
        (persist-set_state c t.nid
          (record { status = Status.failed; output = output; params = none; error = some e }) s)
        tt

  judged-Finished :
      (output : Value) (check : Option Error) (s : Executor)
      → Inv c busy s
      → Ensures (λ _ s'. Finished c busy' s s') (judged env c t output check s)
  judged-Finished output none s inv = complete-Finished output s inv
  judged-Finished output (some e) s inv = fail-Finished e output s

  conclude-Finished :
      (o : Outcome) (s : Executor)
      → Inv c busy s
      → Ensures (λ _ s'. Finished c busy' s s') (conclude env c t o s)
  conclude-Finished (node_error e kept) s inv = fail-Finished e kept s
  conclude-Finished (completed output) s inv =
      Ensures-lift Any _ (check_answer env.python (env.tools s t.node) t.node.agent output) s
        (judged env c t output)
        (check_answer-Gives env.python (env.tools s t.node) t.node.agent output)
        λ check _ _. judged-Finished output check s inv

  finish_by-Finished :
      (w : Work) (s : Executor)
      → Inv c busy s
      → Ensures (λ _ s'. Finished c busy' s s') (finish_by env c t w s)
  finish_by-Finished (Work.known output) s inv = complete-Finished output s inv
  finish_by-Finished (call key) s inv =
      Ensures-continue (λ _ u. SameNodes s u) _ (run_with_retry env c t.node t.params key s)
        (conclude env c t) (run_with_retry-Keeps env c t.node t.params key s)
        λ o u same.
          Ensures-map (λ _ s'. Finished c busy' u s') _ (conclude env c t o u)
            (conclude-Finished o u (Inv-same u same.0 inv))
            λ _ s' f. record {
              inv = f.inv;
              mono = λ k h. f.mono k (rw same.0 h);
              failed = f.failed ∙ same.1;
            }

  pub finish_node-Finished :
      (s : Executor)
      → Inv c busy s
      → Ensures (λ _ s'. Finished c busy' s s') (finish_node env c t s)
  unfolding finish_node
  finish_node-Finished s inv = finish_by-Finished t.work s inv
