-- ===== src/Executor/Approve/Effect.antt =====
-- What `DAGExecutor.approve` changes.
use multi_agent_workflow.Prelude.{
  String, Bool, true, false, Option, none, some, List, [], ◌∷◌, ◌==◌, ◌≡◌, refl, arith, eq_refl,
  is_some, All, map, if◌then◌else◌, Result, ok, raise, ap, Bool-cases, Option-cases, inl, inr,
}
use multi_agent_workflow.Prelude.Dict.{lookup, insert, lookup-insert, Entries-lookup}
use multi_agent_workflow.Json.{Value, Fields, end, put}
use multi_agent_workflow.Core.Dag.{Node, Edge, is_approval, is_waiting}
use multi_agent_workflow.StateStore.Rows.{NodeState, Approval, Checkpoint}
use multi_agent_workflow.StateStore.Memory.{Store, run_nodes, put_node}
use multi_agent_workflow.StateStore.Approvals.{approval_key, get_approval, cas_update_approval}
use multi_agent_workflow.StateStore.Approvals.Cas.{Decision, decide}
use multi_agent_workflow.Executor.State.{Config, Executor, Action, continue, or_missing, state_of}
use multi_agent_workflow.Executor.Environment.{Environment}
use multi_agent_workflow.Executor.Ensures.{Proper, Gives}
use multi_agent_workflow.Executor.Invariant.{Covered, IsClosed, state_of-found}
use multi_agent_workflow.Executor.Passes.Progress.{persist-set_state}
use multi_agent_workflow.Executor.Approve.{
  verdict_of, upstream_output, verdict, decided_state, race, settle_approval, approve,
}

-- All or nothing: an exception leaves the executor as it was.
abbrev pub Atomic {ℓ} :
    {A : Type ℓ} → Executor → (A → Executor → Type 0) → Result A × Executor → Type 0
Atomic s Q (ok a, s') = Q a s'
Atomic s Q (raise e, s') = Proper e × (s' ≡ s)

Atomic-lift {ℓ κ} :
    {A : Type ℓ} {B : Type κ} (Q : A → Type 0) (R : B → Executor → Type 0) (r : Result A)
    (s : Executor) (f : A → Action B)
    → Gives Q r
    → ((a : A) → r ≡ ok a → Q a → Atomic s R (f a s))
    → Atomic s R (continue f (r, s))
Atomic-lift Q R (ok a) s f g k = k a refl g
Atomic-lift Q R (raise e) s f g k = (g, refl)

-- The decision as an attempt on the approval's row.
abbrev pub decision_of :
    Environment → Config → String → Bool → String → String → Executor → Decision
decision_of env c nid approved by comment s = record {
  time = env.clock s;
  approval_id = approval_key c.run_id nid;
  to = verdict_of approved;
  by = some by;
  comment = some comment;
}

lost_decide : (d : Decision) (s : Store) → (decide d s).1 ≡ false → (decide d s).0 ≡ s
unfolding decide cas_update_approval
lost_decide d s h = go (lookup d.approval_id s.approvals) refl
  where
    go : (o : Option Approval) → lookup d.approval_id s.approvals ≡ o → (decide d s).0 ≡ s
    go none e = ground arith
    go (some row) e = ground arith

-- What an accepted decision did.
pub record Approved (env : Environment) (c : Config) (nid : String) (approved : Bool)
    (by comment : String) (s : Executor) (output : Value) (s' : Executor) : Type 0 where
  pub node : Node
  pub found : lookup nid c.nodes ≡ some node
  pub asks : is_approval node ≡ true
  pub before : NodeState
  pub was : lookup nid s.states ≡ some before
  pub waited : is_waiting before.status ≡ true
  pub won : (decide (decision_of env c nid approved by comment s) s.store).1 ≡ true
  pub row :
      s'.store.approvals
      ≡ (decide (decision_of env c nid approved by comment s) s.store).0.approvals
  pub state : lookup nid s'.states ≡ some (decided_state approved output node)
  pub checkpoint :
      lookup nid (run_nodes c.run_id s'.store)
      ≡ some (record { state = decided_state approved output node; tenant_id = some c.tenant_id })
  pub others : (k : String) → (nid == k) ≡ false → lookup k s'.states ≡ lookup k s.states

module _ (c : Config) where
  pub checkpoint_found :
      (nid : String) (st : NodeState) (store : Store)
      → lookup nid (run_nodes c.run_id (put_node c.run_id c.tenant_id nid st store))
        ≡ some (record { state = st; tenant_id = some c.tenant_id })
  unfolding put_node
  checkpoint_found nid st store =
      let row : Checkpoint = record { state = st; tenant_id = some c.tenant_id } in
      let nodes = run_nodes c.run_id store in
      ground (
        arith,
        lookup-insert c.run_id c.run_id (insert nid row nodes) store.nodes,
        lookup-insert nid nid row nodes,
        eq_refl c.run_id,
        eq_refl nid,
      )

module _ (env : Environment) (c : Config) (s : Executor) (covered : Covered c s) where
  -- Every source of an edge has a state to read the output from.
  upstream_output-ok :
      (es : List Edge) (fs : Fields)
      → All (λ (e : Edge). is_some (lookup e.source c.nodes) ≡ true) es
      → (out : Fields) × (upstream_output s.states (map (λ e. e.source) es) fs ≡ ok out)
  unfolding upstream_output state_of
  upstream_output-ok [] fs known = (fs, refl)
  upstream_output-ok (e ∷ es) fs known = elim (Option-cases (lookup e.source s.states)) [
    | inl missing ↦ absurd (ground (arith, missing, covered e.source, known.0))
    | inr (st, there) ↦
        rw (there, upstream_output) (upstream_output-ok es (put e.source st.output fs) known.1)
  ]

  module _ (nid : String) (approved : Bool) (by comment : String) where
    abbrev decision : Decision
    decision = decision_of env c nid approved by comment s

    abbrev decided_store : Executor
    decided_store = record s { store = (decide decision s.store).0 }

    module _ (n : Node) (found : lookup nid c.nodes ≡ some n) (a : is_approval n ≡ true)
        (st : NodeState) (was : lookup nid s.states ≡ some st)
        (w : is_waiting st.status ≡ true) where
      settled-Approved :
          (v : Value)
          → (decide decision s.store).1 ≡ true
          → Approved env c nid approved by comment s v (record s {
            states = insert nid (decided_state approved v n) s.states;
            store =
                put_node c.run_id c.tenant_id nid
                  (decided_state approved v n)
                  (decide decision s.store).0;
          })
      unfolding put_node
      settled-Approved v won = record {
        node = n;
        found = found;
        asks = a;
        before = st;
        was = was;
        waited = w;
        won = won;
        row = refl;
        state =
            ground
              (arith, lookup-insert nid nid (decided_state approved v n) s.states, eq_refl nid);
        checkpoint =
            checkpoint_found c nid (decided_state approved v n) (decide decision s.store).0;
        others =
            λ k ne. ground (arith, lookup-insert nid k (decided_state approved v n) s.states, ne);
      }

      settle_approval-Approved :
          All (λ (e : Edge). is_some (lookup e.source c.nodes) ≡ true) n.in_edges
          → (decide decision s.store).1 ≡ true
          → Atomic s
              (λ v s'. Approved env c nid approved by comment s v s')
              (settle_approval env c nid n approved by comment decided_store)
      unfolding settle_approval
      settle_approval-Approved known won =
          let (fs, e) = upstream_output-ok n.in_edges end known in
          rw
            (
              e,
              persist-set_state c nid (decided_state approved (verdict approved by comment fs) n)
                  decided_store,
            )
            (settled-Approved (verdict approved by comment fs) won)

      abbrev finish : Bool → Result Value × Executor
      finish won =
          (if won then settle_approval env c nid n approved by comment else λ t.
          (raise (race nid (get_approval c.run_id nid t.store)), t))
            decided_store

      -- After the update of the row, won or lost.
      updated-Atomic :
          All (λ (e : Edge). is_some (lookup e.source c.nodes) ≡ true) n.in_edges
          → (won : Bool) → (decide decision s.store).1 ≡ won
          → Atomic s (λ v s'. Approved env c nid approved by comment s v s') (finish won)
      updated-Atomic known true e = settle_approval-Approved known e
      updated-Atomic known false e =
          (tt, ap (λ x. record s { store = x }) (lost_decide decision s.store e))

    found_node : (o : Option Node) → is_some o ≡ true → Gives (λ n. o ≡ some n) (or_missing nid o)
    found_node none h = cc
    found_node (some n) h = refl

    -- A decision that is accepted ends a waiting approval: the row's update was won, the node is
    -- done or rejected, its checkpoint says so, and no other node changed. A decision that is
    -- refused changes nothing. The node is one of the graph, the edges of the graph start at its
    -- nodes, and exactly the nodes of the graph have a state; the other nodes may be running or
    -- have failed.
    pub approve-Atomic :
        IsClosed c
        → is_some (lookup nid c.nodes) ≡ true
        → Atomic s
            (λ v s'. Approved env c nid approved by comment s v s')
            (approve env c nid approved by comment s)
    unfolding approve decide
    approve-Atomic known there =
        Atomic-lift (λ n. lookup nid c.nodes ≡ some n) _ (or_missing nid (lookup nid c.nodes)) s _
          (found_node (lookup nid c.nodes) there)
          λ n _ found. elim (Bool-cases (is_approval n)) [
            | inr a ↦ rw a (tt, refl)
            | inl a ↦ rw a (
                Atomic-lift (λ st. lookup nid s.states ≡ some st) _ (state_of nid s.states) s _
                  (state_of-found c nid s covered there)
                  λ st _ was. elim (Bool-cases (is_waiting st.status)) [
                    | inr w ↦ rw w (tt, refl)
                    | inl w ↦ rw w (
                        updated-Atomic n found a st was w
                          (Entries-lookup _ nid n c.nodes known found) (decide decision s.store).1
                          refl)
                  ])
          ]
