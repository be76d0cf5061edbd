-- ===== src/Worker/Cancels.antt =====
-- The checkpoints after a cancellation (`_mark_cancelled`).
use multi_agent_workflow.Prelude.{
  String, Bool, true, Option, none, some, [], ◌∷◌, ◌==◌, ◌≡◌, refl, sym, ap, subst, ◌∙◌, arith,
  eq_iff, is_some, if◌then◌else◌, Result, ok,
}
use multi_agent_workflow.Prelude.Dict.{
  Dict, lookup, insert, lookup-insert, lookup-insert_same, Unique,
}
use multi_agent_workflow.Core.Dag.{Dag, is_terminal}
use multi_agent_workflow.StateStore.Rows.{Run, NodeState, Checkpoint}
use multi_agent_workflow.StateStore.Rows as Rows
use multi_agent_workflow.StateStore.Memory.{Store, run_nodes, put_node, update_run}
use multi_agent_workflow.Executor.State.{Config, Executor, init, fresh_state}
use multi_agent_workflow.Executor.Resume.{resume_executor, from_checkpoint, restored}
use multi_agent_workflow.Executor.Resume.Restores.{
  restored_at, from_checkpoint-restored, from_checkpoint-Unique, init-lookup,
}
use multi_agent_workflow.Executor.Resume.Loaded.{resume_executor-Restores}
use multi_agent_workflow.Worker.Claims.{cancel_nodes-runs}
use multi_agent_workflow.Worker.{cancelled_state, cancel_nodes, mark_cancelled}

-- The checkpoint that a cancellation leaves, given the one before it and the executor's state.
abbrev cancelled_row : String → Option NodeState → Option Checkpoint → Option Checkpoint
cancelled_row tenant none row = row
cancelled_row tenant (some st) row =
    if is_terminal st.status
    then row
    else some (record { state = cancelled_state; tenant_id = some tenant })

module _ (run_id tenant : String) where
  pub run_nodes-put_node :
      (nid k : String) (st : NodeState) (s : Store)
      → lookup k (run_nodes run_id (put_node run_id tenant nid st s)) ≡ (
          if nid == k
          then some (record { state = st; tenant_id = some tenant })
          else lookup k (run_nodes run_id s))
  unfolding put_node
  run_nodes-put_node nid k st s =
      ap (λ o. lookup k (elim o as (λ _. Dict Checkpoint) [ none ↦ [] | some nodes ↦ nodes ]))
        (lookup-insert_same run_id
          (insert nid (record { state = st; tenant_id = some tenant }) (run_nodes run_id s))
          s.nodes)
      ∙ lookup-insert nid k _ (run_nodes run_id s)

  cancel_nodes-lookup :
      (k : String) (states : Dict NodeState) (s : Store)
      → Unique states
      → lookup k (run_nodes run_id (cancel_nodes run_id tenant states s))
        ≡ cancelled_row tenant (lookup k states) (lookup k (run_nodes run_id s))
  unfolding cancel_nodes lookup
  cancel_nodes-lookup k [] s u = refl
  cancel_nodes-lookup k ((nid, st) ∷ states) s u =
      let next =
        if is_terminal st.status then s else put_node run_id tenant nid cancelled_state s in
      let rest = cancel_nodes-lookup k states next u.1 in
      ground (arith, rest, u.0, eq_iff nid k, run_nodes-put_node nid k cancelled_state s)

abbrev node_cancelled : String → Option Checkpoint → Option Checkpoint
node_cancelled tenant none = some (record { state = cancelled_state; tenant_id = some tenant })
node_cancelled tenant (some cp) =
    if is_terminal cp.state.status
    then some cp
    else some (record { state = cancelled_state; tenant_id = some tenant })

restored-terminal : (cp : NodeState) → is_terminal (restored cp).status ≡ is_terminal cp.status
unfolding restored
restored-terminal cp = ground arith

-- What the executor restores for a node of the graph.
abbrev row_state : Option Checkpoint → NodeState
row_state none = fresh_state
row_state (some cp) = restored cp.state

restored_row :
    (c : Config) (s : Store) (k : String)
    → is_some (lookup k c.nodes) ≡ true
    → Unique (run_nodes c.run_id s)
    → lookup k (from_checkpoint c s).states ≡ some (row_state (lookup k (run_nodes c.run_id s)))
restored_row c s k known u = from_checkpoint-restored c s k u ∙ by (lookup k (run_nodes c.run_id s))
  where
    by : (o : Option Checkpoint) → restored_at c o (lookup k (init c s).states) ≡ some (row_state o)
    by none = init-lookup c s k known
    by (some cp) = refl

cancelled_row-restored :
    (tenant : String) (o : Option Checkpoint)
    → cancelled_row tenant (some (row_state o)) o ≡ node_cancelled tenant o
cancelled_row-restored tenant none = refl
cancelled_row-restored tenant (some cp) = rw (restored-terminal cp.state) refl

module _ (has_lock : Bool) (load : String → Result Dag) (run_id tenant : String) (s : Store) where
  -- After the cancellation of a run that is rebuilt from its snapshot, the row of the run says
  -- `cancelled`, the checkpoint of a node that had ended is as it was, and every other node of the
  -- graph, with or without a checkpoint, is `cancelled`, without an output or an error. The nodes
  -- of the graph, and the checkpoints, have different ids.
  pub mark_cancelled-Cancelled :
      (c : Config) (ex : Executor) (run : Run) (k : String)
      → lookup run_id s.runs ≡ some run
      → run.tenant_id ≡ some tenant
      → resume_executor load run_id tenant s ≡ ok (c, ex)
      → Unique c.nodes
      → Unique (run_nodes run_id s)
      → is_some (lookup k c.nodes) ≡ true
      → (lookup run_id (mark_cancelled has_lock load run_id s).1.runs
          ≡ some (record run { status = some Rows.cancelled }))
        × (lookup k (run_nodes run_id (mark_cancelled has_lock load run_id s).1)
            ≡ node_cancelled tenant (lookup k (run_nodes run_id s)))
  unfolding mark_cancelled update_run
  mark_cancelled-Cancelled c ex run k row owner resumed u v known =
      let (back, same) = resume_executor-Restores load run_id tenant s c ex resumed in
      let unique : Unique ex.states =
        subst (λ x. Unique x.states) (sym back) (from_checkpoint-Unique c s u) in
      let state : lookup k ex.states ≡ some (row_state (lookup k (run_nodes run_id s))) =
        ap (λ x. lookup k x.states) back
        ∙ restored_row c s k known (subst (λ r. Unique (run_nodes r s)) (sym same) v)
        ∙ ap (λ r. some (row_state (lookup k (run_nodes r s)))) same in
      let runs = cancel_nodes-runs run_id tenant ex.states s in
      rw (row, owner, resumed, mark_cancelled)
        (
          lookup-insert_same run_id _ _
              ∙ rw (runs, row)
                  (ap (λ t. some (record run { tenant_id = t; status = some Rows.cancelled }))
                    owner),
          cancel_nodes-lookup run_id tenant k ex.states s unique
              ∙ ap (λ o. cancelled_row tenant o (lookup k (run_nodes run_id s))) state
              ∙ cancelled_row-restored tenant (lookup k (run_nodes run_id s)),
        )
