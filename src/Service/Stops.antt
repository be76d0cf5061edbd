-- ===== src/Service/Stops.antt =====
-- The nodes of a run that is stopped in the process of the service (`_mark_cancelled`, `stop_run`).
use multi_agent_workflow.Prelude.{
  String, Bool, ◌||◌, Option, none, some, [], ◌∷◌, ◌≡◌, refl, ap, ◌∙◌, arith, eq_iff, if◌then◌else◌,
  Bool-cases, inl, inr,
}
use multi_agent_workflow.Prelude.Dict.{Dict, lookup, lookup-insert_same, Unique}
use multi_agent_workflow.Core.Dag.{is_terminal, is_failed}
use multi_agent_workflow.StateStore.Rows.{RunStatus, Run, NodeState, Checkpoint}
use multi_agent_workflow.StateStore.Rows as Rows
use multi_agent_workflow.StateStore.Memory.{Store, update_run, put_node, run_nodes, or_blank}
use multi_agent_workflow.Worker.{Job, cancelled_state}
use multi_agent_workflow.Worker.Cancels.{run_nodes-put_node}
use multi_agent_workflow.Service.State.{Service, cancel_states, mark_cancelled}

-- A node that has ended or failed stays as it is.
abbrev pub is_kept : NodeState → Bool
is_kept st = is_terminal st.status || is_failed st.status

abbrev pub state_after : Option NodeState → Option NodeState
state_after none = none
state_after (some st) = some (if is_kept st then st else cancelled_state)

abbrev pub row_after : String → Option NodeState → Option Checkpoint → Option Checkpoint
row_after tenant none row = row
row_after tenant (some st) row =
    if is_kept st then row else some (record { state = cancelled_state; tenant_id = some tenant })

abbrev pub state_in : String → Option Job → Option NodeState
state_in k none = none
state_in k (some job) = lookup k job.executor.states

module _ (run_id tenant k : String) where
  cancel_states-state :
      (states : Dict NodeState) (s : Store)
      → lookup k (cancel_states run_id tenant states s).0 ≡ state_after (lookup k states)
  unfolding cancel_states lookup
  cancel_states-state [] s = refl
  cancel_states-state ((nid, st) ∷ states) s = ground (
    arith,
    cancel_states-state states
        (if is_kept st then s else put_node run_id tenant nid cancelled_state s),
  )

  cancel_states-row :
      (states : Dict NodeState) (s : Store)
      → Unique states
      → lookup k (run_nodes run_id (cancel_states run_id tenant states s).1)
        ≡ row_after tenant (lookup k states) (lookup k (run_nodes run_id s))
  unfolding cancel_states lookup
  cancel_states-row [] s u = refl
  cancel_states-row ((nid, st) ∷ states) s u =
      let next = if is_kept st then s else put_node run_id tenant nid cancelled_state s in
      ground (
        arith,
        cancel_states-row states next u.1,
        u.0,
        eq_iff nid k,
        run_nodes-put_node run_id tenant nid k cancelled_state s,
      )

  cancel_states-runs :
      (states : Dict NodeState) (s : Store) → (cancel_states run_id tenant states s).1.runs ≡ s.runs
  unfolding cancel_states put_node
  cancel_states-runs [] s = refl
  cancel_states-runs ((nid, st) ∷ states) s = elim (Bool-cases (is_kept st)) [
    | inl e ↦ rw (e, cancel_states) (cancel_states-runs states s)
    | inr e ↦
        rw (e, cancel_states)
          (cancel_states-runs states (put_node run_id tenant nid cancelled_state s))
  ]

-- After a stop the row of the run says `cancelled`; a node that had ended or had failed keeps its
-- state, its error and its checkpoint, and every other node of the executor is `cancelled`, in the
-- executor and in its checkpoint. The executor has one state for each node.
pub mark_cancelled-Stopped :
    (run_id k : String) (job : Job) (svc : Service)
    → Unique job.executor.states
    → (lookup run_id (mark_cancelled run_id job svc).store.runs
        ≡ some (record (or_blank (lookup run_id svc.store.runs)) { status = some Rows.cancelled }))
      × (lookup k (run_nodes run_id (mark_cancelled run_id job svc).store)
          ≡ row_after job.config.tenant_id
              (lookup k job.executor.states)
              (lookup k (run_nodes run_id svc.store)))
      × (state_in k (lookup run_id (mark_cancelled run_id job svc).executors)
          ≡ state_after (lookup k job.executor.states))
unfolding mark_cancelled update_run
mark_cancelled-Stopped run_id k job svc u =
    let tenant = job.config.tenant_id in
    let states = job.executor.states in
    (
      lookup-insert_same run_id _ _
          ∙ ap
              (λ runs.
                some (record (or_blank (lookup run_id runs)) { status = some Rows.cancelled }))
              (cancel_states-runs run_id tenant k states svc.store),
      cancel_states-row run_id tenant k states svc.store u,
      ap (state_in k) (lookup-insert_same run_id _ svc.executors)
          ∙ cancel_states-state run_id tenant k states svc.store,
    )
