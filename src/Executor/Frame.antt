-- ===== src/Executor/Frame.antt =====
-- What the executor (agentflow/executor/dag_executor.py) leaves alone in the store: the rows of the
-- runs.
pub mod Waves
use multi_agent_workflow.Prelude.{
  ℕ, zero, suc, ◌+◌, String, Bool, true, false, not, Option, none, some, List, [], ◌∷◌, ◌≡◌, refl,
  ◌∙◌, is_empty, Result, ok, raise, Error, Bool-cases, inl, inr, if◌then◌else◌, length,
}
use multi_agent_workflow.Prelude.Int.{rounds_after}
use multi_agent_workflow.Prelude.Dict.{Dict, lookup}
use multi_agent_workflow.Json.{Value, Fields, get}
use multi_agent_workflow.Core.Dag.{Node, is_pending, is_approval}
use multi_agent_workflow.StateStore.Rows.{NodeState, Attempt}
use multi_agent_workflow.StateStore.Memory.{put_node}
use multi_agent_workflow.StateStore.Approvals.{create_approval}
use multi_agent_workflow.Executor.State.{
  Config, Executor, Action, continue, ◌>>=◌, ◌>>◌, pure, lift, gets, modify, set_state, state_of,
  or_missing,
}
use multi_agent_workflow.Executor.Environment.{Environment}
use multi_agent_workflow.Executor.Decision.{
  Decision, ready, skipped, blocked, node_decision, halt_triggered,
}
use multi_agent_workflow.Executor.Passes.{
  seconds, approvers_of, approval_by, skip_by, for_nodes, persist, mark_skipped, open_approval,
  act_on, approval_step, skip_step, halt_step, process_approvals, process_skips, settle,
  same_statuses,
}

-- The rows of the runs are the same after an action, whether or not it raises.
pub record Leaves {ℓ} {A : Type ℓ} (s : Executor) (r : Result A × Executor) : Type 0 where
  pub runs : r.1.store.runs ≡ s.store.runs

abbrev pub Quiet {ℓ} : {A : Type ℓ} → Action A → Type 0
Quiet m = (s : Executor) → Leaves s (m s)

module _ {ℓ κ} {A : Type ℓ} {B : Type κ} where
  pub Leaves-continue :
      (s : Executor) (r : Result A × Executor) (f : A → Action B)
      → Leaves s r
      → ((a : A) (t : Executor) → Leaves t (f a t))
      → Leaves s (continue f r)
  Leaves-continue s (ok a, t) f h k = record { runs = (k a t).runs ∙ h.runs }
  Leaves-continue s (raise e, t) f h k = record { runs = h.runs }

  pub Leaves-lift :
      (s : Executor) (r : Result A) (f : A → Action B)
      → ((a : A) → Leaves s (f a s))
      → Leaves s (continue f (r, s))
  Leaves-lift s (ok a) f k = k a
  Leaves-lift s (raise e) f k = record { runs = refl }

pub Leaves-if {ℓ} :
    {A : Type ℓ} (s : Executor) (b : Bool) (m k : Action A)
    → Leaves s (m s)
    → Leaves s (k s)
    → Leaves s ((if b then m else k) s)
Leaves-if s true m k h i = h
Leaves-if s false m k h i = i

-- An action on an executor with the same rows.
pub Leaves-from {ℓ} :
    {A : Type ℓ} (s t : Executor) (r : Result A × Executor)
    → t.store.runs ≡ s.store.runs
    → Leaves t r
    → Leaves s r
Leaves-from s t r e h = record { runs = h.runs ∙ e }

pub nothing : {A : Type 0} (s : Executor) (r : Result A) → Leaves s (r, s)
nothing s r = record { runs = refl }

pub for_nodes-Quiet :
    (step : String → Node → Action (Unit {0})) (nodes : Dict Node)
    → ((nid : String) (n : Node) → Quiet (step nid n))
    → Quiet (for_nodes step nodes)
unfolding for_nodes
for_nodes-Quiet step [] h s = nothing s (ok tt)
for_nodes-Quiet step ((nid, n) ∷ nodes) h s =
    Leaves-continue s (step nid n s) _ (h nid n s) λ _ t. for_nodes-Quiet step nodes h t

pub persist-Quiet : (c : Config) (nid : String) → Quiet (persist c nid)
unfolding persist put_node
persist-Quiet c nid s = Leaves-lift s (state_of nid s.states) _ λ cp. record { runs = refl }

pub mark_skipped-Quiet : (c : Config) (nid : String) → Quiet (mark_skipped c nid)
unfolding mark_skipped set_state
mark_skipped-Quiet c nid s = record { runs = (persist-Quiet c nid _).runs }

module _ (env : Environment) (c : Config) where
  open_approval-Quiet : (nid : String) (n : Node) → Quiet (open_approval env c nid n)
  unfolding open_approval set_state create_approval
  open_approval-Quiet nid n s =
      Leaves-lift s (seconds env.python (get "timeout" n.params)) _ λ timeout.
        Leaves-from s _ _ refl (
          Leaves-continue _ (persist c nid _) _ (persist-Quiet c nid _) λ _ t.
            Leaves-lift t (approvers_of env.python (get "approvers" n.params)) _
              λ approvers. record { runs = refl })

  act_on-Quiet :
      (nid : String) (n : Node) (act : Decision → Action (Unit {0}))
      → ((d : Decision) → Quiet (act d))
      → Quiet (act_on env c nid n act)
  unfolding act_on
  act_on-Quiet nid n act h s = Leaves-lift s (state_of nid s.states) _ λ st.
      Leaves-if s (not (is_pending st.status)) _ _ (nothing s (ok tt))
        (Leaves-lift s (node_decision env.python s.states n) act λ d. h d s)

  approval_step-Quiet : (nid : String) (n : Node) → Quiet (approval_step env c nid n)
  unfolding approval_step
  approval_step-Quiet nid n s =
      Leaves-if s (not (is_approval n)) _ _ (nothing s (ok tt)) (act_on-Quiet nid n _ by s)
    where
      by : (d : Decision) → Quiet (approval_by env c nid n d)
      by skipped t = mark_skipped-Quiet c nid t
      by ready t = open_approval-Quiet nid n t
      by blocked t = nothing t (ok tt)

  skip_step-Quiet : (nid : String) (n : Node) → Quiet (skip_step env c nid n)
  unfolding skip_step
  skip_step-Quiet nid n s =
      Leaves-if s (is_approval n) _ _ (nothing s (ok tt)) (act_on-Quiet nid n _ by s)
    where
      by : (d : Decision) → Quiet (skip_by env c nid d)
      by skipped t = mark_skipped-Quiet c nid t
      by ready t = nothing t (ok tt)
      by blocked t = nothing t (ok tt)

  halt_step-Quiet : (nid : String) (n : Node) → Quiet (halt_step env c nid n)
  unfolding halt_step
  halt_step-Quiet nid n s =
      Leaves-lift s (state_of nid s.states) _ λ st.
        Leaves-if s (is_pending st.status) _ _ (mark_skipped-Quiet c nid s) (nothing s (ok tt))

  pub process_approvals-Quiet : Quiet (process_approvals env c)
  unfolding process_approvals
  process_approvals-Quiet = for_nodes-Quiet (approval_step env c) c.nodes approval_step-Quiet

  process_skips-Quiet : Quiet (process_skips env c)
  unfolding process_skips
  process_skips-Quiet s = elim (Bool-cases (halt_triggered c.nodes s.states)) [
    | inl e ↦ rw e (for_nodes-Quiet (halt_step env c) c.nodes halt_step-Quiet s)
    | inr e ↦ rw e (for_nodes-Quiet (skip_step env c) c.nodes skip_step-Quiet s)
  ]

  pub settle-Quiet : (fuel : ℕ) → Quiet (settle env c fuel)
  unfolding settle
  settle-Quiet zero s = nothing s _
  settle-Quiet (suc fuel) s =
      Leaves-continue s _ _
        (Leaves-continue s (process_approvals env c s) _ (process_approvals-Quiet s)
          λ _ t. process_skips-Quiet t)
        λ _ t. elim (Bool-cases (same_statuses s.states t.states)) [
          | inl e ↦ rw e (nothing t (ok tt))
          | inr e ↦ rw e (settle-Quiet fuel t)
        ]
