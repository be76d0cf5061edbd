-- ===== src/Executor/Frame/Waves.antt =====
-- The rows of the runs while nodes are executed, waves are run, and a run goes to its end.
use multi_agent_workflow.Prelude.{
  ℕ, zero, suc, ◌+◌, String, not, Option, none, some, List, [], refl, sym, subst, is_empty, Result,
  ok, raise, Error, Bool-cases, inl, inr, length, ◌≡◌,
}
use multi_agent_workflow.Prelude.Int.{rounds_after}
use multi_agent_workflow.Prelude.Dict.{lookup}
use multi_agent_workflow.Json.{Value, Fields}
use multi_agent_workflow.Core.Dag.{Node, running, is_pending}
use multi_agent_workflow.StateStore.Rows.{NodeState, Attempt}
use multi_agent_workflow.Executor.State.{Config, Executor, Action, set_state, state_of, or_missing}
use multi_agent_workflow.Executor.Environment.{Environment}
use multi_agent_workflow.Executor.Decision.{Decision, ready, skipped, blocked, node_decision}
use multi_agent_workflow.Executor.Params.{resolve_params}
use multi_agent_workflow.Executor.Verdict.{check_answer}
use multi_agent_workflow.Executor.Passes.{persist, mark_skipped, settle}
use multi_agent_workflow.Executor.Attempts.{
  Outcome, completed, node_error, attempt_once, attempts, execute_once, run_with_retry, invoke,
  missing_inputs, record_attempt, reuse,
}
use multi_agent_workflow.Executor.Node.{
  Task, Work, known, call, begin_node, start_by, start_node, complete, fail, judged, conclude,
  finish_by, finish_node, work_of, context, with_status, with_parameters,
}
use multi_agent_workflow.Executor.Wave.{
  Choice, idle, start, finish, choose, nids_of, carry_out, wave_from, wave,
}
use multi_agent_workflow.Executor.Run.{RunOutcome, Turn, stop, go, turn, run_from}
use multi_agent_workflow.Executor.Run.Once.{loop_once, take_turn, or_again, run_from-loop_once}
use multi_agent_workflow.Executor.Frame.{
  Leaves, Quiet, Leaves-continue, Leaves-lift, Leaves-if, Leaves-from, nothing, persist-Quiet,
  mark_skipped-Quiet, process_approvals-Quiet, settle-Quiet,
}

-- After a call that was written to the store: its answer, or the next round.
after_attempt :
    (s t : Executor) (again : Error → Action Outcome)
    → t.store.runs ≡ s.store.runs
    → ((e : Error) → Quiet (again e))
    → (r : Result Value)
    → Leaves {A = Outcome} s (elim r [ ok v ↦ (ok (completed v), t) | raise e ↦ again e t ])
after_attempt s t again e h (ok v) = record { runs = e }
after_attempt s t again e h (raise x) = Leaves-from s t _ e (h x t)

module _ (env : Environment) (c : Config) where
  module _ (n : Node) (params : Fields) (op : Option String) where
    attempts-Quiet :
        (rounds i : ℕ) (last : Option Error) → Quiet (attempts env c n params op rounds i last)
    unfolding attempts attempt_once record_attempt
    attempts-Quiet zero i last s = nothing s _
    attempts-Quiet (suc rounds) i last s =
        after_attempt s (attempt_once env c n params op i s).1
          (λ e. attempts env c n params op rounds (i + 1) (some e)) refl
          (λ e. attempts-Quiet rounds (i + 1) (some e)) (invoke env n params s)

    execute_once-Quiet : Quiet (execute_once env c n params op)
    unfolding execute_once
    execute_once-Quiet s = by (reuse env c n params op op s.store)
      where
        by :
            (o : Option Attempt)
            → Leaves {A = Outcome} s (elim o [
              | some a ↦ (ok (completed a.output), s)
              | none ↦ attempts env c n params op (rounds_after n.retry) 0 none s
            ])
        by none = attempts-Quiet (rounds_after n.retry) 0 none s
        by (some a) = nothing s _

    run_with_retry-Quiet : Quiet (run_with_retry env c n params op)
    unfolding run_with_retry
    run_with_retry-Quiet s = elim (Bool-cases (is_empty (missing_inputs n.require params))) [
      | inl e ↦ rw e (execute_once-Quiet s)
      | inr e ↦ rw e (nothing s _)
    ]

  begin_node-Quiet : (nid : String) (n : Node) (st : NodeState) → Quiet (begin_node env c nid n st)
  unfolding begin_node set_state
  begin_node-Quiet nid n st s =
      let marked = set_state nid (with_status running st) s in
      Leaves-from s marked _ refl (
        Leaves-lift marked (resolve_params (context c marked) n.params) _ λ params.
          Leaves-from marked
            (set_state nid (with_parameters params (with_status running st)) marked) _ refl
            (Leaves-continue _ (persist c nid _) _ (persist-Quiet c nid _)
              λ _ t. Leaves-lift t (work_of env c n t) _ λ w. nothing t _))

  start_by-Quiet :
      (nid : String) (n : Node) (st : NodeState) (d : Decision) → Quiet (start_by env c nid n st d)
  start_by-Quiet nid n st ready s = begin_node-Quiet nid n st s
  start_by-Quiet nid n st skipped s =
      Leaves-continue s (mark_skipped c nid s) _ (mark_skipped-Quiet c nid s) λ _ t. nothing t _
  start_by-Quiet nid n st blocked s = nothing s _

  start_node-Quiet : (nid : String) → Quiet (start_node env c nid)
  unfolding start_node
  start_node-Quiet nid s = Leaves-lift s (or_missing nid (lookup nid c.nodes)) _ λ n.
      Leaves-lift s (state_of nid s.states) _ λ st.
        Leaves-if s (not (is_pending st.status)) _ _ (nothing s _)
          (Leaves-lift s (node_decision env.python s.states n) _ λ d. start_by-Quiet nid n st d s)

  complete-Quiet : (t : Task) (output : Value) → Quiet (complete env c t output)
  unfolding complete set_state
  complete-Quiet t output s = Leaves-from s _ _ refl (
      Leaves-continue _ (persist c t.nid _) _ (persist-Quiet c t.nid _)
        λ _ u. process_approvals-Quiet env c u)

  fail-Quiet : (t : Task) (e : Error) (output : Value) → Quiet (fail env c t e output)
  unfolding fail set_state
  fail-Quiet t e output s = Leaves-from s _ _ refl (
      Leaves-continue _ (persist c t.nid _) _ (persist-Quiet c t.nid _)
        λ _ u. record { runs = refl })

  conclude-Quiet : (t : Task) (o : Outcome) → Quiet (conclude env c t o)
  conclude-Quiet t (node_error e kept) s = fail-Quiet t e kept s
  conclude-Quiet t (completed output) s =
      Leaves-lift s (check_answer env.python (env.tools s t.node) t.node.agent output) _
        λ verdict. by verdict
    where
      by : (v : Option Error) → Leaves s (judged env c t output v s)
      by none = complete-Quiet t output s
      by (some e) = fail-Quiet t e output s

  finish_node-Quiet : (t : Task) → Quiet (finish_node env c t)
  unfolding finish_node
  finish_node-Quiet t s = by t.work
    where
      by : (w : Work) → Leaves s (finish_by env c t w s)
      by (known output) = complete-Quiet t output s
      by (call key) =
          Leaves-continue s (run_with_retry env c t.node t.params key s) _
            (run_with_retry-Quiet t.node t.params key s) λ o u. conclude-Quiet t o u

  carry_out-Quiet :
      (rest : List String → List Task → Action (Unit {0})) (nids : List String) (ts : List Task)
      (k : Choice)
      → ((ns : List String) (us : List Task) → Quiet (rest ns us))
      → Quiet (carry_out env c rest nids ts k)
  carry_out-Quiet rest nids ts idle h s = nothing s _
  carry_out-Quiet rest nids ts (start nid later) h s =
      Leaves-continue s (start_node env c nid s) _ (start_node-Quiet nid s) λ o t. h later _ t
  carry_out-Quiet rest nids ts (finish t others) h s =
      Leaves-continue s (finish_node env c t s) _ (finish_node-Quiet t s) λ _ u. h nids others u

  wave_from-Quiet :
      (fuel : ℕ) (nids : List String) (ts : List Task) → Quiet (wave_from env c fuel nids ts)
  unfolding wave_from
  wave_from-Quiet zero nids ts s = nothing s _
  wave_from-Quiet (suc fuel) nids ts s =
      carry_out-Quiet (wave_from env c fuel) nids ts (choose (env.pick s nids (nids_of ts)) nids ts)
        (wave_from-Quiet fuel) s

  take_turn-Quiet : (s : Executor) (k : Turn) → Leaves s (take_turn env c s k)
  unfolding wave
  take_turn-Quiet s (stop (ok o)) = record { runs = refl }
  take_turn-Quiet s (stop (raise e)) = record { runs = refl }
  take_turn-Quiet s (go nids) =
      Leaves-continue s (wave env c nids s) _ (wave_from-Quiet _ nids [] s)
        λ _ t. record { runs = refl }

  pub loop_once-Quiet : Quiet (loop_once env c)
  unfolding loop_once
  loop_once-Quiet s =
      Leaves-continue s (settle env c (suc (length c.nodes)) s) _
        (settle-Quiet env c (suc (length c.nodes)) s) λ _ t. take_turn-Quiet t (turn env c t)

  or_again-Quiet :
      (again : Action RunOutcome) → Quiet again → (o : Option RunOutcome) → Quiet (or_again again o)
  or_again-Quiet again h none s = h s
  or_again-Quiet again h (some o) s = record { runs = refl }

  -- A run leaves the rows of the runs as they are, also when it raises.
  pub run_from-Quiet : (fuel : ℕ) → Quiet (run_from env c fuel)
  unfolding run_from
  run_from-Quiet zero s = record { runs = refl }
  run_from-Quiet (suc fuel) s =
      subst (Leaves {A = RunOutcome} s) (sym (run_from-loop_once env c fuel s)) (
        Leaves-continue s (loop_once env c s) (or_again (run_from env c fuel)) (loop_once-Quiet s)
          (or_again-Quiet (run_from env c fuel) (run_from-Quiet fuel)))
