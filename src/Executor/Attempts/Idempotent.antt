-- ===== src/Executor/Attempts/Idempotent.antt =====
-- Repeating `execute_with_idempotency` for a node that has an operation id.
use multi_agent_workflow.Prelude.{
  ℕ, zero, suc, ◌+◌, String, false, Option, none, some, [], ◌∷◌, ◌==◌, ◌≡◌, refl, ◌∙◌, arith,
  eq_refl, if◌then◌else◌, Result, ok, raise, Error, sym, ap, subst,
}
use multi_agent_workflow.Prelude.Int.{rounds_after}
use multi_agent_workflow.Prelude.Dict.{Dict, insert}
use multi_agent_workflow.Json.{Value, Fields}
use multi_agent_workflow.Core.Dag.{Node}
use multi_agent_workflow.StateStore.Rows.{Attempt}
use multi_agent_workflow.Executor.State.{Config, Executor}
use multi_agent_workflow.Executor.Environment.{Environment}
use multi_agent_workflow.Executor.Attempts.{
  Outcome, completed, node_error, matches, find_success, get_succeeded_attempt, record_attempt,
  attempt_once, attempts, attempt_row, out_of_rounds, on_error, reuse, execute_once, invoke,
}

module _ (run_id node_id op : String) where
  find_success-insert :
      (id : String) (a : Attempt) (rows : Dict Attempt)
      → find_success run_id node_id op rows ≡ none
      → find_success run_id node_id op (insert id a rows)
        ≡ (if matches run_id node_id op a then some a else none)
  unfolding find_success insert
  find_success-insert id a [] h = refl
  find_success-insert id a ((k, b) ∷ rows) h = ground (arith, find_success-insert id a rows)

module _ (env : Environment) (c : Config) (n : Node) (params : Fields) (key : String)
    (strict : (n.on_failure == "continue") ≡ false) where
  abbrev found : Executor → Option Attempt
  found s = find_success c.run_id n.id key s.store.attempts

  -- An output that was computed is recorded.
  abbrev Recorded : Result Outcome × Executor → Type 0
  Recorded (ok (completed v), s) = (a : Attempt) × (found s ≡ some a) × (a.output ≡ v)
  Recorded (ok (node_error e v), s) = Unit
  Recorded (raise e, s) = Unit

  out_of_rounds-Recorded :
      (last : Option Error) (s : Executor)
      → Recorded (out_of_rounds env c n params (some key) last, s)
  unfolding on_error
  out_of_rounds-Recorded none s = tt
  out_of_rounds-Recorded (some e) s = rw strict tt

  abbrev call_from : ℕ → ℕ → Error → Executor → Result Outcome × Executor
  call_from rounds i e t = attempts env c n params (some key) rounds (i + 1) (some e) t

  after_attempt :
      (rounds i : ℕ) (s t : Executor)
      → ((e : Error) → found t ≡ none → Recorded (call_from rounds i e t))
      → (r : Result Value)
      → found t ≡ (
          if matches c.run_id n.id key (attempt_row env c n params (some key) i r)
          then some (attempt_row env c n params (some key) i r)
          else none)
      → Recorded (elim r [ ok v ↦ (ok (completed v), t) | raise e ↦ call_from rounds i e t ])
  after_attempt rounds i s t again (ok v) f = (
    attempt_row env c n params (some key) i (ok v),
    ground (arith, f, eq_refl c.run_id, eq_refl n.id, eq_refl key),
    refl,
  )
  after_attempt rounds i s t again (raise e) f = again e (ground (arith, f))

  attempts-Recorded :
      (rounds i : ℕ) (last : Option Error) (s : Executor)
      → found s ≡ none
      → Recorded (attempts env c n params (some key) rounds i last s)
  unfolding attempts attempt_once record_attempt
  attempts-Recorded zero i last s h = out_of_rounds-Recorded last s
  attempts-Recorded (suc rounds) i last s h =
      after_attempt rounds i s (attempt_once env c n params (some key) i s).1
        (λ e g.
          attempts-Recorded rounds (i + 1) (some e) (attempt_once env c n params (some key) i s).1
            g)
        (invoke env n params s)
        (find_success-insert c.run_id n.id key (env.execution_id s n.id i)
          (attempt_row env c n params (some key) i (invoke env n params s)) s.store.attempts h)

  module _ (keyed : (key == "") ≡ false) where
    reuse_found : (s : Executor) → reuse env c n params (some key) (some key) s.store ≡ found s
    unfolding get_succeeded_attempt
    reuse_found s = rw keyed refl

    abbrev by_reuse : Executor → Option Attempt → Result Outcome × Executor
    by_reuse s o = elim o [
      | some a ↦ (ok (completed a.output), s)
      | none ↦ attempts env c n params (some key) (rounds_after n.retry) 0 none s
    ]

    execute_once-by_reuse :
        (s : Executor) → execute_once env c n params (some key) s ≡ by_reuse s (found s)
    unfolding execute_once
    execute_once-by_reuse s = ap (by_reuse s) (reuse_found s)

    by_reuse-Recorded : (s : Executor) (o : Option Attempt) → found s ≡ o → Recorded (by_reuse s o)
    by_reuse-Recorded s none e = attempts-Recorded (rounds_after n.retry) 0 none s e
    by_reuse-Recorded s (some a) e = (a, e, refl)

    execute_once-Recorded : (s : Executor) → Recorded (execute_once env c n params (some key) s)
    execute_once-Recorded s =
        subst Recorded (sym (execute_once-by_reuse s)) (by_reuse-Recorded s (found s) refl)

-- Once a node with an operation id has given an output, executing it again, in any later state with
-- the same attempts on record and whatever the agents would answer then, gives the same output,
-- calls nobody and changes nothing. The node is one whose failure is not turned into an output
-- (`on_failure` is not `continue`), and its operation id is not empty.
pub execute_once-repeat :
    (env env' : Environment) (c : Config) (n : Node) (params params' : Fields) (key : String)
    (s s' t : Executor) (v : Value)
    → (n.on_failure == "continue") ≡ false
    → (key == "") ≡ false
    → execute_once env c n params (some key) s ≡ (ok (completed v), s')
    → t.store.attempts ≡ s'.store.attempts
    → execute_once env' c n params' (some key) t ≡ (ok (completed v), t)
execute_once-repeat env env' c n params params' key s s' t v strict keyed e same =
    let (a, f, out) =
      subst (Recorded env c n params key strict) e
        (execute_once-Recorded env c n params key strict keyed s) in
    let g : found env' c n params' key strict t ≡ some a =
      ap (find_success c.run_id n.id key) same ∙ f in
    execute_once-by_reuse env' c n params' key strict keyed t
    ∙ ap (by_reuse env' c n params' key strict keyed t) g
    ∙ ap (λ x. (ok (completed x), t)) out
