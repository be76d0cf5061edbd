-- ===== src/Executor/Attempts/Keeps.antt =====
-- What `_run_with_retry` leaves alone.
use multi_agent_workflow.Prelude.{
  ℕ, zero, suc, ◌+◌, String, Option, none, some, ◌≡◌, refl, ◌∙◌, is_empty, Result, ok, raise, Error,
  Bool-cases, inl, inr,
}
use multi_agent_workflow.Prelude.Int.{rounds_after}
use multi_agent_workflow.Json.{Value, Fields}
use multi_agent_workflow.Core.Dag.{Node}
use multi_agent_workflow.StateStore.Rows.{Attempt}
use multi_agent_workflow.Executor.State.{Config, Executor}
use multi_agent_workflow.Executor.Environment.{Environment}
use multi_agent_workflow.Executor.Ensures.{Ensures, Ensures-map}
use multi_agent_workflow.Executor.Attempts.{
  Outcome, completed, attempt_once, attempts, out_of_rounds, reuse, execute_once, run_with_retry,
  invoke, missing_inputs,
}

-- The node states and the failed nodes are the same.
abbrev pub SameNodes : Executor → Executor → Type 0
SameNodes s s' = (s'.states ≡ s.states) × (s'.failed ≡ s.failed)

module _ (env : Environment) (c : Config) (n : Node) (params : Fields) (op : Option String) where
  abbrev Keeps : Executor → Result Outcome × Executor → Type 0
  Keeps s = Ensures (λ _ s'. SameNodes s s')

  out_of_rounds-Keeps :
      (last : Option Error) (s : Executor) → Keeps s (out_of_rounds env c n params op last, s)
  out_of_rounds-Keeps none s = tt
  out_of_rounds-Keeps (some e) s = (refl, refl)

  abbrev call_from : ℕ → ℕ → Error → Executor → Result Outcome × Executor
  call_from rounds i e t = attempts env c n params op rounds (i + 1) (some e) t

  after_attempt :
      (rounds i : ℕ) (s t : Executor)
      → ((e : Error) → Keeps t (call_from rounds i e t))
      → SameNodes s t
      → (r : Result Value)
      → Keeps s (elim r [ ok v ↦ (ok (completed v), t) | raise e ↦ call_from rounds i e t ])
  after_attempt rounds i s t again same (ok v) = same
  after_attempt rounds i s t again same (raise e) =
      Ensures-map (λ _ u. SameNodes t u) (λ _ u. SameNodes s u) (call_from rounds i e t) (again e)
        λ _ u k. (k.0 ∙ same.0, k.1 ∙ same.1)

  attempts-Keeps :
      (rounds i : ℕ) (last : Option Error) (s : Executor)
      → Keeps s (attempts env c n params op rounds i last s)
  unfolding attempts attempt_once
  attempts-Keeps zero i last s = out_of_rounds-Keeps last s
  attempts-Keeps (suc rounds) i last s =
      after_attempt rounds i s (attempt_once env c n params op i s).1
        (λ e. attempts-Keeps rounds (i + 1) (some e) (attempt_once env c n params op i s).1)
        (refl, refl) (invoke env n params s)

  execute_once-Keeps : (s : Executor) → Keeps s (execute_once env c n params op s)
  unfolding execute_once
  execute_once-Keeps s = go (reuse env c n params op op s.store)
    where
      go :
          (o : Option Attempt)
          → Keeps s (elim o [
            | some a ↦ (ok (completed a.output), s)
            | none ↦ attempts env c n params op (rounds_after n.retry) 0 none s
          ])
      go none = attempts-Keeps (rounds_after n.retry) 0 none s
      go (some a) = (refl, refl)

  pub run_with_retry-Keeps : (s : Executor) → Keeps s (run_with_retry env c n params op s)
  unfolding run_with_retry
  run_with_retry-Keeps s = elim (Bool-cases (is_empty (missing_inputs n.require params))) [
    | inl e ↦ rw e (execute_once-Keeps s)
    | inr e ↦ rw e (refl, refl)
  ]
