-- ===== src/Executor/Run/Once.antt =====
-- One turn of the loop of `DAGExecutor.run`, and the loop as a repetition of it.
use multi_agent_workflow.Prelude.{ℕ, suc, Option, none, some, length, Result, ok, raise, ◌≡◌, refl}
use multi_agent_workflow.Executor.State.{Config, Executor, Action, continue}
use multi_agent_workflow.Executor.Environment.{Environment}
use multi_agent_workflow.Executor.Passes.{settle}
use multi_agent_workflow.Executor.Wave.{wave}
use multi_agent_workflow.Executor.Run.{RunOutcome, Turn, stop, go, turn, run_from}

abbrev ended : Result RunOutcome → Result (Option RunOutcome)
ended (ok o) = ok (some o)
ended (raise e) = raise e

abbrev pub take_turn :
    Environment → Config → Executor → Turn → Result (Option RunOutcome) × Executor
take_turn env c s (stop r) = (ended r, s)
take_turn env c s (go nids) = continue (λ _ t. (ok none, t)) (wave env c nids s)

-- The body of the loop: the passes, the tests, and a wave. It gives `none` when the loop goes on.
unfoldable pub loop_once : Environment → Config → Action (Option RunOutcome)
loop_once env c s =
    continue (λ _ t. take_turn env c t (turn env c t)) (settle env c (suc (length c.nodes)) s)

abbrev pub or_again : Action RunOutcome → Option RunOutcome → Action RunOutcome
or_again again none s = again s
or_again again (some o) s = (ok o, s)

after_wave :
    (again : Action RunOutcome) (r : Result (Unit {0}) × Executor)
    → continue (λ _. again) r ≡ continue (or_again again) (continue (λ _ t. (ok none, t)) r)
after_wave again (ok u, t) = refl
after_wave again (raise e, t) = refl

after_turn :
    (env : Environment) (c : Config) (again : Action RunOutcome) (s : Executor) (k : Turn)
    → (elim k [ stop r ↦ (r, s) | go nids ↦ continue (λ _. again) (wave env c nids s) ])
      ≡ continue (or_again again) (take_turn env c s k)
after_turn env c again s (stop (ok o)) = refl
after_turn env c again s (stop (raise e)) = refl
after_turn env c again s (go nids) = after_wave again (wave env c nids s)

after_settle :
    (env : Environment) (c : Config) (again : Action RunOutcome) (r : Result (Unit {0}) × Executor)
    → continue
        (λ _ t. elim (turn env c t) [
          | stop o ↦ (o, t)
          | go nids ↦ continue (λ _. again) (wave env c nids t)
        ])
        r
      ≡ continue (or_again again) (continue (λ _ t. take_turn env c t (turn env c t)) r)
after_settle env c again (ok u, t) = after_turn env c again t (turn env c t)
after_settle env c again (raise e, t) = refl

-- The loop with one turn more of fuel is one turn, and then the loop if the turn has not ended it.
pub run_from-loop_once :
    (env : Environment) (c : Config) (fuel : ℕ) (s : Executor)
    → run_from env c (suc fuel) s ≡ continue (or_again (run_from env c fuel)) (loop_once env c s)
unfolding run_from loop_once
run_from-loop_once env c fuel s =
    after_settle env c (run_from env c fuel) (settle env c (suc (length c.nodes)) s)
