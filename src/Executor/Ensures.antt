-- ===== src/Executor/Ensures.antt =====
-- Postconditions of actions and of results. An exception is allowed if it is none of those that the
-- executor must never raise: a missing key, a stalled graph, a loop that has not ended.
use multi_agent_workflow.Prelude.{
  String, Bool, true, false, Option, none, some, ◌≡◌, refl, Result, ok, raise, Error, key_error,
  stalled, out_of_fuel, if◌then◌else◌, is_some,
}
use multi_agent_workflow.Prelude as P
use multi_agent_workflow.Executor.State.{Executor, Action, continue}

abbrev pub Proper : Error → Type 0
Proper (key_error k) = ⊥
Proper stalled = ⊥
Proper out_of_fuel = ⊥
Proper _ = Unit

-- Of a pure result.
abbrev pub Gives {ℓ} : {A : Type ℓ} → (A → Type 0) → Result A → Type 0
Gives Q (ok a) = Q a
Gives Q (raise e) = Proper e

-- Of an action's result and final state.
abbrev pub Ensures {ℓ} : {A : Type ℓ} → (A → Executor → Type 0) → Result A × Executor → Type 0
Ensures Q (ok a, s) = Q a s
Ensures Q (raise e, s) = Proper e

pub Gives-bind {ℓ κ} :
    {A : Type ℓ} {B : Type κ} (Q : A → Type 0) (R : B → Type 0) (m : Result A) (f : A → Result B)
    → Gives Q m
    → ((a : A) → Q a → Gives R (f a))
    → Gives R (P.◌>>=◌ m f)
Gives-bind Q R (ok a) f h k = k a h
Gives-bind Q R (raise e) f h k = h

pub Gives-map {ℓ} :
    {A : Type ℓ} (Q R : A → Type 0) (m : Result A) → Gives Q m → ((a : A) → Q a → R a) → Gives R m
Gives-map Q R (ok a) h k = k a h
Gives-map Q R (raise e) h k = h

-- A result that is allowed equals what it gives.
pub Gives-self :
    {A : Type 0} (Q : A → Type 0) (m : Result A) → Gives Q m → Gives (λ a. (m ≡ ok a) × Q a) m
Gives-self Q (ok a) h = (refl, h)
Gives-self Q (raise e) h = h

pub Ensures-continue {ℓ κ} :
    {A : Type ℓ} {B : Type κ} (Q : A → Executor → Type 0) (R : B → Executor → Type 0)
    (r : Result A × Executor) (f : A → Action B)
    → Ensures Q r
    → ((a : A) (s : Executor) → Q a s → Ensures R (f a s))
    → Ensures R (continue f r)
Ensures-continue Q R (ok a, s) f h k = k a s h
Ensures-continue Q R (raise e, s) f h k = h

pub Ensures-map {ℓ} :
    {A : Type ℓ} (Q R : A → Executor → Type 0) (r : Result A × Executor)
    → Ensures Q r
    → ((a : A) (s : Executor) → Q a s → R a s)
    → Ensures R r
Ensures-map Q R (ok a, s) h k = k a s h
Ensures-map Q R (raise e, s) h k = h

-- `lift r >>= f`: the state is kept.
pub Ensures-lift {ℓ κ} :
    {A : Type ℓ} {B : Type κ} (Q : A → Type 0) (R : B → Executor → Type 0) (r : Result A)
    (s : Executor) (f : A → Action B)
    → Gives Q r
    → ((a : A) → r ≡ ok a → Q a → Ensures R (f a s))
    → Ensures R (continue f (r, s))
Ensures-lift Q R (ok a) s f h k = k a refl h
Ensures-lift Q R (raise e) s f h k = h
