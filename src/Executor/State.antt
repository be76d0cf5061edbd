-- ===== src/Executor/State.antt =====
-- The executor object, and actions that change it and may raise: what was written before an
-- exception stays written.
use multi_agent_workflow.Prelude.{
  String, Bool, true, false, Option, none, some, List, [], ◌∷◌, Result, ok, raise, Error, key_error,
}
use multi_agent_workflow.Prelude.Dict.{Dict, lookup, insert}
use multi_agent_workflow.Json.{Value, null, text, object, Fields, end, field, Python}
use multi_agent_workflow.Core.Dag.{Node, pending, status_text}
use multi_agent_workflow.StateStore.Rows.{NodeState}
use multi_agent_workflow.StateStore.Memory.{Store}

-- What does not change while a run is executed.
pub record Config : Type 0 where
  pub run_id : String
  pub tenant_id : String
  pub nodes : Dict Node
  pub inputs : Fields

-- `node_states`, `failed` and `_pause_requested` of `DAGExecutor`, and the store that it writes.
pub record Executor : Type 0 where
  pub states : Dict NodeState
  pub failed : List String
  pub pause_requested : Bool
  pub store : Store

abbrev pub fresh_state : NodeState
fresh_state = record { status = pending; output = null; params = none; error = none }

unfoldable pub initial_states : Dict Node → Dict NodeState
initial_states [] = []
initial_states ((nid, node) ∷ nodes) = (nid, fresh_state) ∷ initial_states nodes

-- `__init__`.
unfoldable pub init : Config → Store → Executor
init c store = record {
  states = initial_states c.nodes;
  failed = [];
  pause_requested = false;
  store = store;
}

unfoldable pub request_pause : Executor → Executor
request_pause s = record s { pause_requested = true }

abbrev with_params : Option Fields → Fields → Fields
with_params none fs = fs
with_params (some ps) fs = field "params" (object ps) fs

abbrev with_error : Python → Option Error → Fields → Fields
with_error py none fs = fs
with_error py (some e) fs = field "error" (text (py.message e)) fs

-- A node state as the dictionary that conditions and references read.
unfoldable pub state_value : Python → NodeState → Value
state_value py st = object (
    field "status" (text (status_text st.status))
      (field "output" st.output (with_params st.params (with_error py st.error end))))

unfoldable pub states_fields : Python → Dict NodeState → Fields
states_fields py [] = end
states_fields py ((nid, st) ∷ states) = field nid (state_value py st) (states_fields py states)

abbrev pub Action {ℓ} : Type ℓ → Type ℓ
Action A = Executor → Result A × Executor

abbrev pub continue {ℓ κ} :
    {A : Type ℓ} {B : Type κ} → (A → Action B) → Result A × Executor → Result B × Executor
continue f (ok a, s) = f a s
continue f (raise e, s) = (raise e, s)

infixl 5 ◌>>=◌ ◌>>◌
abbrev pub ◌>>=◌ {ℓ κ} : {A : Type ℓ} {B : Type κ} → Action A → (A → Action B) → Action B
◌>>=◌ m f s = continue f (m s)

abbrev pub ◌>>◌ {ℓ} : {B : Type ℓ} → Action (Unit {0}) → Action B → Action B
m >> k = m >>= λ _. k

abbrev pub pure {ℓ} : {A : Type ℓ} → A → Action A
pure a s = (ok a, s)

abbrev pub throw {ℓ} : {A : Type ℓ} → Error → Action A
throw e s = (raise e, s)

abbrev pub lift {ℓ} : {A : Type ℓ} → Result A → Action A
lift r s = (r, s)

abbrev pub gets {ℓ} : {A : Type ℓ} → (Executor → A) → Action A
gets f s = (ok (f s), s)

abbrev pub modify : (Executor → Executor) → Action (Unit {0})
modify f s = (ok tt, f s)

abbrev pub or_missing {ℓ} : {A : Type ℓ} → String → Option A → Result A
or_missing k none = raise (key_error k)
or_missing k (some a) = ok a

-- `node_states[nid]`.
unfoldable pub state_of : String → Dict NodeState → Result NodeState
state_of nid states = or_missing nid (lookup nid states)

-- `node_states[nid] = st`.
unfoldable pub set_state : String → NodeState → Executor → Executor
set_state nid st s = record s { states = insert nid st s.states }
