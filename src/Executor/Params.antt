-- ===== src/Executor/Params.antt =====
-- References in a node's parameters (`_path_steps`, `_walk`, `_resolve_param`, `resolve_params`).
pub mod Total
use Prim.Native.Char.{Char, code}
use Prim.Native.String.{◌++◌}
use multi_agent_workflow.Prelude.{
  ℕ, zero, suc, ◌+◌, ◌-◌, String, Bool, true, false, ◌&&◌, ◌||◌, Option, none, some, List, [], ◌∷◌,
  ◌==◌, ◌≡◌, refl, if◌then◌else◌, eqb, leb, ltb, Result, ok, raise, value_error, ◌>>=◌,
}
use multi_agent_workflow.Prelude.Int.{ℤ, pos, negsuc}
use multi_agent_workflow.Prelude.Text.{drop_prefix, split_once, parse_int}
use multi_agent_workflow.Prelude.Dict.{Dict, lookup}
use multi_agent_workflow.Json.{
  Value, null, boolean, int, float, text, array, object, Items, nil, cons, Fields, end, field, get,
}
use multi_agent_workflow.StateStore.Rows.{NodeState}

pub data Step : Type 0 where
  key : String → Step
  index : ℤ → Step

-- Where the scan of a path stands: between steps, in a name, in brackets, or behind an index that
-- is no number, which makes the whole path empty.
pub data Mode : Type 0 where
  between broken : Mode
  name bracket : String → Mode

abbrev append : String → Char → String
append w c = w ++ String.◌∷◌ c ""

abbrev after_index : Option ℤ → Mode
after_index none = broken
after_index (some n) = between

start : Char → Mode
start c =
    if eqb (code c) b'.'
    then between
    else if eqb (code c) b'['
    then bracket ""
    else name (append "" c)

next : Mode → Char → Mode
unfolding start
next between c = start c
next broken c = broken
next (name w) c = if eqb (code c) b'.' || eqb (code c) b'[' then start c else name (append w c)
next (bracket w) c = if eqb (code c) b']' then after_index (parse_int w) else bracket (append w c)

abbrev index_step : Option ℤ → List Step
index_step none = []
index_step (some n) = index n ∷ []

-- The step that ends at a character.
emitted : Mode → Char → List Step
emitted (name w) c = if eqb (code c) b'.' || eqb (code c) b'[' then key w ∷ [] else []
emitted (bracket w) c = if eqb (code c) b']' then index_step (parse_int w) else []
emitted _ c = []

abbrev prepend : List Step → Option (List Step) → Option (List Step)
prepend steps none = none
prepend [] (some rest) = some rest
prepend (st ∷ steps) (some rest) = some (st ∷ rest)

-- `none` is the early `return []`.
scan : Mode → String → Result (Option (List Step))
unfolding next emitted parse_int
scan between String.[] = ok (some [])
scan broken String.[] = ok none
scan (name w) String.[] = ok (some (key w ∷ []))
scan (bracket w) String.[] = raise (value_error w)
scan m (String.◌∷◌ c s) = do rest ← scan (next m c) s; ok (prepend (emitted m c) rest)

abbrev or_nothing : Option (List Step) → List Step
or_nothing none = []
or_nothing (some steps) = steps

unfoldable pub path_steps : String → Result (List Step)
unfolding scan
path_steps path = do steps ← scan between path; ok (or_nothing steps)

abbrev nth : Items → ℕ → Value
nth nil i = null
nth (cons v vs) zero = v
nth (cons v vs) (suc i) = nth vs i

abbrev count : Items → ℕ
count nil = 0
count (cons v vs) = suc (count vs)

-- A list index; a negative one counts from the end, and one out of range gives `None`.
unfoldable pub at_index : Items → ℤ → Value
at_index vs (pos n) = nth vs n
at_index vs (negsuc n) = if ltb n (count vs) then nth vs (count vs - (n + 1)) else null

abbrev found_or_null : Option Value → Value
found_or_null none = null
found_or_null (some v) = v

unfoldable pub follow_step : Step → Value → Value
follow_step (key k) (object fs) = found_or_null (get k fs)
follow_step (index i) (array vs) = at_index vs i
follow_step _ _ = null

follow_steps : List Step → Value → Value
follow_steps [] v = v
follow_steps (st ∷ steps) v = follow_steps steps (follow_step st v)

unfoldable pub walk : Value → String → Result Value
unfolding follow_steps
walk root path = do steps ← path_steps path; ok (follow_steps steps root)

-- What references are resolved against: the executor's node states and the run's inputs.
pub record Context : Type 0 where
  pub nodes : Dict NodeState
  pub inputs : Fields

abbrev output_of : Option NodeState → Value
output_of none = null
output_of (some st) = st.output

abbrev before_dot : String → String × String
before_dot rest = elim (split_once "." rest) [ none ↦ (rest, "") | some p ↦ p ]

abbrev without_output : String → String
without_output path = elim (drop_prefix "output" path) [ none ↦ path | some rest ↦ rest ]

-- `$.nodes.X.output…`: the rest of the reference behind the node's name.
unfoldable pub node_reference : Value → String → Result Value
node_reference null path = ok null
node_reference v path =
    if path == "output"
    then ok v
    else (let rest = without_output path in if rest == "" then ok v else walk v rest)

module _ (ctx : Context) where
  -- A text that begins with `$.`, without these two characters.
  unfoldable pub resolve_reference : String → String → Result Value
  resolve_reference whole path = elim (drop_prefix "nodes." path) [
    | some rest ↦
        let (node_id, behind) = before_dot rest in
        node_reference (output_of (lookup node_id ctx.nodes)) behind
    | none ↦ elim (drop_prefix "inputs." path) [
      | some rest ↦ walk (object ctx.inputs) rest
      | none ↦ ok (text whole)
    ]
  ]

  unfoldable pub resolve_text : String → Result Value
  resolve_text t = elim (drop_prefix "$." t) [
    | some path ↦ resolve_reference t path
    | none ↦ ok (text t)
  ]

  unfoldable mutual
    pub resolve_param : Value → Result Value
    resolve_param (text t) = resolve_text t
    resolve_param (array vs) = do ws ← resolve_items vs; ok (array ws)
    resolve_param (object fs) = do gs ← resolve_params fs; ok (object gs)
    resolve_param null = ok null
    resolve_param (boolean b) = ok (boolean b)
    resolve_param (int n) = ok (int n)
    resolve_param (float x) = ok (float x)

    pub resolve_items : Items → Result Items
    resolve_items nil = ok nil
    resolve_items (cons v vs) = do w ← resolve_param v; ws ← resolve_items vs; ok (cons w ws)

    pub resolve_params : Fields → Result Fields
    resolve_params end = ok end
    resolve_params (field k v fs) = do
      w ← resolve_param v
      gs ← resolve_params fs
      ok (field k w gs)

path_sample :
    path_steps "a.b[0].c[-1]"
    ≡ ok (key "a" ∷ key "b" ∷ index (pos 0) ∷ key "c" ∷ index (negsuc 0) ∷ [])
unfolding path_steps
path_sample = refl
