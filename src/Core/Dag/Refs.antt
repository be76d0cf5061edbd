-- ===== src/Core/Dag/Refs.antt =====
-- The references in the parameters of nodes (`DAG.transitive_upstreams`, `DAG.check_params_refs`
-- and `_collect_param_refs` of agentflow/core/dag.py).
pub mod Above
pub mod Accepts
use multi_agent_workflow.Prelude.{
  ℕ, zero, suc, ◌+◌, String, Bool, true, false, not, ◌||◌, Option, none, some, List, [], ◌∷◌, ◌++◌,
  ◌==◌, contains, length, is_some, if◌then◌else◌, Result, ok, raise, key_error, dag_error,
  out_of_fuel, ◌>>=◌, ◌>>◌,
}
use multi_agent_workflow.Prelude.Text.{split, drop_prefix}
use multi_agent_workflow.Prelude.Dict.{Dict, lookup}
use multi_agent_workflow.Json.{Value, text, array, object, Items, nil, cons, Fields, end, field}
use multi_agent_workflow.Core.Dag.{Node, Dag, upstreams}

-- `self.nodes[u].upstreams`.
unfoldable pub upstreams_of : Dict Node → String → Result (List String)
upstreams_of nodes u = elim (lookup u nodes) [
  | none ↦ raise (key_error u)
  | some n ↦ ok (upstreams n)
]

-- `stack.extend(us)`, on a stack whose top is the head of the list.
abbrev pub pushed : List String → List String → List String
pushed [] stack = stack
pushed (u ∷ us) stack = pushed us (u ∷ stack)

module _ (nodes : Dict Node) where
  -- The `while` loop of `transitive_upstreams`: the nodes that were seen, and the stack.
  unfoldable pub climb : ℕ → List String → List String → Result (List String)
  climb zero seen stack = raise out_of_fuel
  climb (suc fuel) seen [] = ok seen
  climb (suc fuel) seen (u ∷ stack) =
      if contains u seen
      then climb fuel seen stack
      else (upstreams_of nodes u >>= λ us. climb fuel (u ∷ seen) (pushed us stack))

  -- The edges into the nodes that were not seen.
  unfoldable pub edges_left : Dict Node → List String → ℕ
  edges_left [] seen = 0
  edges_left ((k, n) ∷ rest) seen =
      let more = edges_left rest seen in
      if contains k seen then more else length (upstreams n) + more

  -- `transitive_upstreams`. Each round takes a node off the stack, and an edge is pushed once.
  unfoldable pub transitive_upstreams : String → Result (List String)
  transitive_upstreams nid = upstreams_of nodes nid >>= λ us.
      climb (suc (length (pushed us []) + edges_left nodes [])) [] (pushed us [])

abbrev third : List String → List String
third (a ∷ b ∷ c ∷ rest) = c ∷ []
third parts = []

abbrev reference : String → List String
reference t = if is_some (drop_prefix "$.nodes." t) then third (split b'.' t) else []

unfoldable mutual
  -- `_collect_param_refs`.
  pub collect_param_refs : Value → List String
  collect_param_refs (text t) = reference t
  collect_param_refs (object fs) = collect_fields fs
  collect_param_refs (array vs) = collect_items vs
  collect_param_refs v = []

  pub collect_fields : Fields → List String
  collect_fields end = []
  collect_fields (field k v fs) = collect_param_refs v ++ collect_fields fs

  pub collect_items : Items → List String
  collect_items nil = []
  collect_items (cons v vs) = collect_param_refs v ++ collect_items vs

abbrev first : List String → String
first [] = ""
first (part ∷ parts) = part

-- `ref.split(".")[0]`.
abbrev pub target : String → String
target ref = first (split b'.' ref)

-- The loop over the references of one node.
unfoldable pub check_refs : List String → List String → Result (Unit {0})
check_refs allowed [] = ok tt
check_refs allowed (ref ∷ refs) =
    if contains (target ref) allowed then check_refs allowed refs else raise (dag_error ref)

unfoldable pub check_node_refs : Dict Node → Dict Node → Result (Unit {0})
check_node_refs nodes [] = ok tt
check_node_refs nodes ((nid, n) ∷ rest) =
    (transitive_upstreams nodes nid >>= λ above. check_refs (nid ∷ above) (collect_fields n.params))
    >> check_node_refs nodes rest

-- `check_params_refs`.
unfoldable pub check_params_refs : Dict Node → Result (Unit {0})
check_params_refs nodes = check_node_refs nodes nodes
