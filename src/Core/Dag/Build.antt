-- ===== src/Core/Dag/Build.antt =====
-- Building a graph from its nodes and edges (`DAG.build` from its second step on, and
-- `DAG._validate`). Reading the nodes' fields from the YAML document is not here.
pub mod Bound
pub mod Accepted
use multi_agent_workflow.Prelude.{
  String, Bool, true, false, not, ◌&&◌, Option, none, some, List, [], ◌∷◌, ◌++◌, ◌==◌, map, is_some,
  length, eqb, if◌then◌else◌, Result, ok, raise, dag_error, ◌>>=◌, ◌>>◌,
}
use multi_agent_workflow.Prelude.Dict.{Dict, lookup, insert}
use multi_agent_workflow.Core.Dag.{Node, Edge, Dag}
use multi_agent_workflow.Core.Dag.Kahn.{check_cycle}
use multi_agent_workflow.Core.Dag.Checks.{
  check_join_consistency, check_on_reject_consistency, check_node_kinds,
}

abbrev with_edge : Edge → Node → Node
with_edge e n = record n { in_edges = n.in_edges ++ e ∷ [] }

-- The loop that binds the edges to the nodes at which they end.
unfoldable pub bind_edges : List Edge → Dict Node → Result (Dict Node)
bind_edges [] nodes = ok nodes
bind_edges (e ∷ es) nodes = elim (lookup e.target nodes) [
  | none ↦ raise (dag_error e.target)
  | some n ↦
      if is_some (lookup e.source nodes)
      then bind_edges es (insert e.target (with_edge e n) nodes)
      else raise (dag_error e.source)
]

abbrev is_none : Option String → Bool
is_none none = true
is_none (some w) = false

abbrev is_condition : Option String → Bool
is_condition none = false
is_condition (some w) = not (w == "")

-- The condition of a node goes to its only edge, if that has none.
abbrev pub conditioned : Option Node → Edge → Edge
conditioned none e = e
conditioned (some n) e =
    if is_condition n.when && eqb (length n.in_edges) 1 && is_none e.when
    then record e { when = n.when }
    else e

abbrev pub condition_edge : Dict Node → Edge → Edge
condition_edge nodes e = conditioned (lookup e.target nodes) e

-- The loop of step 3.5. The edges are shared objects: those of the graph change too.
unfoldable pub condition_nodes : Dict Node → Dict Node → Dict Node
condition_nodes nodes [] = []
condition_nodes nodes ((nid, n) ∷ rest) =
    (nid, record n { in_edges = map (condition_edge nodes) n.in_edges })
    ∷ condition_nodes nodes rest

-- `_validate`.
unfoldable pub validate : Bool → Dag → Result (Unit {0})
validate strict g = do
  check_cycle g.nodes g.edges
  check_join_consistency g.nodes
  if strict then check_on_reject_consistency g.nodes g.edges >> check_node_kinds g.nodes else ok tt

-- `build`, of nodes that have no edges yet.
unfoldable pub build : Bool → Dict Node → List Edge → Result Dag
build strict skeleton edges = do
  nodes ← bind_edges edges skeleton
  let g : Dag = record {
    nodes = condition_nodes nodes nodes;
    edges = map (condition_edge nodes) edges;
  }
  validate strict g
  ok g
