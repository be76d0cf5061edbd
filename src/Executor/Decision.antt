-- ===== src/Executor/Decision.antt =====
-- Which edges are active and which nodes may run (`_edge_active` to `_ready_nodes`).
pub mod Total
pub mod Ready
use multi_agent_workflow.Prelude.{
  ℕ, String, Bool, true, false, not, ◌&&◌, ◌||◌, Option, none, some, List, [], ◌∷◌, ◌==◌, map, any,
  contains, is_empty, if◌then◌else◌, Result, ok, raise, Error, ◌>>=◌,
}
use multi_agent_workflow.Prelude.Dict.{Dict, lookup}
use multi_agent_workflow.Json.{Python}
use multi_agent_workflow.Core.Dag.{
  Node, Edge, Status, is_terminal, is_pending, is_waiting, is_done, is_rejected, has_output,
  is_approval, is_halt, upstreams,
}
use multi_agent_workflow.Core.Expressions.{eval_condition}
use multi_agent_workflow.StateStore.Rows.{NodeState}
use multi_agent_workflow.Executor.State.{states_fields, state_of, or_missing}

pub data Decision : Type 0 where
  ready skipped blocked : Decision

abbrev pub States : Type 0
States = Dict NodeState

abbrev pub is_ready : Decision → Bool
is_ready ready = true
is_ready _ = false

module _ (py : Python) (states : States) where
  abbrev condition : Option String → Result Bool
  condition none = ok true
  condition (some when) = eval_condition py when (states_fields py states)

  abbrev active_from : Option NodeState → Option String → Result Bool
  active_from none when = ok false
  active_from (some source) when = if has_output source.status then condition when else ok false

  -- `_edge_active`: the source has an output and the condition holds.
  unfoldable pub edge_active : Edge → Result Bool
  edge_active e = active_from (lookup e.source states) e.when

  unfoldable pub any_active : List Edge → Result Bool
  any_active [] = ok false
  any_active (e ∷ es) = do b ← edge_active e; if b then ok true else any_active es

  -- The edges whose sources are `required`.
  unfoldable pub all_active : List String → List Edge → Result Bool
  all_active required [] = ok true
  all_active required (e ∷ es) =
      let rest = all_active required es in
      if contains e.source required
      then (do b ← edge_active e; if b then rest else ok false)
      else rest

  -- `_sources_terminal`.
  unfoldable pub sources_terminal : List Edge → Result Bool
  sources_terminal [] = ok true
  sources_terminal (e ∷ es) = do
    st ← state_of e.source states
    if is_terminal st.status then sources_terminal es else ok false

  -- What an edge that is not enough means: the node waits for its sources, or it is skipped.
  abbrev skipped_or_blocked : List Edge → Result Decision
  skipped_or_blocked es = do t ← sources_terminal es; if t then ok skipped else ok blocked

  abbrev ready_or : Bool → List Edge → Result Decision
  ready_or b es = if b then ok ready else skipped_or_blocked es

  -- `_node_decision`: a node with no edge into it is ready; `join: all` wants each required edge,
  -- and any other join one edge.
  unfoldable pub node_decision : Node → Result Decision
  node_decision n =
      if is_empty n.in_edges
      then ok ready
      else if n.join == "all"
      then (do
        b ←
            all_active (if is_empty n.required_edges then upstreams n else n.required_edges)
              n.in_edges
        ready_or b n.in_edges)
      else (do b ← any_active n.in_edges; ready_or b n.in_edges)

  abbrev add_ready : String → Node → List String → Result (List String)
  add_ready nid n rest = do d ← node_decision n; if is_ready d then ok (nid ∷ rest) else ok rest

  unfoldable pub ready_list : Dict Node → Result (List String)
  ready_list [] = ok []
  ready_list ((nid, n) ∷ nodes) = do
    st ← state_of nid states
    if is_pending st.status && not (is_approval n)
        then (do
          d ← node_decision n
          rest ← ready_list nodes
          if is_ready d then ok (nid ∷ rest) else ok rest)
        else ready_list nodes

abbrev halt_node : Option Node → Bool
halt_node none = false
halt_node (some n) = is_halt n

-- The nodes of a list that are halt nodes.
unfoldable pub halts : Dict Node → List String → List String
halts nodes [] = []
halts nodes (nid ∷ nids) =
    let rest = halts nodes nids in if halt_node (lookup nid nodes) then nid ∷ rest else rest

-- `_ready_nodes`: a halt node that is ready has the wave to itself.
unfoldable pub ready_nodes : Python → Dict Node → States → Result (List String)
ready_nodes py nodes states = do
  nids ← ready_list py states nodes
  let hs = halts nodes nids
  if is_empty hs then ok nids else ok hs

-- `has_waiting_approval` and `all_terminal`.
unfoldable pub has_waiting_approval : States → Bool
has_waiting_approval states = any (λ e. is_waiting e.1.status) states

unfoldable pub all_terminal : States → Bool
all_terminal [] = true
all_terminal ((nid, st) ∷ states) = is_terminal st.status && all_terminal states

abbrev done_at : Option NodeState → Bool
done_at none = false
done_at (some st) = is_done st.status

-- `halt_triggered`: a halt node has been executed.
unfoldable pub halt_triggered : Dict Node → States → Bool
halt_triggered [] states = false
halt_triggered ((nid, n) ∷ nodes) states =
    is_halt n && done_at (lookup nid states) || halt_triggered nodes states

abbrev rejected_at : Option NodeState → Bool
rejected_at none = false
rejected_at (some st) = is_rejected st.status

-- `rejected_abort_node`: a rejected approval that aborts the run.
unfoldable pub rejected_abort_node : Dict Node → States → Option String
rejected_abort_node [] states = none
rejected_abort_node ((nid, n) ∷ nodes) states =
    let rest = rejected_abort_node nodes states in
    if is_approval n && n.on_reject == "abort" && rejected_at (lookup nid states)
    then some nid
    else rest
