-- ===== src/Core/Dag/Kahn.antt =====
-- The check for cycles, Kahn's algorithm (`DAG._check_cycle`).
pub mod Order
pub mod Complete
pub mod Drain
pub mod Accepts
use multi_agent_workflow.Prelude.{
  ℕ, zero, suc, ◌+◌, ◌-◌, String, Bool, true, false, List, [], ◌∷◌, ◌++◌, ◌==◌, eqb, length,
  if◌then◌else◌, Result, ok, raise, out_of_fuel, dag_error, key_error, is_some, ◌>>◌,
}
use multi_agent_workflow.Prelude.Dict.{Dict, lookup}
use multi_agent_workflow.Core.Dag.{Node, Edge}

-- The dictionary `indeg` as a function: all nodes are keys.
abbrev pub Degrees : Type 0
Degrees = String → ℕ

abbrev pub update : String → ℕ → Degrees → Degrees
update m k d j = if m == j then k else d j

-- How many edges end at a node: `indeg` after the loop over the edges.
unfoldable pub in_degree : List Edge → Degrees
in_degree [] m = 0
in_degree (e ∷ es) m = let rest = in_degree es m in if e.target == m then suc rest else rest

-- Where the edges of a node go, in their order: `adj[nid]`.
unfoldable pub targets : List Edge → String → List String
targets [] nid = []
targets (e ∷ es) nid =
    let rest = targets es nid in if e.source == nid then e.target ∷ rest else rest

unfoldable pub roots : Dict Node → Degrees → List String
roots [] d = []
roots ((nid, n) ∷ nodes) d = let rest = roots nodes d in if eqb (d nid) 0 then nid ∷ rest else rest

-- The loop over `adj[nid]`: the degrees and the queue after it.
unfoldable pub lower_targets : List String → Degrees → List String → Degrees × List String
lower_targets [] d q = (d, q)
lower_targets (m ∷ ms) d q =
    let k = d m - 1 in lower_targets ms (update m k d) (if eqb k 0 then q ++ (m ∷ []) else q)

-- The loop over the queue, with the number of nodes seen.
unfoldable pub drain : ℕ → List Edge → List String → Degrees → ℕ → Result ℕ
drain fuel es [] d seen = ok seen
drain zero es (nid ∷ q) d seen = raise out_of_fuel
drain (suc fuel) es (nid ∷ q) d seen =
    let r = lower_targets (targets es nid) d q in drain fuel es r.1 r.0 (seen + 1)

-- The keys that the loop over the edges reads: `adj[e.source]`, then `indeg[e.target]`.
unfoldable pub check_ends : Dict Node → List Edge → Result (Unit {0})
check_ends nodes [] = ok tt
check_ends nodes (e ∷ es) =
    let rest = check_ends nodes es in
    if is_some (lookup e.source nodes)
    then (if is_some (lookup e.target nodes) then rest else raise (key_error e.target))
    else raise (key_error e.source)

-- The rest of `_check_cycle`.
unfoldable pub sort_nodes : Dict Node → List Edge → Result (Unit {0})
sort_nodes nodes es =
    let d = in_degree es in
    elim (drain (length nodes) es (roots nodes d) d 0) [
      | raise e ↦ raise e
      | ok seen ↦ if eqb seen (length nodes) then ok tt else raise (dag_error "cycle")
    ]

-- `_check_cycle`.
unfoldable pub check_cycle : Dict Node → List Edge → Result (Unit {0})
check_cycle nodes es = check_ends nodes es >> sort_nodes nodes es
