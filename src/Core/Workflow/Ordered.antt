-- ===== src/Core/Workflow/Ordered.antt =====
-- The workflows that are loaded.
use multi_agent_workflow.Prelude.{
  ℕ, ◌<◌, String, Bool, true, List, [], ◌∷◌, map, All, All-map, is_some, ◌==◌, ◌≡◌, refl, subst,
  ◌⊎◌, inl, inr, arith, eq_iff, Bool-cases, Result, ok, raise, ◌>>=◌, ◌>>◌,
}
use multi_agent_workflow.Prelude.Dict.{Dict, lookup, Entries, Entries-lookup}
use multi_agent_workflow.Core.Dag.{Node, Edge, Dag}
use multi_agent_workflow.Core.Dag.Build.{build}
use multi_agent_workflow.Core.Dag.Build.Accepted.{Accepted, Skeleton, build-Accepted}
use multi_agent_workflow.Core.Dag.Refs.{collect_fields, target, check_params_refs}
use multi_agent_workflow.Core.Dag.Refs.Above.{
  In, Above, direct, higher, Known, sources-Known, Above-known,
}
use multi_agent_workflow.Core.Dag.Refs.Accepts.{check_params_refs-accepts}
use multi_agent_workflow.Core.Workflow.{load_workflow}

source-lower :
    (rank : String → ℕ) (k u : String) (es : List Edge)
    → All (λ (e : Edge). rank e.source < rank k) es
    → In u (map (λ (e : Edge). e.source) es)
    → rank u < rank k
source-lower rank k u [] h i = cc
source-lower rank k u (e ∷ es) h i = elim (Bool-cases (e.source == u)) [
  | inl same ↦ subst (λ x. rank x < rank k) ((eq_iff e.source u).0 same) h.0
  | inr other ↦ source-lower rank k u es h.1 (rw other at i)
]

module _ (g : Dag) (rank : String → ℕ) (a : Accepted g rank) where
  Accepted-Known : Known g.nodes
  Accepted-Known = sources-Known g.nodes (All-map g.nodes (λ e h. h.1) a.known)

  -- A node above another has a lower rank.
  Above-lower : (nid u : String) → Above g.nodes nid u → rank u < rank nid
  Above-lower nid u (direct {n} e i) =
      source-lower rank nid u n.in_edges (Entries-lookup _ nid n g.nodes a.ranked e) i
  Above-lower nid u (higher {n} {x} b e i) =
      let h = source-lower rank x u n.in_edges (Entries-lookup _ x n g.nodes a.ranked e) i in
      omega (arith, Above-lower nid x b)

-- A reference to the node itself, or to a node of the graph with a lower rank.
abbrev pub Lower : Dag → (String → ℕ) → String → String → Type 0
Lower g rank nid ref =
    ((nid == target ref) ≡ true)
    ⊎ (is_some (lookup (target ref) g.nodes) ≡ true) × (rank (target ref) < rank nid)

-- Every reference in the parameters of every node.
abbrev pub Ordered : Dag → (String → ℕ) → Type 0
Ordered g rank =
    Entries (λ nid (n : Node). All (Lower g rank nid) (collect_fields n.params)) g.nodes

Accepted-Ordered :
    (g : Dag) (rank : String → ℕ)
    → Accepted g rank
    → check_params_refs g.nodes ≡ ok tt
    → Ordered g rank
Accepted-Ordered g rank a h =
    let known = Accepted-Known g rank a in
    All-map g.nodes
      (λ e refs.
        All-map (collect_fields e.1.params)
          (λ ref r. elim r [
            | inl same ↦ inl same
            | inr above ↦ inr (
              Above-known g.nodes e.0 known (target ref) above,
              Above-lower g rank a e.0 (target ref) above,
            )
          ])
          refs)
      ((check_params_refs-accepts g.nodes known).0 h)

checked : (r : Result (Unit {0})) (x g : Dag) → (r >> ok x) ≡ ok g → (r ≡ ok tt) × (x ≡ g)
checked (ok u) x g h = (refl, cc)
checked (raise e) x g h = cc

-- A workflow that is loaded has an order of its nodes that every edge follows, and each reference
-- in the parameters of a node is to the node itself or to a node of the workflow that comes before
-- it in that order. The nodes of the document have different ids and no edges yet.
pub load_workflow-Ordered :
    (strict : Bool) (skeleton : Dict Node) (edges : List Edge) (g : Dag)
    → Skeleton skeleton
    → load_workflow strict skeleton edges ≡ ok g
    → (rank : String → ℕ) × Accepted g rank × Ordered g rank
unfolding load_workflow
load_workflow-Ordered strict skeleton edges g sk h = go (build strict skeleton edges) refl
  where
    go :
        (r : Result Dag)
        → build strict skeleton edges ≡ r
        → (rank : String → ℕ) × Accepted g rank × Ordered g rank
    go (raise x) e = absurd (ground (arith, e, h))
    go (ok x) e =
        let (refs, same) =
          checked (check_params_refs x.nodes) x g
            (subst (λ r. (r >>= λ x. check_params_refs x.nodes >> ok x) ≡ ok g) e h) in
        let (rank, a) = build-Accepted strict skeleton edges sk x e in
        subst (λ y. (rank : String → ℕ) × Accepted y rank × Ordered y rank) same
          (rank, a, Accepted-Ordered x rank a refs)
