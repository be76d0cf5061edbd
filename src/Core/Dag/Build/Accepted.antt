-- ===== src/Core/Dag/Build/Accepted.antt =====
-- The graphs that `DAG.build` accepts.
use multi_agent_workflow.Prelude.{
  ℕ, ◌<◌, String, Bool, true, Option, none, some, List, [], ◌∷◌, map, is_some, All, All-map,
  All-zip, if◌then◌else◌, Result, ok, raise, ◌≡◌, refl, arith, inl, inr, ◌⊎◌, ◌≢◌, subst, sym, ◌∙◌,
  ◌>>◌, ◌>>=◌, Error, key_error, dag_error,
}
use mathlib.Core.Path.{subst₂}
use multi_agent_workflow.Prelude.Dict.{Dict, lookup, Unique, Entries, Entries-found}
use multi_agent_workflow.Core.Dag.{Node, Edge, Dag}
use multi_agent_workflow.Core.Dag.Kahn.{check_cycle}
use multi_agent_workflow.Core.Dag.Kahn.Drain.{check_cycle-Ranked}
use multi_agent_workflow.Core.Dag.Checks.{
  check_join_consistency, check_on_reject_consistency, check_node_kinds,
}
use multi_agent_workflow.Core.Dag.Build.{
  bind_edges, conditioned, condition_edge, condition_nodes, validate, build,
}
use multi_agent_workflow.Core.Dag.Build.Bound.{Between, Bound, bind_edges-Between, bind_edges-Bound}

conditioned_ends :
    (o : Option Node) (e : Edge)
    → ((conditioned o e).source ≡ e.source) × ((conditioned o e).target ≡ e.target)
conditioned_ends none e = (refl, refl)
conditioned_ends (some n) e = ground arith

All-unmap :
    (P : Edge → Type 0) (f : Edge → Edge) (es : List Edge)
    → All P (map f es)
    → All (λ e. P (f e)) es
All-unmap P f [] h = tt
All-unmap P f (e ∷ es) h = (h.0, All-unmap P f es h.1)

All-remap :
    (P : Edge → Type 0) (f : Edge → Edge) (es : List Edge)
    → All (λ e. P (f e)) es
    → All P (map f es)
All-remap P f [] h = tt
All-remap P f (e ∷ es) h = (h.0, All-remap P f es h.1)

module _ (nodes : Dict Node) where
  condition_nodes-lookup :
      (k : String) (rest : Dict Node)
      → is_some (lookup k (condition_nodes nodes rest)) ≡ is_some (lookup k rest)
  unfolding condition_nodes lookup
  condition_nodes-lookup k [] = refl
  condition_nodes-lookup k ((nid, n) ∷ rest) = ground (arith, condition_nodes-lookup k rest)

  condition_nodes-Unique : (rest : Dict Node) → Unique rest → Unique (condition_nodes nodes rest)
  unfolding condition_nodes
  condition_nodes-Unique [] u = tt
  condition_nodes-Unique ((nid, n) ∷ rest) u =
      (ground (arith, condition_nodes-lookup nid rest, u.0), condition_nodes-Unique rest u.1)

  -- A property of an edge's ends is kept.
  condition_nodes-Bound :
      (Q : String → String → Type 0) (rest : Dict Node)
      → Bound (λ e. Q e.source e.target) rest
      → Bound (λ e. Q e.source e.target) (condition_nodes nodes rest)
  unfolding condition_nodes
  condition_nodes-Bound Q [] b = tt
  condition_nodes-Bound Q ((nid, n) ∷ rest) b = (
    All-remap _ (condition_edge nodes) n.in_edges (
        All-map n.in_edges
          (λ e h.
            let (s, t) = conditioned_ends (lookup e.target nodes) e in
            (t ∙ h.0, subst₂ Q (sym s) (sym t) h.1))
          b.0),
    condition_nodes-Bound Q rest b.1,
  )

first_ok : (m : Result (Unit {0})) (k : Result (Unit {0})) → (m >> k) ≡ ok tt → m ≡ ok tt
first_ok (ok u) k h = refl
first_ok (raise e) k h = cc

validated : (v : Result (Unit {0})) (x g : Dag) → (v >> ok x) ≡ ok g → (v ≡ ok tt) × (x ≡ g)
validated (ok u) x g h = (refl, cc)
validated (raise e) x g h = cc

-- The graph has different node ids, the edges start and end at nodes, and each edge raises the
-- rank.
pub record Accepted (g : Dag) (rank : String → ℕ) : Type 0 where
  pub unique : Unique g.nodes
  pub known :
      Entries
        (λ nid (n : Node).
          (is_some (lookup nid g.nodes) ≡ true)
          × All (λ (e : Edge). is_some (lookup e.source g.nodes) ≡ true) n.in_edges)
        g.nodes
  pub ranked :
      Entries (λ nid (n : Node). All (λ (e : Edge). rank e.source < rank nid) n.in_edges) g.nodes

-- Nodes as they come from the document: their ids differ, and no edge is bound yet.
pub record Skeleton (nodes : Dict Node) : Type 0 where
  pub unique : Unique nodes
  pub bare : Entries (λ nid (n : Node). n.in_edges ≡ []) nodes

module _ (strict : Bool) (skeleton : Dict Node) (edges : List Edge) (sk : Skeleton skeleton) where
  bare-Bound : (Q : Edge → Type 0) → Bound Q skeleton
  bare-Bound Q =
      All-map skeleton (λ e h. subst (All (λ (x : Edge). (x.target ≡ e.0) × Q x)) (sym h) tt)
        sk.bare

  module _ (nodes : Dict Node) (bound : bind_edges edges skeleton ≡ ok nodes) where
    abbrev graph : Dag
    graph = record { nodes = condition_nodes nodes nodes; edges = map (condition_edge nodes) edges }

    abbrev facts :
        ((k : String) → is_some (lookup k nodes) ≡ is_some (lookup k skeleton))
        × Unique nodes
        × All (Between nodes) edges
    facts = bind_edges-Between edges skeleton nodes bound sk.unique

    abbrev EdgeIn : (String → ℕ) → String → String → Type 0
    EdgeIn rank s t = (is_some (lookup s graph.nodes) ≡ true) × (rank s < rank t)

    nodes-Bound :
        (rank : String → ℕ)
        → All (λ (e : Edge). rank e.source < rank e.target) graph.edges
        → Bound (λ e. EdgeIn rank e.source e.target) graph.nodes
    nodes-Bound rank r =
        let (keys, unique, between) = facts in
        condition_nodes-Bound nodes (EdgeIn rank) nodes (
          bind_edges-Bound (λ e. EdgeIn rank e.source e.target) edges skeleton nodes bound
            (All-map edges
              (λ e p.
                let (s, t) = conditioned_ends (lookup e.target nodes) e in
                (
                  condition_nodes-lookup nodes e.source nodes ∙ p.0.0,
                  subst₂ (λ x y. rank x < rank y) s t p.1,
                ))
              (All-zip _ _ edges between
                (All-unmap (λ e. rank e.source < rank e.target) (condition_edge nodes) edges r)))
            (bare-Bound _))

    ranked-Accepted :
        (rank : String → ℕ)
        → All (λ (e : Edge). rank e.source < rank e.target) graph.edges
        → Accepted graph rank
    ranked-Accepted rank r =
        let (keys, unique, between) = facts in
        let b = nodes-Bound rank r in
        record {
          unique = condition_nodes-Unique nodes nodes unique;
          known =
              All-map graph.nodes (λ e p. (p.0, All-map e.1.in_edges (λ x q. q.1.0) p.1))
                (All-zip _ _ graph.nodes (Entries-found graph.nodes) b);
          ranked =
              All-map graph.nodes
                (λ e p.
                  All-map e.1.in_edges (λ x q. subst (λ k. rank x.source < rank k) q.0 q.1.1) p)
                b;
        }

    validate-Accepted :
        ((rank : String → ℕ) × Accepted graph rank) ⊎ (validate strict graph ≢ ok tt)
    unfolding validate
    validate-Accepted =
        let (keys, unique, between) = facts in
        let rest =
          check_join_consistency graph.nodes
          >> (if strict
              then check_on_reject_consistency graph.nodes graph.edges
                >> check_node_kinds graph.nodes
              else ok tt) in
        let refused : (x : Error)
            → check_cycle graph.nodes graph.edges ≡ raise x
            → validate strict graph ≢ ok tt =
          λ x e v. ground (arith, e, first_ok (check_cycle graph.nodes graph.edges) rest v) in
        elim (check_cycle-Ranked graph.nodes graph.edges
          (condition_nodes-Unique nodes nodes unique)) [
            | inr (k, e, h) ↦ inr (refused (key_error k) e)
            | inl (ends, sorted) ↦ elim sorted [
              | inl (rank, r, e) ↦ inl (rank, ranked-Accepted rank r)
              | inr e ↦ inr (refused (dag_error "cycle") e)
            ]
          ]

  abbrev after_binding : Dict Node → Result Dag
  after_binding nodes =
      let g : Dag = record {
        nodes = condition_nodes nodes nodes;
        edges = map (condition_edge nodes) edges;
      } in
      validate strict g >> ok g

  -- A graph that `build` accepts.
  pub build-Accepted :
      (g : Dag) → build strict skeleton edges ≡ ok g → (rank : String → ℕ) × Accepted g rank
  unfolding build
  build-Accepted g h = go (bind_edges edges skeleton) refl
    where
      go :
          (r : Result (Dict Node))
          → bind_edges edges skeleton ≡ r
          → (rank : String → ℕ) × Accepted g rank
      go (raise x) e = absurd (ground (arith, e, h))
      go (ok nodes) e =
          let (valid, same) =
            validated (validate strict (graph nodes e)) (graph nodes e) g
              (subst (λ r. (r >>= after_binding) ≡ ok g) e h) in
          elim (validate-Accepted nodes e) [
            | inl (rank, a) ↦ (rank, subst (λ x. Accepted x rank) same a)
            | inr bad ↦ absurd (bad valid)
          ]
