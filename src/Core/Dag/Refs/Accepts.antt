-- ===== src/Core/Dag/Refs/Accepts.antt =====
-- When the check of the references accepts a graph (`DAG.check_params_refs`).
use multi_agent_workflow.Prelude.{
  String, true, List, [], ◌∷◌, ◌==◌, ◌≡◌, refl, ◌⊎◌, inl, inr, ◌↔◌, All, contains, is_some,
  Bool-cases, Result, ok, raise, ◌>>=◌, ◌>>◌,
}
use multi_agent_workflow.Prelude.Dict.{Dict, lookup, Entries, Entries-found}
use multi_agent_workflow.Core.Dag.{Node}
use multi_agent_workflow.Core.Dag.Refs.{
  transitive_upstreams, collect_fields, target, check_refs, check_node_refs, check_params_refs,
}
use multi_agent_workflow.Core.Dag.Refs.Above.{In, Above, Known, Climbs, transitive_upstreams-Climbs}

check_refs-accepts :
    (allowed refs : List String)
    → (check_refs allowed refs ≡ ok tt) ↔ All (λ ref. In (target ref) allowed) refs
unfolding check_refs
check_refs-accepts allowed [] = ((λ _. tt), λ _. refl)
check_refs-accepts allowed (ref ∷ refs) = elim (Bool-cases (contains (target ref) allowed)) [
  | inl i ↦
      rw (i, check_refs)
        (
          (λ h. (refl, (check_refs-accepts allowed refs).0 h)),
          λ h. (check_refs-accepts allowed refs).1 h.1,
        )
  | inr i ↦ rw (i, check_refs) ((λ h. absurd cc), λ h. absurd cc)
]

module _ (nodes : Dict Node) (known : Known nodes) where
  -- A reference of a node to itself, or to a node above it.
  abbrev pub Refers : String → String → Type 0
  Refers nid ref = ((nid == target ref) ≡ true) ⊎ Above nodes nid (target ref)

  allowed-Refers :
      (nid : String) (seen : List String)
      → Climbs nodes nid known (ok seen)
      → (ref : String) → In (target ref) (nid ∷ seen) ↔ Refers nid ref
  allowed-Refers nid seen c ref = elim (Bool-cases (nid == target ref)) [
    | inl same ↦ ((λ _. inl same), λ _. rw same refl)
    | inr other ↦ (
      (λ i. inr ((c (target ref)).0 (rw other at i))),
      λ r. elim r [ inl same ↦ absurd cc | inr a ↦ rw other ((c (target ref)).1 a) ],
    )
  ]

  All-Refers :
      (nid : String) (seen refs : List String)
      → Climbs nodes nid known (ok seen)
      → All (λ ref. In (target ref) (nid ∷ seen)) refs ↔ All (Refers nid) refs
  All-Refers nid seen [] c = ((λ _. tt), λ _. tt)
  All-Refers nid seen (ref ∷ refs) c =
      let here = allowed-Refers nid seen c ref in
      let rest = All-Refers nid seen refs c in
      ((λ h. (here.0 h.0, rest.0 h.1)), λ h. (here.1 h.0, rest.1 h.1))

  node-accepts :
      (nid : String) (refs : List String) (r : Result (List String))
      → Climbs nodes nid known r
      → ((r >>= λ above. check_refs (nid ∷ above) refs) ≡ ok tt) ↔ All (Refers nid) refs
  node-accepts nid refs (raise e) c = absurd c
  node-accepts nid refs (ok seen) c =
      let checked = check_refs-accepts (nid ∷ seen) refs in
      let rest = All-Refers nid seen refs c in
      ((λ h. rest.0 (checked.0 h)), λ h. checked.1 (rest.1 h))

  both : (a b : Result (Unit {0})) → (a >> b ≡ ok tt) ↔ (a ≡ ok tt) × (b ≡ ok tt)
  both (ok u) b = ((λ h. (refl, h)), λ h. h.1)
  both (raise e) b = ((λ h. absurd cc), λ h. absurd (let f = h.0 in cc))

  -- The references of each node.
  abbrev pub AllRefer : Dict Node → Type 0
  AllRefer ns = Entries (λ nid (n : Node). All (Refers nid) (collect_fields n.params)) ns

  check_node_refs-accepts :
      (ns : Dict Node)
      → Entries (λ nid (n : Node). is_some (lookup nid nodes) ≡ true) ns
      → (check_node_refs nodes ns ≡ ok tt) ↔ AllRefer ns
  unfolding check_node_refs
  check_node_refs-accepts [] h = ((λ _. tt), λ _. refl)
  check_node_refs-accepts ((nid, n) ∷ ns) h =
      let here =
        node-accepts nid (collect_fields n.params) (transitive_upstreams nodes nid)
          (transitive_upstreams-Climbs nodes nid known h.0) in
      let rest = check_node_refs-accepts ns h.1 in
      let split = both _ (check_node_refs nodes ns) in
      ((λ e. let (a, b) = split.0 e in (here.0 a, rest.0 b)), λ e. split.1 (here.1 e.0, rest.1 e.1))

  -- The check of the references accepts a graph exactly if each reference in the parameters of a
  -- node, at any depth, names the node itself or a node from which a path of edges leads to it. The
  -- edges of the graph start at its nodes; the graph may have a cycle.
  pub check_params_refs-accepts : (check_params_refs nodes ≡ ok tt) ↔ AllRefer nodes
  unfolding check_params_refs
  check_params_refs-accepts = check_node_refs-accepts nodes (Entries-found nodes)
