-- ===== src/Core/Dag/Build/Bound.antt =====
-- The loop of `DAG.build` that binds the edges.
use multi_agent_workflow.Prelude.{
  String, Bool, true, false, Option, none, some, List, [], ◌∷◌, ◌++◌, ◌==◌, is_some, All, ok, ◌≡◌,
  refl, arith, eq_iff, Bool-cases, inl, inr, subst, sym, ◌∙◌,
}
use multi_agent_workflow.Prelude.Dict.{
  Dict, lookup, insert, lookup-insert, insert-Unique, Unique, Entries,
}
use multi_agent_workflow.Core.Dag.{Node, Edge}
use multi_agent_workflow.Core.Dag.Build.{bind_edges, with_edge}

-- An edge between nodes, and one that ends at a given node.
abbrev pub Between : Dict Node → Edge → Type 0
Between nodes e =
    (is_some (lookup e.source nodes) ≡ true) × (is_some (lookup e.target nodes) ≡ true)

module _ (P : Edge → Type 0) where
  -- The edges of each node end there, and have a property.
  abbrev pub Bound : Dict Node → Type 0
  Bound nodes =
      Entries (λ nid (n : Node). All (λ (e : Edge). (e.target ≡ nid) × P e) n.in_edges) nodes

  All-snoc-edge :
      (Q : Edge → Type 0) (es : List Edge) (e : Edge) → All Q es → Q e → All Q (es ++ e ∷ [])
  All-snoc-edge Q [] e h q = (q, tt)
  All-snoc-edge Q (x ∷ es) e h q = (h.0, All-snoc-edge Q es e h.1 q)

  insert-Bound :
      (e : Edge) (n : Node) (nodes : Dict Node)
      → P e
      → lookup e.target nodes ≡ some n
      → Bound nodes
      → Bound (insert e.target (with_edge e n) nodes)
  unfolding insert lookup
  insert-Bound e n [] p f b = cc
  insert-Bound e n ((nid, m) ∷ nodes) p f b = elim (Bool-cases (nid == e.target)) [
    | inl here ↦
        let same : m ≡ n = ground (arith, f, here) in
        rw here (
          All-snoc-edge (λ x. (x.target ≡ nid) × P x) n.in_edges e
              (subst (λ (x : Node). All (λ (y : Edge). (y.target ≡ nid) × P y) x.in_edges) same b.0)
              (sym ((eq_iff nid e.target).0 here), p),
          b.1,
        )
    | inr there ↦ rw there (b.0, insert-Bound e n nodes p (rw there at f) b.1)
  ]

insert-keys :
    (e : Edge) (n : Node) (nodes : Dict Node) (k : String)
    → lookup e.target nodes ≡ some n
    → is_some (lookup k (insert e.target (with_edge e n) nodes)) ≡ is_some (lookup k nodes)
insert-keys e n nodes k f =
    ground (arith, lookup-insert e.target k (with_edge e n) nodes, eq_iff e.target k)

-- One round of the loop that does not raise.
bind_step :
    (e : Edge) (es : List Edge) (nodes nodes' : Dict Node)
    → bind_edges (e ∷ es) nodes ≡ ok nodes'
    → (n : Node) × (lookup e.target nodes ≡ some n)
      × (is_some (lookup e.source nodes) ≡ true)
      × (bind_edges es (insert e.target (with_edge e n) nodes) ≡ ok nodes')
unfolding bind_edges
bind_step e es nodes nodes' h =
    go (lookup e.target nodes) refl (is_some (lookup e.source nodes)) refl
  where
    go :
        (o : Option Node)
        → lookup e.target nodes ≡ o
        → (b : Bool) → is_some (lookup e.source nodes) ≡ b
        → (n : Node) × (lookup e.target nodes ≡ some n)
          × (is_some (lookup e.source nodes) ≡ true)
          × (bind_edges es (insert e.target (with_edge e n) nodes) ≡ ok nodes')
    go none f b s = absurd (ground (arith, f, h))
    go (some n) f false s = absurd (ground (arith, f, h, s))
    go (some n) f true s = (n, f, s, ground (arith, f, h, s))

-- No node appears or goes, and every edge starts and ends at a node.
pub bind_edges-Between :
    (es : List Edge) (nodes nodes' : Dict Node)
    → bind_edges es nodes ≡ ok nodes'
    → Unique nodes
    → ((k : String) → is_some (lookup k nodes') ≡ is_some (lookup k nodes))
      × Unique nodes'
      × All (Between nodes') es
unfolding bind_edges
bind_edges-Between [] nodes nodes' h u =
    let same : nodes ≡ nodes' = cc in ((λ k. rw same), (rw same at u), tt)
bind_edges-Between (e ∷ es) nodes nodes' h u =
    let (n, f, s, rest) = bind_step e es nodes nodes' h in
    let (keys, u', between) =
      bind_edges-Between es (insert e.target (with_edge e n) nodes) nodes' rest
        (insert-Unique e.target (with_edge e n) nodes u) in
    (
      (λ k. keys k ∙ insert-keys e n nodes k f),
      u',
      (
        (
          keys e.source ∙ insert-keys e n nodes e.source f ∙ s,
          keys e.target ∙ insert-keys e n nodes e.target f ∙ rw f refl,
        ),
        between,
      ),
    )

pub bind_edges-Bound :
    (P : Edge → Type 0) (es : List Edge) (nodes nodes' : Dict Node)
    → bind_edges es nodes ≡ ok nodes'
    → All P es
    → Bound P nodes
    → Bound P nodes'
unfolding bind_edges
bind_edges-Bound P [] nodes nodes' h p b = let same : nodes ≡ nodes' = cc in rw same at b
bind_edges-Bound P (e ∷ es) nodes nodes' h p b =
    let (n, f, s, rest) = bind_step e es nodes nodes' h in
    bind_edges-Bound P es (insert e.target (with_edge e n) nodes) nodes' rest p.1
      (insert-Bound P e n nodes p.0 f b)
