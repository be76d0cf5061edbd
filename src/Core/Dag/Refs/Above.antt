-- ===== src/Core/Dag/Refs/Above.antt =====
-- The nodes from which a path leads to a node.
use multi_agent_workflow.Prelude.{
  ℕ, zero, suc, ◌+◌, ◌≤◌, ◌<◌, String, true, false, ◌||◌, none, some, List, [], ◌∷◌, ◌==◌, ◌≡◌,
  refl, sym, ap, ◌∙◌, subst, inl, inr, ◌↔◌, All, map, arith, eq_iff, eq_refl, contains, length,
  is_some, Bool-cases, Option-cases, Result, ok, raise,
}
use multi_agent_workflow.Prelude.Dict.{Dict, lookup, Entries, Entries-lookup}
use multi_agent_workflow.Core.Dag.{Edge, Node, upstreams}
use multi_agent_workflow.Core.Dag.Refs.{
  upstreams_of, pushed, climb, edges_left, transitive_upstreams,
}

-- A node is on a stack of nodes, or among those that were seen.
abbrev pub In : String → List String → Type 0
In u us = contains u us ≡ true

-- `u` is above `nid`: an edge leads from it to `nid`, or to a node that is above `nid`.
pub data Above (nodes : Dict Node) (nid : String) : String → Type 0 where
  direct :
      {n : Node} {u : String} → lookup nid nodes ≡ some n → In u (upstreams n) → Above nodes nid u
  higher :
      {n : Node} {x u : String}
      → Above nodes nid x
      → lookup x nodes ≡ some n
      → In u (upstreams n)
      → Above nodes nid u

contains-pushed :
    (u : String) (us stack : List String)
    → contains u (pushed us stack) ≡ (contains u us || contains u stack)
contains-pushed u [] stack = refl
contains-pushed u (v ∷ us) stack = ground (arith, contains-pushed u us (v ∷ stack))

length-pushed : (us stack : List String) → length (pushed us stack) ≡ length us + length stack
length-pushed [] stack = omega arith
length-pushed (u ∷ us) stack = omega (arith, length-pushed us (u ∷ stack))

module _ (nodes : Dict Node) where
  edges_left_le :
      (u : String) (seen : List String) (ns : Dict Node)
      → edges_left nodes ns (u ∷ seen) ≤ edges_left nodes ns seen
  unfolding edges_left
  edges_left_le u seen [] = omega arith
  edges_left_le u seen ((k, n) ∷ ns) = ground (arith, edges_left_le u seen ns)

  -- Seeing a node takes the edges into it away.
  edges_left-seen :
      (u : String) (n : Node) (seen : List String) (ns : Dict Node)
      → contains u seen ≡ false
      → lookup u ns ≡ some n
      → edges_left nodes ns (u ∷ seen) + length (upstreams n) ≤ edges_left nodes ns seen
  unfolding edges_left lookup
  edges_left-seen u n seen [] fresh e = cc
  edges_left-seen u n seen ((k, m) ∷ ns) fresh e = elim (Bool-cases (k == u)) [
    | inl same ↦
        let found : some m ≡ some n = rw same at e in
        let sizes : length (upstreams m) ≡ length (upstreams n) =
          ap (λ o. elim o as (λ _. ℕ) [ none ↦ 0 | some x ↦ length (upstreams x) ]) found in
        let unseen : contains k seen ≡ false =
          subst (λ x. contains x seen ≡ false) (sym ((eq_iff k u).0 same)) fresh in
        ground (arith, sizes, unseen, eq_iff k u, eq_iff u k, same, edges_left_le u seen ns)
    | inr other ↦
        ground (arith, eq_iff k u, eq_iff u k, other, edges_left-seen u n seen ns fresh, e)
  ]

  -- Every edge starts at a node of the graph.
  abbrev pub Known : Type 0
  Known =
      (k : String) (n : Node) (u : String)
      → lookup k nodes ≡ some n
      → In u (upstreams n)
      → is_some (lookup u nodes) ≡ true

  source-lookup :
      (es : List Edge) (u : String)
      → All (λ e. is_some (lookup e.source nodes) ≡ true) es
      → In u (map (λ e. e.source) es)
      → is_some (lookup u nodes) ≡ true
  source-lookup [] u h i = cc
  source-lookup (e ∷ es) u h i = elim (Bool-cases (e.source == u)) [
    | inl same ↦ subst (λ k. is_some (lookup k nodes) ≡ true) ((eq_iff e.source u).0 same) h.0
    | inr other ↦ source-lookup es u h.1 (rw other at i)
  ]

  -- If the source of each edge is found.
  pub sources-Known :
      Entries (λ _ (n : Node). All (λ e. is_some (lookup e.source nodes) ≡ true) n.in_edges) nodes
      → Known
  sources-Known h k n u e i = source-lookup n.in_edges u (Entries-lookup _ k n nodes h e) i

  module _ (nid : String) (known : Known) where
    -- Before a round of the loop: what was seen and what is on the stack is above the node, and
    -- what is above a node that was seen was seen or is on the stack.
    pub record Climbing (seen stack : List String) : Type 0 where
      pub above : (u : String) → (contains u seen || contains u stack) ≡ true → Above nodes nid u
      pub first :
          (n : Node) (u : String)
          → lookup nid nodes ≡ some n
          → In u (upstreams n)
          → (contains u seen || contains u stack) ≡ true
      pub closed :
          (x : String) (n : Node) (u : String)
          → In x seen
          → lookup x nodes ≡ some n
          → In u (upstreams n)
          → (contains u seen || contains u stack) ≡ true

    -- What the loop gives is what is above the node.
    abbrev pub Climbs : Result (List String) → Type 0
    Climbs (raise e) = ⊥
    Climbs (ok seen) = (u : String) → In u seen ↔ Above nodes nid u

    pub Above-known : (u : String) → Above nodes nid u → is_some (lookup u nodes) ≡ true
    Above-known u (direct {n} e i) = known nid n u e i
    Above-known u (higher {n} {x} a e i) = known x n u e i

    -- With an empty stack, everything above the node was seen.
    all_seen :
        (seen : List String) → Climbing seen [] → (u : String) → Above nodes nid u → In u seen
    all_seen seen c u (direct {n} e i) = ground (arith, c.first n u e i)
    all_seen seen c u (higher {n} {x} a e i) =
        ground (arith, c.closed x n u (all_seen seen c x a) e i)

    same_upstreams :
        (x : String) (n m : Node) (v : String)
        → lookup x nodes ≡ some n
        → lookup x nodes ≡ some m
        → In v (upstreams m)
        → In v (upstreams n)
    same_upstreams x n m v e f j =
        subst
          (λ o.
            contains v (elim o as (λ _. List String) [ none ↦ [] | some y ↦ upstreams y ]) ≡ true)
          (sym f ∙ e) j

    -- A node that was seen before is taken off the stack.
    seen-Climbing :
        (u : String) (seen stack : List String)
        → In u seen
        → Climbing seen (u ∷ stack)
        → Climbing seen stack
    seen-Climbing u seen stack i c = record {
      above = λ v h. c.above v (ground (arith, h));
      first = λ n v e j. ground (arith, c.first n v e j, eq_iff u v, i);
      closed = λ x n v s e j. ground (arith, c.closed x n v s e j, eq_iff u v, i);
    }

    -- A new node is seen, and its upstream nodes go on the stack.
    new-Climbing :
        (u : String) (n : Node) (seen stack : List String)
        → lookup u nodes ≡ some n
        → Climbing seen (u ∷ stack)
        → Climbing (u ∷ seen) (pushed (upstreams n) stack)
    new-Climbing u n seen stack e c = record {
      above = λ v h. elim (Bool-cases (contains v (upstreams n))) [
        | inl j ↦ higher (c.above u (ground (arith, eq_refl u))) e j
        | inr j ↦ c.above v (ground (arith, h, j, contains-pushed v (upstreams n) stack))
      ];
      first = λ m v f j. ground (arith, c.first m v f j, contains-pushed v (upstreams n) stack);
      closed = λ x m v s f j. elim (Bool-cases (u == x)) [
        | inl same ↦
            let i =
              same_upstreams x n m v (subst (λ y. lookup y nodes ≡ some n) ((eq_iff u x).0 same) e)
                f j in
            ground (arith, i, contains-pushed v (upstreams n) stack)
        | inr other ↦ ground (
          arith,
          c.closed x m v (ground (arith, s, other)) f j,
          contains-pushed v (upstreams n) stack,
        )
      ];
    }

    climb-Climbs :
        (fuel : ℕ) (seen stack : List String)
        → Climbing seen stack
        → length stack + edges_left nodes nodes seen < fuel
        → Climbs (climb nodes fuel seen stack)
    unfolding climb upstreams_of
    climb-Climbs zero seen stack c less = absurd (omega arith)
    climb-Climbs (suc fuel) seen [] c less =
        λ u. (λ i. c.above u (ground (arith, i)), all_seen seen c u)
    climb-Climbs (suc fuel) seen (u ∷ stack) c less = elim (Bool-cases (contains u seen)) [
      | inl i ↦
          rw (i, climb)
            (climb-Climbs fuel seen stack (seen-Climbing u seen stack i c) (omega arith))
      | inr i ↦ elim (Option-cases (lookup u nodes)) [
        | inl e ↦
            let f = Above-known u (c.above u (ground (arith, eq_refl u))) in
            absurd (ground (arith, e, f))
        | inr (n, e) ↦
            rw (i, e, climb, upstreams_of)
              (climb-Climbs fuel (u ∷ seen) (pushed (upstreams n) stack)
                (new-Climbing u n seen stack e c)
                (omega
                  (arith, edges_left-seen u n seen nodes i e, length-pushed (upstreams n) stack)))
      ]
    ]

    start-Climbing : (n : Node) → lookup nid nodes ≡ some n → Climbing [] (pushed (upstreams n) [])
    start-Climbing n e = record {
      above = λ v h. direct e (ground (arith, h, contains-pushed v (upstreams n) []));
      first = λ m v f j.
          ground (arith, same_upstreams nid n m v e f j, contains-pushed v (upstreams n) []);
      closed = λ x m v s f j. cc;
    }

    -- The loop ends within its fuel, and gives the nodes above the node.
    pub transitive_upstreams-Climbs :
        is_some (lookup nid nodes) ≡ true → Climbs (transitive_upstreams nodes nid)
    unfolding transitive_upstreams upstreams_of
    transitive_upstreams-Climbs here = elim (Option-cases (lookup nid nodes)) [
      | inl e ↦ absurd (ground (arith, e, here))
      | inr (n, e) ↦
          rw (e, transitive_upstreams, upstreams_of)
            (climb-Climbs (suc (length (pushed (upstreams n) []) + edges_left nodes nodes [])) []
              (pushed (upstreams n) []) (start-Climbing n e) (omega arith))
    ]
