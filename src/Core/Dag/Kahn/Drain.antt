-- ===== src/Core/Dag/Kahn/Drain.antt =====
-- The loop over the queue of `DAG._check_cycle`: its rounds and its result.
use multi_agent_workflow.Prelude.{
  ℕ, zero, suc, ◌+◌, ◌<◌, String, true, false, List, [], ◌∷◌, ◌==◌, eqb, length, if◌then◌else◌,
  none, is_some, contains, All, All-map, All-zip, Result, ok, raise, ◌≡◌, refl, arith, eq_iff,
  Bool-cases, Option-cases, key_error, inl, inr, ◌⊎◌, dag_error,
}
use multi_agent_workflow.Prelude.Dict.{Dict, lookup, Unique, Entries, Entries-found}
use multi_agent_workflow.Core.Dag.{Node, Edge}
use multi_agent_workflow.Core.Dag.Kahn.{
  Degrees, in_degree, targets, roots, lower_targets, drain, check_ends, sort_nodes, check_cycle,
}
use multi_agent_workflow.Core.Dag.Kahn.Complete.{
  Complete, lower_targets-Complete, pop-Complete, roots-Complete,
}
use multi_agent_workflow.Core.Dag.Kahn.Order.{
  open_degree, open_degree-nil, open_degree-pop, Ordered, position, Ordered-Raises, Distinct, Kahn,
  lower_targets-Kahn,
}

apart : (m : String) (q : List String) → contains m q ≡ false → All (λ x. (m == x) ≡ false) q
apart m [] h = tt
apart m (x ∷ xs) h = (ground (arith, eq_iff m x, eq_iff x m), apart m xs (ground arith))

targets_known :
    (nodes : Dict Node) (nid : String) (es : List Edge)
    → All (λ (e : Edge). is_some (lookup e.target nodes) ≡ true) es
    → All (λ m. is_some (lookup m nodes) ≡ true) (targets es nid)
unfolding targets
targets_known nodes nid [] h = tt
targets_known nodes nid (e ∷ es) h = elim (Bool-cases (e.source == nid)) [
  | inl c ↦ rw c (h.0, targets_known nodes nid es h.1)
  | inr c ↦ rw c (targets_known nodes nid es h.1)
]

-- The nodes that have not been popped.
abbrev pub unpopped : List String → Dict Node → ℕ
unpopped popped [] = 0
unpopped popped ((nid, n) ∷ nodes) =
    let rest = unpopped popped nodes in if contains nid popped then rest else suc rest

unpopped-other :
    (popped : List String) (m : String) (nodes : Dict Node)
    → lookup m nodes ≡ none
    → unpopped (m ∷ popped) nodes ≡ unpopped popped nodes
unfolding lookup
unpopped-other popped m [] h = refl
unpopped-other popped m ((nid, n) ∷ nodes) h =
    ground (arith, eq_iff nid m, eq_iff m nid, unpopped-other popped m nodes)

unpopped-pop :
    (popped : List String) (m : String) (nodes : Dict Node)
    → Unique nodes
    → is_some (lookup m nodes) ≡ true
    → contains m popped ≡ false
    → unpopped popped nodes ≡ suc (unpopped (m ∷ popped) nodes)
unfolding lookup
unpopped-pop popped m [] u h f = cc
unpopped-pop popped m ((nid, n) ∷ nodes) u h f = ground (
  arith,
  eq_iff nid m,
  eq_iff m nid,
  unpopped-pop popped m nodes u.1,
  unpopped-other popped m nodes,
  u.0,
)

unpopped-nil : (nodes : Dict Node) → unpopped [] nodes ≡ length nodes
unpopped-nil [] = refl
unpopped-nil ((nid, n) ∷ nodes) = ground (arith, unpopped-nil nodes)

unpopped-none :
    (popped : List String) (m : String) (nodes : Dict Node)
    → unpopped popped nodes ≡ 0
    → is_some (lookup m nodes) ≡ true
    → contains m popped ≡ true
unfolding lookup
unpopped-none popped m [] z h = cc
unpopped-none popped m ((nid, n) ∷ nodes) z h =
    ground (arith, eq_iff nid m, unpopped-none popped m nodes)

module _ (nodes : Dict Node) (es : List Edge) where
  pop-Kahn :
      (popped : List String) (nid : String) (q : List String) (d : Degrees)
      → Kahn nodes es popped (nid ∷ q) [] d
      → Kahn nodes es (nid ∷ popped) q (targets es nid) d
  pop-Kahn popped nid q d k = record {
    known = k.known.1;
    fresh =
        All-map q (λ x p. ground (arith, p)) (All-zip _ _ q (apart nid q k.distinct.0) k.fresh.1);
    distinct = k.distinct.1;
    zeros = k.zeros.1;
    ended = λ m h. ground (arith, eq_iff nid m, k.zeros.0, k.ended m);
    degree = λ m. ground (arith, k.degree m, open_degree-pop popped nid es m k.fresh.0);
  }

  pop-Ordered :
      (popped : List String) (nid : String) (q : List String) (d : Degrees)
      → Kahn nodes es popped (nid ∷ q) [] d
      → Ordered es popped
      → Ordered es (nid ∷ popped)
  pop-Ordered popped nid q d k o = (k.fresh.0, ground (arith, k.degree nid, k.zeros.0), o)

  -- The number that the loop gives, and the nodes that it has popped.
  pub record Drained (r : Result ℕ) : Type 0 where
    pub seen : ℕ
    pub popped : List String
    pub result : r ≡ ok seen
    pub ordered : Ordered es popped
    pub total : seen + unpopped popped nodes ≡ length nodes
    pub complete :
        (m : String)
        → is_some (lookup m nodes) ≡ true
        → open_degree popped es m ≡ 0
        → contains m popped ≡ true

  module _ (unique : Unique nodes)
      (known : All (λ (e : Edge). is_some (lookup e.target nodes) ≡ true) es) where
    drain-Drained :
        (fuel : ℕ) (popped q : List String) (d : Degrees) (seen : ℕ)
        → Kahn nodes es popped q [] d
        → Ordered es popped
        → Complete nodes popped q d
        → fuel ≡ unpopped popped nodes
        → seen + unpopped popped nodes ≡ length nodes
        → Drained (drain fuel es q d seen)
    unfolding drain
    drain-Drained fuel popped [] d seen k o c f t = record {
      seen = seen;
      popped = popped;
      result = refl;
      ordered = o;
      total = t;
      complete = λ m there z. ground (arith, c m there, k.degree m, z);
    }
    drain-Drained zero popped (nid ∷ q) d seen k o c f t =
        absurd (ground (arith, f, unpopped-pop popped nid nodes unique k.known.0 k.fresh.0))
    drain-Drained (suc fuel) popped (nid ∷ q) d seen k o c f t =
        let fewer = unpopped-pop popped nid nodes unique k.known.0 k.fresh.0 in
        drain-Drained fuel (nid ∷ popped) (lower_targets (targets es nid) d q).1
          (lower_targets (targets es nid) d q).0 (seen + 1)
          (lower_targets-Kahn nodes es (nid ∷ popped) (targets es nid) q d
            (targets_known nodes nid es known) (pop-Kahn popped nid q d k))
          (pop-Ordered popped nid q d k o)
          (lower_targets-Complete nodes (nid ∷ popped) (targets es nid) q d
            (pop-Complete nodes popped nid q d c))
          (omega (arith, f, fewer)) (omega (arith, t, fewer))

    -- The start of the loop.
    roots-contains :
        (d : Degrees) (m : String) (ns : Dict Node)
        → lookup m ns ≡ none
        → contains m (roots ns d) ≡ false
    unfolding roots lookup
    roots-contains d m [] h = refl
    roots-contains d m ((nid, n) ∷ ns) h = ground (arith, eq_iff nid m, roots-contains d m ns)

    roots-Distinct : (d : Degrees) (ns : Dict Node) → Unique ns → Distinct (roots ns d)
    unfolding roots
    roots-Distinct d [] u = tt
    roots-Distinct d ((nid, n) ∷ ns) u = elim (Bool-cases (eqb (d nid) 0)) [
      | inl z ↦ rw z (roots-contains d nid ns u.0, roots-Distinct d ns u.1)
      | inr z ↦ rw z (roots-Distinct d ns u.1)
    ]

    roots-All :
        (P : String → Type 0) (d : Degrees) (ns : Dict Node)
        → Entries (λ nid n. d nid ≡ 0 → P nid) ns
        → All P (roots ns d)
    unfolding roots
    roots-All P d [] h = tt
    roots-All P d ((nid, n) ∷ ns) h = elim (Bool-cases (eqb (d nid) 0)) [
      | inl z ↦ rw z (h.0 (ground (arith, z)), roots-All P d ns h.1)
      | inr z ↦ rw z (roots-All P d ns h.1)
    ]

    start-Kahn : Kahn nodes es [] (roots nodes (in_degree es)) [] (in_degree es)
    start-Kahn = record {
      known = roots-All _ (in_degree es) nodes (All-map nodes (λ e h _. h) (Entries-found nodes));
      fresh =
          roots-All _ (in_degree es) nodes (All-map nodes (λ e h _. refl) (Entries-found nodes));
      distinct = roots-Distinct (in_degree es) nodes unique;
      zeros = roots-All _ (in_degree es) nodes (All-map nodes (λ e h z. z) (Entries-found nodes));
      ended = λ m h. cc;
      degree = λ m. ground (arith, open_degree-nil es m);
    }

    pub check_cycle-Drained :
        Drained (drain (length nodes) es (roots nodes (in_degree es)) (in_degree es) 0)
    check_cycle-Drained =
        drain-Drained (length nodes) [] (roots nodes (in_degree es)) (in_degree es) 0 start-Kahn tt
          (roots-Complete nodes (in_degree es)) (omega (arith, unpopped-nil nodes))
          (omega (arith, unpopped-nil nodes))

    -- Each edge goes from a lower rank to a higher one.
    abbrev pub Ranked : (String → ℕ) → Type 0
    Ranked rank = All (λ (e : Edge). rank e.source < rank e.target) es

    all_Ranked :
        (popped : List String)
        → Ordered es popped
        → unpopped popped nodes ≡ 0
        → Ranked (λ m. position m popped)
    all_Ranked popped o z =
        All-map es (λ e p. (p.1 (unpopped-none popped e.target nodes z p.0)).1)
          (All-zip _ _ es known (Ordered-Raises es popped o))

    sort_nodes-Ranked :
        ((rank : String → ℕ) × Ranked rank × (sort_nodes nodes es ≡ ok tt))
        ⊎ (sort_nodes nodes es ≡ raise (dag_error "cycle"))
    unfolding sort_nodes
    sort_nodes-Ranked =
        let x = check_cycle-Drained in
        elim (Bool-cases (eqb x.seen (length nodes))) [
          | inl same ↦ inl (
            (λ m. position m x.popped),
            all_Ranked x.popped x.ordered (ground (arith, x.total, same)),
            rw (sort_nodes, x.result, same) refl,
          )
          | inr other ↦ inr (rw (sort_nodes, x.result, other) refl)
        ]

  -- The edges start and end at nodes.
  abbrev pub Ends : List Edge → Type 0
  Ends edges =
      All
        (λ (e : Edge).
          (is_some (lookup e.source nodes) ≡ true) × (is_some (lookup e.target nodes) ≡ true))
        edges

  check_ends-cases :
      (edges : List Edge)
      → ((check_ends nodes edges ≡ ok tt) × Ends edges)
        ⊎ ((k : String) × (check_ends nodes edges ≡ raise (key_error k)) × (lookup k nodes ≡ none))
  unfolding check_ends
  check_ends-cases [] = inl (refl, tt)
  check_ends-cases (e ∷ edges) = elim (Option-cases (lookup e.source nodes)) [
    | inl a ↦ inr (e.source, rw (a, check_ends) refl, a)
    | inr (n, a) ↦ elim (Option-cases (lookup e.target nodes)) [
      | inl b ↦ inr (e.target, rw (a, b, check_ends) refl, b)
      | inr (m, b) ↦ elim (check_ends-cases edges) [
        | inl (c, h) ↦ inl (rw (a, b, check_ends) c, ((rw a refl, rw b refl), h))
        | inr (k, c, h) ↦ inr (k, rw (a, b, check_ends) c, h)
      ]
    ]
  ]

  pub check_ends-ok : (edges : List Edge) → Ends edges → check_ends nodes edges ≡ ok tt
  unfolding check_ends
  check_ends-ok [] h = refl
  check_ends-ok (e ∷ edges) h = rw (h.0.0, h.0.1, check_ends) (check_ends-ok edges h.1)

  -- The check of a graph whose node ids differ is over after as many rounds as there are nodes. It
  -- accepts the graph, and then every edge starts and ends at a node and there is a rank that each
  -- edge raises; or it reports a cycle, and every edge starts and ends at a node too; or it raises
  -- the `KeyError` of an id that is no node.
  pub check_cycle-Ranked :
      Unique nodes
      → (Ends es
          × (((rank : String → ℕ) × All (λ (e : Edge). rank e.source < rank e.target) es
                × (check_cycle nodes es ≡ ok tt))
              ⊎ (check_cycle nodes es ≡ raise (dag_error "cycle"))))
        ⊎ ((k : String) × (check_cycle nodes es ≡ raise (key_error k)) × (lookup k nodes ≡ none))
  unfolding check_cycle
  check_cycle-Ranked unique = elim (check_ends-cases es) [
    | inr (k, e, h) ↦ inr (k, rw (e, check_cycle) refl, h)
    | inl (e, h) ↦ inl (
      h,
      elim (sort_nodes-Ranked unique (All-map es (λ x p. p.1) h)) [
        | inl (rank, r, f) ↦ inl (rank, r, rw (e, check_cycle) f)
        | inr f ↦ inr (rw (e, check_cycle) f)
      ],
    )
  ]
