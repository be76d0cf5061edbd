-- ===== src/Core/Dag/Kahn/Accepts.antt =====
-- `DAG._check_cycle` on graphs that have a rank.
use multi_agent_workflow.Prelude.{
  ℕ, zero, suc, ◌<◌, String, true, List, [], ◌∷◌, ◌==◌, eqb, length, is_some, contains, All,
  All-map, All-zip, ok, ◌≡◌, refl, arith, eq_iff, eq_refl, ap,
}
use multi_agent_workflow.Prelude.Dict.{Dict, lookup, Unique}
use multi_agent_workflow.Core.Dag.{Node, Edge}
use multi_agent_workflow.Core.Dag.Kahn.{sort_nodes, check_cycle}
use multi_agent_workflow.Core.Dag.Kahn.Order.{open_degree}
use multi_agent_workflow.Core.Dag.Kahn.Drain.{unpopped, Ranked, check_cycle-Drained, check_ends-ok}

-- Only edges from popped nodes end at a node: none is open.
open_degree-zero :
    (popped : List String) (m : String) (es : List Edge)
    → All (λ (e : Edge). (e.target == m) ≡ true → contains e.source popped ≡ true) es
    → open_degree popped es m ≡ 0
open_degree-zero popped m [] h = refl
open_degree-zero popped m (e ∷ es) h = ground (arith, h.0, open_degree-zero popped m es h.1)

all_popped :
    (popped : List String) (nodes : Dict Node)
    → ((m : String) → is_some (lookup m nodes) ≡ true → contains m popped ≡ true)
    → unpopped popped nodes ≡ 0
unfolding lookup
all_popped popped [] h = refl
all_popped popped ((nid, n) ∷ nodes) h =
    ground (
      arith,
      h nid (rw (eq_refl nid) refl),
      all_popped popped nodes (λ m e. h m (ground (arith, e))),
    )

module _ (nodes : Dict Node) (es : List Edge) (unique : Unique nodes)
    (known : All (λ (e : Edge). is_some (lookup e.target nodes) ≡ true) es)
    (sources : All (λ (e : Edge). is_some (lookup e.source nodes) ≡ true) es) (rank : String → ℕ)
    (ranked : Ranked nodes es unique known rank) where
  abbrev final : List String
  final = (check_cycle-Drained nodes es unique known).popped

  -- By induction on the rank, every node has been popped.
  popped_below :
      (k : ℕ) (m : String) → is_some (lookup m nodes) ≡ true → rank m < k → contains m final ≡ true
  popped_below zero m there r = elim r [ ]
  popped_below (suc k) m there r = (check_cycle-Drained nodes es unique known).complete m there (
      open_degree-zero final m es (
        All-map es
          (λ e p t.
            popped_below k e.source p.0 (omega (arith, r, p.1, ap rank ((eq_iff e.target m).0 t))))
          (All-zip _ _ es sources ranked)))

  -- A graph whose edges start and end at nodes, and which has a rank that each edge raises, passes
  -- the check for cycles. The node ids are different.
  pub check_cycle-accepts : check_cycle nodes es ≡ ok tt
  unfolding check_cycle sort_nodes
  check_cycle-accepts =
      let x = check_cycle-Drained nodes es unique known in
      let none_left =
        all_popped final nodes (λ m there. popped_below (suc (rank m)) m there (omega arith)) in
      let same : eqb x.seen (length nodes) ≡ true = ground (arith, x.total, none_left) in
      let ends = check_ends-ok nodes es es (All-zip _ _ es sources known) in
      rw (ends, check_cycle, sort_nodes, x.result, same) refl
