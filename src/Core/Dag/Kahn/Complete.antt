-- ===== src/Core/Dag/Kahn/Complete.antt =====
-- The queue of `DAG._check_cycle`: which nodes it holds.
use multi_agent_workflow.Prelude.{
  ◌-◌, String, Bool, true, false, ◌||◌, List, [], ◌∷◌, ◌++◌, eqb, if◌then◌else◌, is_some, contains,
  ◌≡◌, refl, arith, eq_iff,
}
use multi_agent_workflow.Prelude.Dict.{Dict, lookup}
use multi_agent_workflow.Core.Dag.{Node}
use multi_agent_workflow.Core.Dag.Kahn.{Degrees, update, roots, lower_targets}
use multi_agent_workflow.Core.Dag.Kahn.Order.{contains-snoc}

abbrev pub Complete : Dict Node → List String → List String → Degrees → Type 0
Complete nodes popped q d =
    (m : String)
    → is_some (lookup m nodes) ≡ true
    → d m ≡ 0
    → (contains m popped || contains m q) ≡ true

module _ (nodes : Dict Node) where
  enqueue-Complete :
      (popped q : List String) (m : String) (d : Degrees) (b : Bool)
      → eqb (d m - 1) 0 ≡ b
      → Complete nodes popped q d
      → Complete nodes popped (if b then q ++ m ∷ [] else q) (update m (d m - 1) d)
  enqueue-Complete popped q m d false e c j known z = ground (arith, c j known, eq_iff m j)
  enqueue-Complete popped q m d true e c j known z =
      ground (arith, c j known, eq_iff m j, contains-snoc j q m)

  pub lower_targets-Complete :
      (popped ms q : List String) (d : Degrees)
      → Complete nodes popped q d
      → Complete nodes popped (lower_targets ms d q).1 (lower_targets ms d q).0
  unfolding lower_targets
  lower_targets-Complete popped [] q d c = c
  lower_targets-Complete popped (m ∷ ms) q d c =
      lower_targets-Complete popped ms (if eqb (d m - 1) 0 then q ++ m ∷ [] else q)
        (update m (d m - 1) d) (enqueue-Complete popped q m d (eqb (d m - 1) 0) refl c)

  pub pop-Complete :
      (popped : List String) (nid : String) (q : List String) (d : Degrees)
      → Complete nodes popped (nid ∷ q) d
      → Complete nodes (nid ∷ popped) q d
  pop-Complete popped nid q d c j known z = ground (arith, c j known z)

roots-holds :
    (d : Degrees) (m : String) (ns : Dict Node)
    → is_some (lookup m ns) ≡ true
    → d m ≡ 0
    → contains m (roots ns d) ≡ true
unfolding roots lookup
roots-holds d m [] h z = cc
roots-holds d m ((nid, n) ∷ ns) h z = ground (arith, eq_iff nid m, roots-holds d m ns)

pub roots-Complete : (nodes : Dict Node) (d : Degrees) → Complete nodes [] (roots nodes d) d
roots-Complete nodes d m known z = ground (arith, roots-holds d m nodes known z)
