-- ===== src/Core/Dag/Kahn/Order.antt =====
-- The order in which `DAG._check_cycle` takes nodes from its queue, and its degrees.
use multi_agent_workflow.Prelude.{
  ℕ, suc, ◌+◌, ◌-◌, ◌<◌, String, Bool, true, false, not, ◌&&◌, ◌||◌, List, [], ◌∷◌, ◌++◌, ◌==◌, eqb,
  length, if◌then◌else◌, is_some, contains, All, All-map, All-zip, ◌≡◌, refl, arith, eq_iff,
  eq_refl, Bool-cases, inl, inr, ◌≢◌,
}
use multi_agent_workflow.Prelude.Dict.{Dict, lookup}
use multi_agent_workflow.Core.Dag.{Node, Edge}
use multi_agent_workflow.Core.Dag.Kahn.{Degrees, update, in_degree, targets, lower_targets}

-- How many edges end at `m` and start at a node that is not in the list.
abbrev pub open_degree : List String → List Edge → Degrees
open_degree popped [] m = 0
open_degree popped (e ∷ es) m =
    let rest = open_degree popped es m in
    if e.target == m && not (contains e.source popped) then suc rest else rest

abbrev pub occurrences : String → List String → ℕ
occurrences m [] = 0
occurrences m (x ∷ xs) = let rest = occurrences m xs in if x == m then suc rest else rest

pub open_degree-nil : (es : List Edge) (m : String) → in_degree es m ≡ open_degree [] es m
unfolding in_degree
open_degree-nil [] m = refl
open_degree-nil (e ∷ es) m = ground (arith, open_degree-nil es m)

-- Popping a node takes its edges out of the degrees.
pub open_degree-pop :
    (popped : List String) (nid : String) (es : List Edge) (m : String)
    → contains nid popped ≡ false
    → open_degree popped es m ≡ open_degree (nid ∷ popped) es m + occurrences m (targets es nid)
unfolding targets
open_degree-pop popped nid [] m h = refl
open_degree-pop popped nid (e ∷ es) m h =
    ground (arith, eq_iff nid e.source, eq_iff e.source nid, open_degree-pop popped nid es m h)

-- The nodes in a list of popped ones, the latest first: each was popped once, and after the sources
-- of all its edges.
abbrev pub Ordered : List Edge → List String → Type 0
Ordered es [] = Unit
Ordered es (m ∷ ms) = (contains m ms ≡ false) × (open_degree ms es m ≡ 0) × Ordered es ms

abbrev pub position : String → List String → ℕ
position m [] = 0
position m (x ∷ xs) = if x == m then length xs else position m xs

position-lt : (m : String) (xs : List String) → contains m xs ≡ true → position m xs < length xs
position-lt m [] h = cc
position-lt m (x ∷ xs) h = ground (arith, position-lt m xs)

sources_popped :
    (ms : List String) (m : String) (es : List Edge)
    → open_degree ms es m ≡ 0
    → All (λ (e : Edge). (e.target == m) ≡ true → contains e.source ms ≡ true) es
sources_popped ms m [] h = tt
sources_popped ms m (e ∷ es) h = (λ t. ground arith, sources_popped ms m es (ground arith))

abbrev pub Raises : List String → Edge → Type 0
Raises ms e =
    contains e.target ms ≡ true
    → (contains e.source ms ≡ true) × (position e.source ms < position e.target ms)

Raises-cons :
    (x : String) (xs : List String) (e : Edge)
    → contains x xs ≡ false
    → ((e.target == x) ≡ true → contains e.source xs ≡ true)
    → Raises xs e
    → Raises (x ∷ xs) e
Raises-cons x xs e new source before h = elim (Bool-cases (x == e.target)) [
  | inl here ↦
      let inside = source (ground (arith, eq_iff x e.target, eq_iff e.target x)) in
      let other : (x == e.source) ≡ false = ground (arith, eq_iff x e.source) in
      let p = position-lt e.source xs inside in rw (other, here) (inside, p)
  | inr there ↦
      let r = before (ground (arith, there)) in
      let other : (x == e.source) ≡ false = ground (arith, eq_iff x e.source, r.0) in
      rw (other, there) r
]

units : (es : List Edge) → All (λ (e : Edge). Unit {0}) es
units [] = tt
units (e ∷ es) = (tt, units es)

pub Ordered-Raises : (es : List Edge) (ms : List String) → Ordered es ms → All (Raises ms) es
Ordered-Raises es [] o = All-map es (λ e u h. absurd (ground (arith, h))) (units es)
Ordered-Raises es (m ∷ ms) (new, closed, o) =
    All-map es (λ e p. Raises-cons m ms e new p.0 p.1)
      (All-zip _ _ es (sources_popped ms m es closed) (Ordered-Raises es ms o))

abbrev pub Distinct : List String → Type 0
Distinct [] = Unit
Distinct (m ∷ ms) = (contains m ms ≡ false) × Distinct ms

-- The state of the loop over the queue, with the nodes that it has popped.
pub record Kahn (nodes : Dict Node) (es : List Edge) (popped q : List String) (rest : List String)
    (d : Degrees) : Type 0 where
  pub known : All (λ m. is_some (lookup m nodes) ≡ true) q
  pub fresh : All (λ m. contains m popped ≡ false) q
  pub distinct : Distinct q
  pub zeros : All (λ m. d m ≡ 0) q
  pub ended : (m : String) → contains m popped ≡ true → d m ≡ 0
  pub degree : (m : String) → d m ≡ open_degree popped es m + occurrences m rest

All-snoc :
    (P : String → Type 0) (xs : List String) (m : String) → All P xs → P m → All P (xs ++ m ∷ [])
All-snoc P [] m h p = (p, tt)
All-snoc P (x ∷ xs) m h p = (h.0, All-snoc P xs m h.1 p)

pub contains-snoc :
    (x : String) (xs : List String) (m : String)
    → contains x (xs ++ m ∷ []) ≡ (contains x xs || m == x)
contains-snoc x [] m = ground arith
contains-snoc x (y ∷ ys) m = ground (arith, contains-snoc x ys m)

Distinct-snoc :
    (xs : List String) (m : String) → Distinct xs → contains m xs ≡ false → Distinct (xs ++ m ∷ [])
Distinct-snoc [] m u h = (refl, tt)
Distinct-snoc (x ∷ xs) m u h = (
  ground (arith, contains-snoc x xs m, u.0, eq_iff m x, eq_iff x m),
  Distinct-snoc xs m u.1 (ground arith),
)

absent :
    (d : Degrees) (m : String) (q : List String)
    → All (λ x. d x ≡ 0) q
    → d m ≢ 0
    → contains m q ≡ false
absent d m [] z h = refl
absent d m (x ∷ xs) z h = ground (arith, eq_iff x m, z.0, absent d m xs z.1 h)

module _ (nodes : Dict Node) (es : List Edge) (popped : List String) where
  module _ (m : String) (ms q : List String) (d : Degrees) (here : is_some (lookup m nodes) ≡ true)
      (k : Kahn nodes es popped q (m ∷ ms) d) where
    positive : d m ≢ 0
    positive z = absurd (ground (arith, k.degree m, eq_refl m))

    not_popped : contains m popped ≡ false
    not_popped = elim (Bool-cases (contains m popped)) [
      | inl c ↦ absurd (positive (k.ended m c))
      | inr c ↦ c
    ]

    abbrev lowered : Degrees
    lowered = update m (d m - 1) d

    lowered-zeros : All (λ x. lowered x ≡ 0) q
    lowered-zeros = All-map q (λ x z. ground (arith, eq_iff m x, positive)) k.zeros

    lower-Kahn : Kahn nodes es popped q ms lowered
    lower-Kahn = record {
      known = k.known;
      fresh = k.fresh;
      distinct = k.distinct;
      zeros = lowered-zeros;
      ended = λ j h. ground (arith, eq_iff m j, positive, k.ended j h);
      degree = λ j. ground (arith, eq_iff m j, k.degree j, positive);
    }

    enqueue-Kahn :
        (b : Bool)
        → eqb (d m - 1) 0 ≡ b
        → Kahn nodes es popped (if b then q ++ m ∷ [] else q) ms lowered
    enqueue-Kahn false e = lower-Kahn
    enqueue-Kahn true e = record {
      known = All-snoc _ q m k.known here;
      fresh = All-snoc _ q m k.fresh not_popped;
      distinct = Distinct-snoc q m k.distinct (absent d m q k.zeros positive);
      zeros = All-snoc _ q m lowered-zeros (ground (arith, eq_refl m));
      ended = lower-Kahn.ended;
      degree = lower-Kahn.degree;
    }

  pub lower_targets-Kahn :
      (ms q : List String) (d : Degrees)
      → All (λ m. is_some (lookup m nodes) ≡ true) ms
      → Kahn nodes es popped q ms d
      → Kahn nodes es popped (lower_targets ms d q).1 [] (lower_targets ms d q).0
  unfolding lower_targets
  lower_targets-Kahn [] q d known k = k
  lower_targets-Kahn (m ∷ ms) q d known k =
      lower_targets-Kahn ms (if eqb (d m - 1) 0 then q ++ m ∷ [] else q) (update m (d m - 1) d)
        known.1 (enqueue-Kahn m ms q d known.0 k (eqb (d m - 1) 0) refl)
