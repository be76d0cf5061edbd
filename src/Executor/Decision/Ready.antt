-- ===== src/Executor/Decision/Ready.antt =====
-- The list that `_ready_nodes` gives.
use multi_agent_workflow.Prelude.{
  String, true, false, not, ◌&&◌, some, List, [], ◌∷◌, ◌≡◌, refl, arith, is_some, is_empty, All,
  if◌then◌else◌, ok, ◌>>=◌, Bool-cases, inl, inr, ◌≢◌,
}
use multi_agent_workflow.Prelude.Dict.{Dict, lookup, Entries}
use multi_agent_workflow.Json.{Python}
use multi_agent_workflow.Core.Dag.{Node, Edge, is_pending, is_approval}
use multi_agent_workflow.Executor.State.{Config, Executor, state_of}
use multi_agent_workflow.Executor.Ensures.{Gives, Gives-bind, Gives-map, Gives-self}
use multi_agent_workflow.Executor.Invariant.{pending_at, Inv, state_of-Gives}
use multi_agent_workflow.Executor.Decision.{
  Decision, ready, skipped, blocked, is_ready, node_decision, ready_list, ready_nodes, halts,
  halt_node,
}
use multi_agent_workflow.Executor.Decision.Total.{node_decision-Gives}

module _ (py : Python) (c : Config) (s : Executor) where
  -- A node of the graph that is pending, no approval, and ready.
  pub record ReadyNode (nid : String) : Type 0 where
    pub node : Node
    pub found : lookup nid c.nodes ≡ some node
    pub waits : pending_at (lookup nid s.states) ≡ true
    pub plain : is_approval node ≡ false
    pub decision : node_decision py s.states node ≡ ok ready

  abbrev pub NotReady : String → Node → Type 0
  NotReady nid n =
      is_approval n ≡ false
      → pending_at (lookup nid s.states) ≡ true
      → node_decision py s.states n ≢ ok ready

  abbrev pub NoneReady : Dict Node → Type 0
  NoneReady nodes = Entries NotReady nodes

  -- A list holds ready nodes only, and it is empty only if there are none.
  abbrev pub Lists : Dict Node → List String → Type 0
  Lists nodes nids = All ReadyNode nids × (nids ≡ [] → NoneReady nodes)

  module _ (busy : List String) (inv : Inv c busy s) where
    abbrev Entry : String → Node → Type 0
    Entry nid n =
        (lookup nid c.nodes ≡ some n)
        × All (λ (e : Edge). is_some (lookup e.source c.nodes) ≡ true) n.in_edges

    add_decided :
        (nid : String) (n : Node) (nodes : Dict Node) (d : Decision) (rest : List String)
        → Entry nid n
        → pending_at (lookup nid s.states) ≡ true
        → is_approval n ≡ false
        → node_decision py s.states n ≡ ok d
        → Lists nodes rest
        → Gives (Lists ((nid, n) ∷ nodes)) (if is_ready d then ok (nid ∷ rest) else ok rest)
    add_decided nid n nodes ready rest e p a d (all, none_) =
        ((record { node = n; found = e.0; waits = p; plain = a; decision = d }, all), λ x. cc)
    add_decided nid n nodes skipped rest e p a d (all, none_) = (all, λ x. ((λ _ _ y. cc), none_ x))
    add_decided nid n nodes blocked rest e p a d (all, none_) = (all, λ x. ((λ _ _ y. cc), none_ x))

    passed_over :
        (nid : String) (n : Node) (nodes : Dict Node) (rest : List String)
        → NotReady nid n
        → Lists nodes rest
        → Lists ((nid, n) ∷ nodes) rest
    passed_over nid n nodes rest h (all, none_) = (all, λ x. (h, none_ x))

    by_decision :
        (nid : String) (n : Node) (nodes : Dict Node)
        → Entry nid n
        → pending_at (lookup nid s.states) ≡ true
        → is_approval n ≡ false
        → Gives (Lists nodes) (ready_list py s.states nodes)
        → Gives (Lists ((nid, n) ∷ nodes)) (do
          d ← node_decision py s.states n
          rest ← ready_list py s.states nodes
          if is_ready d then ok (nid ∷ rest) else ok rest)
    by_decision nid n nodes e p a ih =
        Gives-bind _ _ (node_decision py s.states n) _
          (Gives-self _ (node_decision py s.states n) (node_decision-Gives py c busy s inv n e.1))
          λ d same.
            Gives-bind (Lists nodes) _ (ready_list py s.states nodes) _ ih
              λ rest l. add_decided nid n nodes d rest e p a same.0 l

    ready_list-Lists :
        (nodes : Dict Node)
        → Entries Entry nodes
        → Gives (Lists nodes) (ready_list py s.states nodes)
    unfolding ready_list
    ready_list-Lists [] h = (tt, λ _. tt)
    ready_list-Lists ((nid, n) ∷ nodes) h =
        Gives-bind (λ st. lookup nid s.states ≡ some st) _ (state_of nid s.states) _
          (state_of-Gives c busy nid s inv (rw (h.0.0) refl))
          λ st found. elim (Bool-cases (is_pending st.status && not (is_approval n))) [
            | inl e ↦ rw e (
                by_decision nid n nodes h.0 (ground (arith, found, e)) (ground (arith, e))
                  (ready_list-Lists nodes h.1))
            | inr e ↦ rw e (
                Gives-map (Lists nodes) _ (ready_list py s.states nodes)
                  (ready_list-Lists nodes h.1)
                  λ rest l. passed_over nid n nodes rest (λ a p _. ground (arith, found, e)) l)
          ]

    halts-All :
        (nodes : Dict Node) (nids : List String)
        → All ReadyNode nids
        → All ReadyNode (halts nodes nids)
    unfolding halts
    halts-All nodes [] h = tt
    halts-All nodes (nid ∷ nids) h = elim (Bool-cases (halt_node (lookup nid nodes))) [
      | inl e ↦ rw e (h.0, halts-All nodes nids h.1)
      | inr e ↦ rw e (halts-All nodes nids h.1)
    ]

    only_halts :
        (nids hs : List String)
        → Lists c.nodes nids
        → All ReadyNode hs
        → Gives (Lists c.nodes) (if is_empty hs then ok nids else ok hs)
    only_halts nids [] l h = l
    only_halts nids (x ∷ hs) l h = (h, λ e. cc)

    -- The ready nodes of an executor in order are pending, no approvals, and decided to be ready;
    -- and there is none such in the graph if the list is empty, also where halt nodes take
    -- precedence.
    pub ready_nodes-Lists :
        Entries Entry c.nodes → Gives (Lists c.nodes) (ready_nodes py c.nodes s.states)
    unfolding ready_nodes
    ready_nodes-Lists h =
        Gives-bind (Lists c.nodes) _ (ready_list py s.states c.nodes) _ (ready_list-Lists c.nodes h)
          λ nids l. only_halts nids (halts c.nodes nids) l (halts-All c.nodes nids l.0)
