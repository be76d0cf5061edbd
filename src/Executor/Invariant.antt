-- ===== src/Executor/Invariant.antt =====
-- What holds of the executor's node states between two actions.
use multi_agent_workflow.Prelude.{
  String, Bool, true, false, ◌||◌, Option, none, some, List, ◌==◌, ◌≡◌, refl, arith, eq_iff,
  is_some, contains, All,
}
use multi_agent_workflow.Prelude.Dict.{lookup, lookup-insert, Unique, insert-Unique, Entries}
use multi_agent_workflow.Core.Dag.{Node, Edge, Status, running, failed, cancelled, is_pending}
use multi_agent_workflow.StateStore.Rows.{NodeState}
use multi_agent_workflow.Executor.State.{Config, Executor, set_state, state_of, or_missing}
use multi_agent_workflow.Executor.Ensures.{Gives}

abbrev pub is_settled : Status → Bool
is_settled running = false
is_settled failed = false
is_settled cancelled = false
is_settled _ = true

abbrev pub pending_at : Option NodeState → Bool
pending_at none = false
pending_at (some st) = is_pending st.status

abbrev pub settled_at : List String → String → Option NodeState → Bool
settled_at busy k none = true
settled_at busy k (some st) = is_settled st.status || contains k busy

-- The nodes that have a state are those of the graph.
abbrev pub Covered : Config → Executor → Type 0
Covered c s = (k : String) → is_some (lookup k s.states) ≡ is_some (lookup k c.nodes)

-- Every node has one state, and each state but those of `busy` nodes is settled.
pub record Inv (c : Config) (busy : List String) (s : Executor) : Type 0 where
  pub covered : Covered c s
  pub unique : Unique s.states
  pub settled : (k : String) → settled_at busy k (lookup k s.states) ≡ true

-- Every edge starts at a node of the graph.
abbrev pub IsClosed : Config → Type 0
IsClosed c =
    Entries
      (λ nid (n : Node). All (λ (e : Edge). is_some (lookup e.source c.nodes) ≡ true) n.in_edges)
      c.nodes

module _ (c : Config) (busy busy' : List String) (nid : String) (st : NodeState)
    (s : Executor) where
  pub set_state-Inv :
      Inv c busy s
      → is_some (lookup nid c.nodes) ≡ true
      → (is_settled st.status || contains nid busy') ≡ true
      → ((k : String) → (nid == k) ≡ false → contains k busy ≡ true → contains k busy' ≡ true)
      → Inv c busy' (set_state nid st s)
  unfolding set_state
  set_state-Inv inv known fits keeps = record {
    covered = λ k. ground (arith, lookup-insert nid k st s.states, inv.covered k, eq_iff nid k);
    unique = insert-Unique nid st s.states inv.unique;
    settled =
        λ k. ground (arith, lookup-insert nid k st s.states, inv.settled k, keeps k, eq_iff nid k);
  }

-- A node of the graph has a state.
pub state_of-found :
    (c : Config) (nid : String) (s : Executor)
    → Covered c s
    → is_some (lookup nid c.nodes) ≡ true
    → Gives (λ st. lookup nid s.states ≡ some st) (state_of nid s.states)
unfolding state_of
state_of-found c nid s covered known = go (lookup nid s.states) refl
  where
    go :
        (o : Option NodeState)
        → lookup nid s.states ≡ o
        → Gives (λ st. o ≡ some st) (or_missing nid o)
    go none e = cc (covered nid)
    go (some st) e = refl

pub state_of-Gives :
    (c : Config) (busy : List String) (nid : String) (s : Executor)
    → Inv c busy s
    → is_some (lookup nid c.nodes) ≡ true
    → Gives (λ st. lookup nid s.states ≡ some st) (state_of nid s.states)
state_of-Gives c busy nid s inv known = state_of-found c nid s inv.covered known
