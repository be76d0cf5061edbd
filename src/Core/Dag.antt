-- ===== src/Core/Dag.antt =====
-- Nodes, edges and node states (agentflow/core/dag.py). The checks that a graph passes when it is
-- loaded are in the modules below.
pub mod NodeStatus
pub mod Kahn
pub mod Checks
pub mod Build
pub mod Refs
unfoldable pub use NodeStatus.*
use multi_agent_workflow.Prelude.{ℕ, String, Bool, Option, List, ◌==◌, map}
use multi_agent_workflow.Prelude.Int.{ℤ}
use multi_agent_workflow.Prelude.Dict.{Dict}
use multi_agent_workflow.Json.{Fields}

pub record Edge : Type 0 where
  pub source : String
  pub target : String
  pub when : Option String

-- `timeout` in milliseconds. The display text `description` is left out: no code reads it.
pub record Node : Type 0 where
  pub id : String
  pub kind : String
  pub agent : Option String
  pub in_edges : List Edge
  pub when : Option String
  pub join : String
  pub required_edges : List String
  pub retry : ℤ
  pub params : Fields
  pub on_failure : String
  pub on_reject : String
  pub require : List String
  pub timeout : Option ℕ
  pub idempotency_key : Option String

pub record Dag : Type 0 where
  pub nodes : Dict Node
  pub edges : List Edge

unfoldable pub is_approval : Node → Bool
is_approval n = n.kind == "approval"

unfoldable pub is_halt : Node → Bool
is_halt n = n.kind == "halt"

unfoldable pub is_ticket : Node → Bool
is_ticket n = n.kind == "ticket"

unfoldable pub is_closed : Node → Bool
is_closed n = n.kind == "closed"

abbrev pub upstreams : Node → List String
upstreams n = map (λ e. e.source) n.in_edges
