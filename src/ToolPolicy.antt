-- ===== src/ToolPolicy.antt =====
-- The tenants' permissions for tools (agentflow/sandbox/policy.py). The registry of tools is an
-- argument: the source fills it where the tools are declared.
pub mod Agrees
use multi_agent_workflow.Prelude.{
  ℕ, String, Bool, true, false, not, ◌&&◌, ◌||◌, Option, none, some, List, [], ◌∷◌, ◌==◌, is_empty,
  contains, if◌then◌else◌,
}
use multi_agent_workflow.Prelude.Dict.{Dict, lookup}

-- `ToolSpec`, as far as the policy reads it.
pub record ToolSpec : Type 0 where
  pub agents : List String

pub record TenantToolConfig : Type 0 where
  pub tenant_id : String
  pub allow : List String
  pub deny : List String

pub data Verdict : Type 0 where
  allowed denied : Verdict

abbrev denies : Option TenantToolConfig → String → Bool
denies none tool = false
denies (some cfg) tool = contains tool cfg.deny

-- An empty list of allowed tools allows what the agent has.
abbrev withholds : Option TenantToolConfig → String → Bool
withholds none tool = false
withholds (some cfg) tool = not (is_empty cfg.allow) && not (contains tool cfg.allow)

abbrev has_tool : String → Option ToolSpec → Bool
has_tool agent none = false
has_tool agent (some spec) = contains agent spec.agents

module _ (registry : Dict ToolSpec) (tenants : Dict TenantToolConfig) where
  -- `decide`.
  unfoldable pub decide : String → String → String → Verdict
  decide tool agent tenant =
      let cfg = lookup tenant tenants in
      if denies cfg tool
      then denied
      else if not (has_tool agent (lookup tool registry))
      then denied
      else if withholds cfg tool
      then denied
      else allowed

  unfoldable pub agent_tools : String → Dict ToolSpec → List String
  agent_tools agent [] = []
  agent_tools agent ((tool, spec) ∷ specs) =
      let rest = agent_tools agent specs in if contains agent spec.agents then tool ∷ rest else rest

  abbrev allow_list : Option TenantToolConfig → List String → List String
  allow_list none tools = tools
  allow_list (some cfg) tools = if is_empty cfg.allow then tools else cfg.allow

  abbrev permitted : List String → Option TenantToolConfig → List String → List String
  permitted allow cfg [] = []
  permitted allow cfg (tool ∷ tools) =
      let rest = permitted allow cfg tools in
      if contains tool allow && not (denies cfg tool) then tool ∷ rest else rest

  -- `allowed_tools`.
  unfoldable pub allowed_tools : String → String → List String
  allowed_tools agent tenant =
      let tools = agent_tools agent registry in
      let cfg = lookup tenant tenants in permitted (allow_list cfg tools) cfg tools
