-- ===== src/ToolPolicy/Agrees.antt =====
-- `decide` and `allowed_tools` of the policy side by side.
use multi_agent_workflow.Prelude.{
  String, Bool, true, false, not, ◌&&◌, Option, none, some, List, [], ◌∷◌, is_empty, contains,
  if◌then◌else◌, ◌≡◌, refl, arith, eq_iff, Bool-cases, inl, inr,
}
use multi_agent_workflow.Prelude.Dict.{Dict, lookup, Unique}
use multi_agent_workflow.ToolPolicy.{
  ToolSpec, TenantToolConfig, Verdict, allowed, denied, denies, withholds, has_tool, decide,
  agent_tools, allow_list, permitted, allowed_tools,
}

abbrev pub is_allowed : Verdict → Bool
is_allowed allowed = true
is_allowed denied = false

module _ (registry : Dict ToolSpec) (tenants : Dict TenantToolConfig) where
  agent_tools-contains :
      (agent tool : String) (specs : Dict ToolSpec)
      → Unique specs
      → contains tool (agent_tools registry tenants agent specs)
        ≡ has_tool agent (lookup tool specs)
  unfolding agent_tools lookup
  agent_tools-contains agent tool [] u = refl
  agent_tools-contains agent tool ((t, spec) ∷ specs) u =
      ground (arith, eq_iff t tool, eq_iff tool t, u.0, agent_tools-contains agent tool specs u.1)

  permitted-contains :
      (allow : List String) (cfg : Option TenantToolConfig) (tool : String) (tools : List String)
      → contains tool (permitted registry tenants allow cfg tools)
        ≡ (contains tool tools && (contains tool allow && not (denies cfg tool)))
  permitted-contains allow cfg tool [] = refl
  permitted-contains allow cfg tool (t ∷ tools) =
      ground (arith, eq_iff t tool, permitted-contains allow cfg tool tools)

  decided_by :
      (tool : String) (cfg : Option TenantToolConfig) (tools : List String)
      → is_allowed (
          if denies cfg tool
          then denied
          else if not (contains tool tools)
          then denied
          else if withholds cfg tool
          then denied
          else allowed)
        ≡ contains tool
            (permitted registry tenants (allow_list registry tenants cfg tools) cfg tools)
  decided_by tool none tools = ground (arith, permitted-contains tools none tool tools)
  decided_by tool (some cfg) tools = elim (Bool-cases (is_empty cfg.allow)) [
    | inl e ↦ rw e (ground (arith, e, permitted-contains tools (some cfg) tool tools))
    | inr e ↦ rw e (ground (arith, e, permitted-contains cfg.allow (some cfg) tool tools))
  ]

  -- A tool is decided to be allowed exactly if it is among the tools that the agent is told it may
  -- use, whatever the tenant allows and denies. No tool is registered twice.
  pub decide-allowed_tools :
      (tool agent tenant : String)
      → Unique registry
      → is_allowed (decide registry tenants tool agent tenant)
        ≡ contains tool (allowed_tools registry tenants agent tenant)
  unfolding decide allowed_tools
  decide-allowed_tools tool agent tenant u =
      rw (← agent_tools-contains agent tool registry u)
        (decided_by tool (lookup tenant tenants) (agent_tools registry tenants agent registry))
