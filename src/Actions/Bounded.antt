-- ===== src/Actions/Bounded.antt =====
-- What an action may do to the cluster and to the files.
use multi_agent_workflow.Prelude.{
  ℕ, ◌≤◌, String, Bool, true, ◌||◌, Option, none, some, ◌==◌, ◌≡◌, any, is_empty, ok, Error,
}
use multi_agent_workflow.Actions.Quantity.{Floats, parse_quantity}
use multi_agent_workflow.Actions.{
  Call, read_deployment, replace_deployment, delete_pod, patch_deployment, remove_file, Limits,
  temp_path_prefix, replicas_allowed, whitelisted,
}
use multi_agent_workflow.Actions as A

-- What Python's floats make of the ends of the two ranges.
pub record Exact (floats : Floats) : Type 0 where
  pub hundred : floats.whole "100" ≡ 100
  pub four : floats.times "4" 1000 ≡ 4000
  pub mebi : floats.whole "128" ≡ 128
  pub gibi : floats.times "8" 1024 ≡ 8192

module _ (floats : Floats) (exact : Exact floats) (api : Call → Option Error)
    (limits : Limits) where
  abbrev prefixed : String → Bool
  prefixed name = is_empty limits.pod_prefixes || any (A.starts_with name) limits.pod_prefixes

  -- The namespace is on the whitelist, and is that of the tenant where tenants have their own.
  abbrev pub Place : Option String → String → Type 0
  Place none namespace = whitelisted floats api limits namespace ≡ true
  Place (some tenant) namespace =
      (whitelisted floats api limits namespace ≡ true)
      × elim limits.tenant_namespace [ none ↦ Unit | some own ↦ (namespace == own tenant) ≡ true ]

  -- A quantity whose number, as `_parse_quantity` reads it, lies between two numbers.
  abbrev pub Between : ℕ → ℕ → String → Type 0
  Between low high q = (v : ℕ) × (parse_quantity floats q ≡ ok v) × (low ≤ v) × (v ≤ high)

  -- A call that the limits allow.
  abbrev pub Fits : Option String → Call → Type 0
  Fits tenant (read_deployment namespace name) = Place tenant namespace
  Fits tenant (replace_deployment namespace name replicas) =
      Place tenant namespace × (replicas_allowed replicas ≡ true)
  Fits tenant (delete_pod namespace name) = Place tenant namespace × (prefixed name ≡ true)
  Fits tenant (patch_deployment namespace name cpu memory) =
      Place tenant namespace × Between 100 4000 cpu × Between 128 8192 memory
  Fits tenant (remove_file path) = A.starts_with path temp_path_prefix ≡ true
