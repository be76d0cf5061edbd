-- ===== src/Actions.antt =====
-- The remediation actions on a cluster (agentflow/sandbox/action_executor.py). A call of the
-- cluster or of `rm` is a row of a log; the cluster may refuse one.
pub mod Quantity
pub mod Bounded
use multi_agent_workflow.Prelude.{
  ℕ, String, Bool, true, false, not, ◌&&◌, ◌||◌, Option, none, some, List, [], ◌∷◌, ◌++◌, ◌==◌, leb,
  any, contains, is_empty, is_some, if◌then◌else◌, Result, ok, raise, Error, action_refused, ◌>>=◌,
  ◌>>◌,
}
use multi_agent_workflow.Prelude.Int.{ℤ, pos, negsuc}
use multi_agent_workflow.Prelude.Text.{drop_prefix}
use multi_agent_workflow.Actions.Quantity.{Floats, parse_quantity}

-- What is done to the outside: the arguments are the namespace, the name and the new values.
pub data Call : Type 0 where
  read_deployment : String → String → Call
  replace_deployment : String → String → ℤ → Call
  delete_pod : String → String → Call
  patch_deployment : String → String → String → String → Call
  remove_file : String → Call

-- The whitelists, and `tenant_namespace_fn`.
pub record Limits : Type 0 where
  pub namespaces : List String
  pub pod_prefixes : List String
  pub tenant_namespace : Option (String → String)

-- An action with the parameters that its handler takes.
pub data Action : Type 0 where
  scale_deployment : String → ℤ → Action
  restart_pod : String → Action
  patch_resources : String → String → String → Action
  delete_temp_file : String → Action
  unknown : String → Action

abbrev pub temp_path_prefix : String
temp_path_prefix = "/data/tmp/"

-- `REPLICA_RANGE`.
abbrev pub replicas_allowed : ℤ → Bool
replicas_allowed (pos n) = leb n 10
replicas_allowed (negsuc n) = false

abbrev pub require : Bool → String → Result (Unit {0})
require b message = if b then ok tt else raise (action_refused message)

abbrev pub starts_with : String → String → Bool
starts_with name prefix = is_some (drop_prefix prefix name)

-- What a call of the cluster gives: the log of the calls, and an exception if the cluster refuses.
abbrev pub Effect : Type 0
Effect = List Call → Result (Unit {0}) × List Call

module _ (floats : Floats) (api : Call → Option Error) (limits : Limits) where
  -- One call.
  unfoldable pub perform : Call → Effect
  perform call log = ((elim (api call) [ none ↦ ok tt | some e ↦ raise e ]), log ++ call ∷ [])

  abbrev pub whitelisted : String → Bool
  whitelisted namespace = is_empty limits.namespaces || contains namespace limits.namespaces

  -- `_check_ns` without a tenant, and with one.
  unfoldable pub check_ns : String → Result (Unit {0})
  check_ns namespace = require (whitelisted namespace) namespace

  unfoldable pub check_tenant_ns : String → String → Result (Unit {0})
  check_tenant_ns namespace tenant = elim limits.tenant_namespace [
    | none ↦ check_ns namespace
    | some allowed ↦ require (namespace == allowed tenant) namespace
  ]

  abbrev between : Result ℕ → Result ℕ → Result ℕ → Result Bool
  between low value high =
      low >>= λ l. value >>= λ v. if leb l v then (high >>= λ h. ok (leb v h)) else ok false

  -- `_in_range`, with a lower end.
  unfoldable pub in_range : String → String → String → Result Bool
  in_range value low high =
      between (parse_quantity floats low) (parse_quantity floats value) (parse_quantity floats high)

  abbrev pub cpu_allowed : String → Result Bool
  cpu_allowed cpu = in_range cpu "100m" "4"

  abbrev pub memory_allowed : String → Result Bool
  memory_allowed memory = in_range memory "128Mi" "8Gi"

  abbrev pub within : Result Bool → String → Result (Unit {0})
  within r message = r >>= λ b. require b message

  -- What the handlers test before they call the cluster.
  unfoldable pub validate : String → Action → Result (Unit {0})
  validate namespace (scale_deployment name replicas) =
      check_ns namespace >> require (replicas_allowed replicas) name
  validate namespace (restart_pod name) =
      check_ns namespace
      >> require (is_empty limits.pod_prefixes || any (starts_with name) limits.pod_prefixes) name
  validate namespace (patch_resources name cpu memory) =
      check_ns namespace >> within (cpu_allowed cpu) cpu >> within (memory_allowed memory) memory
  validate namespace (delete_temp_file path) =
      check_ns namespace >> require (starts_with path temp_path_prefix) path
  validate namespace (unknown action) = raise (action_refused action)

  abbrev pub and_then : Result (Unit {0}) × List Call → Effect → Result (Unit {0}) × List Call
  and_then (ok _, log) next = next log
  and_then (raise e, log) next = (raise e, log)

  -- The calls of the handlers.
  unfoldable pub run_handler : String → Action → Effect
  run_handler namespace (scale_deployment name replicas) log =
      and_then (perform (read_deployment namespace name) log)
        (perform (replace_deployment namespace name replicas))
  run_handler namespace (restart_pod name) log = perform (delete_pod namespace name) log
  run_handler namespace (patch_resources name cpu memory) log =
      perform (patch_deployment namespace name cpu memory) log
  run_handler namespace (delete_temp_file path) log = perform (remove_file path) log
  run_handler namespace (unknown action) log = (raise (action_refused action), log)

  abbrev pub is_known : Action → Result (Unit {0})
  is_known (unknown action) = raise (action_refused action)
  is_known action = ok tt

  abbrev pub tenant_check : String → Option String → Result (Unit {0})
  tenant_check namespace none = ok tt
  tenant_check namespace (some tenant) = check_tenant_ns namespace tenant

  abbrev pub checked : String → Option String → Action → Result (Unit {0})
  checked namespace tenant action =
      is_known action >> tenant_check namespace tenant >> validate namespace action

  abbrev pub guarded : Result (Unit {0}) → Effect → Effect
  guarded (raise e) next log = (raise e, log)
  guarded (ok _) next log = next log

  -- `execute`.
  unfoldable pub execute : String → Option String → Action → Effect
  execute namespace tenant action =
      guarded (checked namespace tenant action) (run_handler namespace action)
