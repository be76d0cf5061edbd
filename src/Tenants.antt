-- ===== src/Tenants.antt =====
-- The tenants' configuration (agentflow/tenants.py: `TenantConfig` and `TenantRegistry`), and the
-- two checks of the run service that read it (agentflow/service.py). The databases of tenants and
-- the import of a file are not here.
pub mod Quota
use Prim.Native.String.{◌++◌}
use multi_agent_workflow.Prelude.{
  ℕ, String, Bool, true, false, not, Option, none, some, List, [], ◌∷◌, ◌==◌, leb, is_empty,
  contains, map, if◌then◌else◌,
}
use multi_agent_workflow.Prelude.Dict.{Dict, lookup, insert}

pub record TenantConfig : Type 0 where
  pub tenant_id : String
  pub status : String
  pub isolation_level : String
  pub namespace : String
  pub workers : ℕ
  pub max_concurrent_runs : ℕ
  pub approvers : Dict (List String)
  pub code_branch : String
  pub pinned_sha : Option String

unfoldable pub effective_namespace : TenantConfig → String
effective_namespace t = if t.namespace == "" then "agentflow-" ++ t.tenant_id else t.namespace

abbrev or_else {ℓ} : {A : Type ℓ} → Option A → Option A → Option A
or_else none later = later
or_else (some a) later = some a

abbrev or_nobody : Option (List String) → List String
or_nobody none = []
or_nobody (some names) = names

-- `approvers_for`: the list of the node, else that of `*`.
unfoldable pub approvers_for : TenantConfig → String → List String
approvers_for t nid =
    if is_empty t.approvers
    then []
    else or_nobody (or_else (lookup nid t.approvers) (lookup "*" t.approvers))

pub record TenantRegistry : Type 0 where
  pub default : TenantConfig
  pub tenants : Dict TenantConfig

-- `TenantConfig(tenant_id="*", max_concurrent_runs=quota)`.
abbrev pub standard : ℕ → TenantConfig
standard quota = record {
  tenant_id = "*";
  status = "active";
  isolation_level = "standard";
  namespace = "";
  workers = 1;
  max_concurrent_runs = quota;
  approvers = [];
  code_branch = "main";
  pinned_sha = none;
}

unfoldable pub builtin : TenantRegistry
builtin = record { default = standard 10; tenants = [] }

abbrev larger : ℕ → ℕ → ℕ
larger a b = if leb a b then b else a

unfoldable pub largest_quota : ℕ → Dict TenantConfig → ℕ
largest_quota best [] = best
largest_quota best ((tid, t) ∷ tenants) = largest_quota (larger best t.max_concurrent_runs) tenants

-- `max(…, default=10)` of the tenants' quotas.
unfoldable pub default_quota : Dict TenantConfig → ℕ
default_quota [] = 10
default_quota ((tid, t) ∷ tenants) = largest_quota t.max_concurrent_runs tenants

-- The rows of the management store, whose missing fields have their defaults already; a deleted
-- tenant is left out.
unfoldable pub collect : List TenantConfig → Dict TenantConfig → Dict TenantConfig
collect [] tenants = tenants
collect (row ∷ rows) tenants =
    collect rows (if row.status == "deleted" then tenants else insert row.tenant_id row tenants)

-- `from_rows`.
unfoldable pub from_rows : List TenantConfig → TenantRegistry
from_rows rows =
    let tenants = collect rows [] in
    record { default = standard (default_quota tenants); tenants = tenants }

-- `for_tenant`: an unknown tenant gets a copy of the default configuration.
unfoldable pub for_tenant : TenantRegistry → String → TenantConfig
for_tenant reg tid = elim (lookup tid reg.tenants) [
  | some t ↦ t
  | none ↦ record {
    tenant_id = tid;
    status = "active";
    isolation_level = reg.default.isolation_level;
    namespace = "";
    workers = reg.default.workers;
    max_concurrent_runs = reg.default.max_concurrent_runs;
    approvers = reg.default.approvers;
    code_branch = reg.default.code_branch;
    pinned_sha = none;
  }
]

-- `_check_quota` with a registry: whether the tenant may start a run while `active` are there.
unfoldable pub check_quota : TenantRegistry → String → ℕ → Bool
check_quota reg tid active = not (leb (for_tenant reg tid).max_concurrent_runs active)

-- `_check_approver` with a registry: whether a person may decide at a node.
unfoldable pub check_approver : TenantRegistry → String → String → String → Bool
check_approver reg tid nid by =
    let t = for_tenant reg tid in
    if is_empty t.approvers then true else contains by (approvers_for t nid)
