-- ===== src/Tests/Services.antt =====
-- The theorems on the lock, the tools' policy, the sweeper and the tenants at examples.
use multi_agent_workflow.Prelude.{
  leb, String, some, none, true, not, ◌⊎◌, ◌≤◌, false, List, [], ◌∷◌, ◌≡◌, refl, arith, contains,
}
use multi_agent_workflow.Prelude.Dict.{Dict, lookup, insert}
use multi_agent_workflow.Lock.{acquire}
use multi_agent_workflow.Lock.Exclusive.{acquires, releases, asks, perform_all, acquire-exclusive}
use multi_agent_workflow.ToolPolicy.{ToolSpec, TenantToolConfig, decide, allowed_tools}
use multi_agent_workflow.ToolPolicy.Agrees.{is_allowed, decide-allowed_tools}
use multi_agent_workflow.Sweeper.{Sweep, scan_rows}
use multi_agent_workflow.Sweeper.Safe.{Fate, scan_rows-Fate}
use multi_agent_workflow.Tenants.{
  TenantConfig, standard, for_tenant, from_rows, approvers_for, check_quota, check_approver,
  collect,
}
use multi_agent_workflow.Tenants.Quota.{for_tenant-quota, for_tenant-Absent, check_approver-known}
use multi_agent_workflow.Tests.Samples.{asked, request}

acquire-exclusive_example :
    (acquire "r1" 30 40 (
      perform_all
        (acquires "r2" 30 12 ∷ releases "r2" ∷ acquires "r1" 30 20 ∷ asks "r1" 25 ∷ [])
        (acquire "r1" 30 11 []).0)).1
    ≡ false
unfolding acquire lookup
acquire-exclusive_example =
    acquire-exclusive "r1" 30 11 40 30
      (acquires "r2" 30 12 ∷ releases "r2" ∷ acquires "r1" 30 20 ∷ asks "r1" 25 ∷ []) [] refl
      (omega arith, (refl, (omega arith, (omega arith, tt)))) (omega arith)

abbrev registry : Dict ToolSpec
registry =
    ("search_knowledge", record { agents = "rca" ∷ "know" ∷ [] })
    ∷ ("restart_pod", record { agents = "rca" ∷ [] })
    ∷ []

abbrev tenants : Dict TenantToolConfig
tenants = ("acme", record { tenant_id = "acme"; allow = []; deny = "restart_pod" ∷ [] }) ∷ []

decide-allowed_tools_example :
    is_allowed (decide registry tenants "restart_pod" "rca" "acme")
    ≡ contains "restart_pod" (allowed_tools registry tenants "rca" "acme")
unfolding lookup
decide-allowed_tools_example =
    decide-allowed_tools registry tenants "restart_pod" "rca" "acme" (refl, (refl, tt))

abbrev sweep : Sweep
sweep = record { store = asked; published = []; swept = [] }

scan_rows-Fate_example :
    Fate 9
      (lookup "ap_r1_confirm" asked.approvals)
      (lookup "ap_r1_confirm" (scan_rows (λ _. 9) 9 (request ∷ []) sweep).store.approvals)
scan_rows-Fate_example =
    scan_rows-Fate (λ _. 9) 9 (λ _. omega arith) 9 (request ∷ []) "ap_r1_confirm" sweep

abbrev rows : List TenantConfig
rows =
    record (standard 4) { tenant_id = "acme" }
    ∷ record (standard 50) { tenant_id = "gone"; status = "deleted" }
    ∷ []

for_tenant-quota_example :
    (for_tenant (from_rows rows) "acme").max_concurrent_runs
    ≤ (from_rows rows).default.max_concurrent_runs
for_tenant-quota_example = for_tenant-quota rows "acme"

for_tenant-Absent_example :
    (check_quota (from_rows rows) "gone" 3
      ≡ not (leb (from_rows rows).default.max_concurrent_runs 3))
    × (check_approver (from_rows rows) "gone" "confirm" "anyone" ≡ true)
for_tenant-Absent_example =
    for_tenant-Absent rows "gone" "confirm" "anyone" 3 ((λ e. cc), ((λ e. refl), tt))

abbrev acme : TenantConfig
acme = record (standard 4) { tenant_id = "acme"; approvers = ("confirm", "lead" ∷ []) ∷ [] }

check_approver-known_example :
    (names : List String) × ((lookup "confirm" acme.approvers ≡ some names)
      ⊎ ((lookup "confirm" acme.approvers ≡ none) × (lookup "*" acme.approvers ≡ some names)))
    × (contains "lead" names ≡ true)
unfolding check_approver for_tenant from_rows collect approvers_for lookup insert
check_approver-known_example =
    check_approver-known (acme ∷ []) "acme" "confirm" "lead" acme refl refl refl
