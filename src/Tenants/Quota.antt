-- ===== src/Tenants/Quota.antt =====
-- The configurations of known, unknown and deleted tenants.
use multi_agent_workflow.Prelude.{
  Option, not, some, leb, is_empty, contains, ◌⊎◌, none, false, ℕ, ◌≤◌, String, true, List, [], ◌∷◌,
  ◌==◌, if◌then◌else◌, ◌≡◌, refl, arith, All, inl, inr, Option-cases,
}
use multi_agent_workflow.Prelude.Dict.{Dict, lookup, insert, lookup-insert, Entries, Entries-lookup}
use multi_agent_workflow.Tenants.{
  TenantConfig, larger, largest_quota, default_quota, collect, from_rows, for_tenant, approvers_for,
  check_quota, check_approver, or_else, or_nobody,
}

largest_quota-le : (best : ℕ) (tenants : Dict TenantConfig) → best ≤ largest_quota best tenants
unfolding largest_quota
largest_quota-le best [] = omega arith
largest_quota-le best ((tid, t) ∷ tenants) =
    ground (arith, largest_quota-le (larger best t.max_concurrent_runs) tenants)

largest_quota-bounds :
    (best : ℕ) (tenants : Dict TenantConfig)
    → Entries (λ tid (t : TenantConfig). t.max_concurrent_runs ≤ largest_quota best tenants) tenants
unfolding largest_quota
largest_quota-bounds best [] = tt
largest_quota-bounds best ((tid, t) ∷ tenants) = (
  ground (arith, largest_quota-le (larger best t.max_concurrent_runs) tenants),
  largest_quota-bounds (larger best t.max_concurrent_runs) tenants,
)

default_quota-bounds :
    (tenants : Dict TenantConfig)
    → Entries (λ tid (t : TenantConfig). t.max_concurrent_runs ≤ default_quota tenants) tenants
unfolding default_quota
default_quota-bounds [] = tt
default_quota-bounds ((tid, t) ∷ tenants) = (
  largest_quota-le t.max_concurrent_runs tenants,
  largest_quota-bounds t.max_concurrent_runs tenants,
)

-- A tenant that is in no row, or only in rows that say it is deleted.
abbrev pub Absent : String → TenantConfig → Type 0
Absent tid row = (row.tenant_id == tid) ≡ true → (row.status == "deleted") ≡ true

collect-Absent :
    (tid : String) (rows : List TenantConfig) (tenants : Dict TenantConfig)
    → All (Absent tid) rows
    → lookup tid tenants ≡ none
    → lookup tid (collect rows tenants) ≡ none
unfolding collect
collect-Absent tid [] tenants h e = e
collect-Absent tid (row ∷ rows) tenants h e =
    collect-Absent tid rows
      (if row.status == "deleted" then tenants else insert row.tenant_id row tenants) h.1
      (ground (arith, h.0, e, lookup-insert row.tenant_id tid row tenants))

-- The quota of every tenant, also of one that the registry does not know, is at most the default
-- quota.
pub for_tenant-quota :
    (rows : List TenantConfig) (tid : String)
    → (for_tenant (from_rows rows) tid).max_concurrent_runs
      ≤ (from_rows rows).default.max_concurrent_runs
unfolding for_tenant from_rows
for_tenant-quota rows tid = elim (Option-cases (lookup tid (collect rows []))) [
  | inl e ↦ rw (for_tenant, e) (omega arith)
  | inr (t, e) ↦
      rw (for_tenant, e)
        (Entries-lookup
          (λ k (x : TenantConfig). x.max_concurrent_runs ≤ default_quota (collect rows [])) tid t
          (collect rows []) (default_quota-bounds (collect rows [])) e)
]

-- A tenant of which no row is left, or only deleted ones, may start as many runs as the default
-- quota allows, and anybody may decide its approvals.
pub for_tenant-Absent :
    (rows : List TenantConfig) (tid nid by : String) (active : ℕ)
    → All (Absent tid) rows
    → (check_quota (from_rows rows) tid active
        ≡ not (leb (from_rows rows).default.max_concurrent_runs active))
      × (check_approver (from_rows rows) tid nid by ≡ true)
unfolding for_tenant from_rows check_approver check_quota lookup
for_tenant-Absent rows tid nid by active h =
    let e = collect-Absent tid rows [] h refl in rw (for_tenant, e) (refl, refl)

-- A known tenant that has a list of approvers for a node lets nobody else decide there, and one
-- that has approvers for other nodes only, none of them `*`, lets nobody.
pub check_approver-known :
    (rows : List TenantConfig) (tid nid by : String) (t : TenantConfig)
    → lookup tid (from_rows rows).tenants ≡ some t
    → is_empty t.approvers ≡ false
    → check_approver (from_rows rows) tid nid by ≡ true
    → (names : List String) × ((lookup nid t.approvers ≡ some names)
        ⊎ ((lookup nid t.approvers ≡ none) × (lookup "*" t.approvers ≡ some names)))
      × (contains by names ≡ true)
unfolding check_approver for_tenant from_rows approvers_for
check_approver-known rows tid nid by t e some_ allowed =
    go (lookup nid t.approvers) refl (lookup "*" t.approvers) refl
      (rw (for_tenant, e, some_) at allowed)
  where
    go :
        (o : Option (List String))
        → lookup nid t.approvers ≡ o
        → (p : Option (List String)) → lookup "*" t.approvers ≡ p
        → contains by (or_nobody (or_else (lookup nid t.approvers) (lookup "*" t.approvers))) ≡ true
        → (names : List String) × ((lookup nid t.approvers ≡ some names)
            ⊎ ((lookup nid t.approvers ≡ none) × (lookup "*" t.approvers ≡ some names)))
          × (contains by names ≡ true)
    go (some names) f p g h = (names, inl f, rw f at h)
    go none f (some names) g h = (names, inr (f, g), rw (f, g) at h)
    go none f none g h = absurd (ground (arith, f, g, h))
