-- ===== src/StateStore/Router.antt =====
-- The routing of tenants to stores of their own (`TenantStoresRouter` of
-- agentflow/statestore/router.py). A bundle of stores is known by its number, in the order of their
-- building. Nothing else happens while `get` builds a bundle.
pub mod Bounded
use multi_agent_workflow.Prelude.{
  ℕ, suc, String, Option, none, some, List, [], ◌∷◌, ◌++◌, leb, length, if◌then◌else◌, Result, ok,
  raise,
}
use multi_agent_workflow.Prelude.Dict.{Dict, lookup, insert, remove}

pub record TenantStores : Type 0 where
  pub tenant_id : String
  pub number : ℕ

-- The cache, the least recently used tenant first, how many bundles were built, and those that were
-- closed.
pub record Router : Type 0 where
  pub cache : Dict TenantStores
  pub built : ℕ
  pub closed : List ℕ

-- `self._cache.move_to_end(tenant_id)`.
abbrev pub move_to_end : String → TenantStores → Dict TenantStores → Dict TenantStores
move_to_end tenant b cache = remove tenant cache ++ (tenant, b) ∷ []

-- The loop that evicts and closes the oldest bundles.
unfoldable pub evict : ℕ → Dict TenantStores → List ℕ → Dict TenantStores × List ℕ
evict max_size [] closed = ([], closed)
evict max_size ((k, b) ∷ rest) closed =
    let later = evict max_size rest (b.number ∷ closed) in
    if leb (suc (length rest)) max_size then ((k, b) ∷ rest, closed) else later

abbrev pub next : String → Router → TenantStores
next tenant r = record { tenant_id = tenant; number = r.built }

-- A new bundle is cached.
unfoldable pub store_new : ℕ → String → Router → Router
store_new max_size tenant r =
    let left = evict max_size (insert tenant (next tenant r) r.cache) r.closed in
    record { cache = left.0; built = suc r.built; closed = left.1 }

-- `_build` was called.
abbrev pub after_build : ℕ → String → Router → Result (Unit {0}) → Result TenantStores × Router
after_build max_size tenant r (raise e) = (raise e, r)
after_build max_size tenant r (ok _) = (ok (next tenant r), store_new max_size tenant r)

-- `get`; building a bundle may fail.
unfoldable pub get :
    ℕ → (String → Result (Unit {0})) → String → Router → Result TenantStores × Router
get max_size ready tenant r = elim (lookup tenant r.cache) [
  | some b ↦ (ok b, record r { cache = move_to_end tenant b r.cache })
  | none ↦ after_build max_size tenant r (ready tenant)
]

unfoldable pub close_each : Dict TenantStores → List ℕ → List ℕ
close_each [] closed = closed
close_each ((k, b) ∷ rest) closed = close_each rest (b.number ∷ closed)

-- `aclose`.
unfoldable pub aclose : Router → Router
aclose r = record r { cache = []; closed = close_each r.cache r.closed }
