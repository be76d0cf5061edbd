-- ===== src/Tests/Routing.antt =====
-- The routing of tenants to their stores, and a round over several tenants, at examples.
use multi_agent_workflow.Prelude.{ℕ, String, [], ◌∷◌, ◌≡◌, refl, ok, arith}
use multi_agent_workflow.Prelude.{Result, ok, raise, key_error, if◌then◌else◌, ◌==◌}
use multi_agent_workflow.StateStore.Memory.{Store, empty}
use multi_agent_workflow.Sweeper.Rounds.{run_once}
use multi_agent_workflow.Sweeper.Rounds.Isolated.{alone, run_once-alone}
use multi_agent_workflow.Tests.Samples.{asked}
use multi_agent_workflow.Prelude.Dict.{Dict, lookup, insert, remove}
use mathlib.Core.List.Permᴰ
use multi_agent_workflow.StateStore.Router.{
  TenantStores, Router, evict, store_new, get, close_each, aclose,
}
use multi_agent_workflow.StateStore.Router.Bounded.{Bounded, Gives, get-Gives}

abbrev bundle : String → ℕ → TenantStores
bundle tenant n = record { tenant_id = tenant; number = n }

-- Two tenants are in the cache, which is full.
abbrev full : Router
full = record { cache = ("b", bundle "b" 1) ∷ ("a", bundle "a" 0) ∷ []; built = 2; closed = [] }

full-Bounded : Bounded 2 full
unfolding lookup
full-Bounded = record {
  unique = (refl, (refl, tt));
  own = (refl, (refl, tt));
  small = omega arith;
  accounted = Permᴰ.refl _;
}

get-Gives_example : Gives 2 "c" full (get 2 (λ _. ok tt) "c" full)
get-Gives_example = get-Gives 2 (λ _. ok tt) "c" full (omega arith) full-Bounded

-- A third tenant takes the place of the one that was not used for the longest time.
get_sample :
    ((get 2 (λ _. ok tt) "c" full).1 ≡ record {
      cache = ("a", bundle "a" 0) ∷ ("c", bundle "c" 2) ∷ [];
      built = 3;
      closed = 1 ∷ [];
    })
    × ((get 2 (λ _. ok tt) "b" full).1
        ≡ record full { cache = ("a", bundle "a" 0) ∷ ("b", bundle "b" 1) ∷ [] })
    × ((aclose full).closed ≡ 0 ∷ 1 ∷ [])
unfolding evict store_new get close_each aclose lookup insert remove
get_sample = (refl, refl, refl)

-- The store of the first tenant cannot be had.
abbrev resolve : String → Result (Unit {0})
resolve tenant = if tenant == "broken" then raise (key_error tenant) else ok tt

abbrev stores : Dict Store
stores = ("broken", empty) ∷ ("acme", asked) ∷ []

run_once-alone_example :
    lookup "acme" (run_once (λ _. 9) (λ _. 9) resolve ("broken" ∷ "acme" ∷ []) stores).stores
    ≡ alone (λ _. 9) (λ _. 9) resolve ("broken" ∷ "acme" ∷ []) "acme" (lookup "acme" stores)
run_once-alone_example =
    run_once-alone (λ _. 9) (λ _. 9) resolve ("broken" ∷ "acme" ∷ []) "acme" stores
      (refl, (refl, tt))
