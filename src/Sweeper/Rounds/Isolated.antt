-- ===== src/Sweeper/Rounds/Isolated.antt =====
-- What a round does to the store of one tenant.
use mathlib.Core.Option
use multi_agent_workflow.Prelude.{
  ℕ, String, Bool, true, false, ◌&&◌, Option, none, some, List, [], ◌∷◌, ◌==◌, contains,
  if◌then◌else◌, Result, ok, raise, ◌≡◌, refl, ap, ◌∙◌, subst, eq_iff, eq_refl, Bool-cases, inl,
  inr,
}
use multi_agent_workflow.Prelude.Dict.{Dict, lookup, lookup-insert_same, lookup-insert_other}
use multi_agent_workflow.StateStore.Memory.{Store}
use multi_agent_workflow.Sweeper.{scan}
use multi_agent_workflow.Sweeper.Rounds.{Round, scanned, tried, visit, visit_all, run_once}

abbrev pub is_ok : Result (Unit {0}) → Bool
is_ok (ok _) = true
is_ok (raise e) = false

-- No tenant is listed twice.
abbrev pub Distinct : List String → Type 0
Distinct [] = Unit
Distinct (t ∷ ts) = (contains t ts ≡ false) × Distinct ts

module _ (clock : Store → ℕ) (now : String → ℕ) (resolve : String → Result (Unit {0})) where
  -- The store of a tenant by itself: scanned, if it is listed and can be had, and else as it was.
  abbrev pub alone : List String → String → Option Store → Option Store
  alone tenants tenant o =
      if contains tenant tenants && is_ok (resolve tenant)
      then Option.map (λ s. (scan clock (now tenant) s).store) o
      else o

  abbrev scan_one : String → Option Store → Option Store
  scan_one tenant o = Option.map (λ s. (scan clock (now tenant) s).store) o

  scanned_here :
      (x : String) (o : Option Store) (r : Round)
      → lookup x r.stores ≡ o
      → lookup x (scanned clock now resolve x o r).stores ≡ scan_one x o
  scanned_here x none r e = e
  scanned_here x (some s) r e = lookup-insert_same x (scan clock (now x) s).store r.stores

  scanned_other :
      (x tenant : String) (o : Option Store) (r : Round)
      → (x == tenant) ≡ false
      → lookup tenant (scanned clock now resolve x o r).stores ≡ lookup tenant r.stores
  scanned_other x tenant none r other = refl
  scanned_other x tenant (some s) r other =
      lookup-insert_other x tenant (scan clock (now x) s).store r.stores other

  tried_here :
      (x : String) (a : Result (Unit {0})) (r : Round)
      → lookup x (tried clock now resolve x a r).stores
        ≡ (if is_ok a then scan_one x (lookup x r.stores) else lookup x r.stores)
  tried_here x (raise e) r = refl
  tried_here x (ok u) r = scanned_here x (lookup x r.stores) r refl

  tried_other :
      (x tenant : String) (a : Result (Unit {0})) (r : Round)
      → (x == tenant) ≡ false
      → lookup tenant (tried clock now resolve x a r).stores ≡ lookup tenant r.stores
  tried_other x tenant (raise e) r other = refl
  tried_other x tenant (ok u) r other = scanned_other x tenant (lookup x r.stores) r other

  -- The first tenant of the list, which is not listed again.
  alone_here :
      (x : String) (tenants : List String) (o : Option Store)
      → contains x tenants ≡ false
      → alone tenants x (if is_ok (resolve x) then scan_one x o else o) ≡ alone (x ∷ tenants) x o
  alone_here x tenants o absent = rw (absent, eq_refl x) refl

  alone_other :
      (x tenant : String) (tenants : List String) (o : Option Store)
      → (x == tenant) ≡ false
      → alone tenants tenant o ≡ alone (x ∷ tenants) tenant o
  alone_other x tenant tenants o other = rw other refl

  visit_all-alone :
      (tenants : List String) (tenant : String) (r : Round)
      → Distinct tenants
      → lookup tenant (visit_all clock now resolve tenants r).stores
        ≡ alone tenants tenant (lookup tenant r.stores)
  unfolding visit_all visit
  visit_all-alone [] tenant r d = refl
  visit_all-alone (x ∷ tenants) tenant r d =
      visit_all-alone tenants tenant (visit clock now resolve x r) d.1
      ∙ (elim (Bool-cases (x == tenant)) [
        | inl same ↦
            subst
              (λ t.
                alone tenants t (lookup t (visit clock now resolve x r).stores)
                ≡ alone (x ∷ tenants) t (lookup t r.stores))
              ((eq_iff x tenant).0 same)
              (ap (alone tenants x) (tried_here x (resolve x) r)
                ∙ alone_here x tenants (lookup x r.stores) d.0)
        | inr other ↦
            ap (alone tenants tenant) (tried_other x tenant (resolve x) r other)
            ∙ alone_other x tenant tenants (lookup tenant r.stores) other
      ])

  -- A round does to the store of each tenant what it would do if the tenant were the only one: it
  -- scans it if the tenant is listed and its store can be had, and leaves it as it was if not.
  -- Whether the stores of the other tenants can be had makes no difference. No tenant is listed
  -- twice.
  pub run_once-alone :
      (tenants : List String) (tenant : String) (stores : Dict Store)
      → Distinct tenants
      → lookup tenant (run_once clock now resolve tenants stores).stores
        ≡ alone tenants tenant (lookup tenant stores)
  unfolding run_once
  run_once-alone tenants tenant stores d = visit_all-alone tenants tenant _ d
