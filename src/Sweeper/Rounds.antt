-- ===== src/Sweeper/Rounds.antt =====
-- The rounds of the sweeper over the tenants (`ApprovalSweeper.run_once` of
-- agentflow/approval/sweeper.py), each with a store of its own.
pub mod Isolated
use multi_agent_workflow.Prelude.{
  ℕ, String, Option, none, some, List, [], ◌∷◌, ◌++◌, Result, ok, raise,
}
use multi_agent_workflow.Prelude.Dict.{Dict, lookup, insert}
use multi_agent_workflow.StateStore.Rows.{Approval}
use multi_agent_workflow.StateStore.Memory.{Store}
use multi_agent_workflow.Sweeper.{Resume, Sweep, scan}

-- The stores of the tenants, the published commands and the approvals that were timed out.
pub record Round : Type 0 where
  pub stores : Dict Store
  pub published : List Resume
  pub swept : List Approval

abbrev pub add_scan : String → Sweep → Round → Round
add_scan tenant w r = record {
  stores = insert tenant w.store r.stores;
  published = w.published ++ r.published;
  swept = w.swept ++ r.swept;
}

module _ (clock : Store → ℕ) (now : String → ℕ) (resolve : String → Result (Unit {0})) where
  abbrev pub scanned : String → Option Store → Round → Round
  scanned tenant none r = r
  scanned tenant (some s) r = add_scan tenant (scan clock (now tenant) s) r

  -- The `try` of the loop: a tenant whose store cannot be had is skipped.
  abbrev pub tried : String → Result (Unit {0}) → Round → Round
  tried tenant (raise e) r = r
  tried tenant (ok _) r = scanned tenant (lookup tenant r.stores) r

  unfoldable pub visit : String → Round → Round
  visit tenant r = tried tenant (resolve tenant) r

  unfoldable pub visit_all : List String → Round → Round
  visit_all [] r = r
  visit_all (tenant ∷ tenants) r = visit_all tenants (visit tenant r)

  -- `run_once`, with the tenants that `tenants_provider` gives.
  unfoldable pub run_once : List String → Dict Store → Round
  run_once tenants stores =
      visit_all tenants (record { stores = stores; published = []; swept = [] })
