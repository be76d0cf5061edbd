-- ===== src/StateStore/Approvals/Cas.antt =====
-- Several calls of `cas_update_approval` for one approval.
use multi_agent_workflow.Prelude.{
  ℕ, ◌+◌, ◌≤◌, String, Bool, true, false, ◌&&◌, Option, none, some, List, [], ◌∷◌, ◌==◌, leb, ltb,
  if◌then◌else◌, ◌≡◌, refl, arith, eq_iff, All, Bool-cases, inl, inr,
}
use multi_agent_workflow.Prelude.Dict.{lookup, lookup-insert}
use multi_agent_workflow.StateStore.Rows.{
  ApprovalStatus, waiting, timed_out, is_waiting, same_status, Approval,
}
use multi_agent_workflow.StateStore.Memory.{Store}
use multi_agent_workflow.StateStore.Approvals.{
  approval_time_guard, guard_passes, cas_update_approval, decided,
}

-- One attempt to decide a waiting approval: the calls of the executor and of the sweeper.
pub record Decision : Type 0 where
  pub time : ℕ
  pub approval_id : String
  pub to : ApprovalStatus
  pub by : Option String
  pub comment : Option String

unfoldable pub decide : Decision → Store → Store × Bool
decide d s = cas_update_approval d.time d.approval_id waiting d.to d.by d.comment s

-- How many of the decisions on `aid` succeed, when they arrive in this order.
unfoldable pub winners : String → List Decision → Store → ℕ
unfolding decide
winners aid [] s = 0
winners aid (d ∷ ds) s =
    let rest = winners aid ds (decide d s).0 in
    if (decide d s).1 && d.approval_id == aid then rest + 1 else rest

-- The approval is there and waits.
abbrev row_open : Option Approval → Bool
row_open none = false
row_open (some row) = is_waiting row.status

unfoldable pub is_open : String → Store → Bool
is_open aid s = row_open (lookup aid s.approvals)

abbrev pub Decides : Decision → Type 0
Decides d = is_waiting d.to ≡ false

module _ (aid : String) (d : Decision) (s : Store) where
  abbrev written : Approval → Approval
  written = decided d.to d.by d.comment

  -- A decision writes one row, and only if it succeeds.
  decide_closed :
      is_open aid s ≡ false
      → (is_open aid (decide d s).0 ≡ false) × (((decide d s).1 && d.approval_id == aid) ≡ false)
  unfolding decide cas_update_approval is_open
  decide_closed h = go (lookup d.approval_id s.approvals) refl
    where
      go :
          (o : Option Approval)
          → lookup d.approval_id s.approvals ≡ o
          → (is_open aid (decide d s).0 ≡ false)
            × (((decide d s).1 && d.approval_id == aid) ≡ false)
      go none e = ground arith
      go (some row) e = ground (
        arith,
        eq_iff d.approval_id aid,
        lookup-insert d.approval_id aid (written row) s.approvals,
      )

  decide_won :
      Decides d
      → ((decide d s).1 && d.approval_id == aid) ≡ true
      → is_open aid (decide d s).0 ≡ false
  unfolding decide cas_update_approval is_open
  decide_won h w = go (lookup d.approval_id s.approvals) refl
    where
      go :
          (o : Option Approval)
          → lookup d.approval_id s.approvals ≡ o
          → is_open aid (decide d s).0 ≡ false
      go none e = ground arith
      go (some row) e = ground (
        arith,
        eq_iff d.approval_id aid,
        lookup-insert d.approval_id aid (written row) s.approvals,
      )

winners-closed :
    (aid : String) (ds : List Decision) (s : Store) → is_open aid s ≡ false → winners aid ds s ≡ 0
unfolding winners
winners-closed aid [] s h = refl
winners-closed aid (d ∷ ds) s h =
    let (closed, lost) = decide_closed aid d s h in
    rw lost (winners-closed aid ds (decide d s).0 closed)

-- However many people and sweeps decide an approval, in whatever order and at whatever times, at
-- most one of their decisions succeeds.
pub winners-le_one :
    (aid : String) (ds : List Decision) (s : Store) → All Decides ds → winners aid ds s ≤ 1
unfolding winners
winners-le_one aid [] s h = omega arith
winners-le_one aid (d ∷ ds) s h = elim (Bool-cases ((decide d s).1 && d.approval_id == aid)) [
  | inl won ↦ ground (arith, winners-closed aid ds (decide d s).0 (decide_won aid d s h.0 won))
  | inr lost ↦ ground (arith, winners-le_one aid ds (decide d s).0 h.1)
]

abbrev deadline_of : Option Approval → Option ℕ
deadline_of none = none
deadline_of (some row) = row.timeout_at

-- Of a waiting approval with the deadline `t`, a person's decision is accepted exactly before
-- `t`, and the timeout exactly from `t` on.
pub decide_deadline :
    (d : Decision) (s : Store) (t : ℕ)
    → is_open d.approval_id s ≡ true
    → deadline_of (lookup d.approval_id s.approvals) ≡ some t
    → Decides d
    → (decide d s).1 ≡ (if same_status d.to timed_out then leb t d.time else ltb d.time t)
unfolding decide cas_update_approval is_open approval_time_guard guard_passes
decide_deadline d s t h e k = go d.to (lookup d.approval_id s.approvals) refl refl
  where
    go :
        (to : ApprovalStatus) (o : Option Approval)
        → d.to ≡ to
        → lookup d.approval_id s.approvals ≡ o
        → (decide d s).1 ≡ (if same_status d.to timed_out then leb t d.time else ltb d.time t)
    go to none p q = ground arith
    go timed_out (some row) p q = ground arith
    go _ (some row) p q = ground arith
