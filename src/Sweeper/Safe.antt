-- ===== src/Sweeper/Safe.antt =====
-- What a round of the sweeper does to the approvals.
use multi_agent_workflow.Prelude.{
  ℕ, ◌≤◌, String, Bool, true, ◌&&◌, Option, none, some, List, [], ◌∷◌, ◌==◌, ◌≡◌, refl, arith,
  eq_iff, leb→le, Bool-cases, Option-cases, inl, inr, ◌⊎◌, ◌∙◌, ap, sym,
}
use multi_agent_workflow.Prelude.Dict.{lookup, insert, lookup-insert}
use multi_agent_workflow.StateStore.Rows.{
  Approval, ApprovalStatus, waiting, timed_out, is_waiting, same_status,
}
use multi_agent_workflow.StateStore.Memory.{Store, update_node_status}
use multi_agent_workflow.StateStore.Approvals.{
  cas_update_approval, decided, approval_time_guard, guard_passes, expired,
}
use multi_agent_workflow.Sweeper.{Sweep, is_due, time_out, scan_row, scan_rows}

-- What may become of a row: it stays, or it was waiting with a deadline that is over by the time
-- `until`, and is timed out now.
abbrev pub Fate : ℕ → Option Approval → Option Approval → Type 0
Fate until before after =
    (after ≡ before)
    ⊎ ((row : Approval) × (deadline : ℕ) × (before ≡ some row)
        × (is_waiting row.status ≡ true)
        × (row.timeout_at ≡ some deadline)
        × (deadline ≤ until)
        × (after ≡ some (decided timed_out none (some "审批超时自动拒绝") row)))

Fate-trans :
    (until : ℕ) (a b c : Option Approval) → Fate until a b → Fate until b c → Fate until a c
Fate-trans until a b c (inl e) (inl f) = inl (f ∙ e)
Fate-trans until a b c (inl e) (inr (row, d, f, w, t, u, g)) = inr (row, d, sym e ∙ f, w, t, u, g)
Fate-trans until a b c (inr (row, d, e, w, t, u, f)) (inl g) = inr (row, d, e, w, t, u, g ∙ f)
Fate-trans until a b c (inr (row, d, e, w, t, u, f)) (inr (row', d', e', w', t', u', f')) =
    absurd (ground (arith, f, e', w'))

passed :
    (deadline : Option ℕ) (now : ℕ)
    → guard_passes expired deadline now ≡ true
    → (d : ℕ) × (deadline ≡ some d) × (d ≤ now)
unfolding guard_passes
passed none now h = cc
passed (some d) now h = (d, refl, leb→le d now h)

waits : (status : ApprovalStatus) → same_status status waiting ≡ true → is_waiting status ≡ true
waits status h = ground arith

abbrev timed_row : Approval → Approval
timed_row row = decided timed_out none (some "审批超时自动拒绝") row

module _ (clock : Store → ℕ) (until : ℕ) (early : (s : Store) → clock s ≤ until) where
  abbrev timed : String → Store → Store × Bool
  timed aid s = cas_update_approval (clock s) aid waiting timed_out none (some "审批超时自动拒绝") s

  -- The update of a row that is there.
  timed_found :
      (aid : String) (s : Store) (row : Approval)
      → lookup aid s.approvals ≡ some row
      → ((timed aid s).0 ≡ s)
        ⊎ ((d : ℕ) × (is_waiting row.status ≡ true)
            × (row.timeout_at ≡ some d)
            × (d ≤ until)
            × ((timed aid s).0 ≡ record s { approvals = insert aid (timed_row row) s.approvals }))
  unfolding cas_update_approval approval_time_guard
  timed_found aid s row e =
      elim (Bool-cases
        (same_status row.status waiting && guard_passes expired row.timeout_at (clock s))) [
          | inr lost ↦ inl (ground (arith, e, lost))
          | inl won ↦
              let (d, t, u) = passed row.timeout_at (clock s) (ground (arith, won)) in
              inr (
                d,
                waits row.status (ground (arith, won)),
                t,
                omega (arith, u, early s),
                ground (arith, e, won),
              )
        ]

  untouched : (aid : String) (s : Store) → lookup aid s.approvals ≡ none → (timed aid s).0 ≡ s
  unfolding cas_update_approval
  untouched aid s e = ground (arith, e)

  -- The update of one row, for any row.
  timed-Fate :
      (aid key : String) (s : Store)
      → Fate until (lookup key s.approvals) (lookup key (timed aid s).0.approvals)
  timed-Fate aid key s = elim (Option-cases (lookup aid s.approvals)) [
    | inl e ↦ inl (ap (λ x. lookup key x.approvals) (untouched aid s e))
    | inr (row, e) ↦ elim (timed_found aid s row e) [
      | inl same ↦ inl (ap (λ x. lookup key x.approvals) same)
      | inr (d, w, t, u, same) ↦ elim (Bool-cases (aid == key)) [
        | inr other ↦ inl (
            ap (λ x. lookup key x.approvals) same
            ∙ ground (arith, lookup-insert aid key (timed_row row) s.approvals, other))
        | inl here ↦ inr (
          row,
          d,
          ap (λ k. lookup k s.approvals) (sym ((eq_iff aid key).0 here)) ∙ e,
          w,
          t,
          u,
          ap (λ x. lookup key x.approvals) same
              ∙ ground (arith, lookup-insert aid key (timed_row row) s.approvals, here),
        )
      ]
    ]
  ]

  scan_row-Fate :
      (now : ℕ) (ap : Approval) (key : String) (w : Sweep)
      → Fate until
          (lookup key w.store.approvals)
          (lookup key (scan_row clock now ap w).store.approvals)
  unfolding scan_row time_out update_node_status
  scan_row-Fate now ap key w = elim (Bool-cases (is_due now ap)) [
    | inr over ↦ rw over (inl refl)
    | inl due ↦ rw due (elim (Bool-cases (timed ap.approval_id w.store).1) [
      | inr lost ↦ rw lost (inl refl)
      | inl won ↦ rw won (timed-Fate ap.approval_id key w.store)
    ])
  ]

  -- Whatever list of approvals a round works on, however old, it leaves each approval as it is, or
  -- times out one that is still waiting and whose own deadline is over by the last time at which
  -- the store looks at its clock. So no decision is overwritten, and none is made before its time.
  pub scan_rows-Fate :
      (now : ℕ) (aps : List Approval) (key : String) (w : Sweep)
      → Fate until
          (lookup key w.store.approvals)
          (lookup key (scan_rows clock now aps w).store.approvals)
  unfolding scan_rows
  scan_rows-Fate now [] key w = inl refl
  scan_rows-Fate now (ap ∷ aps) key w =
      Fate-trans until (lookup key w.store.approvals)
        (lookup key (scan_row clock now ap w).store.approvals)
        (lookup key (scan_rows clock now aps (scan_row clock now ap w)).store.approvals)
        (scan_row-Fate now ap key w) (scan_rows-Fate now aps key (scan_row clock now ap w))
