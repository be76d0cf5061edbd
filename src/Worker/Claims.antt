-- ===== src/Worker/Claims.antt =====
-- The claim of a run (`cas_update_run_status` in `handle_trigger` and `_cmd_resume`), and the other
-- writes of a worker to the rows of the runs.
use multi_agent_workflow.Prelude.{
  String, Bool, true, false, if◌then◌else◌, Option, none, some, List, [], ◌∷◌, ◌==◌, ◌≡◌, refl, sym,
  ap, subst, ◌⊎◌, inl, inr, All, arith, Bool-cases, Option-cases,
}
use multi_agent_workflow.Prelude.Dict.{Dict, lookup, lookup-insert_same, lookup-insert_other}
use multi_agent_workflow.Core.Dag.{is_terminal}
use multi_agent_workflow.StateStore.Rows.{RunStatus, running, cancelled, Run, NodeState}
use multi_agent_workflow.StateStore.Memory.{
  Store, cas_update_run_status, update_run, put_node, status_is,
}
use multi_agent_workflow.Worker.{cas_from, cancel_nodes, cancelled_state}

-- Nobody may claim a run with one of these statuses.
abbrev pub is_taken : RunStatus → Bool
is_taken running = true
is_taken cancelled = true
is_taken _ = false

abbrev pub row_taken : Option Run → Bool
row_taken none = false
row_taken (some run) = elim run.status [ none ↦ false | some st ↦ is_taken st ]

abbrev pub taken : Store → String → Bool
taken s run_id = row_taken (lookup run_id s.runs)

-- A claim that succeeded.
pub record Won (run_id : String) (s s' : Store) : Type 0 where
  pub free : taken s run_id ≡ false
  pub held : taken s' run_id ≡ true
  pub others : (k : String) → (run_id == k) ≡ false → lookup k s'.runs ≡ lookup k s.runs

abbrev pub Claims : String → Store → Store × Bool → Type 0
Claims run_id s r = (r ≡ (s, false)) ⊎ (r.1 ≡ true) × Won run_id s r.0

module _ (run_id : String) where
  status_is-same :
      (from : RunStatus) (status : Option RunStatus)
      → status_is from status ≡ true
      → is_taken from ≡ false
      → (elim status [ none ↦ false | some st ↦ is_taken st ]) ≡ false
  status_is-same from none h free = cc
  status_is-same from (some status) h free = ground (arith, h, free)

  pub cas_update_run_status-Claims :
      (from : RunStatus) (s : Store)
      → is_taken from ≡ false
      → Claims run_id s (cas_update_run_status run_id from running s)
  unfolding cas_update_run_status
  cas_update_run_status-Claims from s free = elim (Option-cases (lookup run_id s.runs)) [
    | inl e ↦ rw (e, cas_update_run_status) (inl refl)
    | inr (run, e) ↦ elim (Bool-cases (status_is from run.status)) [
      | inr other ↦ rw (e, other, cas_update_run_status) (inl refl)
      | inl same ↦
          rw (e, same, cas_update_run_status)
            (inr (
              refl,
              record {
                free = rw e (status_is-same from run.status same free);
                held = ap row_taken (lookup-insert_same run_id _ s.runs);
                others = λ k. lookup-insert_other run_id k _ s.runs;
              },
            ))
    ]
  ]

  after_cas :
      (s : Store) (r later : Store × Bool)
      → Claims run_id s r
      → (r.0 ≡ s → Claims run_id s later)
      → Claims run_id s (if r.1 then r else later)
  after_cas s (s', true) later (inl e) h = cc
  after_cas s (s', false) later (inl e) h = h (ap (λ x. x.0) e)
  after_cas s (s', true) later (inr won) h = inr won
  after_cas s (s', false) later (inr won) h = cc

  pub cas_from-Claims :
      (froms : List RunStatus) (s : Store)
      → All (λ from. is_taken from ≡ false) froms
      → Claims run_id s (cas_from froms run_id s)
  unfolding cas_from
  cas_from-Claims [] s free = inl refl
  cas_from-Claims (from ∷ froms) s free =
      after_cas s (cas_update_run_status run_id from running s) _
        (cas_update_run_status-Claims from s free.0)
        λ e.
          subst (λ x. Claims run_id s (cas_from froms run_id x)) (sym e)
            (cas_from-Claims froms s free.1)

  -- The rows of the other runs.
  abbrev pub Apart : Store → Store → Type 0
  Apart s s' = (k : String) → (run_id == k) ≡ false → lookup k s'.runs ≡ lookup k s.runs

  pub update_run-Apart : (status : RunStatus) (s : Store) → Apart s (update_run run_id status s)
  unfolding update_run
  update_run-Apart status s k other = lookup-insert_other run_id k _ s.runs other

  pub update_run-taken :
      (status : RunStatus) (s : Store) → taken (update_run run_id status s) run_id ≡ is_taken status
  unfolding update_run
  update_run-taken status s = ap row_taken (lookup-insert_same run_id _ s.runs)

  pub cancel_nodes-runs :
      (tenant : String) (states : Dict NodeState) (s : Store)
      → (cancel_nodes run_id tenant states s).runs ≡ s.runs
  unfolding cancel_nodes put_node
  cancel_nodes-runs tenant [] s = refl
  cancel_nodes-runs tenant ((nid, st) ∷ states) s = elim (Bool-cases (is_terminal st.status)) [
    | inl e ↦ rw (e, cancel_nodes) (cancel_nodes-runs tenant states s)
    | inr e ↦
        rw (e, cancel_nodes)
          (cancel_nodes-runs tenant states (put_node run_id tenant nid cancelled_state s))
  ]

  pub cas_update_run_status-Apart :
      (from to : RunStatus) (s : Store) → Apart s (cas_update_run_status run_id from to s).0
  unfolding cas_update_run_status
  cas_update_run_status-Apart from to s k other = elim (Option-cases (lookup run_id s.runs)) [
    | inl e ↦ rw (e, cas_update_run_status) refl
    | inr (run, e) ↦ elim (Bool-cases (status_is from run.status)) [
      | inl same ↦ rw (e, same, cas_update_run_status) (lookup-insert_other run_id k _ s.runs other)
      | inr differs ↦ rw (e, differs, cas_update_run_status) refl
    ]
  ]
