-- ===== src/Executor/Resume/Restores.antt =====
-- The executors that `__init__` and `from_checkpoint` make, and their runs.
use multi_agent_workflow.Prelude.{
  ℕ, String, Bool, true, false, ◌||◌, Option, none, some, [], ◌∷◌, ◌≡◌, refl, ap, ◌∙◌, arith,
  eq_iff, is_some, if◌then◌else◌,
}
use multi_agent_workflow.Prelude.Dict.{Dict, lookup, lookup-insert, Entries, Unique, insert-Unique}
use multi_agent_workflow.Core.Dag.{
  Node, Status, pending, running, done, skipped, waiting_approval, rejected, rejected_canceled,
  failed, cancelled, is_terminal, is_waiting,
}
use multi_agent_workflow.Json.{null}
use multi_agent_workflow.StateStore.Rows.{NodeState, Checkpoint}
use multi_agent_workflow.StateStore.Memory.{Store, run_nodes}
use multi_agent_workflow.Executor.State.{
  Config, Executor, init, initial_states, set_state, fresh_state,
}
use multi_agent_workflow.Executor.Environment.{Environment}
use multi_agent_workflow.Executor.Ensures.{Ensures}
use multi_agent_workflow.Executor.Invariant.{Inv, is_settled, settled_at, set_state-Inv}
use multi_agent_workflow.Executor.Run.{run}
use multi_agent_workflow.Executor.Run.Ends.{Sound, Ended, run-Ended}
use multi_agent_workflow.Executor.Resume.{restored, restore_all, from_checkpoint}

initial_states-lookup :
    (k : String) (nodes : Dict Node)
    → is_some (lookup k (initial_states nodes)) ≡ is_some (lookup k nodes)
unfolding initial_states lookup
initial_states-lookup k [] = refl
initial_states-lookup k ((nid, n) ∷ nodes) = ground (arith, initial_states-lookup k nodes)

initial_states-fresh :
    (k : String) (nodes : Dict Node)
    → is_some (lookup k nodes) ≡ true
    → lookup k (initial_states nodes) ≡ some fresh_state
unfolding initial_states lookup
initial_states-fresh k [] h = cc
initial_states-fresh k ((nid, n) ∷ nodes) h = ground (arith, h, initial_states-fresh k nodes)

initial_settled :
    (k : String) (nodes : Dict Node) → settled_at [] k (lookup k (initial_states nodes)) ≡ true
unfolding initial_states lookup
initial_settled k [] = refl
initial_settled k ((nid, n) ∷ nodes) = ground (arith, initial_settled k nodes)

initial_states-Unique : (nodes : Dict Node) → Unique nodes → Unique (initial_states nodes)
unfolding initial_states
initial_states-Unique [] u = tt
initial_states-Unique ((nid, n) ∷ nodes) u =
    (ground (arith, initial_states-lookup nid nodes, u.0), initial_states-Unique nodes u.1)

pub init-lookup :
    (c : Config) (store : Store) (k : String)
    → is_some (lookup k c.nodes) ≡ true
    → lookup k (init c store).states ≡ some fresh_state
unfolding init
init-lookup c store k = initial_states-fresh k c.nodes

pub init-Inv : (c : Config) (store : Store) → Unique c.nodes → Inv c [] (init c store)
unfolding init
init-Inv c store u = record {
  covered = λ k. initial_states-lookup k c.nodes;
  unique = initial_states-Unique c.nodes u;
  settled = λ k. initial_settled k c.nodes;
}

kept_or_reset :
    (cp : NodeState) (b : Bool)
    → (is_terminal cp.status || is_waiting cp.status) ≡ b
    → is_settled (if b then record cp { params = none } else fresh_state).status ≡ true
kept_or_reset cp false e = refl
kept_or_reset cp true e = ground arith

restored-IsSettled : (cp : NodeState) → is_settled (restored cp).status ≡ true
unfolding restored
restored-IsSettled cp = kept_or_reset cp (is_terminal cp.status || is_waiting cp.status) refl

-- A node that has not begun.
abbrev pub reset : NodeState
reset = record { status = pending; output = null; params = none; error = none }

-- What is left of a checkpoint, by its status.
abbrev pub by_status : Status → NodeState → NodeState
by_status pending cp = reset
by_status running cp = reset
by_status done cp = record cp { params = none }
by_status skipped cp = record cp { params = none }
by_status waiting_approval cp = record cp { params = none }
by_status rejected cp = record cp { params = none }
by_status rejected_canceled cp = record cp { params = none }
by_status failed cp = reset
by_status cancelled cp = reset

abbrev pub brought_back : NodeState → NodeState
brought_back cp = by_status cp.status cp

by_status-if :
    (st : Status) (cp : NodeState)
    → (if is_terminal st || is_waiting st then record cp { params = none } else fresh_state)
      ≡ by_status st cp
by_status-if pending cp = refl
by_status-if running cp = refl
by_status-if done cp = refl
by_status-if skipped cp = refl
by_status-if waiting_approval cp = refl
by_status-if rejected cp = refl
by_status-if rejected_canceled cp = refl
by_status-if failed cp = refl
by_status-if cancelled cp = refl

restored-brought_back : (cp : NodeState) → restored cp ≡ brought_back cp
unfolding restored
restored-brought_back cp = by_status-if cp.status cp

restore_all-Unique :
    (cps : Dict Checkpoint) (s : Executor) → Unique s.states → Unique (restore_all cps s).states
unfolding restore_all set_state
restore_all-Unique [] s u = u
restore_all-Unique ((nid, cp) ∷ cps) s u =
    restore_all-Unique cps (set_state nid (restored cp.state) s)
      (insert-Unique nid (restored cp.state) s.states u)

pub from_checkpoint-Unique :
    (c : Config) (store : Store) → Unique c.nodes → Unique (from_checkpoint c store).states
unfolding from_checkpoint init
from_checkpoint-Unique c store u =
    restore_all-Unique (run_nodes c.run_id store) (init c store) (initial_states-Unique c.nodes u)

restore_all-store :
    (cps : Dict Checkpoint) (s : Executor) (store : Store)
    → record s { store = store } ≡ s
    → record (restore_all cps s) { store = store } ≡ restore_all cps s
unfolding restore_all set_state
restore_all-store [] s store e = e
restore_all-store ((nid, cp) ∷ cps) s store e =
    restore_all-store cps (set_state nid (restored cp.state) s) store
      (ap (set_state nid (restored cp.state)) e)

pub from_checkpoint-store :
    (c : Config) (store : Store)
    → record (from_checkpoint c store) { store = store } ≡ from_checkpoint c store
unfolding from_checkpoint init
from_checkpoint-store c store =
    restore_all-store (run_nodes c.run_id store) (init c store) store refl

module _ (c : Config) where
  abbrev pub InGraph : Dict Checkpoint → Type 0
  InGraph cps = Entries (λ nid (cp : Checkpoint). is_some (lookup nid c.nodes) ≡ true) cps

  restore_all-Inv :
      (cps : Dict Checkpoint) (s : Executor)
      → InGraph cps
      → Inv c [] s
      → Inv c [] (restore_all cps s)
  unfolding restore_all
  restore_all-Inv [] s known inv = inv
  restore_all-Inv ((nid, cp) ∷ cps) s known inv =
      restore_all-Inv cps (set_state nid (restored cp.state) s) known.1 (
        set_state-Inv c [] [] nid (restored cp.state) s inv known.0
          (rw (restored-IsSettled cp.state)) (λ k _ h. h))

  abbrev pub restored_at : Option Checkpoint → Option NodeState → Option NodeState
  restored_at none before = before
  restored_at (some cp) before = some (restored cp.state)

  restore_all-lookup :
      (k : String) (cps : Dict Checkpoint) (s : Executor)
      → Unique cps
      → lookup k (restore_all cps s).states ≡ restored_at (lookup k cps) (lookup k s.states)
  unfolding restore_all lookup set_state
  restore_all-lookup k [] s u = refl
  restore_all-lookup k ((nid, cp) ∷ cps) s u = ground (
    arith,
    eq_iff nid k,
    u.0,
    lookup-insert nid k (restored cp.state) s.states,
    restore_all-lookup k cps (set_state nid (restored cp.state) s) u.1,
  )

  -- A node without a checkpoint is pending if it is one of the graph.
  abbrev pub state_from : String → Option Checkpoint → Option NodeState
  state_from k none = if is_some (lookup k c.nodes) then some reset else none
  state_from k (some cp) = some (brought_back cp.state)

  initial_absent :
      (k : String) (nodes : Dict Node)
      → lookup k (initial_states nodes) ≡ (if is_some (lookup k nodes) then some reset else none)
  unfolding initial_states lookup
  initial_absent k [] = refl
  initial_absent k ((nid, n) ∷ nodes) = ground (arith, initial_absent k nodes)

  restored_at-state_from :
      (k : String) (o : Option Checkpoint)
      → restored_at o (lookup k (initial_states c.nodes)) ≡ state_from k o
  restored_at-state_from k none = initial_absent k c.nodes
  restored_at-state_from k (some cp) = ap some (restored-brought_back cp.state)

  pub from_checkpoint-restored :
      (store : Store) (k : String)
      → Unique (run_nodes c.run_id store)
      → lookup k (from_checkpoint c store).states
        ≡ restored_at (lookup k (run_nodes c.run_id store)) (lookup k (init c store).states)
  unfolding from_checkpoint
  from_checkpoint-restored store k u =
      restore_all-lookup k (run_nodes c.run_id store) (init c store) u

  -- After a restart, a node with a checkpoint has the checkpoint's state without its parameters if
  -- that is done, skipped, rejected, rejected by a timeout or waiting for its approval; if it is
  -- pending, running, failed or cancelled, the node is pending, with no output and no error. A node
  -- of the graph without a checkpoint is pending too. The checkpoints have different node ids.
  pub from_checkpoint-lookup :
      (store : Store) (k : String)
      → Unique (run_nodes c.run_id store)
      → lookup k (from_checkpoint c store).states
        ≡ state_from k (lookup k (run_nodes c.run_id store))
  unfolding init
  from_checkpoint-lookup store k u =
      from_checkpoint-restored store k u
      ∙ restored_at-state_from k (lookup k (run_nodes c.run_id store))

module _ (env : Environment) (c : Config) (store : Store) (rank : String → ℕ)
    (sound : Sound c rank) where
  -- A new run of a sound graph ends, whatever the agents answer, however long they take and in
  -- whatever order the event loop lets them go on: within the bound on its waves and passes it
  -- returns `done`, `waiting_approval` or `paused`, or it raises an exception that is neither a
  -- missing key nor a stall. If it returns, no node has failed and no rejection aborts the run.
  -- After `done` every node has ended; after `waiting_approval` an approval is open and no node is
  -- ready; after `paused` a pause was requested and a node has not ended.
  pub started-Ended : Ensures (Ended env c) (run env c (init c store))
  started-Ended = run-Ended env c rank sound (init c store) (init-Inv c store sound.unique)

  -- The same holds of a run that is resumed from the checkpoints of a store, if those are of nodes
  -- of the graph.
  pub resumed-Ended :
      InGraph c (run_nodes c.run_id store)
      → Ensures (Ended env c) (run env c (from_checkpoint c store))
  unfolding from_checkpoint
  resumed-Ended known = run-Ended env c rank sound (from_checkpoint c store) (
      restore_all-Inv c (run_nodes c.run_id store) (init c store) known
        (init-Inv c store sound.unique))
