-- ===== src/Executor/Wave.antt =====
-- A wave: the nodes that are ready are executed together (`asyncio.gather` in `run`). They start in
-- their order; which of the running ones ends next is the event loop's choice. The first exception
-- ends the wave.
pub mod Effect
use multi_agent_workflow.Prelude.{
  ℕ, zero, suc, ◌+◌, String, Option, none, some, List, [], ◌∷◌, length, Result, ok, raise, Error,
  out_of_fuel,
}
use multi_agent_workflow.Executor.State.{Config, Executor, Action, continue}
use multi_agent_workflow.Executor.Environment.{Environment}
use multi_agent_workflow.Executor.Node.{Task, start_node, finish_node}

-- What the event loop does next.
pub data Choice : Type 0 where
  idle : Choice
  start : String → List String → Choice
  finish : Task → List Task → Choice

-- The task at a position, and the others; past the end it is the last one.
unfoldable pub take_task : ℕ → Task → List Task → Task × List Task
take_task k t [] = (t, [])
take_task zero t (u ∷ ts) = (t, u ∷ ts)
take_task (suc k) t (u ∷ ts) = let (v, rest) = take_task k u ts in (v, t ∷ rest)

abbrev finish_at : ℕ → Task → List Task → Choice
finish_at k t ts = let (u, rest) = take_task k t ts in finish u rest

-- Of the nodes that have not started and the tasks whose calls are under way.
unfoldable pub choose : Option ℕ → List String → List Task → Choice
choose pick [] [] = idle
choose none [] (t ∷ ts) = finish_at 0 t ts
choose (some k) [] (t ∷ ts) = finish_at k t ts
choose pick (nid ∷ nids) [] = start nid nids
choose none (nid ∷ nids) (t ∷ ts) = start nid nids
choose (some k) (nid ∷ nids) (t ∷ ts) = finish_at k t ts

abbrev with_task : Option Task → List Task → List Task
with_task none ts = ts
with_task (some t) ts = t ∷ ts

abbrev pub nids_of : List Task → List String
nids_of [] = []
nids_of (t ∷ ts) = t.nid ∷ nids_of ts

module _ (env : Environment) (c : Config) where
  -- One choice, and then the rest of the wave.
  abbrev pub carry_out :
      (List String → List Task → Action (Unit {0}))
      → List String
      → List Task
      → Choice
      → Action (Unit {0})
  carry_out rest nids ts idle s = (ok tt, s)
  carry_out rest nids ts (start nid later) s =
      continue (λ o. rest later (with_task o ts)) (start_node env c nid s)
  carry_out rest nids ts (finish t others) s =
      continue (λ _. rest nids others) (finish_node env c t s)

  unfoldable pub wave_from : ℕ → List String → List Task → Action (Unit {0})
  wave_from zero nids ts s = (raise out_of_fuel, s)
  wave_from (suc fuel) nids ts s =
      carry_out (wave_from fuel) nids ts (choose (env.pick s nids (nids_of ts)) nids ts) s

  -- Each node starts once and ends once.
  unfoldable pub wave : List String → Action (Unit {0})
  wave ready = wave_from (suc (length ready + length ready)) ready []
