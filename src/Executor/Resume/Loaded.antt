-- ===== src/Executor/Resume/Loaded.antt =====
-- A run from its graph (`DAG.build`) or from its snapshot (`resume_executor`) to its end.
use multi_agent_workflow.Prelude.{
  ℕ, String, Bool, List, Result, ok, raise, ◌≡◌, refl, ◌>>=◌, missing_run, missing_snapshot,
  key_error, subst, sym,
}
use multi_agent_workflow.Prelude.Dict.{Dict, lookup}
use multi_agent_workflow.Json.{Fields}
use multi_agent_workflow.Core.Dag.{Node, Edge, Dag}
use multi_agent_workflow.Core.Dag.Build.{build}
use multi_agent_workflow.Core.Dag.Build.Accepted.{Accepted, Skeleton, build-Accepted}
use multi_agent_workflow.StateStore.Memory.{Store, run_nodes}
use multi_agent_workflow.Executor.State.{Config, Executor, init}
use multi_agent_workflow.Executor.Environment.{Environment}
use multi_agent_workflow.Executor.Ensures.{Ensures}
use multi_agent_workflow.Executor.Run.{run}
use multi_agent_workflow.Executor.Run.Ends.{Sound, Ended}
use multi_agent_workflow.Executor.Resume.{
  or_raise, from_checkpoint, load_snapshot_workflow, resume_executor,
}
use multi_agent_workflow.Executor.Resume.Restores.{InGraph, started-Ended, resumed-Ended}

-- The constants of a run of a graph.
abbrev pub config_of : String → String → Fields → Dag → Config
config_of run_id tenant_id inputs g = record {
  run_id = run_id;
  tenant_id = tenant_id;
  nodes = g.nodes;
  inputs = inputs;
}

Accepted-Sound :
    (run_id tenant_id : String) (inputs : Fields) (g : Dag) (rank : String → ℕ)
    → Accepted g rank
    → Sound (config_of run_id tenant_id inputs g) rank
Accepted-Sound run_id tenant_id inputs g rank a = record {
  unique = a.unique;
  known = a.known;
  ranked = a.ranked;
}

-- A new run of a graph that `build` accepts ends, whatever the agents answer, however long they
-- take and in whatever order the event loop lets them go on: within the bounds on its waves and
-- passes it returns `done`, `waiting_approval` or `paused`, or it raises an exception that is
-- neither a missing key nor a stall. If it returns, no node has failed and no rejection aborts the
-- run. After `done` every node has ended; after `waiting_approval` an approval is open and no node
-- is ready; after `paused` a pause was requested and a node has not ended. The nodes that `build`
-- is given have different ids and no edges yet.
pub loaded-Ended :
    (env : Environment) (strict : Bool) (skeleton : Dict Node) (edges : List Edge) (g : Dag)
    (run_id tenant_id : String) (inputs : Fields) (store : Store)
    → Skeleton skeleton
    → build strict skeleton edges ≡ ok g
    → Ensures (Ended env (config_of run_id tenant_id inputs g)) (
        run env
          (config_of run_id tenant_id inputs g)
          (init (config_of run_id tenant_id inputs g) store))
loaded-Ended env strict skeleton edges g run_id tenant_id inputs store sk accepted =
    let (rank, a) = build-Accepted strict skeleton edges sk g accepted in
    started-Ended env (config_of run_id tenant_id inputs g) store rank
      (Accepted-Sound run_id tenant_id inputs g rank a)

-- A loader that gives accepted graphs only.
abbrev pub Loads : (String → Result Dag) → Type 0
Loads load = (yaml : String) (g : Dag) → load yaml ≡ ok g → (rank : String → ℕ) × Accepted g rank

-- What `resume_executor` gives back: a graph that was loaded, and the executor from its
-- checkpoints.
record Resumed (load : String → Result Dag) (run_id : String) (store : Store)
    (r : Config × Executor) : Type 0 where
  yaml : String
  graph : Dag
  loaded : load yaml ≡ ok graph
  nodes : r.0.nodes ≡ graph.nodes
  restored : r.1 ≡ from_checkpoint r.0 store
  same_run : r.0.run_id ≡ run_id

-- Of a result, if it is no exception.
abbrev IfOk {ℓ} : {A : Type ℓ} → (A → Type 0) → Result A → Type 0
IfOk P (ok a) = P a
IfOk P (raise e) = Unit

IfOk-bind {ℓ κ} :
    {A : Type ℓ} {B : Type κ} (P : B → Type 0) (m : Result A) (f : A → Result B)
    → ((a : A) → m ≡ ok a → IfOk P (f a))
    → IfOk P (m >>= f)
IfOk-bind P (ok a) f k = k a refl
IfOk-bind P (raise e) f k = tt

load_snapshot_workflow-IfOk :
    (load : String → Result Dag) (key : String) (store : Store)
    → IfOk (λ g. (yaml : String) × (load yaml ≡ ok g)) (load_snapshot_workflow load key store)
unfolding load_snapshot_workflow
load_snapshot_workflow-IfOk load key store =
    IfOk-bind (λ g. (yaml : String) × (load yaml ≡ ok g))
      (or_raise (lookup key store.snapshots) (raise (missing_snapshot key))) load
      λ yaml _. given yaml (load yaml) refl
  where
    given :
        (yaml : String) (r : Result Dag)
        → load yaml ≡ r
        → IfOk (λ g. (yaml : String) × (load yaml ≡ ok g)) r
    given yaml (ok g) e = (yaml, e)
    given yaml (raise x) e = tt

module _ (load : String → Result Dag) (run_id tenant_id : String) (store : Store) where
  resume_executor-Resumed :
      IfOk (Resumed load run_id store) (resume_executor load run_id tenant_id store)
  unfolding resume_executor
  resume_executor-Resumed =
      IfOk-bind _ (or_raise (lookup run_id store.runs) (raise (missing_run run_id))) _ λ r _.
        IfOk-bind _ (or_raise r.snapshot_id (raise (key_error "workflow_snapshot_id"))) _ λ key _.
          IfOk-bind _ (load_snapshot_workflow load key store) _ λ g e.
            let (yaml, loaded) =
              subst (IfOk (λ g. (yaml : String) × (load yaml ≡ ok g))) e
                (load_snapshot_workflow-IfOk load key store) in
            record {
              yaml = yaml;
              graph = g;
              loaded = loaded;
              nodes = refl;
              restored = refl;
              same_run = refl;
            }

  pub resume_executor-Restores :
      (c : Config) (s : Executor)
      → resume_executor load run_id tenant_id store ≡ ok (c, s)
      → (s ≡ from_checkpoint c store) × (c.run_id ≡ run_id)
  resume_executor-Restores c s e =
      let r : Resumed load run_id store (c, s) =
        subst (IfOk (Resumed load run_id store)) e resume_executor-Resumed in
      (r.restored, r.same_run)

  -- The same holds of a run that `resume_executor` rebuilds from the store, if the loader of its
  -- snapshot gives accepted graphs only and the checkpoints are of nodes of the graph.
  pub resume_executor-Ended :
      (env : Environment) (c : Config) (s : Executor)
      → Loads load
      → resume_executor load run_id tenant_id store ≡ ok (c, s)
      → InGraph c (run_nodes c.run_id store)
      → Ensures (Ended env c) (run env c s)
  resume_executor-Ended env c s loads e known =
      let r : Resumed load run_id store (c, s) =
        subst (IfOk (Resumed load run_id store)) e resume_executor-Resumed in
      let (rank, a) = loads r.yaml r.graph r.loaded in
      let sound : Sound c rank =
        subst (λ ns. Sound (record c { nodes = ns }) rank) (sym r.nodes)
          (Accepted-Sound c.run_id c.tenant_id c.inputs r.graph rank a) in
      subst (λ x. Ensures (Ended env c) (run env c x)) (sym r.restored)
        (resumed-Ended env c store rank sound known)
