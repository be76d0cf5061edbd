-- ===== src/Executor/Wave/Effect.antt =====
-- What a wave does to the node states.
use multi_agent_workflow.Prelude.{
  ℕ, zero, suc, ◌+◌, ◌≤◌, ◌<◌, String, true, false, Option, none, some, List, [], ◌∷◌, ◌==◌, ◌≡◌,
  refl, sym, ◌∙◌, arith, is_some, contains, All, length, Result, ok, inl, inr, ◌⊎◌, subst,
}
use multi_agent_workflow.Prelude.Dict.{lookup}
use multi_agent_workflow.Core.Dag.{Node}
use multi_agent_workflow.Executor.State.{Config, Executor}
use multi_agent_workflow.Executor.Environment.{Environment}
use multi_agent_workflow.Executor.Ensures.{Ensures, Ensures-continue, Ensures-map}
use multi_agent_workflow.Executor.Invariant.{pending_at, Inv}
use multi_agent_workflow.Executor.Decision.{node_decision, ready}
use multi_agent_workflow.Executor.Passes.Progress.{Mono, Moved}
use multi_agent_workflow.Executor.Passes.Settle.{AllKnown}
use multi_agent_workflow.Executor.Node.{Task, start_node, finish_node}
use multi_agent_workflow.Executor.Node.Effect.{
  Started, Finished, Idle, busy_with, OptionKnown, start_node-Started, finish_node-Finished,
}
use multi_agent_workflow.Executor.Wave.{
  Choice, idle, start, finish, take_task, choose, with_task, nids_of, carry_out, wave_from, wave,
}

module _ (c : Config) where
  abbrev TaskKnown : Task → Type 0
  TaskKnown t = is_some (lookup t.nid c.nodes) ≡ true

  abbrev NidKnown : String → Type 0
  NidKnown nid = is_some (lookup nid c.nodes) ≡ true

  -- What is left when a task is taken out of the running ones.
  record Taken (ts : List Task) (t : Task) (rest : List Task) : Type 0 where
    here : TaskKnown t
    others : All TaskKnown rest
    size : length ts ≡ suc (length rest)
    frees :
        (k : String)
        → (t.nid == k) ≡ false
        → contains k (nids_of ts) ≡ true
        → contains k (nids_of rest) ≡ true

  take_task-Taken :
      (k : ℕ) (t : Task) (ts : List Task)
      → All TaskKnown (t ∷ ts)
      → Taken (t ∷ ts) (take_task k t ts).0 (take_task k t ts).1
  unfolding take_task
  take_task-Taken k t [] h = record {
    here = h.0;
    others = tt;
    size = refl;
    frees = λ j ne has. ground (arith, ne);
  }
  take_task-Taken zero t (u ∷ ts) h = record {
    here = h.0;
    others = h.1;
    size = refl;
    frees = λ j ne has. ground (arith, ne);
  }
  take_task-Taken (suc k) t (u ∷ ts) h =
      let r = take_task-Taken k u ts h.1 in
      record {
        here = r.here;
        others = (h.0, r.others);
        size = omega (arith, r.size);
        frees = λ j ne has. ground (arith, r.frees j ne);
      }

  -- What each choice of the event loop means.
  abbrev Valid : List String → List Task → Choice → Type 0
  Valid nids ts idle = ts ≡ []
  Valid nids ts (start nid rest) = nids ≡ nid ∷ rest
  Valid nids ts (finish t rest) = Taken ts t rest

  choose-Valid :
      (pick : Option ℕ) (nids : List String) (ts : List Task)
      → All TaskKnown ts
      → Valid nids ts (choose pick nids ts)
  unfolding choose
  choose-Valid none [] [] h = refl
  choose-Valid (some k) [] [] h = refl
  choose-Valid none [] (t ∷ ts) h = take_task-Taken 0 t ts h
  choose-Valid (some k) [] (t ∷ ts) h = take_task-Taken k t ts h
  choose-Valid none (nid ∷ nids) [] h = refl
  choose-Valid (some k) (nid ∷ nids) [] h = refl
  choose-Valid none (nid ∷ nids) (t ∷ ts) h = refl
  choose-Valid (some k) (nid ∷ nids) (t ∷ ts) h = take_task-Taken k t ts h

module _ (env : Environment) (c : Config) (known : AllKnown c) where
  -- After `s`, no node is busy and none has become pending.
  abbrev Ends : Executor → Result (Unit {0}) × Executor → Type 0
  Ends s = Ensures (λ _ s'. Finished c [] s s')

  abbrev Waves : ℕ → Type 0
  Waves fuel =
      (nids : List String) (ts : List Task) (s : Executor)
      → Inv c (nids_of ts) s
      → All (NidKnown c) nids
      → All (TaskKnown c) ts
      → length nids + length nids + length ts < fuel
      → Ends s (wave_from env c fuel nids ts s)

  Finished-trans :
      {busy : List String} {s : Executor} (t : Executor) {u : Executor}
      → Mono s t
      → t.failed ≡ s.failed
      → Finished c busy t u
      → Finished c busy s u
  Finished-trans t mono failed f = record {
    inv = f.inv;
    mono = λ k h. f.mono k (mono k h);
    failed = f.failed ∙ failed;
  }

  tasks_of :
      (o : Option Task) (ts : List Task)
      → OptionKnown c o
      → All (TaskKnown c) ts
      → All (TaskKnown c) (with_task o ts)
  tasks_of none ts h k = k
  tasks_of (some t) ts h k = (h, k)

  Inv-task :
      (o : Option Task) (ts : List Task) {s : Executor}
      → Inv c (busy_with o (nids_of ts)) s
      → Inv c (nids_of (with_task o ts)) s
  Inv-task none ts i = i
  Inv-task (some t) ts i = i

  length-with_task : (o : Option Task) (ts : List Task) → length (with_task o ts) ≤ suc (length ts)
  length-with_task none ts = omega arith
  length-with_task (some t) ts = omega arith

  after_start :
      (fuel : ℕ) (nids : List String) (ts : List Task) (s t : Executor) (Q : Type 0)
      (o : Option Task)
      → Waves fuel
      → All (NidKnown c) nids
      → All (TaskKnown c) ts
      → length nids + length nids + suc (length ts) < fuel
      → Started c (nids_of ts) Q o s t
      → Ends s (wave_from env c fuel nids (with_task o ts) t)
  after_start fuel nids ts s t Q o again ns tasks enough st =
      Ensures-map _ _ (wave_from env c fuel nids (with_task o ts) t)
        (again nids (with_task o ts) t (Inv-task o ts st.inv) ns (tasks_of o ts st.known tasks)
          (omega (arith, length-with_task o ts)))
        λ _ u f. Finished-trans t st.mono st.failed f

  by_choice :
      (fuel : ℕ) (nids : List String) (ts : List Task) (s : Executor)
      → Waves fuel
      → Inv c (nids_of ts) s
      → All (NidKnown c) nids
      → All (TaskKnown c) ts
      → length nids + length nids + length ts < suc fuel
      → (ch : Choice) → Valid c nids ts ch
      → Ends s (carry_out env c (wave_from env c fuel) nids ts ch s)
  by_choice fuel nids ts s again inv ns tasks enough idle v = record {
    inv = rw v at inv;
    mono = λ k h. h;
    failed = refl;
  }
  by_choice fuel nids ts s again inv ns tasks enough (start nid rest) v =
      let here = (rw v at ns).0 in
      Ensures-continue _ _ (start_node env c nid s) _
        (start_node-Started env c (nids_of ts) known nid s inv here)
        λ o t st.
          after_start fuel rest ts s t _ o again (rw v at ns).1 tasks
            (omega (arith, rw v at enough)) st
  by_choice fuel nids ts s again inv ns tasks enough (finish t rest) v =
      Ensures-continue _ _ (finish_node env c t s) _
        (finish_node-Finished env c (nids_of ts) (nids_of rest) known t v.here v.frees s inv)
        λ _ u f.
          Ensures-map _ _ (wave_from env c fuel nids rest u)
            (again nids rest u f.inv ns v.others (omega (arith, v.size)))
            λ _ w g. Finished-trans u f.mono f.failed g

  wave_from-Ends : (fuel : ℕ) → Waves fuel
  unfolding wave_from
  wave_from-Ends zero nids ts s inv ns tasks enough = elim enough [ ]
  wave_from-Ends (suc fuel) nids ts s inv ns tasks enough =
      by_choice fuel nids ts s (wave_from-Ends fuel) inv ns tasks enough
        (choose (env.pick s nids (nids_of ts)) nids ts)
        (choose-Valid c (env.pick s nids (nids_of ts)) nids ts tasks)

  -- The node is pending and ready.
  abbrev pub IsReady : String → Executor → Type 0
  IsReady nid s =
      (n : Node) × (lookup nid c.nodes ≡ some n)
      × (pending_at (lookup nid s.states) ≡ true)
      × (node_decision env.python s.states n ≡ ok ready)

  pub record Waved (s s' : Executor) : Type 0 where
    pub finished : Finished c [] s s'
    pub moved : Moved s s'

  choose-first :
      (pick : Option ℕ) (nid : String) (nids : List String)
      → choose pick (nid ∷ nids) [] ≡ start nid nids
  unfolding choose
  choose-first none nid nids = refl
  choose-first (some k) nid nids = refl

  first_moves :
      (nid : String) (s t : Executor) → IsReady nid s → Moved s t ⊎ Idle env c nid s → Moved s t
  first_moves nid s t r (inl m) = m
  first_moves nid s t (n, e, p, d) (inr i) = absurd (i n e p d)

  -- A wave of nodes of the graph whose first one is pending and ready ends, in whatever order the
  -- event loop starts and resumes its nodes. If it raises no exception, no node is left running and
  -- none is pending again, no node is added to the failed ones, and at least one has left
  -- `pending`.
  pub wave-Waved :
      (nid : String) (nids : List String) (s : Executor)
      → Inv c [] s
      → All (NidKnown c) (nid ∷ nids)
      → IsReady nid s
      → Ensures (λ _ s'. Waved s s') (wave env c (nid ∷ nids) s)
  unfolding wave wave_from
  wave-Waved nid nids s inv ns r =
      let fuel = length (nid ∷ nids) + length (nid ∷ nids) in
      subst
        (λ ch.
          Ensures (λ _ s'. Waved s s')
            (carry_out env c (wave_from env c fuel) (nid ∷ nids) [] ch s))
        (sym (choose-first (env.pick s (nid ∷ nids) []) nid nids))
        (Ensures-continue _ _ (start_node env c nid s) _
          (start_node-Started env c [] known nid s inv ns.0)
          λ o t st.
            let (k, was, now) = first_moves nid s t r st.moved in
            Ensures-map (λ _ u. Finished c [] t u) _ (wave_from env c fuel nids (with_task o []) t)
              (again o t st fuel (omega arith))
              λ _ u f. record {
                finished = Finished-trans t st.mono st.failed f;
                moved = (k, was, f.mono k now);
              })
    where
      again :
          (o : Option Task) (t : Executor)
          → Started c [] (Idle env c nid s) o s t
          → (fuel : ℕ) → length nids + length nids + 1 < fuel
          → Ends t (wave_from env c fuel nids (with_task o []) t)
      again o t st fuel enough =
          wave_from-Ends fuel nids (with_task o []) t (Inv-task o [] st.inv) ns.1
            (tasks_of o [] st.known tt) (omega (arith, length-with_task o []))
