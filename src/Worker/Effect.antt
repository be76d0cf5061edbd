-- ===== src/Worker/Effect.antt =====
-- What the steps of a worker do to its tasks and to the rows of the runs.
use multi_agent_workflow.Prelude.{
  String, Bool, true, false, not, ◌&&◌, ◌||◌, Option, none, some, ◌==◌, ◌≡◌, refl, subst, arith,
  eq_iff, is_some, if◌then◌else◌, Bool-cases, inl, inr,
}
use multi_agent_workflow.Prelude.Dict.{lookup}
use multi_agent_workflow.Lock.{Holders, refresh}
use multi_agent_workflow.Worker.{
  World, Moment, claim_lease, with_lease, renew_lease, renewed, run_exec_lease_key, lease_ttl,
}
use multi_agent_workflow.Worker.Claims.{taken}

-- The worker executes the run.
abbrev pub busy : World → String → Bool
busy w run_id = is_some (lookup run_id w.worker.tasks)

-- Whether a step may turn a worker that executes a run (`b`) whose row is taken (`t`) into one with
-- `b'` and `t'`: it starts on a run that is not taken only, and gives back its own runs only.
abbrev pub allowed : Bool → Bool → Bool → Bool → Bool
allowed b t b' t' = (not b' || (b && (not t || t')) || (not t && t')) && (not t || b || t')

pub record Allowed (w w' : World) : Type 0 where
  pub at : (r : String) → allowed (busy w r) (taken w.store r) (busy w' r) (taken w'.store r) ≡ true

pub allowed_refl : (b t : Bool) → allowed b t b t ≡ true
allowed_refl b t = ground arith

pub allowed_trans :
    (b t b' t' b'' t'' : Bool)
    → allowed b t b' t' ≡ true
    → allowed b' t' b'' t'' ≡ true
    → allowed b t b'' t'' ≡ true
allowed_trans b t b' t' b'' t'' h k = ground arith

pub Allowed-trans : (w w' w'' : World) → Allowed w w' → Allowed w' w'' → Allowed w w''
Allowed-trans w w' w'' h k = record {
  at = λ r.
      allowed_trans (busy w r) (taken w.store r) (busy w' r) (taken w'.store r) (busy w'' r)
        (taken w''.store r) (h.at r) (k.at r);
}

-- A step that concerns one run.
pub record Touches (run_id : String) (w w' : World) : Type 0 where
  pub tasks :
      (k : String) → (run_id == k) ≡ false → lookup k w'.worker.tasks ≡ lookup k w.worker.tasks
  pub rows : (k : String) → (run_id == k) ≡ false → lookup k w'.store.runs ≡ lookup k w.store.runs
  pub own :
      allowed (busy w run_id) (taken w.store run_id) (busy w' run_id) (taken w'.store run_id) ≡ true

pub Touches-Allowed : (run_id : String) (w w' : World) → Touches run_id w w' → Allowed w w'
Touches-Allowed run_id w w' h = record {
  at = λ r. elim (Bool-cases (run_id == r)) [
    | inl same ↦
        subst (λ k. allowed (busy w k) (taken w.store k) (busy w' k) (taken w'.store k) ≡ true)
          ((eq_iff run_id r).0 same) h.own
    | inr other ↦ rw (h.tasks r other, h.rows r other) (allowed_refl (busy w r) (taken w.store r))
  ];
}

pub unchanged : (run_id : String) (w : World) → Touches run_id w w
unchanged run_id w = record {
  tasks = λ k h. refl;
  rows = λ k h. refl;
  own = allowed_refl (busy w run_id) (taken w.store run_id);
}

-- A step that leaves the tasks and the rows.
pub record Idle (w w' : World) : Type 0 where
  pub tasks : w'.worker.tasks ≡ w.worker.tasks
  pub runs : w'.store.runs ≡ w.store.runs
  pub store : w'.store ≡ w.store

pub Idle-Allowed : (w w' : World) → Idle w w' → Allowed w w'
Idle-Allowed w w' h = record {
  at = λ r. rw (h.tasks, h.runs) (allowed_refl (busy w r) (taken w.store r));
}

module _ (has_lock : Bool) (m : Moment) (run_id : String) (w : World) where
  with_lease-Idle : (r : Holders × Bool) → Idle w (with_lease has_lock run_id r w)
  with_lease-Idle (h, true) = record { tasks = refl; runs = refl; store = refl }
  with_lease-Idle (h, false) = record { tasks = refl; runs = refl; store = refl }

  pub claim_lease-Idle : Idle w (claim_lease has_lock m run_id w)
  unfolding claim_lease
  claim_lease-Idle = elim (Bool-cases (has_lock && m.reachable)) [
    | inl e ↦ rw (e, claim_lease) (with_lease-Idle _)
    | inr e ↦ rw (e, claim_lease) (record { tasks = refl; runs = refl; store = refl })
  ]

  pub renew_lease-Idle : Idle w (renew_lease has_lock m run_id w)
  unfolding renew_lease
  renew_lease-Idle = by (lookup run_id w.worker.lease_tasks)
    where
      by :
          (o : Option Bool)
          → Idle w (elim o [
            | some false ↦
                if m.reachable
                then renewed has_lock run_id
                    (refresh (run_exec_lease_key run_id) lease_ttl m.now w.holders)
                    w
                else w
            | _ ↦ w
          ])
      by none = record { tasks = refl; runs = refl; store = refl }
      by (some true) = record { tasks = refl; runs = refl; store = refl }
      by (some false) = elim (Bool-cases m.reachable) [
        | inl e ↦ rw e (record { tasks = refl; runs = refl; store = refl })
        | inr e ↦ rw e (record { tasks = refl; runs = refl; store = refl })
      ]
