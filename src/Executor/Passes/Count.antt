-- ===== src/Executor/Passes/Count.antt =====
-- How many nodes are pending, and what the comparison of two snapshots says.
use multi_agent_workflow.Prelude.{
  ℕ, suc, ◌≤◌, ◌<◌, String, true, false, Option, none, some, [], ◌∷◌, ◌≡◌, refl, arith, eq_iff,
  is_some, length, if◌then◌else◌,
}
use multi_agent_workflow.Prelude.Dict.{Dict, lookup, Entries, Entries-self, Unique}
use multi_agent_workflow.Core.Dag.{Node, Status, pending, is_pending}
use multi_agent_workflow.StateStore.Rows.{NodeState}
use multi_agent_workflow.Executor.Decision.{States}
use multi_agent_workflow.Executor.Invariant.{pending_at}
use multi_agent_workflow.Executor.Passes.{same_node_status, status_found, same_statuses}

same_node_status_refl : (a : Status) → same_node_status a a ≡ true
same_node_status_refl pending = refl
same_node_status_refl _ = refl

pending-same_node_status :
    (a b : Status) → same_node_status a b ≡ true → is_pending a ≡ is_pending b
pending-same_node_status pending b h = ground arith
pending-same_node_status a b h = ground arith

pending-status_found :
    (a : Status) (o : Option NodeState) → status_found a o ≡ true → pending_at o ≡ is_pending a
pending-status_found a none h = cc
pending-status_found a (some st) h = pending-same_node_status st.status a h

-- Equal snapshots have the same pending nodes.
pub pending-same_statuses :
    (k : String) (s t : States)
    → same_statuses s t ≡ true
    → pending_at (lookup k s) ≡ true
    → pending_at (lookup k t) ≡ true
unfolding same_statuses lookup
pending-same_statuses k [] t h p = cc
pending-same_statuses k ((nid, st) ∷ s) t h p = ground (
  arith,
  eq_iff nid k,
  pending-status_found st.status (lookup nid t),
  pending-same_statuses k s t,
)

same_statuses-Entries :
    (s t : States) → Entries (λ k st. lookup k t ≡ some st) s → same_statuses s t ≡ true
unfolding same_statuses
same_statuses-Entries [] t h = refl
same_statuses-Entries ((nid, st) ∷ s) t h =
    rw (h.0, same_node_status_refl st.status, same_statuses-Entries s t h.1)

pub same_statuses_refl : (s : States) → Unique s → same_statuses s s ≡ true
same_statuses_refl s u = same_statuses-Entries s s (Entries-self s u)

unfoldable pub count_pending : Dict Node → States → ℕ
count_pending [] s = 0
count_pending ((nid, n) ∷ nodes) s =
    let rest = count_pending nodes s in if pending_at (lookup nid s) then suc rest else rest

pub count_pending-le-length :
    (nodes : Dict Node) (s : States) → count_pending nodes s ≤ length nodes
unfolding count_pending
count_pending-le-length [] s = omega arith
count_pending-le-length ((nid, n) ∷ nodes) s = ground (arith, count_pending-le-length nodes s)

module _ (s t : States)
    (mono : (k : String) → pending_at (lookup k s) ≡ false → pending_at (lookup k t) ≡ false) where
  pub count_pending_mono : (nodes : Dict Node) → count_pending nodes t ≤ count_pending nodes s
  unfolding count_pending
  count_pending_mono [] = omega arith
  count_pending_mono ((nid, n) ∷ nodes) = ground (arith, count_pending_mono nodes, mono nid)

  pub count_pending_lt :
      (k : String) (nodes : Dict Node)
      → is_some (lookup k nodes) ≡ true
      → pending_at (lookup k s) ≡ true
      → pending_at (lookup k t) ≡ false
      → count_pending nodes t < count_pending nodes s
  unfolding count_pending lookup
  count_pending_lt k [] h was now = cc
  count_pending_lt k ((nid, n) ∷ nodes) h was now =
      ground (arith, eq_iff nid k, count_pending_mono nodes, count_pending_lt k nodes, mono nid)
