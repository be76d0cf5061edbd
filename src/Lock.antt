-- ===== src/Lock.antt =====
-- The in-memory lock (agentflow/lock/memory.py). The waiters are left out: nothing adds one.
pub mod Exclusive
use multi_agent_workflow.Prelude.{
  ℕ, ◌+◌, String, Bool, true, false, not, Option, none, some, List, [], ◌∷◌, leb, ltb,
  if◌then◌else◌,
}
use multi_agent_workflow.Prelude.Dict.{Dict, lookup, insert, remove}

-- `_holders`: when each lock expires.
abbrev pub Holders : Type 0
Holders = Dict ℕ

abbrev pub held : Option ℕ → ℕ → Bool
held none now = false
held (some expires) now = ltb now expires

unfoldable pub acquire : String → ℕ → ℕ → Holders → Holders × Bool
acquire key ttl now h =
    if held (lookup key h) now then (h, false) else (insert key (now + ttl) h, true)

unfoldable pub release : String → Holders → Holders
release key h = remove key h

unfoldable pub refresh : String → ℕ → ℕ → Holders → Holders × Bool
refresh key ttl now h =
    if held (lookup key h) now then (insert key (now + ttl) h, true) else (h, false)

unfoldable pub is_locked : String → ℕ → Holders → Holders × Bool
is_locked key now h = elim (lookup key h) [
  | none ↦ (h, false)
  | some expires ↦ if leb expires now then (remove key h, false) else (h, true)
]
