-- ===== src/Queue.antt =====
-- The in-memory queue (agentflow/queue/memory.py) and the names of its topics
-- (agentflow/queue/base.py). The futures that wake a waiting subscriber are left out: a subscriber
-- takes a message when there is one.
pub mod Fifo
use Prim.Native.String.{◌++◌}
use multi_agent_workflow.Prelude.{String, Option, none, some, List, [], ◌∷◌}
use multi_agent_workflow.Prelude as P
use multi_agent_workflow.Prelude.Dict.{Dict, lookup, insert}

unfoldable pub topic_trigger : String → String
topic_trigger tenant_id = "run.trigger." ++ tenant_id

unfoldable pub topic_command : String → String
topic_command tenant_id = "run.command." ++ tenant_id

-- `_queues`: the messages of each topic, with their keys.
abbrev pub Topics {ℓ} : Type ℓ → Type ℓ
Topics M = Dict (List (String × M))

abbrev pub or_empty {ℓ} : {M : Type ℓ} → Option (List M) → List M
or_empty none = []
or_empty (some ms) = ms

module _ {ℓ} {M : Type ℓ} where
  unfoldable pub publish : String → String → M → Topics M → Topics M
  publish topic key message q =
      insert topic (P.◌++◌ (or_empty (lookup topic q)) ((key, message) ∷ [])) q

  abbrev pub popleft : String → Topics M → List (String × M) → Option (String × M) × Topics M
  popleft topic q [] = (none, insert topic [] q)
  popleft topic q (m ∷ ms) = (some m, insert topic ms q)

  -- One round of `subscribe`: the first message, or none yet. The topic exists afterwards.
  unfoldable pub take_first : String → Topics M → Option (String × M) × Topics M
  take_first topic q = popleft topic q (or_empty (lookup topic q))
