-- ===== src/Tests/Workers.antt =====
-- The theorems on the workers and the queue at the example workflow.
use multi_agent_workflow.Prelude.{
  String, true, some, List, [], ◌∷◌, ◌++◌, ◌≡◌, refl, ap, ok, is_some,
}
use multi_agent_workflow.Prelude.Dict.{lookup, insert}
use multi_agent_workflow.Json.{end}
use multi_agent_workflow.StateStore.Rows.{RunStatus, running, queued, NodeState}
use multi_agent_workflow.StateStore.Rows as Rows
use multi_agent_workflow.StateStore.Memory.{Store, run_nodes}
use multi_agent_workflow.Executor.Ensures.{Ensures}
use multi_agent_workflow.Executor.Run.{run}
use multi_agent_workflow.Executor.Run.Ends.{Ended}
use multi_agent_workflow.Executor.Resume.{from_checkpoint}
use multi_agent_workflow.Queue.{Topics, publish, take_first}
use multi_agent_workflow.Queue.Fifo.{
  Call, publishes, takes, delivered, published, waiting, perform_all, delivered-fifo,
}
use multi_agent_workflow.Worker.{
  World, Moment, Message, written, handle_trigger, handle_command, mark_cancelled, cancelled_state,
}
use multi_agent_workflow.Worker.Claims.{taken}
use multi_agent_workflow.Worker.Ends.{advance_all, GivenBack}
use multi_agent_workflow.Worker.Takes.{row_of, take_up-TakenUp, handle_trigger-GivenBack}
use multi_agent_workflow.Executor.Resume.Restores.{InGraph}
use multi_agent_workflow.Prelude.{inl, inr}
use multi_agent_workflow.Worker.Repeats.{handle_trigger-repeat, handle_message-over}
use multi_agent_workflow.Worker.Cancels.{mark_cancelled-Cancelled}
use multi_agent_workflow.Worker.System.{
  System, executes, view, put_back, idle, triggers, Reach, start, later,
}
use multi_agent_workflow.Worker.System.Single.{executes-Single}
use multi_agent_workflow.Tests.Examples.{loader-Loads}
use multi_agent_workflow.Tests.Runs.{with_row_lem}
use multi_agent_workflow.Tests.Samples.{
  with_row, loader, release, release-Sound, answering, passing,
}

abbrev alone : Store → World
alone s = record { worker = idle; store = s; holders = [] }

abbrev soon : Moment
soon = record { now = 5; reachable = true }

abbrev trigger : Message
trigger = record { type = "trigger"; run_id = "r1"; tenant_id = "acme" }

with_row-InGraph : InGraph release (run_nodes "r1" (with_row queued))
unfolding lookup
with_row-InGraph = (refl, (refl, tt))

abbrev waits : lookup "r1" (with_row queued).runs ≡ some (row_of "acme" (some "h1") end queued)
unfolding lookup
waits = refl

handle_trigger-GivenBack_example :
    ((handle_trigger true loader soon trigger (alone (with_row queued))).0 ≡ ok tt)
    × Ensures
        (Ended (answering passing) release)
        (run (answering passing) release (from_checkpoint release (with_row running)))
    × GivenBack true
        (answering passing)
        soon
        "r1"
        (written (run (answering passing) release (from_checkpoint release (with_row running))).0)
        (run (answering passing) release (from_checkpoint release (with_row running))).1.store
        (advance_all true
          (answering passing)
          soon
          "r1"
          4
          (handle_trigger true loader soon trigger (alone (with_row queued))).1)
unfolding lookup insert
handle_trigger-GivenBack_example =
    handle_trigger-GivenBack true loader (answering passing) soon soon trigger "acme" (some "h1")
      end (alone (with_row queued)) release (from_checkpoint release (with_row running)) waits
      loader-Loads refl refl (with_row_lem running) with_row-InGraph

handle_trigger-repeat_example :
    (handle_trigger true loader soon trigger
      (handle_trigger true loader soon trigger (alone (with_row queued))).1).1
    ≡ (handle_trigger true loader soon trigger (alone (with_row queued))).1
handle_trigger-repeat_example =
    handle_trigger-repeat true loader soon soon trigger (alone (with_row queued))

handle_message-over_example :
    ((handle_trigger true loader soon trigger (alone (with_row Rows.failed))).1
      ≡ alone (with_row Rows.failed))
    × ((handle_command true loader soon
          (record trigger { type = "resume" })
          (alone (with_row Rows.failed))).1
        ≡ alone (with_row Rows.failed))
unfolding lookup
handle_message-over_example =
    handle_message-over true loader soon trigger (alone (with_row Rows.failed))
      (row_of "acme" (some "h1") end Rows.failed) refl (inr (inl refl))

abbrev name : String
name = "w1"

abbrev opened : System
opened = record { workers = λ _. idle; store = with_row queued; holders = [] }

abbrev claimed : System
claimed = put_back name (handle_trigger true loader soon trigger (view name opened)).1 opened

claimed-Reach : Reach true loader (answering passing) (with_row queued) [] claimed
claimed-Reach = later start (triggers name soon trigger)

claimed_task : executes claimed name "r1" ≡ true
unfolding handle_trigger lookup insert
claimed_task =
    ap is_some
      (take_up-TakenUp true loader soon "r1" "acme" (some "h1") end (alone (with_row queued)) waits
        release (from_checkpoint release (with_row running)) refl (with_row_lem running)).task

executes-Single_example : (name ≡ name) × (taken claimed.store "r1" ≡ true)
executes-Single_example =
    executes-Single true loader (answering passing) (with_row queued) [] claimed name name "r1"
      claimed-Reach claimed_task claimed_task

mark_cancelled-Cancelled_example :
    (lookup "r1" (mark_cancelled true loader "r1" (with_row running)).1.runs
      ≡ some (row_of "acme" (some "h1") end Rows.cancelled))
    × (lookup "confirm" (run_nodes "r1" (mark_cancelled true loader "r1" (with_row running)).1)
        ≡ some (record { state = cancelled_state; tenant_id = some "acme" }))
unfolding lookup
mark_cancelled-Cancelled_example =
    mark_cancelled-Cancelled true loader "r1" "acme" (with_row running) release
      (from_checkpoint release (with_row running)) (row_of "acme" (some "h1") end running) "confirm"
      refl refl (with_row_lem running) release-Sound.unique (refl, (refl, tt)) refl

abbrev calls : List (Call String)
calls = publishes "a" "k" "new" ∷ takes "a" ∷ publishes "b" "k" "other" ∷ takes "a" ∷ []

abbrev topics : Topics String
topics = ("a", ("k", "old") ∷ []) ∷ []

delivered-fifo_example :
    waiting "a" topics ++ published "a" calls
    ≡ delivered "a" calls topics ++ waiting "a" (perform_all calls topics)
delivered-fifo_example = delivered-fifo "a" calls topics

-- What is taken first was published first.
delivered_sample : delivered "a" calls topics ≡ ("k", "old") ∷ ("k", "new") ∷ []
unfolding delivered take_first publish lookup insert
delivered_sample = refl
