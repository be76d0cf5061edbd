-- ===== src/Tests/Answers.antt =====
-- The object in the answer of an agent, and the check of a delivery, at examples.
use multi_agent_workflow.Prelude.{
  some, [], ◌∷◌, ◌≡◌, ◌↔◌, refl, Option, ok, raise, agent_error, length,
}
use multi_agent_workflow.Prelude.Int.{pos}
use multi_agent_workflow.Prelude.{type_error, delivery_unmet, false}
use multi_agent_workflow.Executor.Verdict.{
  unmet_delivery, health_check, delivery_failure, unmet_deliveries, details, all_objects, names,
  truthy_only, iterate,
}
use multi_agent_workflow.Tests.Samples.{python}
use multi_agent_workflow.Json.{
  text, boolean, array, object, cons, nil, field, end, truthy, items, get, get_or_null,
}
use multi_agent_workflow.Json.{Value}
use multi_agent_workflow.Agents.{
  Text, codes, fence, remove_fences, from_brace, in_string, outside, step, closes, object_text,
  extract_json, join, run_agent,
}
use multi_agent_workflow.Agents.Found.{First, run_agent-First}

abbrev answer : Text
answer = codes "Result: ```json {\"a\": \"}\", \"b\": {}}``` as {asked}"

-- The length of the object, as its value.
abbrev loads : Text → Option Value
loads t = some (Value.int (pos (length t)))

run_agent-First_example :
    (run_agent loads (ok (answer ∷ [])) ≡ ok (Value.int (pos 19)))
    ↔ First loads (join (answer ∷ [])) (Value.int (pos 19))
run_agent-First_example = run_agent-First loads (answer ∷ []) (Value.int (pos 19))

-- A brace in a string does not close the object; text without an object is refused, and so is an
-- object that is not closed.
run_agent_sample :
    (extract_json loads answer ≡ some (Value.int (pos 19)))
    × (run_agent loads (ok (codes "none" ∷ [])) ≡ raise (agent_error "AgentOutputError"))
    × (run_agent loads (ok (codes "{\"a\": 1" ∷ [])) ≡ raise (agent_error "AgentOutputError"))
unfolding fence remove_fences from_brace in_string outside step closes object_text extract_json
    run_agent
run_agent_sample = (refl, refl, refl)

-- Answers whose health the check cannot read: an entry of `failed` that is no dictionary, and a
-- tool whose name is no text.
abbrev unhealthy : Value → Value → Value
unhealthy unmet failed_calls = object (
    field "passed" (boolean false) (
      field "_health"
        (object (
          field "unmet_delivery" (array (cons unmet nil))
            (field "failed" (array (cons failed_calls nil)) end)))
        end))

unmet_delivery_sample :
    (unmet_delivery python (unhealthy (text "t") (text "x")) ≡ raise type_error)
    × (unmet_delivery python (unhealthy (Value.int (pos 1)) (object end)) ≡ raise type_error)
    × (unmet_delivery python (unhealthy (text "t") (object end))
        ≡ ok (some (delivery_unmet ("t" ∷ []))))
unfolding unmet_delivery health_check delivery_failure unmet_deliveries details all_objects names
    truthy_only iterate truthy items get get_or_null
unmet_delivery_sample = (refl, refl, refl)
