-- ===== src/Executor/Verdict.antt =====
-- The checks on an agent's answer that fail its node although the agent ran: an unmet delivery, a
-- negative verdict, claimed files that no tool call wrote.
use multi_agent_workflow.Prelude.{
  String, Bool, true, false, not, ◌&&◌, Option, none, some, List, [], ◌∷◌, ◌==◌, map, contains,
  is_empty, if◌then◌else◌, Result, ok, raise, Error, type_error, delivery_unmet, verdict_negative,
  artifacts_unsupported, ◌>>=◌, ◌>>◌, any,
}
use multi_agent_workflow.Prelude.Text.{characters}
use multi_agent_workflow.Json.{
  Value, null, text, array, object, Fields, end, field, get_or_null, items, truthy, is_false,
  Python,
}
use multi_agent_workflow.Executor.Environment.{ToolCall}

-- `SIDE_EFFECT_AGENTS`.
abbrev pub side_effect_agents : List String
side_effect_agents = "committer" ∷ "infra-remediator" ∷ "ticket-done" ∷ "merger" ∷ "deployer" ∷ []

-- `VERDICT_FIELDS`.
unfoldable pub verdict_field : String → Option String
verdict_field agent =
    if agent == "tester"
    then some "passed"
    else if agent == "reviewer"
    then some "approved"
    else if agent == "ticket-done"
    then some "delivered"
    else if agent == "merger"
    then some "merged"
    else if agent == "ci-builder"
    then some "built"
    else if agent == "deployer"
    then some "deployed"
    else if agent == "smoke-tester"
    then some "passed"
    else none

-- `ARTIFACT_FIELDS`.
unfoldable pub artifact_field : String → Option String
artifact_field agent = if agent == "fix-implementer" then some "files_changed" else none

-- `WORKSPACE_WRITE_TOOLS` and `SANDBOX_EXEC_TOOLS`.
abbrev pub workspace_write_tools : List String
workspace_write_tools = "ws_write_file" ∷ "sandbox_write_file" ∷ []

abbrev pub sandbox_exec_tools : List String
sandbox_exec_tools = "sandbox_run_shell" ∷ "sandbox_run_python" ∷ []

abbrev field_names : Fields → List Value
field_names end = []
field_names (field k v fs) = text k ∷ field_names fs

-- `for t in value or []`: a false value has nothing to iterate over.
unfoldable pub iterate : Python → Value → Result (List Value)
iterate py (array vs) = ok (items vs)
iterate py (text t) = ok (map text (characters t))
iterate py (object fs) = ok (field_names fs)
iterate py v = if truthy py v then raise type_error else ok []

unfoldable pub truthy_only : Python → List Value → List Value
truthy_only py [] = []
truthy_only py (v ∷ vs) = let rest = truthy_only py vs in if truthy py v then v ∷ rest else rest

-- `output["_health"]`, if both are dictionaries.
abbrev pub as_object : Value → Option Fields
as_object (object fs) = some fs
as_object _ = none

abbrev pub health_of : Value → Option Fields
health_of (object fs) = as_object (get_or_null "_health" fs)
health_of _ = none

-- The entries of `unmet_delivery` that are true.
unfoldable pub unmet_deliveries : Python → Fields → Result (List Value)
unmet_deliveries py health =
    iterate py (get_or_null "unmet_delivery" health) >>= λ vs. ok (truthy_only py vs)

-- `f.get("tool") in unmet`. An entry of `unmet` that is no text fails later, in `names`.
abbrev pub is_named : Value → List Value → Bool
is_named (text t) vs = any (λ v. elim v [ text u ↦ u == t | _ ↦ false ]) vs
is_named _ vs = false

-- `(e.get("error") or "…")[:300]`.
abbrev pub slice_error : Python → Value → Result (Unit {0})
slice_error py (text t) = ok tt
slice_error py (array vs) = ok tt
slice_error py v = if truthy py v then raise type_error else ok tt

abbrev pub is_object : Value → Bool
is_object (object fs) = true
is_object _ = false

-- `f.get` of each entry of `failed`.
unfoldable pub all_objects : List Value → Result (Unit {0})
all_objects [] = ok tt
all_objects (v ∷ vs) = let rest = all_objects vs in if is_object v then rest else raise type_error

abbrev pub entry_detail : Python → List Value → Value → Result (Unit {0})
entry_detail py unmet (object row) =
    if is_named (get_or_null "tool" row) unmet
    then slice_error py (get_or_null "error" row)
    else ok tt
entry_detail py unmet _ = ok tt

-- The error texts of the entries whose tool is unmet.
unfoldable pub details : Python → List Value → List Value → Result (Unit {0})
details py unmet [] = ok tt
details py unmet (v ∷ vs) = entry_detail py unmet v >> details py unmet vs

abbrev pub and_name : Value → Result (List String) → Result (List String)
and_name (text t) rest = rest >>= λ ts. ok (t ∷ ts)
and_name _ rest = raise type_error

-- `"、".join(unmet)` takes texts only.
unfoldable pub names : List Value → Result (List String)
names [] = ok []
names (v ∷ vs) = and_name v (names vs)

-- A check passes, or it gives the cause with which the node fails.
abbrev pub Check : Type 0
Check = Option Error

-- The message of an unmet delivery, and the exception that carries it.
unfoldable pub delivery_failure : Python → Fields → List Value → Result Check
delivery_failure py health unmet = do
  failed ← iterate py (get_or_null "failed" health)
  all_objects failed
  details py unmet failed
  ts ← names unmet
  ok (some (delivery_unmet ts))

unfoldable pub health_check : Python → Fields → Result Check
health_check py health = do
  unmet ← unmet_deliveries py health
  if is_empty unmet then ok none else delivery_failure py health unmet

-- `_raise_on_unmet_delivery`.
unfoldable pub unmet_delivery : Python → Value → Result Check
unmet_delivery py output = elim (health_of output) [ none ↦ ok none | some h ↦ health_check py h ]

abbrev field_of : Option String → Value → Value
field_of none v = null
field_of (some name) (object fs) = get_or_null name fs
field_of (some name) _ = null

abbrev agent_field : (String → Option String) → Option String → Option String
agent_field table none = none
agent_field table (some agent) = table agent

abbrev agent_name : Option String → String
agent_name none = ""
agent_name (some agent) = agent

-- `_raise_on_negative_verdict`: only an explicit `False` counts.
unfoldable pub negative_verdict : Option String → Value → Check
negative_verdict agent output =
    if is_false (field_of (agent_field verdict_field agent) output)
    then some (verdict_negative (agent_name agent))
    else none

abbrev succeeded : ToolCall → Bool
succeeded row = elim row.result_state [ none ↦ false | some state ↦ state == "success" ]

-- What the tool calls show of the workspace. The scan ends at the first call that may have
-- written without showing it.
pub data Evidence : Type 0 where
  undecidable written nothing_written : Evidence

abbrev with_write : Evidence → Evidence
with_write undecidable = undecidable
with_write _ = written

unfoldable pub evidence : List ToolCall → Evidence
evidence [] = nothing_written
evidence (row ∷ rows) =
    let rest = evidence rows in
    if not (succeeded row)
    then rest
    else if contains row.name sandbox_exec_tools
    then undecidable
    else if contains row.name workspace_write_tools
    then with_write rest
    else rest

abbrev claims_files : Value → Bool
claims_files (array vs) = not (is_empty (items vs))
claims_files _ = false

abbrev is_unsupported : Option (List ToolCall) → Bool
is_unsupported none = false
is_unsupported (some []) = false
is_unsupported (some rows) = elim (evidence rows) [ nothing_written ↦ true | _ ↦ false ]

-- `_raise_on_unsupported_artifacts`: without any tool call on record there is no verdict.
unfoldable pub unsupported_artifacts : Option (List ToolCall) → Option String → Value → Check
unsupported_artifacts rows agent output =
    if claims_files (field_of (agent_field artifact_field agent) output) && is_unsupported rows
    then some (artifacts_unsupported (agent_name agent))
    else none

abbrev or_check : Check → Check → Check
or_check none later = later
or_check (some e) later = some e

-- The three checks in their order; the first that fails wins.
unfoldable pub check_answer : Python → Option (List ToolCall) → Option String → Value → Result Check
check_answer py rows agent output = do
  delivery ← unmet_delivery py output
  ok (
      or_check delivery
        (or_check (negative_verdict agent output) (unsupported_artifacts rows agent output)))
