-- ===== src/Core/Dag/Checks.antt =====
-- The other static checks of a graph (`_check_join_consistency`, `_check_on_reject_consistency` and
-- `_check_node_kinds` of `DAG`).
use Prim.Native.String.{◌++◌}
use multi_agent_workflow.Prelude.{
  String, Bool, true, false, not, ◌&&◌, ◌||◌, Option, none, some, List, [], ◌∷◌, ◌==◌, is_some,
  is_empty, any, contains, if◌then◌else◌, Result, ok, raise, dag_error, ◌>>◌,
}
use multi_agent_workflow.Prelude.Text.{strip, lstrip, drop_prefix, split_once}
use multi_agent_workflow.Prelude.Dict.{Dict}
use multi_agent_workflow.Json.{Value, null, text, get_or_null}
use multi_agent_workflow.Core.Dag.{Node, Edge, is_approval, is_ticket, is_closed, upstreams}

abbrev fail : String → Result (Unit {0})
fail nid = raise (dag_error nid)

-- The first `if` of a list that holds, as an exception; `ok` if none does.
abbrev unless : Bool → String → Result (Unit {0})
unless bad nid = if bad then fail nid else ok tt

-- Every name is in the other list.
abbrev subset : List String → List String → Bool
subset [] ys = true
subset (x ∷ xs) ys = contains x ys && subset xs ys

-- One node of `_check_join_consistency`.
unfoldable pub check_join : Node → Result (Unit {0})
check_join n =
    if n.join == "all"
    then unless (is_empty n.required_edges || not (subset n.required_edges (upstreams n))) n.id
    else unless (not (n.join == "any") || not (is_empty n.required_edges)) n.id

-- A check of every node.
unfoldable pub check_all : (Node → Result (Unit {0})) → Dict Node → Result (Unit {0})
check_all check [] = ok tt
check_all check ((nid, n) ∷ nodes) = do check n; check_all check nodes

unfoldable pub check_join_consistency : Dict Node → Result (Unit {0})
check_join_consistency nodes = check_all check_join nodes

abbrev after_operator : Option String → String → Bool
after_operator none word = false
after_operator (some rest) word = is_some (drop_prefix word (lstrip rest))

-- `approved\s*(?:==\s*false|!=\s*true)` at the start of a text.
abbrev rejects_here : Option String → Bool
rejects_here none = false
rejects_here (some rest) =
    after_operator (drop_prefix "==" (lstrip rest)) "false"
    || after_operator (drop_prefix "!=" (lstrip rest)) "true"

-- `_REJECT_WHEN.search`.
unfoldable pub search_reject : String → Bool
search_reject String.[] = false
search_reject (String.◌∷◌ ch s) =
    rejects_here (drop_prefix "approved" (String.◌∷◌ ch s)) || search_reject s

-- `_is_reject_when`.
unfoldable pub is_reject_when : Option String → String → Bool
is_reject_when none nid = false
is_reject_when (some when) nid =
    is_some (split_once (nid ++ ".output.approved") when) && search_reject when

-- One node of `_check_on_reject_consistency`.
unfoldable pub check_on_reject : List Edge → Node → Result (Unit {0})
check_on_reject es n =
    unless
      (is_approval n
        && n.on_reject == "abort"
        && any (λ e. e.source == n.id && is_reject_when e.when n.id) es)
      n.id

unfoldable pub check_on_reject_consistency : Dict Node → List Edge → Result (Unit {0})
check_on_reject_consistency nodes es = check_all (check_on_reject es) nodes

abbrev declares : Option String → Bool
declares none = false
declares (some agent) = not (agent == "")

-- `next_workflow` is there and no literal name.
abbrev is_reference : Value → Bool
is_reference null = false
is_reference (text t) = is_some (drop_prefix "$." (strip t))
is_reference _ = true

-- One node of `_check_node_kinds`.
unfoldable pub check_kind : Node → Result (Unit {0})
check_kind n = do
  unless (not (contains n.kind ("agent" ∷ "approval" ∷ "halt" ∷ "ticket" ∷ "closed" ∷ []))) n.id
  unless (is_closed n && declares n.agent) n.id
  unless
      (is_ticket n
        && (n.on_failure == "continue"
            || declares n.agent
            || is_reference (get_or_null "next_workflow" n.params)))
      n.id

unfoldable pub check_node_kinds : Dict Node → Result (Unit {0})
check_node_kinds nodes = check_all check_kind nodes
