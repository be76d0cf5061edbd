-- ===== src/Tests/Limits.antt =====
-- The checks of references in parameters and the actions on a cluster at examples.
use multi_agent_workflow.Prelude.{if◌then◌else◌, ◌==◌}
use multi_agent_workflow.Prelude.{
  ℕ, true, ◌*◌, String, none, some, [], ◌∷◌, ◌≡◌, ◌↔◌, refl, ok, raise, action_refused, dag_error,
}
use multi_agent_workflow.Prelude.Dict.{Dict, lookup, insert}
use multi_agent_workflow.Prelude.Int.{pos}
use multi_agent_workflow.Prelude.Text.{drop_prefix, strip, split}
use multi_agent_workflow.Json.{text, field, end}
use multi_agent_workflow.Core.Dag.{Node, Dag}
use multi_agent_workflow.Core.Dag.Refs.{
  upstreams_of, climb, edges_left, transitive_upstreams, collect_param_refs, collect_fields,
  collect_items, check_refs, check_node_refs, check_params_refs,
}
use multi_agent_workflow.Core.Dag.Refs.Above.{Known, sources-Known}
use multi_agent_workflow.Core.Dag.Refs.Accepts.{AllRefer, check_params_refs-accepts}
use multi_agent_workflow.Core.Dag.Build
use multi_agent_workflow.Core.Dag.Build.Accepted.{Accepted, Skeleton}
use multi_agent_workflow.Core.Workflow.{load_workflow}
use multi_agent_workflow.Core.Workflow.Ordered.{Ordered, load_workflow-Ordered}
use multi_agent_workflow.Core.Dag.{is_approval, is_ticket, is_closed}
use multi_agent_workflow.Json.{get, get_or_null}
use multi_agent_workflow.Prelude.Text.{split_once}
use multi_agent_workflow.Prelude.Text.{lstrip}
use multi_agent_workflow.Core.Dag.Kahn.{
  check_cycle, check_ends, sort_nodes, in_degree, targets, roots, lower_targets, drain,
}
use multi_agent_workflow.Core.Dag.Checks.{
  check_join, check_all, check_join_consistency, search_reject, is_reject_when, check_on_reject,
  check_on_reject_consistency, check_kind, check_node_kinds,
}
use multi_agent_workflow.Core.Dag.Build.{build, bind_edges, condition_nodes}
use multi_agent_workflow.Actions.Quantity.{Floats, parse_quantity}
use multi_agent_workflow.Actions.{
  Limits, scale_deployment, delete_temp_file, read_deployment, replace_deployment, remove_file,
  perform, check_ns, check_tenant_ns, validate, run_handler, execute,
}
use multi_agent_workflow.Tests.Samples.{release, scan, confirm, ship, edges}

release_known : Known release.nodes
unfolding lookup
release_known = sources-Known release.nodes (tt, ((refl, tt), ((refl, tt), tt)))

check_params_refs-accepts_example :
    (check_params_refs release.nodes ≡ ok tt) ↔ AllRefer release.nodes release_known release.nodes
check_params_refs-accepts_example = check_params_refs-accepts release.nodes release_known

abbrev shipping : String → Dict Node
shipping ref = insert "ship" (record ship { params = field "image" (text ref) end }) release.nodes

-- A reference to a node that is not upstream is refused.
check_params_refs_sample :
    (check_params_refs (shipping "$.nodes.scan.output.image") ≡ ok tt)
    × (check_params_refs (shipping "$.nodes.other.output") ≡ raise (dag_error "other"))
unfolding upstreams_of climb edges_left transitive_upstreams collect_param_refs collect_fields
    collect_items check_refs check_node_refs check_params_refs lookup insert drop_prefix split
check_params_refs_sample = (refl, refl)

-- The same workflow in a document, whose deployer takes the image from the scan.
abbrev document : Dict Node
document =
    ("scan", scan)
    ∷ ("confirm", record confirm { in_edges = [] })
    ∷ (
      "ship",
      record ship { in_edges = []; params = field "image" (text "$.nodes.scan.output.image") end },
    )
    ∷ []

document-Skeleton : Skeleton document
unfolding lookup
document-Skeleton = record {
  unique = (refl, (refl, (refl, tt)));
  bare = (refl, (refl, (refl, tt)));
}

abbrev loaded : Dag
loaded = record { nodes = shipping "$.nodes.scan.output.image"; edges = edges }

loaded_lem : load_workflow true document edges ≡ ok loaded
unfolding load_workflow build bind_edges condition_nodes Build.validate check_cycle check_ends
    sort_nodes in_degree targets roots lower_targets drain check_join check_all
    check_join_consistency search_reject is_reject_when check_on_reject check_on_reject_consistency
    check_kind check_node_kinds get_or_null lookup insert is_approval is_ticket is_closed strip
    drop_prefix split_once lstrip get upstreams_of climb edges_left transitive_upstreams
    collect_param_refs collect_fields collect_items check_refs check_node_refs check_params_refs
    split
loaded_lem = refl

load_workflow-Ordered_example : (rank : String → ℕ) × Accepted loaded rank × Ordered loaded rank
load_workflow-Ordered_example =
    load_workflow-Ordered true document edges loaded document-Skeleton loaded_lem

-- Floats whose values are given for a few texts.
abbrev floats : Floats
floats = record {
  whole = λ t. if t == "100" then 100 else if t == "128" then 128 else 500;
  times = λ t k. if t == "4" then 4 * k else if t == "8" then 8 * k else 2 * k;
  over = λ _ _. 0;
}

abbrev limits : Limits
limits = record {
  namespaces = "web" ∷ "shop" ∷ [];
  pod_prefixes = [];
  tenant_namespace = some (λ tenant. tenant);
}

-- An action in the namespace of another tenant, one with too many replicas, and one that is done.
execute_sample :
    (execute floats (λ _. none) limits "web" (some "shop") (scale_deployment "cart" (pos 3)) []
      ≡ (raise (action_refused "web"), []))
    × (execute floats (λ _. none) limits "web" none (scale_deployment "cart" (pos 11)) []
        ≡ (raise (action_refused "cart"), []))
    × (execute floats (λ _. none) limits "web" none (scale_deployment "cart" (pos 3)) []
        ≡ (ok tt, read_deployment "web" "cart" ∷ replace_deployment "web" "cart" (pos 3) ∷ []))
    × (execute floats (λ _. none) limits "web" none (delete_temp_file "/data/tmp/../../x") []
        ≡ (ok tt, remove_file "/data/tmp/../../x" ∷ []))
unfolding perform check_ns check_tenant_ns validate run_handler execute drop_prefix
execute_sample = (refl, refl, refl, refl)

-- `500m` of memory is read as 500, which is between 128Mi and 8Gi.
quantity_sample :
    (parse_quantity floats "2" ≡ ok 2000)
    × (parse_quantity floats " 2Gi" ≡ ok 2048)
    × (parse_quantity floats "500m" ≡ ok 500)
    × (parse_quantity floats "2.Gi" ≡ raise (action_refused ".Gi"))
unfolding parse_quantity strip
quantity_sample = (refl, refl, refl, refl)
