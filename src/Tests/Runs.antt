-- ===== src/Tests/Runs.antt =====
-- Runs that compute.
use multi_agent_workflow.Prelude.{
  Bool, true, false, some, ◌≡◌, refl, Result, ok, raise, node_failed,
}
use multi_agent_workflow.Core.Dag.{is_approval, is_halt, is_ticket, is_closed}
use multi_agent_workflow.Core.Dag.NodeStatus.{status_text}
use multi_agent_workflow.Core.Expressions.{follow, get_path, coerce_literal, equals, eval_condition}
use multi_agent_workflow.Executor.Approve.{upstream_output, settle_approval, approve}
use multi_agent_workflow.Executor.Attempts.{
  find_success, get_succeeded_attempt, record_attempt, negative_evidence, on_error, missing_inputs,
  answer, invoke, attempt_once, attempts, execute_once, run_with_retry, external_operation_id,
}
use multi_agent_workflow.Executor.Decision.{
  edge_active, any_active, all_active, sources_terminal, node_decision, ready_list, halts,
  ready_nodes, has_waiting_approval, all_terminal, halt_triggered, rejected_abort_node,
}
use multi_agent_workflow.Executor.Node.{
  triggers, not_blank, as_str_list, gather, halt_output, closed_output, work_of, begin_node,
  start_node, complete, fail, finish_node,
}
use multi_agent_workflow.Executor.Params.{
  path_steps, at_index, follow_step, walk, node_reference, resolve_reference, resolve_text,
  resolve_params, resolve_params,
}
use multi_agent_workflow.Executor.Passes.{
  for_nodes, persist, mark_skipped, open_approval, act_on, approval_step, skip_step, halt_step,
  process_approvals, process_skips, same_statuses, settle,
}
use multi_agent_workflow.Executor.Resume.{restored, restore_all, from_checkpoint}
use multi_agent_workflow.Executor.Run.{turn, run_from, run, RunOutcome, done, waiting_approval}
use multi_agent_workflow.Executor.State.{
  initial_states, init, state_value, states_fields, state_of, set_state, Executor,
}
use multi_agent_workflow.Executor.Verdict.{health_of}
use multi_agent_workflow.Executor.Node.Denied.{Readable}
use multi_agent_workflow.Executor.Verdict.{
  verdict_field, artifact_field, iterate, truthy_only, unmet_deliveries, unmet_delivery,
  negative_verdict, evidence, unsupported_artifacts, check_answer,
}
use multi_agent_workflow.Executor.Wave.{take_task, choose, wave_from, wave}
use multi_agent_workflow.Json.{
  Value, get, get_or_null, put, items, strings, truthy, usable, is_false,
}
use multi_agent_workflow.Prelude.Dict.{lookup, insert, remove}
use multi_agent_workflow.Prelude.Text.{
  strip, drop_prefix, split_once, split, characters, unquote, parse_int,
}
use multi_agent_workflow.StateStore.Approvals.{
  approval_time_guard, guard_passes, approval_key, create_approval, cas_update_approval,
}
use multi_agent_workflow.StateStore.Memory.{put_node}
use multi_agent_workflow.Prelude.Dict.{Unique}
use multi_agent_workflow.Json.{null, end, field}
use multi_agent_workflow.StateStore.Memory.{run_nodes}
use multi_agent_workflow.StateStore.Approvals.Cas.{is_open}
use multi_agent_workflow.Executor.Decision.{ready}
use multi_agent_workflow.Executor.Attempts.{Outcome, completed}
use multi_agent_workflow.Executor.Node.Denied.{Denies}
use multi_agent_workflow.Executor.Approve.{verdict}
use multi_agent_workflow.Prelude.{dag_error, none, ◌∷◌}
use multi_agent_workflow.Prelude.Text.{lstrip}
use multi_agent_workflow.Core.Dag.Kahn.{
  check_cycle, check_ends, sort_nodes, in_degree, targets, roots, lower_targets, drain,
}
use multi_agent_workflow.Core.Dag.Checks.{
  check_join, check_all, check_join_consistency, search_reject, is_reject_when, check_on_reject,
  check_on_reject_consistency, check_kind, check_node_kinds,
}
use multi_agent_workflow.Core.Dag.Build.{build, bind_edges, condition_nodes, validate}
use multi_agent_workflow.Executor.Resume.{resume_executor, load_snapshot_workflow}
use multi_agent_workflow.StateStore.Rows.{RunStatus}
use multi_agent_workflow.Tests.Samples.{
  skeleton, edges, edge, graph, saved, with_row, loader, release, answering, passing, refusing,
  fresh, asking, asked, ship, scan, python,
}

abbrev pub stopped : Executor
stopped = (run (answering passing) release fresh).1

-- The decision and the run after it.
abbrev released : Value → Bool → Result RunOutcome × Executor
released v approved =
    run (answering v) release (approve (answering v) release "confirm" approved "lead" "" stopped).1

-- The run stops at the approval; it is done once that is given; it fails if the approval is
-- refused, or if the deployer says that it has not deployed; and a process that starts again after
-- the stop waits too.
test_release :
    ((run (answering passing) release fresh).0 ≡ ok waiting_approval)
    × ((released passing true).0 ≡ ok done)
    × ((released passing false).0 ≡ raise (node_failed "confirm"))
    × ((released refusing true).0 ≡ raise (node_failed "ship"))
    × ((run (answering passing) release (from_checkpoint release stopped.store)).0
        ≡ ok waiting_approval)
unfolding get get_or_null put items strings truthy usable is_false for_nodes persist mark_skipped
    open_approval act_on approval_step skip_step halt_step process_approvals process_skips
    same_statuses settle take_task choose wave_from wave find_success get_succeeded_attempt
    record_attempt negative_evidence on_error missing_inputs answer invoke attempt_once attempts
    execute_once run_with_retry external_operation_id restored restore_all from_checkpoint
    edge_active any_active all_active sources_terminal node_decision ready_list halts ready_nodes
    has_waiting_approval all_terminal halt_triggered rejected_abort_node triggers not_blank
    as_str_list gather halt_output closed_output work_of begin_node start_node complete fail
    finish_node verdict_field artifact_field iterate truthy_only unmet_deliveries unmet_delivery
    negative_verdict evidence unsupported_artifacts check_answer initial_states init state_value
    states_fields state_of set_state turn run_from run path_steps at_index follow_step walk
    node_reference resolve_reference resolve_text resolve_params upstream_output settle_approval
    approve is_approval is_halt is_ticket is_closed follow get_path coerce_literal equals
    eval_condition status_text lookup insert remove strip drop_prefix split_once split characters
    unquote parse_int approval_time_guard guard_passes approval_key create_approval
    cas_update_approval put_node
test_release = (refl, refl, refl, refl, refl)

abbrev pub given : Result Value × Executor
given = approve (answering passing) release "confirm" true "lead" "" asking

abbrev pub given_value : Value
given_value = verdict true "lead" "" (field "scan" null end)

pub given_lem : given ≡ (ok given_value, given.1)
unfolding get get_or_null put items strings truthy usable is_false for_nodes persist mark_skipped
    open_approval act_on approval_step skip_step halt_step process_approvals process_skips
    same_statuses settle take_task choose wave_from wave find_success get_succeeded_attempt
    record_attempt negative_evidence on_error missing_inputs answer invoke attempt_once attempts
    execute_once run_with_retry external_operation_id restored restore_all from_checkpoint
    edge_active any_active all_active sources_terminal node_decision ready_list halts ready_nodes
    has_waiting_approval all_terminal halt_triggered rejected_abort_node triggers not_blank
    as_str_list gather halt_output closed_output work_of begin_node start_node complete fail
    finish_node verdict_field artifact_field iterate truthy_only unmet_deliveries unmet_delivery
    negative_verdict evidence unsupported_artifacts check_answer initial_states init state_value
    states_fields state_of set_state turn run_from run path_steps at_index follow_step walk
    node_reference resolve_reference resolve_text resolve_params upstream_output settle_approval
    approve is_approval is_halt is_ticket is_closed follow get_path coerce_literal equals
    eval_condition status_text lookup insert remove strip drop_prefix split_once split characters
    unquote parse_int approval_time_guard guard_passes approval_key create_approval
    cas_update_approval put_node
given_lem = refl

pub given-Unique : Unique (run_nodes "r1" given.1.store)
unfolding get get_or_null put items strings truthy usable is_false for_nodes persist mark_skipped
    open_approval act_on approval_step skip_step halt_step process_approvals process_skips
    same_statuses settle take_task choose wave_from wave find_success get_succeeded_attempt
    record_attempt negative_evidence on_error missing_inputs answer invoke attempt_once attempts
    execute_once run_with_retry external_operation_id restored restore_all from_checkpoint
    edge_active any_active all_active sources_terminal node_decision ready_list halts ready_nodes
    has_waiting_approval all_terminal halt_triggered rejected_abort_node triggers not_blank
    as_str_list gather halt_output closed_output work_of begin_node start_node complete fail
    finish_node verdict_field artifact_field iterate truthy_only unmet_deliveries unmet_delivery
    negative_verdict evidence unsupported_artifacts check_answer initial_states init state_value
    states_fields state_of set_state turn run_from run path_steps at_index follow_step walk
    node_reference resolve_reference resolve_text resolve_params upstream_output settle_approval
    approve is_approval is_halt is_ticket is_closed follow get_path coerce_literal equals
    eval_condition status_text lookup insert remove strip drop_prefix split_once split characters
    unquote parse_int approval_time_guard guard_passes approval_key create_approval
    cas_update_approval put_node
given-Unique = (refl, (refl, tt))

-- The deployer's call, when it deploys and when it refuses.
abbrev pub shipped : Value → Result Outcome × Executor
shipped v = execute_once (answering v) release ship end (some "r1:ship") asking

pub shipped_lem : shipped passing ≡ (ok (completed passing), (shipped passing).1)
unfolding get get_or_null put items strings truthy usable is_false for_nodes persist mark_skipped
    open_approval act_on approval_step skip_step halt_step process_approvals process_skips
    same_statuses settle take_task choose wave_from wave find_success get_succeeded_attempt
    record_attempt negative_evidence on_error missing_inputs answer invoke attempt_once attempts
    execute_once run_with_retry external_operation_id restored restore_all from_checkpoint
    edge_active any_active all_active sources_terminal node_decision ready_list halts ready_nodes
    has_waiting_approval all_terminal halt_triggered rejected_abort_node triggers not_blank
    as_str_list gather halt_output closed_output work_of begin_node start_node complete fail
    finish_node verdict_field artifact_field iterate truthy_only unmet_deliveries unmet_delivery
    negative_verdict evidence unsupported_artifacts check_answer initial_states init state_value
    states_fields state_of set_state turn run_from run path_steps at_index follow_step walk
    node_reference resolve_reference resolve_text resolve_params upstream_output settle_approval
    approve is_approval is_halt is_ticket is_closed follow get_path coerce_literal equals
    eval_condition status_text lookup insert remove strip drop_prefix split_once split characters
    unquote parse_int approval_time_guard guard_passes approval_key create_approval
    cas_update_approval put_node
shipped_lem = refl

pub refused_lem :
    run_with_retry (answering refusing) release ship end (some "r1:ship") asking
    ≡ (ok (completed refusing), (shipped refusing).1)
unfolding get get_or_null put items strings truthy usable is_false for_nodes persist mark_skipped
    open_approval act_on approval_step skip_step halt_step process_approvals process_skips
    same_statuses settle take_task choose wave_from wave find_success get_succeeded_attempt
    record_attempt negative_evidence on_error missing_inputs answer invoke attempt_once attempts
    execute_once run_with_retry external_operation_id restored restore_all from_checkpoint
    edge_active any_active all_active sources_terminal node_decision ready_list halts ready_nodes
    has_waiting_approval all_terminal halt_triggered rejected_abort_node triggers not_blank
    as_str_list gather halt_output closed_output work_of begin_node start_node complete fail
    finish_node verdict_field artifact_field iterate truthy_only unmet_deliveries unmet_delivery
    negative_verdict evidence unsupported_artifacts check_answer initial_states init state_value
    states_fields state_of set_state turn run_from run path_steps at_index follow_step walk
    node_reference resolve_reference resolve_text resolve_params upstream_output settle_approval
    approve is_approval is_halt is_ticket is_closed follow get_path coerce_literal equals
    eval_condition status_text lookup insert remove strip drop_prefix split_once split characters
    unquote parse_int approval_time_guard guard_passes approval_key create_approval
    cas_update_approval put_node
refused_lem = refl

pub refusing-Readable : Readable python (health_of refusing)
unfolding get get_or_null
refusing-Readable = tt

pub refusing-Denies : Denies (some "deployer") refusing
unfolding get get_or_null put items strings truthy usable is_false for_nodes persist mark_skipped
    open_approval act_on approval_step skip_step halt_step process_approvals process_skips
    same_statuses settle take_task choose wave_from wave find_success get_succeeded_attempt
    record_attempt negative_evidence on_error missing_inputs answer invoke attempt_once attempts
    execute_once run_with_retry external_operation_id restored restore_all from_checkpoint
    edge_active any_active all_active sources_terminal node_decision ready_list halts ready_nodes
    has_waiting_approval all_terminal halt_triggered rejected_abort_node triggers not_blank
    as_str_list gather halt_output closed_output work_of begin_node start_node complete fail
    finish_node verdict_field artifact_field iterate truthy_only unmet_deliveries unmet_delivery
    negative_verdict evidence unsupported_artifacts check_answer initial_states init state_value
    states_fields state_of set_state turn run_from run path_steps at_index follow_step walk
    node_reference resolve_reference resolve_text resolve_params upstream_output settle_approval
    approve is_approval is_halt is_ticket is_closed follow get_path coerce_literal equals
    eval_condition status_text lookup insert remove strip drop_prefix split_once split characters
    unquote parse_int approval_time_guard guard_passes approval_key create_approval
    cas_update_approval put_node
refusing-Denies = ("deployed", refl, refl)

pub fresh_ready : node_decision python fresh.states scan ≡ ok ready
unfolding get get_or_null put items strings truthy usable is_false for_nodes persist mark_skipped
    open_approval act_on approval_step skip_step halt_step process_approvals process_skips
    same_statuses settle take_task choose wave_from wave find_success get_succeeded_attempt
    record_attempt negative_evidence on_error missing_inputs answer invoke attempt_once attempts
    execute_once run_with_retry external_operation_id restored restore_all from_checkpoint
    edge_active any_active all_active sources_terminal node_decision ready_list halts ready_nodes
    has_waiting_approval all_terminal halt_triggered rejected_abort_node triggers not_blank
    as_str_list gather halt_output closed_output work_of begin_node start_node complete fail
    finish_node verdict_field artifact_field iterate truthy_only unmet_deliveries unmet_delivery
    negative_verdict evidence unsupported_artifacts check_answer initial_states init state_value
    states_fields state_of set_state turn run_from run path_steps at_index follow_step walk
    node_reference resolve_reference resolve_text resolve_params upstream_output settle_approval
    approve is_approval is_halt is_ticket is_closed follow get_path coerce_literal equals
    eval_condition status_text lookup insert remove strip drop_prefix split_once split characters
    unquote parse_int approval_time_guard guard_passes approval_key create_approval
    cas_update_approval put_node
fresh_ready = refl

pub asked-is_open : is_open "ap_r1_confirm" asked ≡ true
unfolding is_open lookup
asked-is_open = refl

pub graph_lem : build true skeleton edges ≡ ok graph
unfolding build bind_edges condition_nodes validate check_cycle check_ends sort_nodes in_degree
    targets roots lower_targets drain check_join check_all check_join_consistency search_reject
    is_reject_when check_on_reject check_on_reject_consistency check_kind check_node_kinds
    get_or_null lookup insert is_approval is_ticket is_closed strip drop_prefix split_once lstrip
    get resume_executor load_snapshot_workflow from_checkpoint restore_all restored set_state init
    initial_states
graph_lem = refl

pub saved_lem :
    resume_executor loader "r1" "acme" saved ≡ ok (release, from_checkpoint release saved)
unfolding build bind_edges condition_nodes validate check_cycle check_ends sort_nodes in_degree
    targets roots lower_targets drain check_join check_all check_join_consistency search_reject
    is_reject_when check_on_reject check_on_reject_consistency check_kind check_node_kinds
    get_or_null lookup insert is_approval is_ticket is_closed strip drop_prefix split_once lstrip
    get resume_executor load_snapshot_workflow from_checkpoint restore_all restored set_state init
    initial_states
saved_lem = refl

pub with_row_lem :
    (status : RunStatus)
    → resume_executor loader "r1" "acme" (with_row status)
      ≡ ok (release, from_checkpoint release (with_row status))
unfolding build bind_edges condition_nodes validate check_cycle check_ends sort_nodes in_degree
    targets roots lower_targets drain check_join check_all check_join_consistency search_reject
    is_reject_when check_on_reject check_on_reject_consistency check_kind check_node_kinds
    get_or_null lookup insert is_approval is_ticket is_closed strip drop_prefix split_once lstrip
    get resume_executor load_snapshot_workflow from_checkpoint restore_all restored set_state init
    initial_states
with_row_lem status = refl

-- A cycle is reported.
cycle_lem : build false skeleton (edge "ship" "scan" none ∷ edges) ≡ raise (dag_error "cycle")
unfolding build bind_edges condition_nodes validate check_cycle check_ends sort_nodes in_degree
    targets roots lower_targets drain check_join check_all check_join_consistency search_reject
    is_reject_when check_on_reject check_on_reject_consistency check_kind check_node_kinds
    get_or_null lookup insert is_approval is_ticket is_closed strip drop_prefix split_once lstrip
    get resume_executor load_snapshot_workflow from_checkpoint restore_all restored set_state init
    initial_states
cycle_lem = refl
