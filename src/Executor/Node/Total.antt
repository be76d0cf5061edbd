-- ===== src/Executor/Node/Total.antt =====
-- The exceptions of preparing and judging a node.
use multi_agent_workflow.Prelude.{
  String, Bool, Option, none, some, List, [], ◌∷◌, is_empty, if◌then◌else◌, Result, ok, raise,
  Bool-cases, inl, inr,
}
use multi_agent_workflow.Json.{Fields, Value, text, array, object, Python, get_or_null, truthy}
use multi_agent_workflow.Core.Dag.{Node, Edge, is_halt, is_closed}
use multi_agent_workflow.Executor.State.{Config, Executor}
use multi_agent_workflow.Executor.Environment.{Environment, ToolCall}
use multi_agent_workflow.Executor.Ensures.{Gives, Gives-bind}
use multi_agent_workflow.Executor.Decision.{States, edge_active}
use multi_agent_workflow.Executor.Decision.Total.{Any, edge_active-Gives}
use multi_agent_workflow.Executor.Params.{Context, resolve_text}
use multi_agent_workflow.Executor.Params.Total.{resolve_text-Gives}
use multi_agent_workflow.Executor.Verdict.{
  iterate, is_object, is_named, slice_error, all_objects, entry_detail, details, names,
  delivery_failure, health_check, health_of, unmet_deliveries, unmet_delivery, check_answer, Check,
}
use multi_agent_workflow.Executor.Attempts.{
  external_operation_id, declared_key, key_or_default, is_side_effect, default_key,
}
use multi_agent_workflow.Executor.Node.{
  triggers, add_source, halt_output, describe, work_of, to_known, to_call, context,
}

triggers-Gives :
    (py : Python) (states : States) (es : List Edge) → Gives Any (triggers py states es)
unfolding triggers
triggers-Gives py states [] = tt
triggers-Gives py states (e ∷ es) =
    add (edge_active py states e) (triggers py states es) (edge_active-Gives py states e)
      (triggers-Gives py states es)
  where
    add :
        (r : Result Bool) (rest : Result (List String))
        → Gives Any r
        → Gives Any rest
        → Gives Any (add_source e r rest)
    add (ok b) (ok rest) h k = tt
    add (raise x) (ok rest) h k = h
    add (raise x) (raise y) h k = h
    add (ok b) (raise y) h k = k

halt_output-Gives : (py : Python) (states : States) (n : Node) → Gives Any (halt_output py states n)
unfolding halt_output
halt_output-Gives py states n =
    go (triggers py states n.in_edges) (triggers-Gives py states n.in_edges)
  where
    go : (r : Result (List String)) → Gives Any r → Gives Any (describe py states r)
    go (ok nids) h = tt
    go (raise e) h = h

external_operation_id-Gives :
    (py : Python) (c : Config) (n : Node) (ctx : Context)
    → Gives Any (external_operation_id py c n ctx)
unfolding external_operation_id
external_operation_id-Gives py c n ctx = go (declared_key n.idempotency_key)
  where
    resolved : (r : Result Value) → Gives Any r → Gives Any (key_or_default py c n r)
    resolved (ok v) h = tt
    resolved (raise e) h = h

    go :
        (o : Option String)
        → Gives Any (elim o [
          | none ↦ ok (if is_side_effect n.agent then default_key c n else none)
          | some key ↦ key_or_default py c n (resolve_text ctx key)
        ])
    go none = tt
    go (some key) = resolved (resolve_text ctx key) (resolve_text-Gives ctx key)

pub work_of-Gives :
    (env : Environment) (c : Config) (n : Node) (s : Executor) → Gives Any (work_of env c n s)
unfolding work_of
work_of-Gives env c n s = elim (Bool-cases (is_halt n)) [
  | inl h ↦ rw h (known _ (halt_output-Gives env.python s.states n))
  | inr h ↦ rw h (elim (Bool-cases (is_closed n)) [
    | inl k ↦ rw k tt
    | inr k ↦ rw k (called _ (external_operation_id-Gives env.python c n (context c s)))
  ])
]
  where
    known : (r : Result Value) → Gives Any r → Gives Any (to_known r)
    known (ok v) h = tt
    known (raise e) h = h

    called : (r : Result (Option String)) → Gives Any r → Gives Any (to_call r)
    called (ok v) h = tt
    called (raise e) h = h

iterate-Gives : (py : Python) (v : Value) → Gives Any (iterate py v)
unfolding iterate
iterate-Gives py (array vs) = tt
iterate-Gives py (text t) = tt
iterate-Gives py (object fs) = tt
iterate-Gives py v = elim (Bool-cases (truthy py v)) [ inl h ↦ rw h tt | inr h ↦ rw h tt ]

slice_error-Gives : (py : Python) (v : Value) → Gives Any (slice_error py v)
slice_error-Gives py (text t) = tt
slice_error-Gives py (array vs) = tt
slice_error-Gives py v = elim (Bool-cases (truthy py v)) [ inl h ↦ rw h tt | inr h ↦ rw h tt ]

all_objects-Gives : (vs : List Value) → Gives Any (all_objects vs)
unfolding all_objects
all_objects-Gives [] = tt
all_objects-Gives (v ∷ vs) = elim (Bool-cases (is_object v)) [
  | inl h ↦ rw (h, all_objects) (all_objects-Gives vs)
  | inr h ↦ rw (h, all_objects) tt
]

entry_detail-Gives :
    (py : Python) (unmet : List Value) (v : Value) → Gives Any (entry_detail py unmet v)
entry_detail-Gives py unmet (object row) =
    elim (Bool-cases (is_named (get_or_null "tool" row) unmet)) [
      | inl h ↦ rw h (slice_error-Gives py (get_or_null "error" row))
      | inr h ↦ rw h tt
    ]
entry_detail-Gives py unmet v = tt

details-Gives : (py : Python) (unmet vs : List Value) → Gives Any (details py unmet vs)
unfolding details
details-Gives py unmet [] = tt
details-Gives py unmet (v ∷ vs) =
    Gives-bind Any Any (entry_detail py unmet v) _ (entry_detail-Gives py unmet v)
      (λ _ _. details-Gives py unmet vs)

names-Gives : (vs : List Value) → Gives Any (names vs)
unfolding names
names-Gives [] = tt
names-Gives (text t ∷ vs) = Gives-bind Any Any (names vs) _ (names-Gives vs) (λ _ _. tt)
names-Gives (v ∷ vs) = tt

delivery_failure-Gives :
    (py : Python) (health : Fields) (unmet : List Value)
    → Gives Any (delivery_failure py health unmet)
unfolding delivery_failure
delivery_failure-Gives py health unmet =
    Gives-bind Any Any (iterate py (get_or_null "failed" health)) _
      (iterate-Gives py (get_or_null "failed" health))
      λ failed _. Gives-bind Any Any (all_objects failed) _ (all_objects-Gives failed) λ _ _.
        Gives-bind Any Any (details py unmet failed) _ (details-Gives py unmet failed)
          λ _ _. Gives-bind Any Any (names unmet) _ (names-Gives unmet) (λ _ _. tt)

health_check-Gives : (py : Python) (health : Fields) → Gives Any (health_check py health)
unfolding health_check unmet_deliveries
health_check-Gives py health =
    Gives-bind Any Any (unmet_deliveries py health) _
      (Gives-bind Any Any (iterate py (get_or_null "unmet_delivery" health)) _
        (iterate-Gives py (get_or_null "unmet_delivery" health)) (λ _ _. tt))
      λ unmet _. elim (Bool-cases (is_empty unmet)) [
        | inl h ↦ rw h tt
        | inr h ↦ rw h (delivery_failure-Gives py health unmet)
      ]

unmet_delivery-Gives : (py : Python) (v : Value) → Gives Any (unmet_delivery py v)
unfolding unmet_delivery
unmet_delivery-Gives py v = by (health_of v)
  where
    by :
        (o : Option Fields)
        → Gives Any (elim o as (λ _. Result Check) [ none ↦ ok none | some h ↦ health_check py h ])
    by none = tt
    by (some h) = health_check-Gives py h

pub check_answer-Gives :
    (py : Python) (rows : Option (List ToolCall)) (agent : Option String) (v : Value)
    → Gives Any (check_answer py rows agent v)
unfolding check_answer
check_answer-Gives py rows agent v =
    Gives-bind Any Any (unmet_delivery py v) _ (unmet_delivery-Gives py v) (λ _ _. tt)
