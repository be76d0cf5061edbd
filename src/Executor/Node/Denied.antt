-- ===== src/Executor/Node/Denied.antt =====
-- Answers that refuse (`_raise_on_negative_verdict` in `_exec_node_inner`).
use multi_agent_workflow.Prelude.{
  String, true, false, Option, none, some, List, [], ◌∷◌, ◌++◌, ◌≡◌, refl, arith, eq_refl, is_some,
  is_empty, ◌⊎◌, inl, inr, All, Bool-cases, Result, ok, raise, Error, node_failed, delivery_unmet,
}
use multi_agent_workflow.Prelude.Dict.{lookup, lookup-insert}
use multi_agent_workflow.Json.{
  Fields, Python, null, text, truthy, Value, object, boolean, get, is_false, get_or_null,
}
use multi_agent_workflow.Core.Dag.{failed}
use multi_agent_workflow.StateStore.Rows.{NodeState}
use multi_agent_workflow.Executor.State.{Config, Executor}
use multi_agent_workflow.Executor.Environment.{Environment, ToolCall}
use multi_agent_workflow.Executor.Verdict.{
  verdict_field, iterate, truthy_only, names, all_objects, is_named, entry_detail, details,
  delivery_failure, health_check, health_of, unmet_delivery, unmet_deliveries, negative_verdict,
  check_answer, Check,
}
use multi_agent_workflow.Executor.Attempts.{completed, run_with_retry}
use multi_agent_workflow.Executor.Passes.Progress.{persist-set_state}
use multi_agent_workflow.Executor.Node.{Task, call, judged, complete, fail, finish_node}

-- The verdict field of the agent is there and `False`.
abbrev pub Denies : Option String → Value → Type 0
Denies none v = ⊥
Denies (some agent) (object fs) =
    (f : String) × (verdict_field agent ≡ some f) × (get f fs ≡ some (boolean false))
Denies (some agent) _ = ⊥

negative_verdict-Denies :
    (agent : Option String) (v : Value) → Denies agent v → is_some (negative_verdict agent v) ≡ true
unfolding negative_verdict get_or_null is_false
negative_verdict-Denies none v d = elim d [ ]
negative_verdict-Denies (some agent) (object fs) (f, e, g) = rw (e, g) refl
negative_verdict-Denies (some agent) v d = elim d [ ]

-- A `_health` that the check can read.
abbrev pub IsText : Value → Type 0
IsText (text t) = Unit
IsText _ = ⊥

-- An entry of `failed`: a dictionary whose error is a text, or is missing.
abbrev pub IsEntry : Value → Type 0
IsEntry (object row) =
    (get_or_null "error" row ≡ null) ⊎ ((t : String) × (get_or_null "error" row ≡ text t))
IsEntry _ = ⊥

abbrev pub Readable : Python → Option Fields → Type 0
Readable py none = Unit
Readable py (some health) =
    (unmet rows : List Value) × (iterate py (get_or_null "unmet_delivery" health) ≡ ok unmet)
    × All IsText unmet
    × (iterate py (get_or_null "failed" health) ≡ ok rows)
    × All IsEntry rows

module _ (py : Python) where
  truthy_only-IsText : (vs : List Value) → All IsText vs → All IsText (truthy_only py vs)
  unfolding truthy_only
  truthy_only-IsText [] h = tt
  truthy_only-IsText (v ∷ vs) h = elim (Bool-cases (truthy py v)) [
    | inl e ↦ rw e (h.0, truthy_only-IsText vs h.1)
    | inr e ↦ rw e (truthy_only-IsText vs h.1)
  ]

  names-ok : (vs : List Value) → All IsText vs → (ts : List String) × (names vs ≡ ok ts)
  unfolding names
  names-ok [] h = ([], refl)
  names-ok (text t ∷ vs) h = let (ts, e) = names-ok vs h.1 in (t ∷ ts, rw (e, names) refl)
  names-ok (v ∷ vs) h = absurd h.0

  all_objects-ok : (vs : List Value) → All IsEntry vs → all_objects vs ≡ ok tt
  unfolding all_objects
  all_objects-ok [] h = refl
  all_objects-ok (object row ∷ vs) h = all_objects-ok vs h.1
  all_objects-ok (v ∷ vs) h = absurd h.0

  entry_detail-ok : (unmet : List Value) (v : Value) → IsEntry v → entry_detail py unmet v ≡ ok tt
  unfolding truthy
  entry_detail-ok unmet (object row) h =
      elim (Bool-cases (is_named (get_or_null "tool" row) unmet)) [
        | inr e ↦ rw e refl
        | inl e ↦ elim h [ inl f ↦ rw (e, f) refl | inr (t, f) ↦ rw (e, f) refl ]
      ]
  entry_detail-ok unmet v h = absurd h

  details-ok : (unmet vs : List Value) → All IsEntry vs → details py unmet vs ≡ ok tt
  unfolding details
  details-ok unmet [] h = refl
  details-ok unmet (v ∷ vs) h = rw (entry_detail-ok unmet v h.0, details) (details-ok unmet vs h.1)

  delivery_failure-ok :
      (health : Fields) (unmet rows : List Value)
      → iterate py (get_or_null "failed" health) ≡ ok rows
      → All IsEntry rows
      → All IsText unmet
      → (o : Check) × (delivery_failure py health unmet ≡ ok o)
  unfolding delivery_failure
  delivery_failure-ok health unmet rows e entries texts =
      let (ts, f) = names-ok unmet texts in
      (
        some (delivery_unmet ts),
        rw (e, all_objects-ok rows entries, details-ok unmet rows entries, f) refl,
      )

  health_check-ok :
      (health : Fields) → Readable py (some health) → (o : Check) × (health_check py health ≡ ok o)
  unfolding health_check unmet_deliveries
  health_check-ok health (unmet, rows, e, texts, f, entries) =
      let read : unmet_deliveries py health ≡ ok (truthy_only py unmet) =
        rw (e, unmet_deliveries) refl in
      elim (Bool-cases (is_empty (truthy_only py unmet))) [
        | inl h ↦ (none, rw (read, h, health_check) refl)
        | inr h ↦
            let (o, g) =
              delivery_failure-ok health (truthy_only py unmet) rows f entries
                (truthy_only-IsText unmet texts) in
            (o, rw (read, h, g, health_check) refl)
      ]

  Readable-ok : (v : Value) → Readable py (health_of v) → (o : Check) × (unmet_delivery py v ≡ ok o)
  unfolding unmet_delivery
  Readable-ok v h = by (health_of v) refl h
    where
      by :
          (x : Option Fields)
          → health_of v ≡ x
          → Readable py x
          → (o : Check) × (unmet_delivery py v ≡ ok o)
      by none e h = (none, rw (e, unmet_delivery) refl)
      by (some health) e h =
          let (o, f) = health_check-ok health h in (o, rw (e, f, unmet_delivery) refl)

-- A node that fails: the exception, its state with the answer that it keeps, and the list of failed
-- nodes.
abbrev pub Fails : Task → Value → Executor → Result (Unit {0}) × Executor → Type 0
Fails t v s r =
    (e : Error) × (r.0 ≡ raise (node_failed t.nid))
    × (lookup t.nid r.1.states
        ≡ some (record { status = failed; output = v; params = none; error = some e }))
    × (r.1.failed ≡ s.failed ++ (t.nid ∷ []))

module _ (env : Environment) (c : Config) (t : Task) (v : Value) where
  fail-Fails : (e : Error) (s : Executor) → Fails t v s (fail env c t e v s)
  unfolding fail
  fail-Fails e s =
      let st : NodeState = record { status = failed; output = v; params = none; error = some e } in
      rw (persist-set_state c t.nid st s)
        (e, refl, ground (arith, lookup-insert t.nid t.nid st s.states, eq_refl t.nid), refl)

  judged-Fails : (o : Check) (s : Executor) → is_some o ≡ true → Fails t v s (judged env c t v o s)
  judged-Fails none s h = cc
  judged-Fails (some e) s h = fail-Fails e s

  -- The check of an answer that denies gives a cause.
  check_answer-Denies :
      (rows : Option (List ToolCall)) (delivery : Check)
      → unmet_delivery env.python v ≡ ok delivery
      → Denies t.node.agent v
      → (o : Check) × (check_answer env.python rows t.node.agent v ≡ ok o) × (is_some o ≡ true)
  unfolding check_answer
  check_answer-Denies rows (some e) f d = (some e, rw f refl, refl)
  check_answer-Denies rows none f d = go (negative_verdict t.node.agent v) refl
    where
      go :
          (n : Check)
          → negative_verdict t.node.agent v ≡ n
          → (o : Check) × (check_answer env.python rows t.node.agent v ≡ ok o) × (is_some o ≡ true)
      go none m = absurd (ground (arith, negative_verdict-Denies t.node.agent v d, m))
      go (some x) m = (some x, rw (f, m) refl, refl)

  -- An agent with a verdict field that answers `False` there fails its node, whatever `on_failure`
  -- says: the run stops with `WorkflowNodeFailed`, and the node is `failed` with the answer as its
  -- output. The answer has no `_health`, or one in which `unmet_delivery` lists texts and `failed`
  -- lists dictionaries whose `error` is a text or missing.
  pub finish_node-Denies :
      (key : Option String) (s u : Executor)
      → t.work ≡ call key
      → run_with_retry env c t.node t.params key s ≡ (ok (completed v), u)
      → Readable env.python (health_of v)
      → Denies t.node.agent v
      → Fails t v u (finish_node env c t s)
  unfolding finish_node complete fail
  finish_node-Denies key s u w r readable d =
      let (delivery, e) = Readable-ok env.python v readable in
      let (o, checked, bad) = check_answer-Denies (env.tools u t.node) delivery e d in
      rw (w, r, checked) (judged-Fails o u bad)
