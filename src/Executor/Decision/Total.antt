-- ===== src/Executor/Decision/Total.antt =====
-- The exceptions of `_node_decision`, and when it blocks a node.
use multi_agent_workflow.Prelude.{
  String, Bool, true, false, ◌&&◌, Option, none, some, List, [], ◌∷◌, ◌==◌, ◌≡◌, refl, is_some,
  contains, All, is_empty, Bool-cases, inl, inr,
}
use multi_agent_workflow.Prelude.Text.{split_once, strip}
use multi_agent_workflow.Prelude.Dict.{lookup}
use multi_agent_workflow.Json.{Python, Fields}
use multi_agent_workflow.Core.Dag.{Node, Edge, is_terminal, has_output}
use multi_agent_workflow.Core.Expressions.{eval_condition}
use multi_agent_workflow.StateStore.Rows.{NodeState}
use multi_agent_workflow.Executor.State.{Config, Executor, states_fields, state_of}
use multi_agent_workflow.Executor.Ensures.{Gives, Gives-bind}
use multi_agent_workflow.Executor.Invariant.{Inv, state_of-Gives}
use multi_agent_workflow.Executor.Decision.{
  Decision, ready, blocked, States, edge_active, active_from, any_active, all_active,
  sources_terminal, skipped_or_blocked, ready_or, node_decision, condition,
}

abbrev pub Any {ℓ} : {A : Type ℓ} → A → Type 0
Any a = Unit

eval_condition-Gives : (py : Python) (w : String) (fs : Fields) → Gives Any (eval_condition py w fs)
unfolding eval_condition
eval_condition-Gives py w fs = go (split_once "!=" (strip w)) (split_once "==" (strip w)) refl refl
  where
    go :
        (o p : Option (String × String))
        → split_once "!=" (strip w) ≡ o
        → split_once "==" (strip w) ≡ p
        → Gives Any (eval_condition py w fs)
    go (some x) p e f = rw (e, eval_condition) tt
    go none (some x) e f = rw (e, f, eval_condition) tt
    go none none e f = rw (e, f, eval_condition) tt

module _ (py : Python) (states : States) where
  condition-Gives : (w : Option String) → Gives Any (condition py states w)
  condition-Gives none = tt
  condition-Gives (some w) = eval_condition-Gives py w (states_fields py states)

  active_from-Gives :
      (o : Option NodeState) (w : Option String) → Gives Any (active_from py states o w)
  active_from-Gives none w = tt
  active_from-Gives (some st) w = elim (Bool-cases (has_output st.status)) [
    | inl e ↦ rw e (condition-Gives w)
    | inr e ↦ rw e tt
  ]

  pub edge_active-Gives : (e : Edge) → Gives Any (edge_active py states e)
  unfolding edge_active
  edge_active-Gives e = active_from-Gives (lookup e.source states) e.when

  any_active-Gives : (es : List Edge) → Gives Any (any_active py states es)
  unfolding any_active
  any_active-Gives [] = tt
  any_active-Gives (e ∷ es) =
      Gives-bind Any Any (edge_active py states e) _ (edge_active-Gives e)
        (elim [ true ↦ λ _. tt | false ↦ λ _. any_active-Gives es ])

  all_active-Gives :
      (required : List String) (es : List Edge) → Gives Any (all_active py states required es)
  unfolding all_active
  all_active-Gives required [] = tt
  all_active-Gives required (e ∷ es) = elim (Bool-cases (contains e.source required)) [
    | inl c ↦ rw c (
        Gives-bind Any Any (edge_active py states e) _ (edge_active-Gives e)
          (elim [ true ↦ λ _. all_active-Gives required es | false ↦ λ _. tt ]))
    | inr c ↦ rw c (all_active-Gives required es)
  ]

abbrev pub terminal_at : Option NodeState → Bool
terminal_at none = false
terminal_at (some st) = is_terminal st.status

-- All sources of these edges have ended.
abbrev pub all_ended : States → List Edge → Bool
all_ended states [] = true
all_ended states (e ∷ es) = terminal_at (lookup e.source states) && all_ended states es

abbrev pub Unblocked : Bool → Decision → Type 0
Unblocked true blocked = ⊥
Unblocked _ _ = Unit

module _ (py : Python) (c : Config) (busy : List String) (s : Executor) (inv : Inv c busy s) where
  abbrev Known : List Edge → Type 0
  Known es = All (λ (e : Edge). is_some (lookup e.source c.nodes) ≡ true) es

  sources_terminal-Gives :
      (es : List Edge)
      → Known es
      → Gives (λ b. b ≡ all_ended s.states es) (sources_terminal py s.states es)
  unfolding sources_terminal
  sources_terminal-Gives [] k = refl
  sources_terminal-Gives (e ∷ es) k =
      Gives-bind (λ st. lookup e.source s.states ≡ some st) _ (state_of e.source s.states) _
        (state_of-Gives c busy e.source s inv k.0)
        λ st found. elim (Bool-cases (is_terminal st.status)) [
          | inl ended ↦ rw (ended, found, ended) (sources_terminal-Gives es k.1)
          | inr still ↦ rw (still, found, still) refl
        ]

  skipped_or_blocked-Gives :
      (es : List Edge)
      → Known es
      → Gives (Unblocked (all_ended s.states es)) (skipped_or_blocked py s.states es)
  skipped_or_blocked-Gives es k =
      Gives-bind (λ b. b ≡ all_ended s.states es) _ (sources_terminal py s.states es) _
        (sources_terminal-Gives es k) (elim [ true ↦ λ e. rw (← e) tt | false ↦ λ e. rw (← e) tt ])

  Unblocked-ready : (b : Bool) → Unblocked b ready
  Unblocked-ready true = tt
  Unblocked-ready false = tt

  ready_or-Gives :
      (b : Bool) (es : List Edge)
      → Known es
      → Gives (Unblocked (all_ended s.states es)) (ready_or py s.states b es)
  ready_or-Gives true es k = Unblocked-ready (all_ended s.states es)
  ready_or-Gives false es k = skipped_or_blocked-Gives es k

  -- The decision on a node whose sources are nodes of the graph raises no missing key, and it is
  -- not `blocked` once all sources have ended.
  pub node_decision-Gives :
      (n : Node)
      → Known n.in_edges
      → Gives (Unblocked (all_ended s.states n.in_edges)) (node_decision py s.states n)
  unfolding node_decision
  node_decision-Gives n k = elim (Bool-cases (is_empty n.in_edges)) [
    | inl root ↦ rw root (Unblocked-ready (all_ended s.states n.in_edges))
    | inr fed ↦ rw fed (elim (Bool-cases (n.join == "all")) [
      | inl e ↦ rw e (
          Gives-bind Any _ (all_active py s.states _ n.in_edges) _
            (all_active-Gives py s.states _ n.in_edges) (λ b _. ready_or-Gives b n.in_edges k))
      | inr e ↦ rw e (
          Gives-bind Any _ (any_active py s.states n.in_edges) _
            (any_active-Gives py s.states n.in_edges) (λ b _. ready_or-Gives b n.in_edges k))
    ])
  ]
