-- ===== src/Executor/Params/Total.antt =====
-- The exceptions of resolving references.
use multi_agent_workflow.Prelude.{String, Option, none, some, ◌==◌, ok, Bool-cases, inl, inr}
use multi_agent_workflow.Prelude.Text.{drop_prefix}
use multi_agent_workflow.Prelude.Dict.{lookup}
use multi_agent_workflow.Json.{
  Value, null, boolean, int, float, text, array, object, Items, nil, cons, Fields, end, field,
}
use multi_agent_workflow.Executor.Ensures.{Gives, Gives-bind}
use multi_agent_workflow.Executor.Decision.Total.{Any}
use multi_agent_workflow.Executor.Params.{
  Mode, between, broken, name, bracket, scan, next, path_steps, walk, Context, output_of,
  node_reference, without_output, before_dot, resolve_reference, resolve_text, resolve_param,
  resolve_items, resolve_params,
}

scan-Gives : (m : Mode) (s : String) → Gives Any (scan m s)
unfolding scan
scan-Gives between String.[] = tt
scan-Gives broken String.[] = tt
scan-Gives (name w) String.[] = tt
scan-Gives (bracket w) String.[] = tt
scan-Gives m (String.◌∷◌ c s) =
    Gives-bind Any Any (scan (next m c) s) _ (scan-Gives (next m c) s) (λ _ _. tt)

walk-Gives : (root : Value) (path : String) → Gives Any (walk root path)
unfolding walk path_steps
walk-Gives root path =
    Gives-bind Any Any (path_steps path) _
      (Gives-bind Any Any (scan between path) _ (scan-Gives between path) (λ _ _. tt)) (λ _ _. tt)

node_reference-Gives : (v : Value) (path : String) → Gives Any (node_reference v path)
unfolding node_reference
node_reference-Gives null path = tt
node_reference-Gives v path = elim (Bool-cases (path == "output")) [
  | inl e ↦ rw e tt
  | inr e ↦ rw e (elim (Bool-cases (without_output path == "")) [
    | inl f ↦ rw f tt
    | inr f ↦ rw f (walk-Gives v (without_output path))
  ])
]

module _ (ctx : Context) where
  inputs_reference-Gives :
      (whole : String) (o : Option String)
      → Gives Any (elim o [ some rest ↦ walk (object ctx.inputs) rest | none ↦ ok (text whole) ])
  inputs_reference-Gives whole none = tt
  inputs_reference-Gives whole (some rest) = walk-Gives (object ctx.inputs) rest

  resolve_reference-Gives : (whole path : String) → Gives Any (resolve_reference ctx whole path)
  unfolding resolve_reference
  resolve_reference-Gives whole path = go (drop_prefix "nodes." path)
    where
      go :
          (o : Option String)
          → Gives Any (elim o [
            | some rest ↦
                let (node_id, behind) = before_dot rest in
                node_reference (output_of (lookup node_id ctx.nodes)) behind
            | none ↦ elim (drop_prefix "inputs." path) [
              | some rest ↦ walk (object ctx.inputs) rest
              | none ↦ ok (text whole)
            ]
          ])
      go none = inputs_reference-Gives whole (drop_prefix "inputs." path)
      go (some rest) = node_reference-Gives _ _

  pub resolve_text-Gives : (t : String) → Gives Any (resolve_text ctx t)
  unfolding resolve_text
  resolve_text-Gives t = go (drop_prefix "$." t)
    where
      go :
          (o : Option String)
          → Gives Any (elim o [ some path ↦ resolve_reference ctx t path | none ↦ ok (text t) ])
      go none = tt
      go (some path) = resolve_reference-Gives t path

  mutual
    unfolding resolve_param

    resolve_value-Gives : (v : Value) → Gives Any (resolve_param ctx v)
    resolve_value-Gives (text t) = resolve_text-Gives t
    resolve_value-Gives (array vs) =
        Gives-bind Any Any (resolve_items ctx vs) _ (resolve_all-Gives vs) (λ _ _. tt)
    resolve_value-Gives (object fs) =
        Gives-bind Any Any (resolve_params ctx fs) _ (resolve_fields-Gives fs) (λ _ _. tt)
    resolve_value-Gives null = tt
    resolve_value-Gives (boolean b) = tt
    resolve_value-Gives (int n) = tt
    resolve_value-Gives (float x) = tt

    resolve_all-Gives : (vs : Items) → Gives Any (resolve_items ctx vs)
    resolve_all-Gives nil = tt
    resolve_all-Gives (cons v vs) =
        Gives-bind Any Any (resolve_param ctx v) _ (resolve_value-Gives v)
          λ w _. Gives-bind Any Any (resolve_items ctx vs) _ (resolve_all-Gives vs) (λ _ _. tt)

    resolve_fields-Gives : (fs : Fields) → Gives Any (resolve_params ctx fs)
    resolve_fields-Gives end = tt
    resolve_fields-Gives (field k v fs) =
        Gives-bind Any Any (resolve_param ctx v) _ (resolve_value-Gives v)
          λ w _. Gives-bind Any Any (resolve_params ctx fs) _ (resolve_fields-Gives fs) (λ _ _. tt)

  pub resolve_params-Gives : (fs : Fields) → Gives Any (resolve_params ctx fs)
  resolve_params-Gives fs = resolve_fields-Gives fs
