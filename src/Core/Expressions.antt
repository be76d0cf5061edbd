-- ===== src/Core/Expressions.antt =====
-- The conditions on edges (agentflow/core/expressions.py): `$.nodes.X.output.f == literal`.
use multi_agent_workflow.Prelude.{
  String, Bool, true, false, not, ◌||◌, Option, none, some, List, [], ◌∷◌, ◌==◌, if◌then◌else◌,
  Result, ok, raise, value_error,
}
use multi_agent_workflow.Prelude.Int.{ℤ, pos, int_eq}
use multi_agent_workflow.Prelude.Text.{strip, split, split_once, unquote, parse_int}
use multi_agent_workflow.Json.{Value, null, boolean, int, float, text, object, Fields, get, Python}
use Prim.Native.String.{◌++◌}

-- A path step that is empty, as between two dots, is passed over.
unfoldable pub follow : List String → Value → Value
follow [] v = v
follow (part ∷ parts) v =
    let stay = follow parts v in
    let down = λ (w : Value). follow parts w in
    if part == ""
    then stay
    else elim v [ object fs ↦ elim (get part fs) [ none ↦ null | some w ↦ down w ] | _ ↦ null ]

-- `get_path`: a step that does not fit gives `None`.
unfoldable pub get_path : Fields → String → Value
unfolding follow
get_path root path = follow (split b'.' (strip path)) (object root)

pub data Literal : Type 0 where
  none_literal : Literal
  bool_literal : Bool → Literal
  int_literal : ℤ → Literal
  float_literal : String → Literal
  text_literal : String → Literal

abbrev or_else {ℓ} : {A : Type ℓ} → Option A → Option A → Option A
or_else none y = y
or_else (some a) y = some a

abbrev number_or_text : Python → String → Literal
number_or_text py tok = elim (parse_int tok) [
  | some n ↦ int_literal n
  | none ↦ elim (py.parse_float tok) [ some x ↦ float_literal x | none ↦ text_literal tok ]
]

abbrev quoted_or_number : Python → String → Literal
quoted_or_number py tok = elim (or_else (unquote 39 tok) (unquote 34 tok)) [
  | some inner ↦ text_literal inner
  | none ↦ number_or_text py tok
]

unfoldable pub coerce_literal : Python → String → Literal
coerce_literal py word =
    let tok = strip word in
    if tok == "null" || tok == "None"
    then none_literal
    else if tok == "true" || tok == "True"
    then bool_literal true
    else if tok == "false" || tok == "False"
    then bool_literal false
    else quoted_or_number py tok

abbrev bit : Bool → ℤ
bit true = pos 1
bit false = pos 0

abbrev bool_eq : Bool → Bool → Bool
bool_eq true b = b
bool_eq false b = not b

-- Python's `actual == expected`: a Boolean equals the number that it stands for.
unfoldable pub equals : Python → Value → Literal → Bool
equals py null none_literal = true
equals py (boolean a) (bool_literal b) = bool_eq a b
equals py (boolean a) (int_literal n) = int_eq (bit a) n
equals py (boolean a) (float_literal x) = py.float_eq_int x (bit a)
equals py (int a) (bool_literal b) = int_eq a (bit b)
equals py (int a) (int_literal n) = int_eq a n
equals py (int a) (float_literal x) = py.float_eq_int x a
equals py (float a) (bool_literal b) = py.float_eq_int a (bit b)
equals py (float a) (int_literal n) = py.float_eq_int a n
equals py (float a) (float_literal x) = py.float_eq a x
equals py (text a) (text_literal s) = a == s
equals py _ _ = false

-- `text.replace("$.nodes.", "", 1)`.
abbrev without_prefix : String → String
without_prefix s = elim (split_once "$.nodes." s) [
  | none ↦ s
  | some (before, behind) ↦ before ++ behind
]

-- `!=` is looked for first, wherever it stands.
unfoldable pub eval_condition : Python → String → Fields → Result Bool
eval_condition py expr states =
    let e = strip expr in
    elim (split_once "!=" e) [
      | some (left, right) ↦
          ok (not (equals py (get_path states (without_prefix left)) (coerce_literal py right)))
      | none ↦ elim (split_once "==" e) [
        | some (left, right) ↦
            ok (equals py (get_path states (without_prefix left)) (coerce_literal py right))
        | none ↦ raise (value_error e)
      ]
    ]
