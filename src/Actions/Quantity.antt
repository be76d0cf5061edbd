-- ===== src/Actions/Quantity.antt =====
-- The quantities of a cluster (`_parse_quantity` of agentflow/sandbox/action_executor.py), with
-- ASCII digits.
use Prim.Native.Char.{Char, code}
use Prim.Native.String.{String, ◌++◌}
use multi_agent_workflow.Prelude.{
  ℕ, Bool, ◌&&◌, Option, none, some, [], ◌∷◌, ◌==◌, leb, eqb, contains, if◌then◌else◌, Result, ok,
  raise, action_refused,
}
use multi_agent_workflow.Prelude.Text.{strip}

-- `int(float(text))`, `int(float(text) * k)` and `int(float(text) / k)` of a text of digits.
pub record Floats : Type 0 where
  pub whole : String → ℕ
  pub times : String → ℕ → ℕ
  pub over : String → ℕ → ℕ

abbrev is_digit : Char → Bool
is_digit ch = leb 48 (code ch) && leb (code ch) 57

-- The longest text of digits at the start, and what follows.
digits : String → String × String
digits String.[] = ("", "")
digits (String.◌∷◌ c s) =
    let r = digits s in if is_digit c then (String.◌∷◌ c r.0, r.1) else ("", String.◌∷◌ c s)

abbrev with_fraction : String → String → String × String → String × String
with_fraction whole rest (String.[], later) = (whole, rest)
with_fraction whole rest (String.◌∷◌ d ds, later) = (whole ++ ("." ++ String.◌∷◌ d ds), later)

-- `(?:\.\d+)?`: a point counts only with a digit behind it.
fraction : String → String → String × String
unfolding digits
fraction whole String.[] = (whole, "")
fraction whole (String.◌∷◌ c s) =
    if eqb (code c) b'.'
    then with_fraction whole (String.◌∷◌ c s) (digits s)
    else (whole, String.◌∷◌ c s)

abbrev number : String × String → Option (String × String)
number (String.[], rest) = none
number (String.◌∷◌ d ds, rest) = some (fraction (String.◌∷◌ d ds) rest)

abbrev scaled : Floats → String → String → Result ℕ
scaled floats digits unit =
    if unit == ""
    then ok (floats.times digits 1000)
    else if contains unit ("G" ∷ "Gi" ∷ [])
    then ok (floats.times digits 1024)
    else if contains unit ("ki" ∷ "Ki" ∷ [])
    then ok (floats.over digits 1024)
    else if contains unit ("m" ∷ "M" ∷ "mi" ∷ "Mi" ∷ "i" ∷ "ii" ∷ "k" ∷ "K" ∷ [])
    then ok (floats.whole digits)
    else raise (action_refused unit)

-- `_parse_quantity`: the number and its unit, which is compared without its case.
unfoldable pub parse_quantity : Floats → String → Result ℕ
unfolding digits fraction
parse_quantity floats q = elim (number (digits (strip q))) [
  | none ↦ raise (action_refused q)
  | some (n, unit) ↦ scaled floats n unit
]
