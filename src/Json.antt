-- ===== src/Json.antt =====
-- The values of the program's JSON and YAML documents, and what it asks of them.
-- `float` holds Python's shortest text of a float (`repr`), which determines the float.
use multi_agent_workflow.Prelude.{
  String, Bool, true, false, not, Option, none, some, List, [], ◌∷◌, ◌==◌, if◌then◌else◌, Error,
}
use multi_agent_workflow.Prelude.Int.{ℤ, pos, int_eq}
use multi_agent_workflow.Prelude.Text.{strip}

mutual
  pub data Value : Type 0 where
    null : Value
    boolean : Bool → Value
    int : ℤ → Value
    float : String → Value
    text : String → Value
    array : Items → Value
    object : Fields → Value

  pub data Items : Type 0 where
    nil : Items
    cons : Value → Items → Items

  pub data Fields : Type 0 where
    end : Fields
    field : String → Value → Fields → Fields

-- What the program asks of Python beyond what the model computes: floats, which antt does not have,
-- and the texts that `str` makes.
pub record Python : Type 0 where
  -- `float(text)`; `none` is `ValueError`.
  pub parse_float : String → Option String
  pub float_eq : String → String → Bool
  pub float_eq_int : String → ℤ → Bool
  -- `bool(x)`: false for zero.
  pub float_is_true : String → Bool
  -- `int(x)`; `none` is the exception of an infinity or a NaN.
  pub int_of_float : String → Option ℤ
  -- `str(value)` of a value that is no text.
  pub str_of : Value → String
  -- `str(exception)`.
  pub message : Error → String
  -- `type(exception).__name__`.
  pub class_name : Error → String

-- `fields[key]` if the key is there.
unfoldable pub get : String → Fields → Option Value
get k end = none
get k (field j v fs) = if j == k then some v else get k fs

abbrev or_null : Option Value → Value
or_null none = null
or_null (some v) = v

-- `d.get(key)`: a missing key reads as `None`.
unfoldable pub get_or_null : String → Fields → Value
get_or_null k fs = or_null (get k fs)

unfoldable pub put : String → Value → Fields → Fields
put k v end = field k v end
put k v (field j w fs) = if j == k then field j v fs else field j w (put k v fs)

unfoldable pub items : Items → List Value
items nil = []
items (cons v vs) = v ∷ items vs

unfoldable pub strings : List String → Items
strings [] = nil
strings (s ∷ ss) = cons (text s) (strings ss)

abbrev no_items : Items → Bool
no_items nil = true
no_items (cons v vs) = false

abbrev no_fields : Fields → Bool
no_fields end = true
no_fields (field k v fs) = false

-- Python's truth of a value: `bool(v)`.
unfoldable pub truthy : Python → Value → Bool
truthy py null = false
truthy py (boolean b) = b
truthy py (int n) = not (int_eq n (pos 0))
truthy py (float x) = py.float_is_true x
truthy py (text s) = not (s == "")
truthy py (array vs) = not (no_items vs)
truthy py (object fs) = not (no_fields fs)

-- `_usable` of the executor: neither `None`, nor a blank text, nor an empty container.
unfoldable pub usable : Value → Bool
usable null = false
usable (text s) = not (strip s == "")
usable (array vs) = not (no_items vs)
usable (object fs) = not (no_fields fs)
usable _ = true

-- The test `value is not False` of Python turned round.
unfoldable pub is_false : Value → Bool
is_false (boolean b) = not b
is_false _ = false
