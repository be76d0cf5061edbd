-- ===== src/Agents.antt =====
-- The JSON object in the answer of an agent (`extract_json` and `run_agent` of
-- agentflow/agents/scopes.py).
pub mod Balanced
pub mod Found
use Prim.Native.Char.{code}
use Prim.Native.String.{String}
use multi_agent_workflow.Prelude.{
  ℕ, zero, suc, ◌-◌, Bool, true, false, not, ◌&&◌, Option, none, some, List, [], ◌∷◌, ◌++◌, eqb,
  if◌then◌else◌, Result, ok, raise, agent_error, ◌>>=◌,
}
use mathlib.Core.Option
use multi_agent_workflow.Json.{Value}

-- A text as its code points.
abbrev pub Text : Type 0
Text = List ℕ

abbrev pub codes : String → Text
codes String.[] = []
codes (String.◌∷◌ c s) = code c ∷ codes s

begins : Text → Text → Bool
begins [] s = true
begins (d ∷ p) [] = false
begins (d ∷ p) (c ∷ s) = eqb c d && begins p s

-- The length of the fence of a code block that the text begins with, or 0.
unfoldable pub fence : Text → ℕ
unfolding begins
fence s = if begins (codes "```json") s then 7 else if begins (codes "```") s then 3 else 0

-- `re.sub`, while the given number of characters of a match is left to drop.
unfoldable pub remove_fences : ℕ → Text → Text
remove_fences n [] = []
remove_fences (suc n) (c ∷ s) = remove_fences n s
remove_fences zero (c ∷ s) =
    let k = fence (c ∷ s) in
    let rest = remove_fences (k - 1) s in if eqb k 0 then c ∷ rest else rest

-- The text from its first `{` on (`text.find`).
unfoldable pub from_brace : Text → Option Text
from_brace [] = none
from_brace (c ∷ s) = let later = from_brace s in if eqb c b'{' then some (c ∷ s) else later

-- The variables of the loop. `depth` is 0 before the first `{` only.
pub record Mark : Type 0 where
  pub depth : ℕ
  pub in_str : Bool
  pub esc : Bool

-- The body of the loop: a character in a string, and one outside.
unfoldable pub in_string : ℕ → Mark → Mark
in_string c m =
    if m.esc
    then record m { esc = false }
    else if eqb c b'\\'
    then record m { esc = true }
    else if eqb c b'"'
    then record m { in_str = false }
    else m

unfoldable pub outside : ℕ → Mark → Mark
outside c m =
    if eqb c b'"'
    then record m { in_str = true }
    else if eqb c b'{'
    then record m { depth = suc m.depth }
    else if eqb c b'}'
    then record m { depth = m.depth - 1 }
    else m

unfoldable pub step : ℕ → Mark → Mark
step c m = if m.in_str then in_string c m else outside c m

-- `depth == 0` behind a `}`.
unfoldable pub closes : ℕ → Mark → Bool
closes c m = not m.in_str && eqb c b'}' && eqb m.depth 1

-- The loop: the text up to the `}` that closes the first `{`.
unfoldable pub object_text : Mark → Text → Option Text
object_text m [] = none
object_text m (c ∷ s) =
    let rest = object_text (step c m) s in
    if closes c m then some (c ∷ []) else Option.map (λ r. c ∷ r) rest

abbrev pub start : Mark
start = record { depth = 0; in_str = false; esc = false }

abbrev pub and_then {ℓ κ} : {A : Type ℓ} {B : Type κ} → Option A → (A → Option B) → Option B
and_then none f = none
and_then (some x) f = f x

-- `extract_json`; `json.loads` gives nothing for a text that is not JSON.
unfoldable pub extract_json : (Text → Option Value) → Text → Option Value
extract_json loads text =
    and_then (and_then (from_brace (remove_fences 0 text)) (object_text start)) loads

abbrev pub join : List Text → Text
join [] = []
join (t ∷ ts) = t ++ join ts

abbrev pub or_error : Option Value → Result Value
or_error none = raise (agent_error "AgentOutputError")
or_error (some v) = ok v

-- What `run_agent` makes of the texts in a reply.
unfoldable pub run_agent : (Text → Option Value) → Result (List Text) → Result Value
run_agent loads reply = reply >>= λ texts. or_error (extract_json loads (join texts))
