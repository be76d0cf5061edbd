-- ===== src/Prelude/Text.antt =====
-- Python's `str` methods that the program uses, by recursion on the text.
use Prim.Native.Nat.{ℕ, ◌+◌, ◌*◌, ◌-◌}
use Prim.Native.Char.{Char, code}
use Prim.Native.String.{String}
use mathlib.Core.Path.{◌≡◌, refl}
use mathlib.Core.Bool.{Bool, true, false, ◌&&◌, ◌||◌}
use mathlib.Core.Option
use mathlib.Core.Option.{Option, none, some}
use mathlib.Core.List.{List, [], ◌∷◌}
use multi_agent_workflow.Prelude.Tests.{leb, eqb, if◌then◌else◌}
use multi_agent_workflow.Prelude.Int.{ℤ, pos, neg}

-- `str.isspace` of one character.
is_space : Char → Bool
is_space ch =
    let c = code ch in
    (leb 9 c && leb c 13)
    || (leb 28 c && leb c 32)
    || eqb c 0x85
    || eqb c 0xa0
    || eqb c 0x1680
    || (leb 0x2000 c && leb c 0x200a)
    || eqb c 0x2028
    || eqb c 0x2029
    || eqb c 0x202f
    || eqb c 0x205f
    || eqb c 0x3000

abbrev empty : String → Bool
empty String.[] = true
empty (String.◌∷◌ c s) = false

unfoldable pub lstrip : String → String
unfolding is_space
lstrip String.[] = ""
lstrip (String.◌∷◌ c s) = if is_space c then lstrip s else String.◌∷◌ c s

rstrip : String → String
rstrip String.[] = ""
rstrip (String.◌∷◌ c s) = let r = rstrip s in if empty r && is_space c then "" else String.◌∷◌ c r

unfoldable pub strip : String → String
unfolding is_space lstrip rstrip
strip s = rstrip (lstrip s)

-- What follows a prefix, if the text begins with it.
unfoldable pub drop_prefix : String → String → Option String
drop_prefix String.[] s = some s
drop_prefix (String.◌∷◌ d p) String.[] = none
drop_prefix (String.◌∷◌ d p) (String.◌∷◌ c s) =
    if eqb (code c) (code d) then drop_prefix p s else none

-- The text before and behind the first occurrence of a separator (`str.partition`).
unfoldable pub split_once : String → String → Option (String × String)
unfolding drop_prefix
split_once sep String.[] = Option.map (λ r. ("", r)) (drop_prefix sep "")
split_once sep (String.◌∷◌ c s) = elim (drop_prefix sep (String.◌∷◌ c s)) [
  | some r ↦ some ("", r)
  | none ↦ Option.map (λ p. (String.◌∷◌ c p.0, p.1)) (split_once sep s)
]

abbrev onto_first : Char → List String → List String
onto_first c [] = String.◌∷◌ c "" ∷ []
onto_first c (w ∷ ws) = String.◌∷◌ c w ∷ ws

-- `str.split` at one character, given by its code.
unfoldable pub split : ℕ → String → List String
split d String.[] = "" ∷ []
split d (String.◌∷◌ c s) =
    let rest = split d s in if eqb (code c) d then "" ∷ rest else onto_first c rest

-- `list(text)`.
unfoldable pub characters : String → List String
characters String.[] = []
characters (String.◌∷◌ c s) = String.◌∷◌ c "" ∷ characters s

abbrev last_code : ℕ → String → ℕ
last_code n String.[] = n
last_code n (String.◌∷◌ c s) = last_code (code c) s

drop_last : String → String
drop_last String.[] = ""
drop_last (String.◌∷◌ c s) = let r = drop_last s in if empty s then "" else String.◌∷◌ c r

-- The text without its first and last character, if both are the quote `q`.
unfoldable pub unquote : ℕ → String → Option String
unfolding drop_last
unquote q String.[] = none
unquote q (String.◌∷◌ c s) =
    if eqb (code c) q && eqb (last_code (code c) s) q then some (drop_last s) else none

-- The decimal digits of `int()`: `_` may stand between two digits. `ready` says that a digit came
-- last.
digits : Bool → ℕ → String → Option ℕ
digits ready n String.[] = if ready then some n else none
digits ready n (String.◌∷◌ ch s) =
    let c = code ch in
    let more = digits true (n * 10 + (c - 48)) s in
    let gap = digits false n s in
    if leb 48 c && leb c 57 then more else if eqb c b'_' && ready then gap else none

-- `int(text)` on ASCII text; `none` is `ValueError`.
unfoldable pub parse_int : String → Option ℤ
unfolding digits drop_prefix strip
parse_int s = elim (drop_prefix "-" (strip s)) [
  | some r ↦ Option.map neg (digits false 0 r)
  | none ↦ elim (drop_prefix "+" (strip s)) [
    | some r ↦ Option.map pos (digits false 0 r)
    | none ↦ Option.map pos (digits false 0 (strip s))
  ]
]

strip_sample : strip "  a b  " ≡ "a b"
unfolding strip
strip_sample = refl

split_sample : split b'.' "a..b" ≡ "a" ∷ "" ∷ "b" ∷ []
unfolding split
split_sample = refl
