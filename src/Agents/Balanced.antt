-- ===== src/Agents/Balanced.antt =====
-- Texts with balanced braces, and the object that is found among other text.
use mathlib.Core.Option
use multi_agent_workflow.Prelude.{
  ℕ, suc, ◌-◌, Bool, true, false, Option, none, some, [], ◌∷◌, ◌++◌, ◌≡◌, refl, sym, ap, ◌∙◌, arith,
  eqb,
}
use multi_agent_workflow.Json.{Value}
use multi_agent_workflow.Agents.{
  Text, remove_fences, from_brace, Mark, in_string, outside, step, closes, object_text, start,
  extract_json,
}

abbrev pub IsNot : ℕ → ℕ → Type 0
IsNot c d = eqb c d ≡ false

-- A string literal behind its first quote.
pub data Quoted : Text → Type 0 where
  closed : Quoted (b'"' ∷ [])
  escaped : (c : ℕ) {s : Text} → Quoted s → Quoted (b'\\' ∷ c ∷ s)
  inner : {c : ℕ} {s : Text} → IsNot c b'\\' → IsNot c b'"' → Quoted s → Quoted (c ∷ s)

-- A text whose braces are balanced, but for those in string literals.
pub data Balanced : Text → Type 0 where
  blank : Balanced []
  plain :
      {c : ℕ} {s : Text}
      → IsNot c b'"'
      → IsNot c b'{'
      → IsNot c b'}'
      → Balanced s
      → Balanced (c ∷ s)
  literal : {q s : Text} → Quoted q → Balanced s → Balanced (b'"' ∷ q ++ s)
  nested : {b s : Text} → Balanced b → Balanced s → Balanced (b'{' ∷ b ++ b'}' ∷ s)

-- A text without a `{`.
pub data Noise : Text → Type 0 where
  silent : Noise []
  noise : {c : ℕ} {s : Text} → IsNot c b'{' → Noise s → Noise (c ∷ s)

-- An object: what stands between its braces is balanced.
abbrev pub braced : Text → Text
braced b = b'{' ∷ b ++ b'}' ∷ []

abbrev pub at : ℕ → Mark
at depth = record { depth = depth; in_str = false; esc = false }

abbrev pub quoting : ℕ → Bool → Mark
quoting depth esc = record { depth = depth; in_str = true; esc = esc }

Option-map_id : (o : Option Text) → Option.map (λ r. r) o ≡ o
Option-map_id none = refl
Option-map_id (some x) = refl

pub append_assoc : (a b c : Text) → (a ++ b) ++ c ≡ a ++ (b ++ c)
append_assoc [] b c = refl
append_assoc (x ∷ a) b c = ap (λ r. x ∷ r) (append_assoc a b c)

map-map :
    (f g h : Text → Text) (o : Option Text)
    → ((s : Text) → f (g s) ≡ h s)
    → Option.map f (Option.map g o) ≡ Option.map h o
map-map f g h none e = refl
map-map f g h (some s) e = ap some (e s)

-- One round of the loop that does not close the object.
pub round :
    (c : ℕ) (m n : Mark) (s : Text)
    → closes c m ≡ false
    → step c m ≡ n
    → object_text m (c ∷ s) ≡ Option.map (λ r. c ∷ r) (object_text n s)
unfolding object_text
round c m n s e f = rw (e, f, object_text) refl

-- The loop goes through a text, whatever follows it.
abbrev Goes : Mark → Text → Mark → Type 0
Goes m p n = (t : Text) → object_text m (p ++ t) ≡ Option.map (λ r. p ++ r) (object_text n t)

Goes-none : (m : Mark) → Goes m [] m
Goes-none m t = sym (Option-map_id (object_text m t))

Goes-cons :
    (c : ℕ) (m n k : Mark) (p : Text)
    → closes c m ≡ false
    → step c m ≡ n
    → Goes n p k
    → Goes m (c ∷ p) k
Goes-cons c m n k p e f g t =
    round c m n (p ++ t) e f
    ∙ ap (Option.map (λ r. c ∷ r)) (g t)
    ∙ map-map _ _ _ (object_text k t) λ r. refl

Goes-append : (m n k : Mark) (p q : Text) → Goes m p n → Goes n q k → Goes m (p ++ q) k
Goes-append m n k p q f g t =
    ap (object_text m) (append_assoc p q t)
    ∙ f (q ++ t)
    ∙ ap (Option.map (λ r. p ++ r)) (g t)
    ∙ map-map _ _ _ (object_text k t) λ r. sym (append_assoc p q r)

-- A string literal.
Quoted-Goes : (d : ℕ) (q : Text) → Quoted q → Goes (quoting d false) q (at d)
unfolding closes step in_string
Quoted-Goes d _ closed =
    Goes-cons b'"' (quoting d false) (at d) (at d) [] refl refl (Goes-none (at d))
Quoted-Goes d _ (escaped c {s} q) =
    Goes-cons b'\\' (quoting d false) (quoting d true) (at d) (c ∷ s) refl refl
      (Goes-cons c (quoting d true) (quoting d false) (at d) s refl refl (Quoted-Goes d s q))
Quoted-Goes d _ (inner {c} {s} e f q) =
    Goes-cons c (quoting d false) (quoting d false) (at d) s refl (rw (e, f, in_string) refl)
      (Quoted-Goes d s q)

-- A balanced text inside of the object.
Balanced-Goes : (d : ℕ) (b : Text) → Balanced b → Goes (at (suc d)) b (at (suc d))
unfolding closes step outside
Balanced-Goes d _ blank = Goes-none (at (suc d))
Balanced-Goes d _ (plain {c} {s} e f g b) =
    Goes-cons c (at (suc d)) (at (suc d)) (at (suc d)) s (rw g refl) (rw (e, f, g, outside) refl)
      (Balanced-Goes d s b)
Balanced-Goes d _ (literal {q} {s} h b) =
    Goes-cons b'"' (at (suc d)) (quoting (suc d) false) (at (suc d)) (q ++ s) refl refl (
      Goes-append (quoting (suc d) false) (at (suc d)) (at (suc d)) q s (Quoted-Goes (suc d) q h)
        (Balanced-Goes d s b))
Balanced-Goes d _ (nested {b} {s} h k) =
    Goes-cons b'{' (at (suc d)) (at (suc (suc d))) (at (suc d)) (b ++ b'}' ∷ s) refl refl (
      Goes-append (at (suc (suc d))) (at (suc (suc d))) (at (suc d)) b (b'}' ∷ s)
        (Balanced-Goes (suc d) b h)
        (Goes-cons b'}' (at (suc (suc d))) (at (suc d)) (at (suc d)) s (ground arith)
          (ap at (let e : suc (suc d) - 1 ≡ suc d = omega arith in e)) (Balanced-Goes d s k)))

-- The `}` that closes the object ends the loop.
object_text-braced : (b t : Text) → Balanced b → object_text start (braced b ++ t) ≡ some (braced b)
unfolding closes step outside object_text
object_text-braced b t h =
    let last : object_text (at 1) (b'}' ∷ t) ≡ some (b'}' ∷ []) = refl in
    round b'{' start (at 1) ((b ++ b'}' ∷ []) ++ t) refl refl
    ∙ ap (λ r. Option.map (λ r. b'{' ∷ r) (object_text (at 1) r)) (append_assoc b (b'}' ∷ []) t)
    ∙ ap (Option.map (λ r. b'{' ∷ r)) (Balanced-Goes 0 b h (b'}' ∷ t))
    ∙ ap (λ o. Option.map (λ r. b'{' ∷ r) (Option.map (λ r. b ++ r) o)) last

from_brace-Noise : (n t : Text) → Noise n → from_brace (n ++ b'{' ∷ t) ≡ some (b'{' ∷ t)
unfolding from_brace
from_brace-Noise _ t silent = refl
from_brace-Noise _ t (noise {c} {s} e h) = rw e (from_brace-Noise s t h)

-- The object among other text.
pub extract_json-braced :
    (loads : Text → Option Value) (answer n b t : Text)
    → remove_fences 0 answer ≡ n ++ (braced b ++ t)
    → Noise n
    → Balanced b
    → extract_json loads answer ≡ loads (braced b)
unfolding extract_json
extract_json-braced loads answer n b t e h k =
    rw (e, extract_json)
      (rw (from_brace-Noise n ((b ++ b'}' ∷ []) ++ t) h, extract_json)
        (rw (object_text-braced b t k) refl))
