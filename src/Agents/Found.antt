-- ===== src/Agents/Found.antt =====
-- What is found in an answer.
use mathlib.Core.Option
use multi_agent_workflow.Prelude.{
  ℕ, zero, suc, ◌-◌, true, false, Option, none, some, List, [], ◌∷◌, ◌++◌, ◌≡◌, refl, sym, ap, ◌∙◌,
  subst, arith, eqb, inl, inr, ◌↔◌, ok, Bool-cases, Option-cases,
}
use multi_agent_workflow.Json.{Value}
use multi_agent_workflow.Agents.{
  Text, remove_fences, from_brace, Mark, in_string, outside, step, closes, object_text, start,
  extract_json, join, or_error, run_agent,
}
use multi_agent_workflow.Agents.Balanced.{
  IsNot, Quoted, closed, escaped, inner, Balanced, blank, plain, literal, nested, Noise, silent,
  noise, braced, at, quoting, append_assoc, round, extract_json-braced,
}

-- A text that closes some braces, the last of them at its end.
abbrev Closing : ℕ → Text → Type 0
Closing zero r = r ≡ []
Closing (suc d) r = (b later : Text) × Balanced b × (r ≡ b ++ b'}' ∷ later) × Closing d later

-- The same, behind the rest of a string literal.
abbrev InString : ℕ → Text → Type 0
InString d r = (q later : Text) × Quoted q × (r ≡ q ++ later) × Closing d later

abbrev Escape : ℕ → Text → Type 0
Escape d r = (c : ℕ) × (later : Text) × (r ≡ c ∷ later) × InString d later

Closing-plain :
    (d c : ℕ) (r : Text)
    → IsNot c b'"'
    → IsNot c b'{'
    → IsNot c b'}'
    → Closing (suc d) r
    → Closing (suc d) (c ∷ r)
Closing-plain d c r e f g (b, later, k, p, h) = (c ∷ b, later, plain e f g k, ap (λ r. c ∷ r) p, h)

Closing-open : (d : ℕ) (r : Text) → Closing (suc (suc d)) r → Closing (suc d) (b'{' ∷ r)
Closing-open d r (b, later, k, p, (a, last, j, q, h)) = (
  b'{' ∷ b ++ b'}' ∷ a,
  last,
  nested k j,
  ap (λ r. b'{' ∷ r)
      (p ∙ ap (λ r. b ++ b'}' ∷ r) q ∙ sym (append_assoc b (b'}' ∷ a) (b'}' ∷ last))),
  h,
)

Closing-literal : (d : ℕ) (r : Text) → InString (suc d) r → Closing (suc d) (b'"' ∷ r)
Closing-literal d r (q, later, k, p, (b, last, j, e, h)) = (
  b'"' ∷ q ++ b,
  last,
  literal k j,
  ap (λ r. b'"' ∷ r) (p ∙ ap (λ r. q ++ r) e ∙ sym (append_assoc q b (b'}' ∷ last))),
  h,
)

eqb-equal : (c n : ℕ) → eqb c n ≡ true → c ≡ n
eqb-equal c n e = ground (arith, e)

map-some :
    (c : ℕ) (o : Option Text) (r : Text)
    → Option.map (λ r. c ∷ r) o ≡ some r
    → (rest : Text) × (o ≡ some rest) × (r ≡ c ∷ rest)
map-some c none r e = cc
map-some c (some rest) r e = (rest, refl, cc)

-- One round of the loop that does not close the object, when it finds a text.
round-some :
    (c : ℕ) (m n : Mark) (s r : Text)
    → closes c m ≡ false
    → step c m ≡ n
    → object_text m (c ∷ s) ≡ some r
    → (rest : Text) × (object_text n s ≡ some rest) × (r ≡ c ∷ rest)
round-some c m n s r e f h = map-some c (object_text n s) r (sym (round c m n s e f) ∙ h)

-- What the loop finds in the rest of an answer: outside of a string literal, in one, and behind a
-- `\`.
record Finds (d : ℕ) (s : Text) : Type 0 where
  outer : (r : Text) → object_text (at (suc d)) s ≡ some r → Closing (suc d) r
  inside : (r : Text) → object_text (quoting (suc d) false) s ≡ some r → InString (suc d) r
  behind : (r : Text) → object_text (quoting (suc d) true) s ≡ some r → Escape (suc d) r

module _ (s : Text) (finds : (d : ℕ) → Finds d s) where
  abbrev Gives : Mark → ℕ → Text → Type 0
  Gives m c r = object_text m (c ∷ s) ≡ some r

  outer-quote :
      (d : ℕ) (r : Text) → object_text (at (suc d)) (b'"' ∷ s) ≡ some r → Closing (suc d) r
  unfolding closes step outside
  outer-quote d r h =
      let (rest, e, p) = round-some b'"' (at (suc d)) (quoting (suc d) false) s r refl refl h in
      subst (Closing (suc d)) (sym p) (Closing-literal d rest ((finds d).inside rest e))

  outer-open : (d : ℕ) (r : Text) → object_text (at (suc d)) (b'{' ∷ s) ≡ some r → Closing (suc d) r
  unfolding closes step outside
  outer-open d r h =
      let (rest, e, p) = round-some b'{' (at (suc d)) (at (suc (suc d))) s r refl refl h in
      subst (Closing (suc d)) (sym p) (Closing-open d rest ((finds (suc d)).outer rest e))

  outer-close :
      (d : ℕ) (r : Text) → object_text (at (suc d)) (b'}' ∷ s) ≡ some r → Closing (suc d) r
  unfolding closes step outside object_text
  outer-close zero r h = ([], [], blank, cc, refl)
  outer-close (suc d) r h =
      let (rest, e, p) =
        round-some b'}' (at (suc (suc d))) (at (suc d)) s r (ground arith)
          (ap at (let e : suc (suc d) - 1 ≡ suc d = omega arith in e)) h in
      ([], rest, blank, p, (finds d).outer rest e)

  outer-char : (d c : ℕ) (r : Text) → object_text (at (suc d)) (c ∷ s) ≡ some r → Closing (suc d) r
  unfolding closes step outside
  outer-char d c r h = elim (Bool-cases (eqb c b'"')) [
    | inl e ↦ outer-quote d r (subst (λ c. Gives (at (suc d)) c r) (eqb-equal c b'"' e) h)
    | inr e ↦ elim (Bool-cases (eqb c b'{')) [
      | inl f ↦ outer-open d r (subst (λ c. Gives (at (suc d)) c r) (eqb-equal c b'{' f) h)
      | inr f ↦ elim (Bool-cases (eqb c b'}')) [
        | inl g ↦ outer-close d r (subst (λ c. Gives (at (suc d)) c r) (eqb-equal c b'}' g) h)
        | inr g ↦
            let (rest, k, p) =
              round-some c (at (suc d)) (at (suc d)) s r (rw g refl) (rw (e, f, g, outside) refl)
                h in
            subst (Closing (suc d)) (sym p) (Closing-plain d c rest e f g ((finds d).outer rest k))
      ]
    ]
  ]

  inside-quote : (d : ℕ) (r : Text) → Gives (quoting (suc d) false) b'"' r → InString (suc d) r
  unfolding closes step in_string
  inside-quote d r h =
      let (rest, e, p) = round-some b'"' (quoting (suc d) false) (at (suc d)) s r refl refl h in
      (b'"' ∷ [], rest, closed, p, (finds d).outer rest e)

  inside-escape : (d : ℕ) (r : Text) → Gives (quoting (suc d) false) b'\\' r → InString (suc d) r
  unfolding closes step in_string
  inside-escape d r h =
      let (rest, e, p) =
        round-some b'\\' (quoting (suc d) false) (quoting (suc d) true) s r refl refl h in
      let (c, more, p1, (q, later, k, p2, f)) = (finds d).behind rest e in
      (b'\\' ∷ c ∷ q, later, escaped c k, p ∙ ap (λ r. b'\\' ∷ r) (p1 ∙ ap (λ r. c ∷ r) p2), f)

  inside-char : (d c : ℕ) (r : Text) → Gives (quoting (suc d) false) c r → InString (suc d) r
  unfolding closes step in_string
  inside-char d c r h = elim (Bool-cases (eqb c b'\\')) [
    | inl e ↦
        inside-escape d r (subst (λ c. Gives (quoting (suc d) false) c r) (eqb-equal c b'\\' e) h)
    | inr e ↦ elim (Bool-cases (eqb c b'"')) [
      | inl f ↦
          inside-quote d r (subst (λ c. Gives (quoting (suc d) false) c r) (eqb-equal c b'"' f) h)
      | inr f ↦
          let (rest, k, p) =
            round-some c (quoting (suc d) false) (quoting (suc d) false) s r refl
              (rw (e, f, in_string) refl) h in
          let (q, later, j, p1, g) = (finds d).inside rest k in
          (c ∷ q, later, inner e f j, p ∙ ap (λ r. c ∷ r) p1, g)
    ]
  ]

  behind-char : (d c : ℕ) (r : Text) → Gives (quoting (suc d) true) c r → Escape (suc d) r
  unfolding closes step in_string
  behind-char d c r h =
      let (rest, k, p) =
        round-some c (quoting (suc d) true) (quoting (suc d) false) s r refl refl h in
      (c, rest, p, (finds d).inside rest k)

finds : (s : Text) (d : ℕ) → Finds d s
unfolding object_text
finds [] d = record { outer = λ r h. cc; inside = λ r h. cc; behind = λ r h. cc }
finds (c ∷ s) d = record {
  outer = outer-char s (finds s) d c;
  inside = inside-char s (finds s) d c;
  behind = behind-char s (finds s) d c;
}

-- What the loop finds is the beginning of its text.
found-prefix :
    (s : Text) (m : Mark) (r : Text) → object_text m s ≡ some r → (t : Text) × (s ≡ r ++ t)
unfolding object_text
found-prefix [] m r h = cc
found-prefix (c ∷ s) m r h = elim (Bool-cases (closes c m)) [
  | inl e ↦
      let p : some (c ∷ []) ≡ some r = rw e at h in
      let q : c ∷ [] ≡ r = cc in (s, ap (λ r. r ++ s) q)
  | inr e ↦
      let (rest, k, p) = round-some c m (step c m) s r e refl h in
      let (t, q) = found-prefix s (step c m) rest k in
      (t, ap (λ r. c ∷ r) q ∙ ap (λ r. r ++ t) (sym p))
]

-- The text from its first `{` on.
from_brace-some :
    (s r : Text)
    → from_brace s ≡ some r
    → (n t : Text) × Noise n × (s ≡ n ++ b'{' ∷ t) × (r ≡ b'{' ∷ t)
unfolding from_brace
from_brace-some [] r h = cc
from_brace-some (c ∷ s) r h = elim (Bool-cases (eqb c b'{')) [
  | inl e ↦
      let p : some (c ∷ s) ≡ some r = rw e at h in
      let q : c ∷ s ≡ r = cc in
      let same = eqb-equal c b'{' e in
      ([], s, silent, ap (λ c. c ∷ s) same, sym q ∙ ap (λ c. c ∷ s) same)
  | inr e ↦
      let (n, t, k, p, q) = from_brace-some s r (rw e at h) in
      (c ∷ n, t, noise e k, ap (λ r. c ∷ r) p, q)
]

-- From the first `{` on.
start-braced :
    (t r : Text)
    → object_text start (b'{' ∷ t) ≡ some r
    → (b later : Text) × Balanced b × (r ≡ braced b) × (b'{' ∷ t ≡ r ++ later)
unfolding closes step outside
start-braced t r h =
    let (rest, k, p) = round-some b'{' start (at 1) t r refl refl h in
    let (b, last, j, q, f) = (finds t 0).outer rest k in
    let (later, g) = found-prefix (b'{' ∷ t) start r h in
    (b, later, j, p ∙ ap (λ r. b'{' ∷ r) (q ∙ ap (λ l. b ++ b'}' ∷ l) f), g)

-- The value of the first object of an answer. Before the object stands no `{`, and between its
-- braces the braces are balanced, but for those in string literals; anything may follow it.
abbrev pub First : (Text → Option Value) → Text → Value → Type 0
First loads answer v =
    (n b t : Text) × (remove_fences 0 answer ≡ n ++ (braced b ++ t))
    × Noise n
    × Balanced b
    × (loads (braced b) ≡ some v)

extract_json-First :
    (loads : Text → Option Value) (answer : Text) (v : Value)
    → extract_json loads answer ≡ some v
    → First loads answer v
unfolding extract_json
extract_json-First loads answer v h = elim (Option-cases (from_brace (remove_fences 0 answer))) [
  | inl e ↦ absurd (let f = rw (e, extract_json) at h in cc)
  | inr (r, e) ↦
      let (n, t, k, p, q) = from_brace-some (remove_fences 0 answer) r e in
      elim (Option-cases (object_text start r)) [
        | inl f ↦ absurd (let g = rw (e, f, extract_json) at h in cc)
        | inr (found, f) ↦
            let (b, later, j, p1, p2) =
              start-braced t found (subst (λ r. object_text start r ≡ some found) q f) in
            let value : loads found ≡ some v = rw (e, f, extract_json) at h in
            (
              n,
              b,
              later,
              p ∙ ap (λ r. n ++ r) (p2 ∙ ap (λ r. r ++ later) p1),
              k,
              j,
              subst (λ r. loads r ≡ some v) p1 value,
            )
      ]
]

or_error-ok : (o : Option Value) (v : Value) → (or_error o ≡ ok v) ↔ (o ≡ some v)
or_error-ok none v = ((λ e. cc), λ e. cc)
or_error-ok (some x) v = ((λ e. cc), λ e. cc)

-- An agent that has replied gives a value exactly if it is the value of the first object in the
-- texts of its reply, joined and without the fences of code blocks: no `{` stands before the
-- object, the braces inside it are balanced, but for those in string literals, and anything may
-- follow it.
pub run_agent-First :
    (loads : Text → Option Value) (texts : List Text) (v : Value)
    → (run_agent loads (ok texts) ≡ ok v) ↔ First loads (join texts) v
unfolding run_agent
run_agent-First loads texts v =
    let both = or_error-ok (extract_json loads (join texts)) v in
    (
      (λ h. extract_json-First loads (join texts) v (both.0 h)),
      λ (n, b, t, e, k, j, f). both.1 (extract_json-braced loads (join texts) n b t e k j ∙ f),
    )
