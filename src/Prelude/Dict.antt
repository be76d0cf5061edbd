-- ===== src/Prelude/Dict.antt =====
-- Python's `dict` with text keys, in insertion order: a write to a key that is there keeps its
-- place, and a new key goes to the end.
use Prim.Native.String.{String}
use mathlib.Core.Path.{◌≡◌, refl, subst₂}
use mathlib.Core.Logic.{inl, inr}
use mathlib.Core.Option.{Option, none, some}
use mathlib.Core.List.{List, [], ◌∷◌}
use native.Mathlib.Omega.{arith}
use text.Mathlib.Text.{◌==◌}
use text.Mathlib.TextEquality.{eq_iff}
use text.Mathlib.TextPositions.{eq_refl}
use mathlib.Core.Bool.{true, false}
use multi_agent_workflow.Prelude.Tests.{if◌then◌else◌, Bool-cases, is_some}
use multi_agent_workflow.Prelude.Lists.{All, All-map}

abbrev pub Dict {ℓ} : Type ℓ → Type ℓ
Dict V = List (String × V)

module _ {ℓ} {V : Type ℓ} where
  unfoldable pub lookup : String → Dict V → Option V
  lookup k [] = none
  lookup k ((j, v) ∷ d) = if j == k then some v else lookup k d

  unfoldable pub insert : String → V → Dict V → Dict V
  insert k v [] = (k, v) ∷ []
  insert k v ((j, old) ∷ d) = if j == k then (j, v) ∷ d else (j, old) ∷ insert k v d

  -- `d.pop(k, None)`.
  unfoldable pub remove : String → Dict V → Dict V
  remove k [] = []
  remove k ((j, old) ∷ d) = let rest = remove k d in if j == k then rest else (j, old) ∷ rest

  pub lookup-insert :
      (k j : String) (v : V) (d : Dict V)
      → lookup j (insert k v d) ≡ (if k == j then some v else lookup j d)
  unfolding lookup insert
  lookup-insert k j v [] = refl
  lookup-insert k j v ((i, old) ∷ d) =
      ground (arith, eq_iff k j, eq_iff i k, eq_iff i j, lookup-insert k j v d)

  pub lookup-insert_same : (k : String) (v : V) (d : Dict V) → lookup k (insert k v d) ≡ some v
  lookup-insert_same k v d = ground (arith, lookup-insert k k v d, eq_refl k)

  pub lookup-insert_other :
      (k j : String) (v : V) (d : Dict V) → (k == j) ≡ false → lookup j (insert k v d) ≡ lookup j d
  lookup-insert_other k j v d other = ground (arith, lookup-insert k j v d, other)

  pub lookup-remove :
      (k j : String) (d : Dict V) → lookup j (remove k d) ≡ (if k == j then none else lookup j d)
  unfolding lookup remove
  lookup-remove k j [] = ground arith
  lookup-remove k j ((i, v) ∷ d) =
      ground (arith, lookup-remove k j d, eq_iff i k, eq_iff i j, eq_iff k j)

  -- No key stands twice.
  abbrev pub Unique : Dict V → Type ℓ
  Unique [] = Unit
  Unique ((k, v) ∷ d) = (lookup k d ≡ none) × Unique d

  pub insert-Unique : (k : String) (v : V) (d : Dict V) → Unique d → Unique (insert k v d)
  unfolding insert lookup
  insert-Unique k v [] u = (refl, tt)
  insert-Unique k v ((j, old) ∷ d) u =
      ground (arith, eq_iff j k, eq_iff k j, lookup-insert k j v d, insert-Unique k v d u.1)

  -- A predicate of all entries holds at what `lookup` finds.
  abbrev pub Entries {κ} : (String → V → Type κ) → Dict V → Type κ
  Entries P d = All (λ e. P e.0 e.1) d

  pub Entries-lookup {κ} :
      (P : String → V → Type κ) (k : String) (v : V) (d : Dict V)
      → Entries P d
      → lookup k d ≡ some v
      → P k v
  unfolding lookup
  Entries-lookup P k v [] h e = cc
  Entries-lookup P k v ((j, old) ∷ d) h e = elim (Bool-cases (j == k)) [
    | inl same ↦
        let found : some old ≡ some v = rw same at e in
        let q : old ≡ v = cc in subst₂ P ((eq_iff j k).0 same) q h.0
    | inr other ↦ Entries-lookup P k v d h.1 (rw other at e)
  ]

  -- The key of each entry is found.
  pub Entries-found : (d : Dict V) → Entries (λ k v. is_some (lookup k d) ≡ true) d
  unfolding lookup
  Entries-found [] = tt
  Entries-found ((j, old) ∷ d) =
      (rw (eq_refl j), All-map d (λ e h. ground (arith, h)) (Entries-found d))

  pub Entries-self : (d : Dict V) → Unique d → Entries (λ k v. lookup k d ≡ some v) d
  unfolding lookup
  Entries-self [] u = tt
  Entries-self ((j, old) ∷ d) u =
      (rw (eq_refl j), All-map d (λ e h. ground (arith, h, u.0, eq_iff j e.0)) (Entries-self d u.1))
