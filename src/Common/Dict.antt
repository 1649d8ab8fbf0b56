-- ===== src/Common/Dict.antt =====
-- A Python dict in insertion order.
use mathlib.Core.Path.{◌≡◌, refl, sym, ◌∙◌}
use mathlib.Core.Logic.{◌≢◌, ◌⊎◌, inl, inr}
use mathlib.Core.Bool.{Bool, true, false, false≢true}
use mathlib.Core.Option.{Option, none, some}
use mathlib.Core.List.{List, [], ◌∷◌}
use native.Mathlib.Omega.{arith}
use Prim.Native.Nat.{◌≤◌, ◌<◌}
use chat_terminal.Common.Lists.{length}
use chat_terminal.Common.Tests.{Eq, ◌==◌, if◌then◌else◌, Bool-cases}

abbrev pub Dict {ℓ κ} : Type ℓ → Type κ → Type (ℓ ⊔ κ)
Dict K V = List (K × V)

module _ {ℓ κ} {K : Type ℓ} ⦃e : Eq K⦄ {V : Type κ} where
  -- `d.get(k)`
  unfoldable pub lookup : K → Dict K V → Option V
  lookup k [] = none
  lookup k ((j, v) ∷ d) = if j == k then some v else lookup k d

  -- `k in d`
  abbrev pub contains : K → Dict K V → Bool
  contains k d = elim (lookup k d) [ none ↦ false | some _ ↦ true ]

  -- `d[k] = v`
  unfoldable pub insert : K → V → Dict K V → Dict K V
  insert k v [] = (k, v) ∷ []
  insert k v ((j, u) ∷ d) = if j == k then (k, v) ∷ d else (j, u) ∷ insert k v d

  -- `d.pop(k, None)`
  unfoldable pub erase : K → Dict K V → Dict K V
  erase k [] = []
  erase k ((j, v) ∷ d) = let rest = erase k d in if j == k then rest else (j, v) ∷ rest

  -- `d.update(other)`
  unfoldable pub update : Dict K V → Dict K V → Dict K V
  update d [] = d
  update d ((k, v) ∷ other) = update (insert k v d) other

  pub lookup-insert :
      (k j : K) (v : V) (d : Dict K V)
      → lookup j (insert k v d) ≡ (if k == j then some v else lookup j d)
  unfolding lookup insert
  lookup-insert k j v [] = refl
  lookup-insert k j v ((i, u) ∷ d) =
      ground (arith, e.decides k j, e.decides i k, e.decides i j, lookup-insert k j v d)

  pub lookup-erase :
      (k j : K) (d : Dict K V) → lookup j (erase k d) ≡ (if k == j then none else lookup j d)
  unfolding lookup erase
  lookup-erase k j [] = ground arith
  lookup-erase k j ((i, u) ∷ d) =
      ground (arith, e.decides k j, e.decides i k, e.decides i j, lookup-erase k j d)

  -- The two cases of a lookup after a write.
  pub insert_cases :
      (k j : K) (v : V) (d : Dict K V)
      → ((k ≡ j) × (lookup j (insert k v d) ≡ some v))
        ⊎ ((k ≢ j) × (lookup j (insert k v d) ≡ lookup j d))
  insert_cases k j v d = elim (Bool-cases (k == j)) [
    | inl same ↦ inl ((e.decides k j).0 same, rw (lookup-insert, same))
    | inr other ↦ inr (λ p. false≢true (sym other ∙ (e.decides k j).1 p), rw (lookup-insert, other))
  ]

  -- Taking out a key that is there makes the list shorter.
  length-erase_le : (k : K) (d : Dict K V) → length (erase k d) ≤ length d
  unfolding erase
  length-erase_le k [] = omega arith
  length-erase_le k ((j, u) ∷ d) = ground (arith, length-erase_le k d)

  pub length-erase :
      (k : K) (d : Dict K V) (v : V) → lookup k d ≡ some v → length (erase k d) < length d
  unfolding lookup erase
  length-erase k [] v h = cc
  length-erase k ((j, u) ∷ d) v h = ground (arith, h, length-erase_le k d, length-erase k d v)
