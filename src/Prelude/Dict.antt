-- ===== src/Prelude/Dict.antt =====
-- A finite map with numbers for keys, as an association list: a write replaces the entry where it
-- stands, or adds one at the end.
use Prim.Native.Nat.{ℕ, ◌+◌, ◌≤◌}
use mathlib.Core.Path.{◌≡◌, refl, subst₂}
use mathlib.Core.Option.{Option, none, some}
use mathlib.Core.Logic.{inl, inr}
use mathlib.Core.List.{List, [], ◌∷◌}
use native.Mathlib.Omega.{arith}
use proof_of_thought.Prelude.Tests.{◌==◌, ==_iff, if◌then◌else◌, Bool-cases}

abbrev pub Dict {ℓ} : Type ℓ → Type ℓ
Dict V = List (ℕ × V)

module _ {ℓ} {V : Type ℓ} where
  unfoldable pub lookup : ℕ → Dict V → Option V
  lookup k [] = none
  lookup k ((j, v) ∷ d) = if j == k then some v else lookup k d

  unfoldable pub insert : ℕ → V → Dict V → Dict V
  insert k v [] = (k, v) ∷ []
  insert k v ((j, u) ∷ d) = if j == k then (k, v) ∷ d else (j, u) ∷ insert k v d

  -- What is found after a write, at any key.
  pub lookup-insert :
      (k j : ℕ) (v : V) (d : Dict V)
      → lookup j (insert k v d) ≡ (if k == j then some v else lookup j d)
  unfolding lookup insert
  lookup-insert k j v [] = refl
  lookup-insert k j v ((i, u) ∷ d) = ground (arith, lookup-insert k j v d)

  -- The sum of a measure over all entries.
  unfoldable pub total : (V → ℕ) → Dict V → ℕ
  total f [] = 0
  total f ((j, v) ∷ d) = f v + total f d

  -- A write to a key that is held exchanges the old value's share for the new one's.
  pub total-insert :
      (f : V → ℕ) (k : ℕ) (v old : V) (d : Dict V)
      → lookup k d ≡ some old
      → total f (insert k v d) + f old ≡ total f d + f v
  unfolding lookup insert total
  total-insert f k v old [] e = ground arith
  total-insert f k v old ((j, u) ∷ d) e = ground (arith, total-insert f k v old d)

  -- A write to a new key adds its share.
  pub total-insert_new :
      (f : V → ℕ) (k : ℕ) (v : V) (d : Dict V)
      → lookup k d ≡ none
      → total f (insert k v d) ≡ total f d + f v
  unfolding lookup insert total
  total-insert_new f k v [] e = ground arith
  total-insert_new f k v ((j, u) ∷ d) e = ground (arith, total-insert_new f k v d)

  -- What a write does to the entries and to the sums.
  pub ruleset writes = (lookup-insert, total-insert, total-insert_new)

  -- What is found has its share in the sum.
  pub total-ge : (f : V → ℕ) (k : ℕ) (v : V) (d : Dict V) → lookup k d ≡ some v → f v ≤ total f d
  unfolding lookup total
  total-ge f k v [] e = cc
  total-ge f k v ((j, u) ∷ d) e = ground (arith, total-ge f k v d)

  -- A property of every entry.
  abbrev pub Holds {κ} : (ℕ → V → Type κ) → Dict V → Type (ℓ ⊔ κ)
  Holds P d = (k : ℕ) (v : V) → lookup k d ≡ some v → P k v

  pub insert-Holds {κ} :
      (P : ℕ → V → Type κ) (k : ℕ) (v : V) (d : Dict V) → P k v → Holds P d → Holds P (insert k v d)
  insert-Holds P k v d p h j u f = elim (Bool-cases (k == j)) [
    | inl same ↦ let e : v ≡ u = cc (lookup-insert k j v d) in subst₂ P ((==_iff k j).0 same) e p
    | inr other ↦ h j u (cc (lookup-insert k j v d))
  ]
