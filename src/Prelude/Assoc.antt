-- ===== src/Prelude/Assoc.antt =====
-- A key-value map as an association list with ascending native keys.
use Prim.Native.Nat.{ℕ, ◌≤◌, ◌<◌, max, compare, Ordering}
use mathlib.Core.List.{List, [], ◌∷◌}
use mathlib.Core.Option.{Option, none, some}
use mathlib.Core.Path.{◌≡◌, refl}
use native.Mathlib.Omega.{arith}
use prism_auto_compounding_c.Prelude.Lists.{All}

module _ {ℓ} {V : Type ℓ} where
  abbrev pub lookup : ℕ → List (ℕ × V) → Option V
  lookup k [] = none
  lookup k ((j, v) ∷ m) = elim (compare k j) [ Ordering.eq ↦ some v | _ ↦ lookup k m ]

  abbrev pub insert : ℕ → V → List (ℕ × V) → List (ℕ × V)
  insert k v [] = (k, v) ∷ []
  insert k v ((j, w) ∷ m) = elim (compare k j) [
    | Ordering.lt ↦ (k, v) ∷ (j, w) ∷ m
    | Ordering.eq ↦ (k, v) ∷ m
    | Ordering.gt ↦ (j, w) ∷ insert k v m
  ]

  abbrev pub erase : ℕ → List (ℕ × V) → List (ℕ × V)
  erase k [] = []
  erase k ((j, w) ∷ m) = elim (compare k j) [ Ordering.eq ↦ erase k m | _ ↦ (j, w) ∷ erase k m ]

  -- The largest key, or 0.
  abbrev pub top_key : List (ℕ × V) → ℕ
  top_key [] = 0
  top_key ((j, w) ∷ m) = max j (top_key m)

  pub lookup-insert_self : (k : ℕ) (v : V) (m : List (ℕ × V)) → lookup k (insert k v m) ≡ some v
  lookup-insert_self k v [] = ground arith
  lookup-insert_self k v ((j, w) ∷ m) = ground (arith, lookup-insert_self k v m)

  pub lookup-insert_ne :
      (j k : ℕ) (v : V) (m : List (ℕ × V)) → (j ≡ k → ⊥) → lookup j (insert k v m) ≡ lookup j m
  lookup-insert_ne j k v [] h = ground arith
  lookup-insert_ne j k v ((i, w) ∷ m) h = ground (arith, lookup-insert_ne j k v m h)

  pub lookup-erase_self : (k : ℕ) (m : List (ℕ × V)) → lookup k (erase k m) ≡ none
  lookup-erase_self k [] = refl
  lookup-erase_self k ((i, w) ∷ m) = ground (arith, lookup-erase_self k m)

  pub lookup-erase_ne :
      (j k : ℕ) (m : List (ℕ × V)) → (j ≡ k → ⊥) → lookup j (erase k m) ≡ lookup j m
  lookup-erase_ne j k [] h = refl
  lookup-erase_ne j k ((i, w) ∷ m) h = ground (arith, lookup-erase_ne j k m h)

  -- Only keys up to the largest are found.
  pub lookup-top_key : (k : ℕ) (v : V) (m : List (ℕ × V)) → lookup k m ≡ some v → k ≤ top_key m
  lookup-top_key k v [] h = cc
  lookup-top_key k v ((j, w) ∷ m) h = ground (arith, lookup-top_key k v m)

  pub top_key-insert :
      (k : ℕ) (v : V) (m : List (ℕ × V)) → top_key (insert k v m) ≡ max k (top_key m)
  top_key-insert k v [] = refl
  top_key-insert k v ((j, w) ∷ m) = ground (arith, top_key-insert k v m)

module _ {V : Type 0} where
  -- The keys are in ascending order, each once.
  abbrev pub Ascending : List (ℕ × V) → Type 0
  Ascending [] = Unit
  Ascending ((k, v) ∷ m) = All (λ e. k < e.0) m × Ascending m

  above-insert :
      (j k : ℕ) (v : V) (m : List (ℕ × V))
      → j < k
      → All (λ e. j < e.0) m
      → All (λ e. j < e.0) (insert k v m)
  above-insert j k v [] lt h = (lt, tt)
  above-insert j k v ((i, w) ∷ m) lt h = ground (arith, above-insert j k v m lt h.1)

  above-erase : (j k : ℕ) (m : List (ℕ × V)) → All (λ e. j < e.0) m → All (λ e. j < e.0) (erase k m)
  above-erase j k [] h = tt
  above-erase j k ((i, w) ∷ m) h = ground (arith, above-erase j k m h.1)

  above_trans : (i j : ℕ) (m : List (ℕ × V)) → i < j → All (λ e. j < e.0) m → All (λ e. i < e.0) m
  above_trans i j [] lt h = tt
  above_trans i j ((k, w) ∷ m) lt h = (omega arith, above_trans i j m lt h.1)

  pub insert-Ascending : (k : ℕ) (v : V) (m : List (ℕ × V)) → Ascending m → Ascending (insert k v m)
  insert-Ascending k v [] h = (tt, tt)
  insert-Ascending k v ((i, w) ∷ m) h =
      ground (arith, insert-Ascending k v m h.1, above-insert i k v m, above_trans k i m)

  pub erase-Ascending : (k : ℕ) (m : List (ℕ × V)) → Ascending m → Ascending (erase k m)
  erase-Ascending k [] h = tt
  erase-Ascending k ((i, w) ∷ m) h = ground (arith, erase-Ascending k m h.1, above-erase i k m h.0)

  pub lookup-below : (k : ℕ) (m : List (ℕ × V)) → All (λ e. k < e.0) m → lookup k m ≡ none
  lookup-below k [] h = refl
  lookup-below k ((j, w) ∷ m) h = ground (arith, lookup-below k m h.1)
