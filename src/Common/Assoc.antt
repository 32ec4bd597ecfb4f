-- ===== src/Common/Assoc.antt =====
-- Association lists: finding, changing and removing under one key.
use Prim.Native.Nat.{◌+◌}
use mathlib.Core.Path.{◌≡◌, refl}
use mathlib.Core.Logic.{inl, inr}
use mathlib.Core.Option.{Option, none, some}
use mathlib.Core.List.{List, [], ◌∷◌}
use native.Mathlib.Omega.{arith}
use falconfs.Common.Tests.{if◌then◌else◌, Bool-cases}
use falconfs.Common.Lists.{length}
use falconfs.Common.Keys.{Eq, ◌=?◌}

abbrev pub mapped {κ} : {V : Type κ} → (V → V) → Option V → Option V
mapped f none = none
mapped f (some v) = some (f v)

module _ {ℓ κ} {K : Type ℓ} {V : Type κ} ⦃e : Eq K⦄ where
  unfoldable pub find : K → List (K × V) → Option V
  find k [] = none
  find k ((j, v) ∷ xs) = if j =? k then some v else find k xs

  -- The value under the key, changed in place.
  unfoldable pub change : K → (V → V) → List (K × V) → List (K × V)
  change k f [] = []
  change k f ((j, v) ∷ xs) = if j =? k then (j, f v) ∷ change k f xs else (j, v) ∷ change k f xs

  unfoldable pub remove : K → List (K × V) → List (K × V)
  remove k [] = []
  remove k ((j, v) ∷ xs) = if j =? k then remove k xs else (j, v) ∷ remove k xs

  pub find-change :
      (k j : K) (f : V → V) (xs : List (K × V))
      → find k (change j f xs) ≡ (if j =? k then mapped f (find k xs) else find k xs)
  unfolding find change
  find-change k j f [] = ground arith
  find-change k j f ((i, v) ∷ xs) =
      ground (arith, find-change k j f xs, e.beq_iff i k, e.beq_iff i j, e.beq_iff j k)

  pub find-remove :
      (k j : K) (xs : List (K × V)) → find k (remove j xs) ≡ (if j =? k then none else find k xs)
  unfolding find remove
  find-remove k j [] = ground arith
  find-remove k j ((i, v) ∷ xs) =
      ground (arith, find-remove k j xs, e.beq_iff i k, e.beq_iff i j, e.beq_iff j k)

  -- No key stands twice.
  abbrev pub Distinct : List (K × V) → Type κ
  Distinct [] = Unit
  Distinct ((j, v) ∷ xs) = (find j xs ≡ none) × Distinct xs

  pub change-Distinct :
      (k : K) (f : V → V) (xs : List (K × V)) → Distinct xs → Distinct (change k f xs)
  unfolding find change
  change-Distinct k f [] d = tt
  change-Distinct k f ((j, v) ∷ xs) (d, ds) = elim (Bool-cases (j =? k)) [
    | inl h ↦ rw h (ground (arith, find-change j k f xs), change-Distinct k f xs ds)
    | inr h ↦ rw h (ground (arith, find-change j k f xs), change-Distinct k f xs ds)
  ]

  pub remove-Distinct : (k : K) (xs : List (K × V)) → Distinct xs → Distinct (remove k xs)
  unfolding find remove
  remove-Distinct k [] d = tt
  remove-Distinct k ((j, v) ∷ xs) (d, ds) = elim (Bool-cases (j =? k)) [
    | inl h ↦ rw h (remove-Distinct k xs ds)
    | inr h ↦ rw h (ground (arith, find-remove j k xs), remove-Distinct k xs ds)
  ]

  pub length-change : (k : K) (f : V → V) (xs : List (K × V)) → length (change k f xs) ≡ length xs
  unfolding change
  length-change k f [] = refl
  length-change k f ((j, v) ∷ xs) = ground (arith, length-change k f xs)

  remove-absent : (k : K) (xs : List (K × V)) → find k xs ≡ none → remove k xs ≡ xs
  unfolding find remove
  remove-absent k [] h = refl
  remove-absent k ((j, v) ∷ xs) h = ground (arith, remove-absent k xs)

  pub length-remove :
      (k : K) (v : V) (xs : List (K × V))
      → Distinct xs
      → find k xs ≡ some v
      → length (remove k xs) + 1 ≡ length xs
  unfolding find remove
  length-remove k v [] d h = ground arith
  length-remove k v ((j, w) ∷ xs) (d, ds) h =
      ground (arith, length-remove k v xs ds, remove-absent k xs, e.beq_iff j k)
