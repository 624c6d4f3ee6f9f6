-- ===== src/Prelude/Maps.antt =====
-- Go's map with text keys, as an association list with one entry for each key.
use mathlib.Core.Path.{◌≡◌, refl}
use mathlib.Core.Logic.{◌≢◌}
use mathlib.Core.Option.{Option, none, some}
use mathlib.Core.List.{List, [], ◌∷◌}
use native.Mathlib.Omega.{arith}
use langley.Prelude.Tests.{if◌then◌else◌}
use langley.Prelude.Text.{Bytes, beq, beq_iff}

abbrev pub Dict {ℓ} : Type ℓ → Type ℓ
Dict V = List (Bytes × V)

module _ {ℓ} {V : Type ℓ} where
  unfoldable pub lookup : Bytes → List (Bytes × V) → Option V
  lookup k [] = none
  lookup k ((j, v) ∷ m) = if beq j k then some v else lookup k m

  -- m[k] = v
  unfoldable pub insert : Bytes → V → List (Bytes × V) → List (Bytes × V)
  insert k v [] = (k, v) ∷ []
  insert k v ((j, w) ∷ m) = if beq j k then (k, v) ∷ m else (j, w) ∷ insert k v m

  -- delete(m, k)
  unfoldable pub erase : Bytes → List (Bytes × V) → List (Bytes × V)
  erase k [] = []
  erase k ((j, w) ∷ m) = if beq j k then m else (j, w) ∷ erase k m

  pub lookup-insert :
      (key other : Bytes) (v : V) (m : List (Bytes × V))
      → lookup other (insert key v m) ≡ (if beq key other then some v else lookup other m)
  unfolding lookup insert
  lookup-insert key other v ((j, w) ∷ m) =
      let rest = lookup-insert key other v m in
      ground (arith, rest, beq_iff j key, beq_iff key other, beq_iff j other)
  lookup-insert key other v [] = refl

  pub lookup-insert_self :
      (k : Bytes) (v : V) (m : List (Bytes × V)) → lookup k (insert k v m) ≡ some v
  lookup-insert_self k v m = ground (arith, lookup-insert k k v m, beq_iff k k)

  pub lookup-insert_ne :
      (k j : Bytes) (v : V) (m : List (Bytes × V)) → k ≢ j → lookup j (insert k v m) ≡ lookup j m
  lookup-insert_ne k j v m h = ground (arith, lookup-insert k j v m, beq_iff k j)
