-- ===== src/Prelude/Text.antt =====
-- Text as bytes, where the program walks it, and the equality test of texts.
use Prim.Native.Nat.{ℕ}
use Prim.Native.Char.{code}
use Prim.Native.String.{String}
use mathlib.Core.Path.{◌≡◌, refl}
use mathlib.Core.Logic.{◌↔◌, inl, inr, ◌≢◌}
use mathlib.Core.Bool.{Bool, true, false, ◌&&◌}
use mathlib.Core.List.{List, [], ◌∷◌}
use native.Mathlib.Omega.{arith}
use langley.Prelude.Tests.{◌==◌, Bool-cases}

abbrev pub Bytes : Type 0
Bytes = List ℕ

-- the bytes of an ASCII text
abbrev pub codes : String → Bytes
codes String.[] = []
codes (String.◌∷◌ c s) = code c ∷ codes s

abbrev pub is_empty : Bytes → Bool
is_empty [] = true
is_empty (c ∷ s) = false

unfoldable pub beq : Bytes → Bytes → Bool
beq [] [] = true
beq (x ∷ xs) (y ∷ ys) = x == y && beq xs ys
beq [] (y ∷ ys) = false
beq (x ∷ xs) [] = false

pub beq_sound : (xs ys : Bytes) → beq xs ys ≡ true → xs ≡ ys
unfolding beq
beq_sound [] [] h = refl
beq_sound (x ∷ xs) (y ∷ ys) h = ground (arith, beq_sound xs ys)
beq_sound [] (y ∷ ys) h = cc
beq_sound (x ∷ xs) [] h = cc

pub beq_refl : (xs : Bytes) → beq xs xs ≡ true
unfolding beq
beq_refl [] = refl
beq_refl (x ∷ xs) = ground (arith, beq_refl xs)

pub beq_iff : (xs ys : Bytes) → (beq xs ys ≡ true) ↔ (xs ≡ ys)
beq_iff xs ys = (beq_sound xs ys, λ e. rw (← e) (beq_refl xs))

pub beq_ne : (xs ys : Bytes) → xs ≢ ys → beq xs ys ≡ false
beq_ne xs ys h = elim (Bool-cases (beq xs ys)) [
  | inl e ↦ absurd (h (beq_sound xs ys e))
  | inr e ↦ e
]
