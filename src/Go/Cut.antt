-- ===== src/Go/Cut.antt =====
-- strings.Cut and strings.SplitN at one byte: the cut is at the first such byte.
use langley.Prelude.{
  ℕ, ◌≡◌, ap, false, ◌==◌, [], ◌∷◌, ◌++◌, Option, none, some, Bytes, Bool-cases, inl, inr, arith,
}
use langley.Go.Strings.{cut}

-- the bytes of a text are not `c`
abbrev pub Without : ℕ → Bytes → Type 0
Without c [] = Unit {0}
Without c (x ∷ s) = ((x == c) ≡ false) × Without c s

-- a cut is at the first `c`
abbrev pub IsCut : ℕ → Bytes → Option (Bytes × Bytes) → Type 0
IsCut c s none = Without c s
IsCut c s (some p) = (s ≡ p.0 ++ c ∷ p.1) × Without c p.0

pub cut-IsCut : (c : ℕ) (s : Bytes) → IsCut c s (cut c s)
unfolding cut
cut-IsCut c [] = tt
cut-IsCut c (x ∷ s) = elim (Bool-cases (x == c)) [
  | inl here ↦ rw here (ground arith, tt)
  | inr later ↦ rw later (by_rest later (cut c s) (cut-IsCut c s))
]
  where
    by_rest :
        (x == c) ≡ false
        → (o : Option (Bytes × Bytes)) → IsCut c s o
        → IsCut c (x ∷ s) (elim o [ none ↦ none | some p ↦ some (x ∷ p.0, p.1) ])
    by_rest later none h = (later, h)
    by_rest later (some p) h = (ap (◌∷◌ x) h.0, (later, h.1))
