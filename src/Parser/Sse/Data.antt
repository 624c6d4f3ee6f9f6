-- ===== src/Parser/Sse/Data.antt =====
-- The data lines that the loop of Parse of internal/parser/sse.go collects, and their size.
use langley.Prelude.{
  ℕ, ◌+◌, ◌≤◌, ◌≡◌, refl, true, List, [], ◌∷◌, ◌++◌, Bytes, codes, drop, zero, suc, ltb, length,
  Bool-cases, inl, inr, arith,
}
use mathlib.Core.List.{Memᴰ}
use langley.Go.Strings.{has_prefix, trim_prefix}
use langley.Parser.Sse.{Pending, max_event_data_size, read_line}

-- the bytes of some lines, with their ends
unfoldable pub size_of : List Bytes → ℕ
size_of [] = 0
size_of (l ∷ ls) = length l + 1 + size_of ls

length-drop : (n : ℕ) (s : Bytes) → length (drop n s) ≤ length s
length-drop zero s = omega arith
length-drop (suc n) [] = omega arith
length-drop (suc n) (b ∷ s) = omega (arith, length-drop n s)

length-trim_prefix : (s p : Bytes) → length (trim_prefix s p) ≤ length s
unfolding trim_prefix
length-trim_prefix s p = elim (Bool-cases (has_prefix s p)) [
  | inl e ↦ rw e (length-drop (length p) s)
  | inr e ↦ rw e (omega arith)
]

-- a line adds at most its own bytes
pub read_line-size :
    (s : Pending) (line : Bytes)
    → (read_line s line).accumulated_size ≤ s.accumulated_size + (length line + 1)
unfolding read_line
read_line-size s line = elim (Bool-cases (has_prefix line (codes "event:"))) [
  | inl e ↦ rw e (omega arith)
  | inr n ↦ elim (Bool-cases (has_prefix line (codes "data:"))) [
    | inl e ↦ rw (n, e) (omega (arith, length-trim_prefix line (codes "data:")))
    | inr m ↦ rw (n, m) (omega arith)
  ]
]

-- a text is the data of one of some lines
abbrev pub IsData : List Bytes → Bytes → Type 0
IsData whole d =
    (l : Bytes) × (Memᴰ l whole
      × ((has_prefix l (codes "data:") ≡ true) × (d ≡ trim_prefix l (codes "data:"))))

abbrev pub AllData : List Bytes → List Bytes → Type 0
AllData whole [] = Unit {0}
AllData whole (d ∷ ds) = IsData whole d × AllData whole ds

AllData-append :
    (whole ds : List Bytes) (d : Bytes)
    → AllData whole ds
    → IsData whole d
    → AllData whole (ds ++ d ∷ [])
AllData-append whole [] d h k = (k, tt)
AllData-append whole (x ∷ ds) d (e, h) k = (e, AllData-append whole ds d h k)

pub read_line-AllData :
    (whole : List Bytes) (s : Pending) (line : Bytes)
    → AllData whole s.data_lines
    → Memᴰ line whole
    → AllData whole (read_line s line).data_lines
unfolding read_line
read_line-AllData whole s line h m = elim (Bool-cases (has_prefix line (codes "event:"))) [
  | inl e ↦ rw e h
  | inr n ↦ elim (Bool-cases (has_prefix line (codes "data:"))) [
    | inr o ↦ rw (n, o) h
    | inl e ↦ elim (Bool-cases (ltb s.accumulated_size max_event_data_size)) [
      | inl room ↦ rw (n, e, room) (AllData-append whole s.data_lines _ h (line, (m, (e, refl))))
      | inr full ↦ rw (n, e, full) h
    ]
  ]
]
