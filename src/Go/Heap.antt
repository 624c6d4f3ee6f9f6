-- ===== src/Go/Heap.antt =====
-- container/heap, as queue.go calls it: a binary heap in a slice, under a test `less`.
-- `none` is a run-time panic, an index out of range, or the end of the fuel.
pub mod Order
pub mod Up
pub mod Down
pub mod Laws
use langley.Prelude.{
  ℕ, zero, suc, ◌+◌, ◌-◌, ◌*◌, ◌/◌, Bool, true, false, not, ◌&&◌, ◌||◌, List, [], ◌∷◌, ◌++◌, Option,
  none, some, ltb, leb, ◌==◌, ◌>>=◌, if◌then◌else◌, length, get_elem?, set, take,
}

-- heap.Swap
unfoldable pub swap {ℓ} : {A : Type ℓ} → List A → ℕ → ℕ → Option (List A)
swap h i j = do x ← get_elem? h i; y ← get_elem? h j; some (set (set h i y) j x)

abbrev pub parent : ℕ → ℕ
parent c = (c - 1) / 2

module _ {ℓ} {A : Type ℓ} (less : A → A → Bool) where
  -- heap.Less
  unfoldable pub less_at : List A → ℕ → ℕ → Option Bool
  less_at h i j = do x ← get_elem? h i; y ← get_elem? h j; some (less x y)

  unfoldable pub up_loop : ℕ → List A → ℕ → Option (List A)
  up_loop zero h j = none
  up_loop (suc k) h j =
      let rise = swap h (parent j) j >>= λ g. up_loop k g (parent j) in
      let step = less_at h j (parent j) >>= λ before. if before then rise else some h in
      if parent j == j then some h else step

  abbrev pub up : List A → ℕ → Option (List A)
  up h j = up_loop (suc j) h j

  -- the child of `i` that comes first, among the first `n`
  unfoldable pub first_child : List A → ℕ → ℕ → Option ℕ
  first_child h i n =
      let left = 2 * i + 1 in
      if ltb (left + 1) n
      then (do before ← less_at h (left + 1) left; some (if before then left + 1 else left))
      else some left

  -- the new slice, and the index where the entry stops
  unfoldable pub down_loop : ℕ → List A → ℕ → ℕ → Option (List A × ℕ)
  down_loop zero h i n = none
  down_loop (suc k) h i n =
      let step : Option (List A × ℕ) = do
        j ← first_child h i n
        before ← less_at h j i
        let sink = swap h i j >>= λ g. down_loop k g j n
        if before then sink else some (h, i)
      in if leb n (2 * i + 1) then some (h, i) else step

  abbrev pub down : List A → ℕ → ℕ → Option (List A × ℕ)
  down h i n = down_loop (suc n) h i n

  -- the last entry, and the slice without it
  abbrev take_last : List A → Option (A × List A)
  take_last h = do x ← get_elem? h (length h - 1); some (x, take (length h - 1) h)

  unfoldable pub push : List A → A → Option (List A)
  push h x = up (h ++ x ∷ []) (length (h ++ x ∷ []) - 1)

  unfoldable pub pop : List A → Option (A × List A)
  pop h = do let n = length h - 1; g ← swap h 0 n; (f, _) ← down g 0 n; take_last f

  -- heap.Remove: `down` reports whether the entry moved, and `up` runs if it did not
  unfoldable pub remove : List A → ℕ → Option (A × List A)
  remove h i = do
    let n = length h - 1
    f ←
        if n == i
        then some h
        else (do g ← swap h i n; (e, stop) ← down g i n; if ltb i stop then some e else up e i)
    take_last f
