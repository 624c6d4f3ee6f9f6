-- ===== src/Go/Heap/Order.antt =====
-- The heap order, and the two shapes in which one entry may be out of place.
use langley.Prelude.{
  ℕ, zero, suc, ◌<◌, ◌≡◌, ◌≢◌, Bool, true, false, List, some, arith, length, get_or,
  get_elem?-get_or, exchange,
}
use langley.Go.Heap.{parent, swap, less_at}

-- `less` is a strict weak order: "not after" is transitive, and nothing comes before itself both ways.
pub record IsOrder {ℓ} {A : Type ℓ} (less : A → A → Bool) : Type ℓ where
  pub asymm : (x y : A) → less x y ≡ true → less y x ≡ false
  pub not_after_trans : (x y z : A) → less y x ≡ false → less z y ≡ false → less z x ≡ false

module _ {ℓ} {A : Type ℓ} (less : A → A → Bool) (d : A) where
  -- the entry at `i` may stand above the one at `j`
  abbrev pub NotAfter : List A → ℕ → ℕ → Type 0
  NotAfter h i j = less (get_or h j d) (get_or h i d) ≡ false

  -- the first `n` entries form a heap
  abbrev pub IsHeap : ℕ → List A → Type 0
  IsHeap n h = (c : ℕ) → 0 < c → c < n → NotAfter h (parent c) c

  -- past `i`, from its parent to its children, the edges are in order
  abbrev pub IsBridged : ℕ → List A → ℕ → Type 0
  IsBridged n h i = (c : ℕ) → 0 < c → c < n → parent c ≡ i → 0 < i → NotAfter h (parent i) c

  -- only the edge above `i` may be out of order
  pub record UpInv (n : ℕ) (h : List A) (i : ℕ) : Type 0 where
    pub inside : i < n
    pub edges : (c : ℕ) → 0 < c → c < n → c ≢ i → NotAfter h (parent c) c
    pub bridged : IsBridged n h i

  -- only the edges below `i` may be out of order
  pub record DownInv (n : ℕ) (h : List A) (i : ℕ) : Type 0 where
    pub edges : (c : ℕ) → 0 < c → c < n → parent c ≢ i → NotAfter h (parent c) c
    pub bridged : IsBridged n h i

  module _ (o : IsOrder less) where
    root_first_below : (k n : ℕ) (h : List A) (i : ℕ) → IsHeap n h → i < k → i < n → NotAfter h 0 i
    root_first_below zero n h i v f p = absurd (omega arith)
    root_first_below (suc k) n h zero v f p = irrefl (get_or h 0 d)
      where
        irrefl : (x : A) → less x x ≡ false
        irrefl x = ground (arith, o.asymm x x)
    root_first_below (suc k) n h (suc i) v f p =
        o.not_after_trans _ (get_or h (parent (suc i)) d) _
          (root_first_below k n h (parent (suc i)) v (omega arith) (omega arith))
          (v (suc i) (omega arith) p)

    -- no entry of a heap comes before the root
    pub root_first : (n : ℕ) (h : List A) (i : ℕ) → IsHeap n h → i < n → NotAfter h 0 i
    root_first n h i v p = root_first_below (suc i) n h i v (omega arith) p

module _ {ℓ} {A : Type ℓ} (d : A) (h : List A) (i j : ℕ) (hi : i < length h)
    (hj : j < length h) where
  pub swap-exchange : swap h i j ≡ some (exchange h i j d)
  unfolding swap
  swap-exchange = rw (get_elem?-get_or h i d hi, get_elem?-get_or h j d hj)

  pub less_at-get_or :
      (less : A → A → Bool) → less_at less h i j ≡ some (less (get_or h i d) (get_or h j d))
  unfolding less_at
  less_at-get_or less = rw (get_elem?-get_or h i d hi, get_elem?-get_or h j d hj)
