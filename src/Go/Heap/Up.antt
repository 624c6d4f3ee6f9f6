-- ===== src/Go/Heap/Up.antt =====
-- `up` mends a heap in which one entry may be too low.
use mathlib.Core.List.Perm
use langley.Prelude.{
  ℕ, zero, suc, ◌≤◌, ◌<◌, ◌≡◌, ◌∙◌, refl, Bool, true, List, Perm, some, arith, length, get_or,
  exchange, exchange-perm, length-exchange, get_or-exchange, ◌==◌, Bool-cases, inl, inr,
}
use langley.Go.Heap.{parent, up_loop}
use langley.Go.Heap.Order.{IsOrder, IsHeap, UpInv, swap-exchange, less_at-get_or}

module _ {ℓ} {A : Type ℓ} (less : A → A → Bool) (d : A) (o : IsOrder less) where
  -- what `up` leaves: a heap of the same entries, the same past `n`
  pub record Raised (n : ℕ) (h g : List A) : Type ℓ where
    pub heap : IsHeap less d n g
    pub same : Perm g h
    pub beyond : (c : ℕ) → n ≤ c → get_or g c d ≡ get_or h c d

  exchange-UpInv :
      (n : ℕ) (h : List A) (i : ℕ)
      → n ≤ length h
      → UpInv less d n h i
      → 0 < i
      → less (get_or h i d) (get_or h (parent i) d) ≡ true
      → UpInv less d n (exchange h (parent i) i d) (parent i)
  exchange-UpInv n h i fits v pos below =
      let at = get_or-exchange h (parent i) i d (omega arith) (omega arith) in
      let top = o.asymm _ _ below in
      record {
        inside = omega arith;
        edges = λ c p q r. ground (
          arith,
          at c,
          at (parent c),
          v.edges c,
          v.bridged c,
          top,
          o.not_after_trans (get_or h i d) (get_or h (parent i) d) (get_or h c d),
        );
        bridged = λ c p q r s. ground (
          arith,
          at c,
          at (parent (parent i)),
          v.edges c,
          v.edges (parent i),
          o.not_after_trans (get_or h (parent (parent i)) d) (get_or h (parent i) d) (get_or h c d),
        );
      }

  -- `up` never fails on such a slice, and turns it into a heap of the same entries
  pub up_loop_raises :
      (k n : ℕ) (h : List A) (i : ℕ)
      → i < k
      → n ≤ length h
      → UpInv less d n h i
      → (g : List A) × (up_loop less k h i ≡ some g) × Raised n h g
  unfolding up_loop
  up_loop_raises zero n h i f fits v = absurd (omega arith)
  up_loop_raises (suc k) n h i f fits v = elim (Bool-cases (parent i == i)) [
    | inl root ↦ (
      h,
      rw root,
      record {
        heap = λ c p q. v.edges c p q (ground arith);
        same = Perm.refl h;
        beyond = λ c p. refl;
      },
    )
    | inr inner ↦
        let pos : 0 < i = ground arith in
        let hi : i < length h = omega arith in
        let hp : parent i < length h = omega arith in
        let compared = less_at-get_or d h i (parent i) hi hp less in
        elim (Bool-cases (less (get_or h i d) (get_or h (parent i) d))) [
          | inr settled ↦ (
            h,
            rw (inner, compared, settled),
            record {
              heap = λ c p q. ground (arith, v.edges c);
              same = Perm.refl h;
              beyond = λ c p. refl;
            },
          )
          | inl below ↦
              let (g, runs, s) =
                up_loop_raises k n (exchange h (parent i) i d) (parent i) (omega arith)
                  (rw length-exchange fits) (exchange-UpInv n h i fits v pos below) in
              (
                g,
                rw (inner, compared, below, swap-exchange d h (parent i) i hp hi) runs,
                record {
                  heap = s.heap;
                  same = Perm.trans s.same (exchange-perm h (parent i) i d hp hi);
                  beyond = λ c p. s.beyond c p ∙ moved c p hp hi;
                },
              )
        ]
  ]
    where
      moved :
          (c : ℕ)
          → n ≤ c
          → (hp : parent i < length h) (hi : i < length h)
          → get_or (exchange h (parent i) i d) c d ≡ get_or h c d
      moved c p hp hi = ground (arith, get_or-exchange h (parent i) i d hp hi c, v.inside)
