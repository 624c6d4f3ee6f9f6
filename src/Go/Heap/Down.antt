-- ===== src/Go/Heap/Down.antt =====
-- `down` mends a heap in which one entry may be too high.
use mathlib.Core.List.Perm
use langley.Prelude.{
  ℕ, zero, suc, ◌+◌, ◌*◌, ◌≤◌, ◌<◌, ◌≡◌, ◌⊎◌, ◌∙◌, refl, Bool, true, false, List, Perm, some, arith,
  ltb, leb, length, get_or, exchange, exchange-perm, length-exchange, get_or-exchange, Bool-cases,
  inl, inr,
}
use langley.Go.Heap.{parent, first_child, down_loop}
use langley.Go.Heap.Order.{IsOrder, NotAfter, IsHeap, DownInv, swap-exchange, less_at-get_or}

module _ {ℓ} {A : Type ℓ} (less : A → A → Bool) (d : A) (o : IsOrder less) where
  -- `m` is the child of `i`, among the first `n`, that no other child comes before
  record IsFirstChild (n : ℕ) (h : List A) (i m : ℕ) : Type 0 where
    inside : m < n
    child : (m ≡ 2 * i + 1) ⊎ (m ≡ 2 * i + 2)
    first : (c : ℕ) → 0 < c → c < n → parent c ≡ i → NotAfter less d h m c

  irrefl : (x : A) → less x x ≡ false
  irrefl x = ground (arith, o.asymm x x)

  child_cases : (i c : ℕ) → 0 < c → parent c ≡ i → (c ≡ 2 * i + 1) ⊎ (c ≡ 2 * i + 1 + 1)
  child_cases i c p e = omega arith

  first_child-IsFirstChild :
      (n : ℕ) (h : List A) (i : ℕ)
      → n ≤ length h
      → 2 * i + 1 < n
      → (m : ℕ) × (first_child less h i n ≡ some m) × IsFirstChild n h i m
  unfolding first_child
  first_child-IsFirstChild n h i fits inn = elim (Bool-cases (ltb (2 * i + 1 + 1) n)) [
    | inr alone ↦ (
      2 * i + 1,
      rw alone,
      record {
        inside = inn;
        child = omega arith;
        first = λ c p q e. ground (arith, child_cases i c, irrefl (get_or h (2 * i + 1) d));
      },
    )
    | inl both ↦
        let hr : 2 * i + 1 + 1 < n = ground arith in
        let read =
          less_at-get_or d h (2 * i + 1 + 1) (2 * i + 1) (omega arith) (omega arith) less in
        elim (Bool-cases (less (get_or h (2 * i + 1 + 1) d) (get_or h (2 * i + 1) d))) [
          | inl right ↦ (
            2 * i + 1 + 1,
            rw (both, read, right),
            record {
              inside = hr;
              child = omega arith;
              first = λ c p q e.
                  ground (
                    arith,
                    child_cases i c,
                    irrefl (get_or h (2 * i + 1 + 1) d),
                    o.asymm _ _ right,
                  );
            },
          )
          | inr left ↦ (
            2 * i + 1,
            rw (both, read, left),
            record {
              inside = inn;
              child = omega arith;
              first = λ c p q e. ground (arith, child_cases i c, irrefl (get_or h (2 * i + 1) d));
            },
          )
        ]
  ]

  exchange-DownInv :
      (n : ℕ) (h : List A) (i m : ℕ)
      → n ≤ length h
      → DownInv less d n h i
      → IsFirstChild n h i m
      → less (get_or h m d) (get_or h i d) ≡ true
      → DownInv less d n (exchange h i m d) m
  exchange-DownInv n h i m fits v s below =
      let at =
        get_or-exchange h i m d (omega (arith, s.inside, s.child)) (omega (arith, s.inside)) in
      let top = o.asymm _ _ below in
      let apart : parent m ≡ i = omega (arith, s.child) in
      let lower : i < m = omega (arith, s.child) in
      record {
        edges = λ c p q r. ground (
          arith,
          at c,
          at (parent c),
          v.edges c,
          v.bridged m,
          v.bridged c,
          s.first c,
          top,
          s.inside,
        );
        bridged = λ c p q r t. ground (arith, at c, at (parent m), v.edges c);
      }

  -- what `down` leaves: a heap of the same entries, the same past `n`
  pub record Lowered (n : ℕ) (h g : List A) : Type ℓ where
    pub heap : IsHeap less d n g
    pub same : Perm g h
    pub beyond : (c : ℕ) → n ≤ c → get_or g c d ≡ get_or h c d

  settled-Lowered :
      (n : ℕ) (h : List A) (i : ℕ)
      → DownInv less d n h i
      → ((c : ℕ) → 0 < c → c < n → parent c ≡ i → NotAfter less d h i c)
      → Lowered n h h
  settled-Lowered n h i v below = record {
    heap = λ c p q. ground (arith, v.edges c p q, below c p q);
    same = Perm.refl h;
    beyond = λ c p. refl;
  }

  -- `down` never fails on such a slice, and turns it into a heap of the same entries
  pub down_loop_lowers :
      (k n : ℕ) (h : List A) (i : ℕ)
      → n < k + i
      → 0 < k
      → n ≤ length h
      → DownInv less d n h i
      → (g : List A) × (stop : ℕ) × (down_loop less k h i n ≡ some (g, stop)) × Lowered n h g
  unfolding down_loop
  down_loop_lowers zero n h i f pos fits v = absurd (omega arith)
  down_loop_lowers (suc k) n h i f pos fits v = elim (Bool-cases (leb n (2 * i + 1))) [
    | inl leaf ↦ (
      h,
      i,
      rw leaf,
      settled-Lowered n h i v (λ c p q e. absurd (ground (arith, child_cases i c))),
    )
    | inr inner ↦
        let hc : 2 * i + 1 < n = ground arith in
        let hi : i < length h = omega arith in
        let (m, found, s) = first_child-IsFirstChild n h i fits hc in
        let hm : m < length h = omega (arith, s.inside) in
        let lower : i < m = omega (arith, s.child) in
        let compared = less_at-get_or d h m i hm hi less in
        elim (Bool-cases (less (get_or h m d) (get_or h i d))) [
          | inr settled ↦ (
            h,
            i,
            rw (inner, found, compared, settled),
            settled-Lowered n h i v
                (λ c p q e. o.not_after_trans _ (get_or h m d) _ settled (s.first c p q e)),
          )
          | inl below ↦
              let (g, stop, runs, t) =
                down_loop_lowers k n (exchange h i m d) m (omega arith) (omega (arith, s.inside))
                  (rw length-exchange fits) (exchange-DownInv n h i m fits v s below) in
              (
                g,
                stop,
                rw (inner, found, compared, below, swap-exchange d h i m hi hm) runs,
                record {
                  heap = t.heap;
                  same = Perm.trans t.same (exchange-perm h i m d hi hm);
                  beyond = λ c p.
                      t.beyond c p ∙ ground (arith, get_or-exchange h i m d hi hm c, s.inside);
                },
              )
        ]
  ]
