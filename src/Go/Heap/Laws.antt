-- ===== src/Go/Heap/Laws.antt =====
-- What heap.Push and heap.Pop do to a heap: neither fails, both keep the order.
use mathlib.Core.List.Perm
use mathlib.Core.List.{Mem, not-mem-nil, forall_mem-cons}
use mathlib.Core.Bool.{Bool-set}
use mathlib.Core.Path.{ap}
use langley.Prelude.{
  ℕ, suc, ◌-◌, ◌≤◌, ◌<◌, ◌≡◌, ◌∙◌, refl, sym, Bool, false, List, [], ◌∷◌, ◌++◌, Perm, some, arith,
  length, get_or, take, exchange, length-append, length-take, length-perm, concat-perm,
  get_or-append, get_or-take, take-append-get_or, length-exchange, exchange-perm, get_or-exchange,
  get_elem?-get_or,
}
use langley.Go.Heap.{parent, push, pop, down}
use langley.Go.Heap.Order.{IsOrder, IsHeap, UpInv, DownInv, swap-exchange, root_first}
use langley.Go.Heap.Up.{up_loop_raises}
use langley.Go.Heap.Down.{Lowered, down_loop_lowers}

module _ {ℓ} {A : Type ℓ} (less : A → A → Bool) (d : A) where
  abbrev pub IsOrdered : List A → Type 0
  IsOrdered h = IsHeap less d (length h) h

  pub record Pushed (h : List A) (x : A) (g : List A) : Type ℓ where
    pub heap : IsOrdered g
    pub same : Perm g (x ∷ h)

  pub record Popped (h : List A) (x : A) (g : List A) : Type ℓ where
    pub heap : IsOrdered g
    pub same : Perm (x ∷ g) h
    pub first : (y : A) → Mem y h → less y x ≡ false

module _ {ℓ} {A : Type ℓ} (less : A → A → Bool) (d : A) (o : IsOrder less) where
  push_start :
      (h : List A) (x : A)
      → IsOrdered less d h
      → UpInv less d (length (h ++ x ∷ [])) (h ++ x ∷ []) (length (h ++ x ∷ []) - 1)
  push_start h x v =
      let size = length-append h (x ∷ []) in
      record {
        inside = omega (arith, size);
        edges = λ c p q r.
            ground (
              arith,
              size,
              v c,
              get_or-append h (x ∷ []) c d,
              get_or-append h (x ∷ []) (parent c) d,
            );
        bridged = λ c p q r s. absurd (omega (arith, size));
      }

  -- heap.Push adds the entry and keeps the order
  pub push_lem :
      (h : List A) (x : A)
      → IsOrdered less d h
      → (g : List A) × (push less h x ≡ some g) × Pushed less d h x g
  unfolding push
  push_lem h x v =
      let size = length-append h (x ∷ []) in
      let last = length (h ++ x ∷ []) - 1 in
      let (g, runs, s) =
        up_loop_raises less d o (suc last) (length (h ++ x ∷ [])) (h ++ x ∷ []) last (omega arith)
          (omega arith) (push_start h x v) in
      (
        g,
        runs,
        record {
          heap = rw (length-perm s.same) s.heap;
          same = Perm.trans s.same (concat-perm h x);
        },
      )

  pub all_of_get_or :
      (x : A) (h : List A)
      → ((i : ℕ) → i < length h → less (get_or h i d) x ≡ false)
      → (y : A) → Mem y h
      → less y x ≡ false
  all_of_get_or x [] f = λ y m. absurd (not-mem-nil m)
  all_of_get_or x (z ∷ h) f =
      (forall_mem-cons λ t. Bool-set _ _).1
        (f 0 (omega arith), all_of_get_or x h λ i p. f (suc i) (omega arith))

  pop_start :
      (h : List A) (n : ℕ)
      → length h ≡ suc n
      → IsOrdered less d h
      → DownInv less d n (exchange h 0 n d) 0
  pop_start h n size v =
      let at = get_or-exchange h 0 n d (omega arith) (omega arith) in
      record {
        edges = λ c p q r. ground (arith, v c, at c, at (parent c));
        bridged = λ c p q r s. absurd (omega arith);
      }

  restore_perm :
      (n : ℕ) (f h : List A) (x : A)
      → length f ≡ suc n
      → get_or f n d ≡ x
      → Perm f h
      → Perm (x ∷ take n f) h
  restore_perm n f h x long top p =
      let whole : take n f ++ x ∷ [] ≡ f =
        ap (λ t. take n f ++ t ∷ []) (sym top) ∙ take-append-get_or n f d long in
      Perm.trans (Perm.symm (concat-perm (take n f) x)) (rw whole p)

  -- the slice after `down`, cut before its last entry
  cut_Popped :
      (h f : List A) (n : ℕ)
      → IsOrdered less d h
      → length h ≡ suc n
      → Lowered less d o n (exchange h 0 n d) f
      → (length f ≡ suc n)
        × (get_or f n d ≡ get_or h 0 d)
        × Popped less d h (get_or h 0 d) (take n f)
  cut_Popped h f n v size s =
      let pos : 0 < length h = omega arith in
      let hn : n < length h = omega arith in
      let long : length f ≡ suc n = length-perm s.same ∙ length-exchange h 0 n d ∙ size in
      let top : get_or f n d ≡ get_or h 0 d =
        s.beyond n (omega arith) ∙ ground (arith, get_or-exchange h 0 n d pos hn n) in
      (
        long,
        top,
        record {
          heap = λ c p q.
              ground (
                arith,
                length-take n f,
                s.heap c,
                get_or-take n f c d,
                get_or-take n f (parent c) d,
              );
          same = restore_perm n f h _ long top (Perm.trans s.same (exchange-perm h 0 n d pos hn));
          first = all_of_get_or (get_or h 0 d) h (λ i p. root_first less d o (length h) h i v p);
        },
      )

  -- heap.Pop takes an entry that no other comes before, and keeps the order of the rest
  pub pop_lem :
      (h : List A)
      → 0 < length h
      → IsOrdered less d h
      → (x : A) × (g : List A) × (pop less h ≡ some (x, g)) × Popped less d h x g
  unfolding pop
  pop_lem h pos v =
      let n = length h - 1 in
      let size : length h ≡ suc n = omega arith in
      let fits : n ≤ length (exchange h 0 n d) = omega (arith, length-exchange h 0 n d) in
      let (f, stop, runs, s) =
        down_loop_lowers less d o (suc n) n (exchange h 0 n d) 0 (omega arith) (omega arith) fits
          (pop_start h n size v) in
      pop_finish h f stop n pos size runs (cut_Popped h f n v size s)
    where
      pop_finish :
          (h f : List A) (stop n : ℕ)
          → 0 < length h
          → length h ≡ suc n
          → down less (exchange h 0 n d) 0 n ≡ some (f, stop)
          → (length f ≡ suc n)
            × (get_or f n d ≡ get_or h 0 d)
            × Popped less d h (get_or h 0 d) (take n f)
          → (x : A) × (g : List A) × (pop less h ≡ some (x, g)) × Popped less d h x g
      pop_finish h f stop n pos size runs (long, top, s) =
          let whole : length h - 1 ≡ n = omega arith in
          let last : length f - 1 ≡ n = omega arith in
          (
            get_or h 0 d,
            take n f,
            rw
                (
                  whole,
                  swap-exchange d h 0 n pos (omega arith),
                  runs,
                  last,
                  get_elem?-get_or f n d (omega arith),
                  top,
                )
                refl,
            s,
          )
