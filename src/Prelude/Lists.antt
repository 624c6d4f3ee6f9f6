-- ===== src/Prelude/Lists.antt =====
-- Lists measured and indexed by native numbers, under the library's names.
use Prim.Native.Nat.{ℕ, zero, suc, ◌+◌, ◌<◌, ◌≤◌}
use mathlib.Core.Path.{◌≡◌, refl, ap, ◌∙◌}
use mathlib.Core.Logic.{∥∥₁_elim}
use native.Mathlib.Nat.{ℕ_set}
use mathlib.Core.List.{List, [], ◌∷◌, ◌++◌, Perm, Permᴰ, perm_middle, append-nil}
use mathlib.Core.List.Perm
use mathlib.Core.Bool.{Bool, true, ◌&&◌}
use mathlib.Core.Option.{Option, none, some}
use native.Mathlib.Omega.{arith}
use langley.Prelude.Tests.{◌==◌, if◌then◌else◌}

module _ {ℓ} {A : Type ℓ} where
  abbrev pub length : List A → ℕ
  length [] = 0
  length (x ∷ xs) = suc (length xs)

  abbrev pub get_elem? : List A → ℕ → Option A
  get_elem? [] i = none
  get_elem? (x ∷ xs) zero = some x
  get_elem? (x ∷ xs) (suc i) = get_elem? xs i

  abbrev pub set : List A → ℕ → A → List A
  set [] i v = []
  set (x ∷ xs) zero v = v ∷ xs
  set (x ∷ xs) (suc i) v = x ∷ set xs i v

  abbrev pub take : ℕ → List A → List A
  take zero xs = []
  take (suc n) [] = []
  take (suc n) (x ∷ xs) = x ∷ take n xs

  abbrev pub drop : ℕ → List A → List A
  drop zero xs = xs
  drop (suc n) [] = []
  drop (suc n) (x ∷ xs) = drop n xs

  abbrev pub get_or : List A → ℕ → A → A
  get_or [] i d = d
  get_or (x ∷ xs) zero d = x
  get_or (x ∷ xs) (suc i) d = get_or xs i d

  pub length-set : (xs : List A) (n : ℕ) (y : A) → length (set xs n y) ≡ length xs
  length-set (x ∷ xs) (suc n) y = ap suc (length-set xs n y)
  length-set (x ∷ xs) zero y = refl
  length-set [] n y = refl

  pub get_elem?-get_or :
      (a : List A) (i : ℕ) (d : A) → i < length a → get_elem? a i ≡ some (get_or a i d)
  get_elem?-get_or [] i d h = absurd (omega arith)
  get_elem?-get_or (x ∷ a) zero d h = refl
  get_elem?-get_or (x ∷ a) (suc i) d h = get_elem?-get_or a i d (omega arith)

  pub get_or-set :
      (a : List A) (i j : ℕ) (v d : A)
      → i < length a
      → get_or (set a i v) j d ≡ (if i == j then v else get_or a j d)
  get_or-set [] i j v d h = absurd (omega arith)
  get_or-set (x ∷ a) zero zero v d h = refl
  get_or-set (x ∷ a) (suc i) (suc j) v d h = ground (arith, get_or-set a i j v d)
  get_or-set (x ∷ a) i j v d h = ground arith

  pub get_or-append :
      (a b : List A) (i : ℕ) (d : A) → i < length a → get_or (a ++ b) i d ≡ get_or a i d
  get_or-append [] b i d h = absurd (omega arith)
  get_or-append (x ∷ a) b zero d h = refl
  get_or-append (x ∷ a) b (suc i) d h = get_or-append a b i d (omega arith)

  pub get_or-take :
      (n : ℕ) (a : List A) (i : ℕ) (d : A) → i < n → get_or (take n a) i d ≡ get_or a i d
  get_or-take zero a i d h = absurd (omega arith)
  get_or-take (suc n) [] i d h = refl
  get_or-take (suc n) (x ∷ a) zero d h = refl
  get_or-take (suc n) (x ∷ a) (suc i) d h = get_or-take n a i d (omega arith)

  pub length-take : (n : ℕ) (a : List A) → n ≤ length a → length (take n a) ≡ n
  length-take zero a h = refl
  length-take (suc n) [] h = absurd (omega arith)
  length-take (suc n) (x ∷ a) h = ap suc (length-take n a (omega arith))

  pub take-append-get_or :
      (n : ℕ) (a : List A) (d : A) → length a ≡ suc n → take n a ++ get_or a n d ∷ [] ≡ a
  take-append-get_or zero (x ∷ []) d h = refl
  take-append-get_or (suc n) (x ∷ a) d h = ap (◌∷◌ x) (take-append-get_or n a d (omega arith))
  take-append-get_or n a d h = absurd (omega arith)

  Permᴰ-length : {xs ys : List A} → Permᴰ xs ys → length xs ≡ length ys
  Permᴰ-length (Permᴰ.trans first then_on) = Permᴰ-length first ∙ Permᴰ-length then_on
  Permᴰ-length (Permᴰ.swap x y) = refl
  Permᴰ-length (Permᴰ.cons x rest) = ap suc (Permᴰ-length rest)
  Permᴰ-length Permᴰ.nil = refl

  pub length-perm : {xs ys : List A} → Perm xs ys → length xs ≡ length ys
  length-perm p = ∥∥₁_elim p (ℕ_set _ _) Permᴰ-length

  pub length-append : (xs ys : List A) → length (xs ++ ys) ≡ length xs + length ys
  length-append (x ∷ xs) ys = omega (arith, length-append xs ys)
  length-append [] ys = omega arith

  pub concat-perm : (xs : List A) (y : A) → Perm (xs ++ y ∷ []) (y ∷ xs)
  concat-perm xs y = rw (append-nil xs) at (perm_middle {a = y} xs [])

  -- overwriting an entry: the old one leaves, the new one comes
  set-perm :
      (xs : List A) (n : ℕ) (y d : A) → n < length xs → Perm (get_or xs n d ∷ set xs n y) (y ∷ xs)
  set-perm (x ∷ xs) (suc n) y d h =
      Perm.trans (Perm.swap x _ _)
        (Perm.trans (Perm.cons x (set-perm xs n y d (omega arith))) (Perm.swap y x xs))
  set-perm (x ∷ xs) zero y d h = Perm.swap y x xs
  set-perm [] n y d h = absurd (omega arith)

  abbrev pub exchange : List A → ℕ → ℕ → A → List A
  exchange a i j d = set (set a i (get_or a j d)) j (get_or a i d)

  module _ (a : List A) (i j : ℕ) (d : A) where
    pub length-exchange : length (exchange a i j d) ≡ length a
    length-exchange = length-set (set a i (get_or a j d)) j (get_or a i d) ∙ length-set a i _

    pub get_or-exchange :
        i < length a
        → j < length a
        → (k : ℕ)
        → get_or (exchange a i j d) k d
          ≡ (if j == k then get_or a i d else if i == k then get_or a j d else get_or a k d)
    get_or-exchange i_in j_in k =
        get_or-set (set a i (get_or a j d)) j k (get_or a i d) d (rw length-set j_in)
        ∙ ap (λ e. if j == k then get_or a i d else e) (get_or-set a i k (get_or a j d) d i_in)

    pub exchange-perm : i < length a → j < length a → Perm (exchange a i j d) a
    exchange-perm i_in j_in =
        let first = set-perm a i (get_or a j d) d i_in in
        let second = set-perm (set a i (get_or a j d)) j (get_or a i d) d (rw length-set j_in) in
        let at_j : get_or (set a i (get_or a j d)) j d ≡ get_or a j d =
          ground (arith, get_or-set a i j (get_or a j d) d) in
        Perm.cons_inv (Perm.trans (rw at_j at second) first)

-- a test of all numbers below a bound, for tables
unfoldable pub every_below : (ℕ → Bool) → ℕ → Bool
every_below test zero = true
every_below test (suc bound) = every_below test bound && test bound

pub every_below_sound :
    (test : ℕ → Bool) (bound n : ℕ) → n < bound → every_below test bound ≡ true → test n ≡ true
unfolding every_below
every_below_sound test (suc bound) n h e = ground (arith, every_below_sound test bound n)
every_below_sound test zero n h e = absurd (omega arith)
