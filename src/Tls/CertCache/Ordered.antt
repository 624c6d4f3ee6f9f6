-- ===== src/Tls/CertCache/Ordered.antt =====
-- The LRU order of internal/tls/certcache.go as a list without repetitions, beside the map's keys.
use mathlib.Core.Logic.{∥∥₁_elim}
use native.Mathlib.Nat.{ℕ_set}
use mathlib.Core.List.{Permᴰ}
use mathlib.Core.List.Perm
use mathlib.Core.Path.{ap₂}
use langley.Prelude.{
  ℕ, suc, ◌+◌, ◌≡◌, ◌≢◌, inl, inr, ◌∙◌, refl, ap, List, [], ◌∷◌, ◌++◌, map, Perm, none, some, arith,
  Bytes, beq, beq_iff, beq_sound, if◌then◌else◌, length, Bool-cases, lookup, insert, erase,
  concat-perm,
}
use langley.Tls.CertCache.{remove_host, move_to_end}

-- how often a host is on a list
unfoldable pub mentions : Bytes → List Bytes → ℕ
mentions g [] = 0
mentions g (h ∷ hs) = (if beq h g then 1 else 0) + mentions g hs

Permᴰ-mentions : (g : Bytes) {a b : List Bytes} → Permᴰ a b → mentions g a ≡ mentions g b
unfolding mentions
Permᴰ-mentions g Permᴰ.nil = refl
Permᴰ-mentions g (Permᴰ.cons e p) =
    ap₂ (λ x n. (if beq x g then 1 else 0) + n) e (Permᴰ-mentions g p)
Permᴰ-mentions g (Permᴰ.swap d e) = omega (
  arith,
  ap (λ x. if beq x g then (let n : ℕ = 1 in n) else 0) d,
  ap (λ x. if beq x g then (let n : ℕ = 1 in n) else 0) e,
)
Permᴰ-mentions g (Permᴰ.trans p q) = Permᴰ-mentions g p ∙ Permᴰ-mentions g q

pub mentions-perm : (g : Bytes) {a b : List Bytes} → Perm a b → mentions g a ≡ mentions g b
mentions-perm g p = ∥∥₁_elim p (ℕ_set _ _) (Permᴰ-mentions g)

pub remove_host-perm :
    (h : Bytes) (order : List Bytes) → mentions h order ≢ 0 → Perm (h ∷ remove_host h order) order
unfolding mentions remove_host
remove_host-perm h [] some_there = absurd (some_there refl)
remove_host-perm h (x ∷ order) some_there = elim (Bool-cases (beq x h)) [
  | inl same ↦ rw (same, beq_sound x h same) (Perm.refl (h ∷ order))
  | inr differ ↦ rw differ (
      Perm.trans (Perm.swap x h (remove_host h order))
        (Perm.cons x (remove_host-perm h order (λ e. some_there (ground arith)))))
]

pub move_to_end-perm :
    (h : Bytes) (order : List Bytes) → mentions h order ≢ 0 → Perm (move_to_end h order) order
unfolding move_to_end
move_to_end-perm h order some_there =
    Perm.trans (concat-perm (remove_host h order) h) (remove_host-perm h order some_there)

module _ {V : Type 0} where
  abbrev pub keys : List (Bytes × V) → List Bytes
  keys m = map (λ e. e.0) m

  pub length-keys : (m : List (Bytes × V)) → length (keys m) ≡ length m
  length-keys [] = refl
  length-keys (e ∷ m) = ap suc (length-keys m)

  pub mentions_of_lookup :
      (h : Bytes) (m : List (Bytes × V)) (v : V) → lookup h m ≡ some v → mentions h (keys m) ≢ 0
  unfolding mentions lookup
  mentions_of_lookup h [] v e = cc
  mentions_of_lookup h ((j, w) ∷ m) v e = ground (arith, mentions_of_lookup h m v)

  pub absent_of_lookup :
      (h : Bytes) (m : List (Bytes × V)) → lookup h m ≡ none → mentions h (keys m) ≡ 0
  unfolding mentions lookup
  absent_of_lookup h [] e = refl
  absent_of_lookup h ((j, w) ∷ m) e = ground (arith, absent_of_lookup h m)

  pub keys-insert :
      (h : Bytes) (v : V) (m : List (Bytes × V))
      → lookup h m ≡ none
      → keys (insert h v m) ≡ keys m ++ h ∷ []
  unfolding lookup insert
  keys-insert h v [] e = refl
  keys-insert h v ((j, w) ∷ m) e = elim (Bool-cases (beq j h)) [
    | inl same ↦ absurd (ground arith)
    | inr differ ↦ rw (differ, keys-insert h v m (ground arith)) refl
  ]

  pub keys-erase :
      (h : Bytes) (m : List (Bytes × V))
      → mentions h (keys m) ≢ 0
      → Perm (h ∷ keys (erase h m)) (keys m)
  unfolding mentions erase
  keys-erase h [] there = absurd (there refl)
  keys-erase h ((j, w) ∷ m) there = elim (Bool-cases (beq j h)) [
    | inl same ↦ rw (same, beq_sound j h same) (Perm.refl (h ∷ keys m))
    | inr differ ↦ rw differ (
        Perm.trans (Perm.swap j h (keys (erase h m)))
          (Perm.cons j (keys-erase h m (λ e. there (ground arith)))))
  ]

  pub lookup-erase_ne :
      (h g : Bytes) (m : List (Bytes × V)) → h ≢ g → lookup g (erase h m) ≡ lookup g m
  unfolding lookup erase
  lookup-erase_ne h g [] ne = refl
  lookup-erase_ne h g ((j, w) ∷ m) ne =
      ground (arith, beq_iff j h, beq_iff j g, lookup-erase_ne h g m)
