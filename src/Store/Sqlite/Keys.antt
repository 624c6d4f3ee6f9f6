-- ===== src/Store/Sqlite/Keys.antt =====
-- Keys of the tables of internal/store/sqlite.go: distinct ones, and references to flows.
use langley.Prelude.{
  ◌≡◌, refl, ap, ◌∙◌, true, false, not, ◌&&◌, ◌||◌, List, [], ◌∷◌, ◌++◌, map, Bytes, beq, beq_iff,
  beq_sound, Bool-cases, inl, inr, arith,
}
use langley.Store.Tables.{FlowRow, is_in, has_key, delete_keys}

pub is_in-beq : (x y : Bytes) (ks : List Bytes) → beq x y ≡ true → is_in x ks ≡ is_in y ks
is_in-beq x y ks e = ap (λ z. is_in z ks) (beq_sound x y e)

module _ {ℓ} {R : Type ℓ} (key : R → Bytes) where
  -- no two rows have the same key
  abbrev pub Distinct : List R → Type 0
  Distinct [] = Unit {0}
  Distinct (r ∷ rs) = (has_key key (key r) rs ≡ false) × Distinct rs

  pub has_key-append :
      (k : Bytes) (rs : List R) (r : R)
      → has_key key k (rs ++ r ∷ []) ≡ (has_key key k rs || beq (key r) k)
  unfolding has_key
  has_key-append k [] r = ground arith
  has_key-append k (x ∷ rs) r = ground (arith, has_key-append k rs r)

  pub Distinct-append :
      (rs : List R) (r : R) → has_key key (key r) rs ≡ false → Distinct rs → Distinct (rs ++ r ∷ [])
  unfolding has_key
  Distinct-append [] r h d = (refl, tt)
  Distinct-append (x ∷ rs) r h (fresh, d) = (
    ground (arith, has_key-append (key x) rs r, beq_iff (key x) (key r), beq_iff (key r) (key x)),
    Distinct-append rs r (ground arith) d,
  )

  -- a key stays unless it is deleted
  pub has_key-delete_keys :
      (k : Bytes) (ks : List Bytes) (rs : List R)
      → has_key key k (delete_keys key ks rs) ≡ (has_key key k rs && not (is_in k ks))
  unfolding has_key delete_keys
  has_key-delete_keys k ks [] = refl
  has_key-delete_keys k ks (r ∷ rs) = elim (Bool-cases (beq (key r) k)) [
    | inl e ↦ ground (arith, has_key-delete_keys k ks rs, is_in-beq (key r) k ks e)
    | inr e ↦ ground (arith, has_key-delete_keys k ks rs)
  ]

-- a deletion by one key leaves another one distinct
module _ {ℓ} {R : Type ℓ} (key by : R → Bytes) where
  has_key-delete_false :
      (k : Bytes) (ks : List Bytes) (rs : List R)
      → has_key key k rs ≡ false
      → has_key key k (delete_keys by ks rs) ≡ false
  unfolding has_key delete_keys
  has_key-delete_false k ks [] h = refl
  has_key-delete_false k ks (r ∷ rs) h = elim (Bool-cases (is_in (by r) ks)) [
    | inl gone ↦ rw gone (has_key-delete_false k ks rs (ground arith))
    | inr stays ↦ rw stays (ground (arith, has_key-delete_false k ks rs))
  ]

  pub Distinct-delete_keys :
      (ks : List Bytes) (rs : List R) → Distinct key rs → Distinct key (delete_keys by ks rs)
  unfolding delete_keys
  Distinct-delete_keys ks [] d = tt
  Distinct-delete_keys ks (r ∷ rs) (fresh, d) = elim (Bool-cases (is_in (by r) ks)) [
    | inl gone ↦ rw gone (Distinct-delete_keys ks rs d)
    | inr stays ↦ rw stays (has_key-delete_false (key r) ks rs fresh, Distinct-delete_keys ks rs d)
  ]

-- rows with the same keys, in order
module _ {ℓ} {R : Type ℓ} (key : R → Bytes) where
  pub has_key-map :
      (k : Bytes) (rs ss : List R) → map key rs ≡ map key ss → has_key key k rs ≡ has_key key k ss
  unfolding has_key
  has_key-map k [] [] e = refl
  has_key-map k (r ∷ rs) (s ∷ ss) e =
      let first : key r ≡ key s = cc e in
      let rest : map key rs ≡ map key ss = cc e in rw (first, has_key-map k rs ss rest) refl
  has_key-map k [] (s ∷ ss) e = cc e
  has_key-map k (r ∷ rs) [] e = cc e

  pub Distinct-map : (rs ss : List R) → map key rs ≡ map key ss → Distinct key ss → Distinct key rs
  Distinct-map [] ss e d = tt
  Distinct-map (r ∷ rs) (s ∷ ss) e (fresh, d) =
      let first : key r ≡ key s = cc e in
      let rest : map key rs ≡ map key ss = cc e in
      (rw first (has_key-map (key s) rs ss rest ∙ fresh), Distinct-map rs ss rest d)
  Distinct-map (r ∷ rs) [] e d = cc e

-- every row refers to a flow
module _ {ℓ} {R : Type ℓ} (key : R → Bytes) where
  abbrev pub RefersTo : List FlowRow → List R → Type 0
  RefersTo flows [] = Unit {0}
  RefersTo flows (r ∷ rs) = (has_key FlowRow.id (key r) flows ≡ true) × RefersTo flows rs

  pub RefersTo-append :
      (flows : List FlowRow) (rs : List R) (r : R)
      → has_key FlowRow.id (key r) flows ≡ true
      → RefersTo flows rs
      → RefersTo flows (rs ++ r ∷ [])
  RefersTo-append flows [] r h v = (h, tt)
  RefersTo-append flows (x ∷ rs) r h (e, v) = (e, RefersTo-append flows rs r h v)

  -- flows that have at least the keys of others
  pub RefersTo-mono :
      (flows more : List FlowRow) (rs : List R)
      → ((k : Bytes) → has_key FlowRow.id k flows ≡ true → has_key FlowRow.id k more ≡ true)
      → RefersTo flows rs
      → RefersTo more rs
  RefersTo-mono flows more [] h v = tt
  RefersTo-mono flows more (r ∷ rs) h (e, v) = (h (key r) e, RefersTo-mono flows more rs h v)

  -- the deletion of flows, with the rows that refer to them
  pub RefersTo-delete_keys :
      (ks : List Bytes) (flows : List FlowRow) (rs : List R)
      → RefersTo flows rs
      → RefersTo (delete_keys FlowRow.id ks flows) (delete_keys key ks rs)
  unfolding delete_keys
  RefersTo-delete_keys ks flows [] v = tt
  RefersTo-delete_keys ks flows (r ∷ rs) (e, v) = elim (Bool-cases (is_in (key r) ks)) [
    | inl gone ↦ rw gone (RefersTo-delete_keys ks flows rs v)
    | inr stays ↦ rw stays (
      ground (arith, has_key-delete_keys FlowRow.id (key r) ks flows),
      RefersTo-delete_keys ks flows rs v,
    )
  ]

  pub RefersTo-map :
      (flows : List FlowRow) (rs ss : List R)
      → map key rs ≡ map key ss
      → RefersTo flows ss
      → RefersTo flows rs
  RefersTo-map flows [] ss e v = tt
  RefersTo-map flows (r ∷ rs) (s ∷ ss) e (h, v) =
      let first : key r ≡ key s = cc e in
      let rest : map key rs ≡ map key ss = cc e in (rw first h, RefersTo-map flows rs ss rest v)
  RefersTo-map flows (r ∷ rs) [] e v = cc e
