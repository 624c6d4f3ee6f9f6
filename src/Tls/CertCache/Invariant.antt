-- ===== src/Tls/CertCache/Invariant.antt =====
-- The invariant of the certificate cache, internal/tls/certcache.go: its order lists exactly the
-- cached hosts, each once, and there are never more than maxSize of them.
use mathlib.Core.List.Perm
use langley.Prelude.{
  ℕ, suc, ◌≤◌, ◌<◌, ◌≡◌, ◌≢◌, inl, inr, ◌∙◌, refl, ap, List, [], ◌∷◌, ◌++◌, Perm, Option, none,
  some, arith, leb, leb→le, Bytes, beq, beq_iff, length, length-append, length-perm, Bool-cases,
  Option-cases, lookup, insert, erase, concat-perm,
}
use langley.Tls.CertCache.{
  CertCache, new_cert_cache, move_to_end, evict_oldest, add_cert, get_cert, get_certificate,
  server_name,
}
use langley.Tls.CertCache.Ordered.{
  mentions, mentions-perm, move_to_end-perm, keys, length-keys, mentions_of_lookup,
  absent_of_lookup, keys-insert, keys-erase, lookup-erase_ne,
}

module _ {Cert : Type 0} where
  pub record IsValid (c : CertCache Cert) : Type 0 where
    pub positive : 0 < c.max_size
    pub bounded : length c.cache ≤ c.max_size
    pub same : Perm (keys c.cache) c.order
    pub distinct : (h : Bytes) → mentions h c.order ≤ 1

  pub new-IsValid : (n : ℕ) → IsValid (new_cert_cache Cert n)
  unfolding new_cert_cache mentions
  new-IsValid n = record {
    positive = ground arith;
    bounded = omega arith;
    same = Perm.refl [];
    distinct = λ h. omega arith;
  }

  -- a cached host is on the order
  pub listed :
      (c : CertCache Cert) (h : Bytes) (v : Cert × ℕ)
      → IsValid c
      → lookup h c.cache ≡ some v
      → mentions h c.order ≢ 0
  listed c h v w e =
      λ none_there. mentions_of_lookup h c.cache v e (mentions-perm h w.same ∙ none_there)

  hit-IsValid :
      (c : CertCache Cert) (h : Bytes) (v : Cert × ℕ)
      → IsValid c
      → lookup h c.cache ≡ some v
      → IsValid (record c { order = move_to_end h c.order })
  hit-IsValid c h v w e =
      let moved = move_to_end-perm h c.order (listed c h v w e) in
      record {
        positive = w.positive;
        bounded = w.bounded;
        same = Perm.trans w.same (Perm.symm moved);
        distinct = λ g. omega (arith, w.distinct g, mentions-perm g moved);
      }

  -- evictOldest on a valid cache that is not empty
  pub record Evicted (c d : CertCache Cert) (oldest : Bytes) : Type 0 where
    pub first : c.order ≡ oldest ∷ d.order
    pub cache : d.cache ≡ erase oldest c.cache
    pub same : Perm (keys d.cache) d.order
    pub shorter : length c.cache ≡ suc (length d.cache)
    pub limit : d.max_size ≡ c.max_size

  evict_oldest-cons :
      (c : CertCache Cert) (oldest : Bytes) (rest : List Bytes)
      → c.order ≡ oldest ∷ rest
      → evict_oldest c ≡ record c { order = rest; cache = erase oldest c.cache }
  unfolding evict_oldest
  evict_oldest-cons c oldest rest e = ground arith

  pub evict_oldest-Evicted :
      (c : CertCache Cert)
      → IsValid c
      → 0 < length c.cache
      → (oldest : Bytes) × Evicted c (evict_oldest c) oldest
  evict_oldest-Evicted c w pos = by_order c.order refl
    where
      by_order :
          (o : List Bytes) → c.order ≡ o → (oldest : Bytes) × Evicted c (evict_oldest c) oldest
      by_order [] e = absurd (omega (arith, length-keys c.cache, length-perm w.same, ap length e))
      by_order (oldest ∷ rest) e =
          let some_there : mentions oldest (keys c.cache) ≢ 0 =
            unfold mentions in
            λ none_there.
              absurd (ground (arith, mentions-perm oldest w.same, beq_iff oldest oldest)) in
          let erased = keys-erase oldest c.cache some_there in
          (
            oldest,
            rw (evict_oldest-cons c oldest rest e) (record {
              first = e;
              cache = refl;
              same = Perm.cons_inv (Perm.trans erased (rw e at w.same));
              shorter = omega (
                arith,
                length-keys c.cache,
                length-keys (erase oldest c.cache),
                length-perm erased,
              );
              limit = refl;
            }),
          )

  length-insert :
      (h : Bytes) (v : Cert × ℕ) (m : List (Bytes × (Cert × ℕ)))
      → lookup h m ≡ none
      → length (insert h v m) ≡ suc (length m)
  length-insert h v m e = omega (
    arith,
    length-keys (insert h v m),
    length-keys m,
    ap length (keys-insert h v m e),
    length-append (keys m) (h ∷ []),
  )

  append-IsValid :
      (d : CertCache Cert) (h : Bytes) (v : Cert × ℕ)
      → 0 < d.max_size
      → length d.cache < d.max_size
      → Perm (keys d.cache) d.order
      → ((g : Bytes) → mentions g d.order ≤ 1)
      → lookup h d.cache ≡ none
      → IsValid (record d { cache = insert h v d.cache; order = d.order ++ h ∷ [] })
  unfolding mentions
  append-IsValid d h v pos room same distinct new = record {
    positive = pos;
    bounded = omega (arith, length-insert h v d.cache new);
    same = rw (keys-insert h v d.cache new) (
        Perm.trans (concat-perm (keys d.cache) h)
          (Perm.trans (Perm.cons h same) (Perm.symm (concat-perm d.order h))));
    distinct = λ g. elim (Bool-cases (beq h g)) [
      | inl e ↦ ground (
        arith,
        beq_iff h g,
        absent_of_lookup h d.cache new,
        mentions-perm h same,
        mentions-perm g (concat-perm d.order h),
      )
      | inr e ↦ ground (arith, distinct g, mentions-perm g (concat-perm d.order h))
    ];
  }

  -- the evicted host is not the one that is added
  Evicted-ne :
      (c d : CertCache Cert) (oldest h : Bytes)
      → IsValid c
      → Evicted c d oldest
      → lookup h c.cache ≡ none
      → oldest ≢ h
  unfolding mentions
  Evicted-ne c d oldest h w s new e = absurd (
      ground (
        arith,
        absent_of_lookup h c.cache new,
        mentions-perm h w.same,
        ap (mentions h) s.first,
        beq_iff oldest h,
      ))

  pub add_cert-IsValid :
      (c : CertCache Cert) (now : ℕ) (h : Bytes) (cert : Cert)
      → IsValid c
      → lookup h c.cache ≡ none
      → IsValid (add_cert c now h cert)
  unfolding add_cert mentions
  add_cert-IsValid c now h cert w new = elim (Bool-cases (leb c.max_size (length c.cache))) [
    | inr room ↦
        rw room (append-IsValid c h (cert, now) w.positive (ground arith) w.same w.distinct new)
    | inl full ↦
        let (oldest, s) = evict_oldest-Evicted c w (omega (arith, w.positive, leb→le _ _ full)) in
        rw full (
          append-IsValid (evict_oldest c) h (cert, now) (omega (arith, s.limit, w.positive))
            (omega (arith, s.limit, s.shorter, w.bounded)) s.same
            (λ g. omega (arith, w.distinct g, ap (mentions g) s.first))
            (ap (lookup h) s.cache
              ∙ lookup-erase_ne oldest h c.cache (Evicted-ne c _ oldest h w s new)
              ∙ new))
  ]

  pub get_cert-IsValid :
      (generate : Bytes → Option Cert) (c : CertCache Cert) (now : ℕ) (h : Bytes)
      → IsValid c
      → IsValid (get_cert generate c now h).0
  unfolding get_cert
  get_cert-IsValid generate c now h w = elim (Option-cases (lookup h c.cache)) [
    | inr (v, cached) ↦ rw (cached, get_cert) (hit-IsValid c h v w cached)
    | inl new ↦ elim (Option-cases (generate h)) [
      | inl failed ↦ rw (new, failed, get_cert) w
      | inr (cert, made) ↦ rw (new, made, get_cert) (add_cert-IsValid c now h cert w new)
    ]
  ]

  -- Whether the certificate is cached, made, or cannot be made, GetCertificate keeps the cache
  -- valid: at most maxSize entries, and each cached host once on the order.
  pub get_certificate-IsValid :
      (generate : Bytes → Option Cert) (c : CertCache Cert) (now : ℕ) (name : Bytes)
      (addr : Option Bytes)
      → IsValid c
      → IsValid (get_certificate generate c now name addr).0
  unfolding get_certificate
  get_certificate-IsValid generate c now name addr w = elim (Option-cases (server_name name addr)) [
    | inl nameless ↦ rw (nameless, get_certificate) w
    | inr (h, named) ↦ rw (named, get_certificate) (get_cert-IsValid generate c now h w)
  ]
