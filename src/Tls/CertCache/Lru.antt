-- ===== src/Tls/CertCache/Lru.antt =====
-- What the LRU order of internal/tls/certcache.go is for: a host in use is not evicted.
use native.Mathlib.Nat.{le_of_eq}
use langley.Prelude.{
  ℕ, suc, ◌+◌, ◌≤◌, ◌<◌, ◌≡◌, ◌≢◌, inl, inr, ◌∙◌, refl, sym, ap, true, List, [], ◌∷◌, ◌++◌, Option,
  none, some, arith, leb, leb→le, Bytes, beq, beq_iff, if◌then◌else◌, length, length-append,
  length-perm, Bool-cases, Option-cases, lookup, insert, lookup-insert_self, lookup-insert_ne,
}
use langley.Tls.CertCache.{CertCache, remove_host, move_to_end, evict_oldest, add_cert, get_cert}
use langley.Tls.CertCache.Ordered.{
  mentions, mentions-perm, absent_of_lookup, remove_host-perm, length-keys, lookup-erase_ne,
}
use langley.Tls.CertCache.Invariant.{
  IsValid, listed, Evicted, evict_oldest-Evicted, get_cert-IsValid,
}

-- how many hosts were used after the host
newer : Bytes → List Bytes → ℕ
newer g [] = 0
newer g (h ∷ order) = if beq h g then length order else newer g order

length-remove_host : (h : Bytes) (o : List Bytes) → length (remove_host h o) ≤ length o
unfolding remove_host
length-remove_host h [] = omega arith
length-remove_host h (x ∷ o) = ground (arith, length-remove_host h o)

newer-remove_host : (g h : Bytes) (o : List Bytes) → h ≢ g → newer g (remove_host h o) ≤ newer g o
unfolding newer remove_host
newer-remove_host g h [] ne = omega arith
newer-remove_host g h (x ∷ o) ne =
    ground (arith, beq_iff x h, beq_iff x g, newer-remove_host g h o, length-remove_host h o)

mentions-remove_host :
    (g h : Bytes) (o : List Bytes) → h ≢ g → mentions g (remove_host h o) ≡ mentions g o
unfolding mentions remove_host
mentions-remove_host g h [] ne = refl
mentions-remove_host g h (x ∷ o) ne =
    ground (arith, beq_iff x h, beq_iff x g, mentions-remove_host g h o)

newer-append :
    (g h : Bytes) (o : List Bytes) → mentions g o ≢ 0 → newer g (o ++ h ∷ []) ≡ newer g o + 1
unfolding newer mentions
newer-append g h [] there = absurd (there refl)
newer-append g h (x ∷ o) there = ground (arith, newer-append g h o, length-append o (h ∷ []))

newer-move_to_end :
    (g h : Bytes) (o : List Bytes)
    → h ≢ g
    → mentions g o ≢ 0
    → newer g (move_to_end h o) ≤ newer g o + 1
unfolding move_to_end
newer-move_to_end g h o ne there =
    let still : mentions g (remove_host h o) ≢ 0 =
      λ e. there (sym (mentions-remove_host g h o ne) ∙ e) in
    omega (arith, newer-append g h (remove_host h o) still, newer-remove_host g h o ne)

newer_self : (g : Bytes) (o : List Bytes) → mentions g o ≡ 0 → newer g (o ++ g ∷ []) ≡ 0
unfolding newer mentions
newer_self g [] e = ground (arith, beq_iff g g)
newer_self g (x ∷ o) e = ground (arith, newer_self g o)

abbrev pub AllOther : Bytes → List (ℕ × Bytes) → Type 0
AllOther g [] = Unit {0}
AllOther g ((now, h) ∷ rs) = (h ≢ g) × AllOther g rs

module _ {Cert : Type 0} where
  -- the host is cached with the certificate, and at most `n` hosts were used after it
  record Within (c : CertCache Cert) (g : Bytes) (cert : Cert) (n : ℕ) : Type 0 where
    valid : IsValid c
    created : ℕ
    cached : lookup g c.cache ≡ some (cert, created)
    recent : newer g c.order ≤ n

  add_cert-Within :
      (c : CertCache Cert) (g h : Bytes) (cert new_cert : Cert) (now created : ℕ)
      → IsValid c
      → h ≢ g
      → lookup h c.cache ≡ none
      → lookup g c.cache ≡ some (cert, created)
      → newer g c.order + 1 < c.max_size
      → (lookup g (add_cert c now h new_cert).cache ≡ some (cert, created))
        × (newer g (add_cert c now h new_cert).order ≤ newer g c.order + 1)
  unfolding add_cert
  add_cert-Within c g h cert new_cert now created w ne absent found near =
      elim (Bool-cases (leb c.max_size (length c.cache))) [
        | inr room ↦ rw room (
          lookup-insert_ne h g (new_cert, now) c.cache ne ∙ found,
          omega (arith, newer-append g h c.order (listed c g (cert, created) w found)),
        )
        | inl full ↦
            let (oldest, s) =
              evict_oldest-Evicted c w (omega (arith, w.positive, leb→le _ _ full)) in
            rw full (after_eviction (evict_oldest c) oldest full s)
      ]
    where
      after_eviction :
          (d : CertCache Cert) (oldest : Bytes)
          → leb c.max_size (length c.cache) ≡ true
          → Evicted c d oldest
          → (lookup g (insert h (new_cert, now) d.cache) ≡ some (cert, created))
            × (newer g (d.order ++ h ∷ []) ≤ newer g c.order + 1)
      after_eviction d oldest full s =
          let rank = ap (newer g) s.first in
          let size : length c.cache ≡ suc (length d.order) =
            omega (arith, length-keys c.cache, length-perm w.same, ap length s.first) in
          let there = listed c g (cert, created) w found in
          let other : oldest ≢ g =
            unfold newer in λ e. absurd (ground (arith, beq_iff oldest g, leb→le _ _ full)) in
          let kept : newer g d.order ≡ newer g c.order =
            unfold newer in ground (arith, beq_iff oldest g) in
          let still : mentions g d.order ≢ 0 =
            unfold mentions in
            λ e. there (ground (arith, ap (mentions g) s.first, beq_iff oldest g)) in
          (
            lookup-insert_ne h g (new_cert, now) d.cache ne
                ∙ ap (lookup g) s.cache
                ∙ lookup-erase_ne oldest g c.cache other
                ∙ found,
            omega (arith, newer-append g h d.order still, kept),
          )

  get_cert-max_size :
      (generate : Bytes → Option Cert) (c : CertCache Cert) (now : ℕ) (h : Bytes)
      → IsValid c
      → (get_cert generate c now h).0.max_size ≡ c.max_size
  unfolding get_cert evict_oldest
  get_cert-max_size generate c now h w = ground arith

  step-Within :
      (generate : Bytes → Option Cert) (c : CertCache Cert) (now : ℕ) (g h : Bytes) (cert : Cert)
      (n : ℕ)
      → Within c g cert n
      → h ≢ g
      → n + 1 < c.max_size
      → Within (get_cert generate c now h).0 g cert (n + 1)
  unfolding get_cert
  step-Within generate c now g h cert n s ne near = record {
    valid = get_cert-IsValid generate c now h s.valid;
    created = s.created;
    cached = both.0;
    recent = omega (arith, both.1, s.recent);
  }
    where
      both :
          (lookup g (get_cert generate c now h).0.cache ≡ some (cert, s.created))
          × (newer g (get_cert generate c now h).0.order ≤ newer g c.order + 1)
      both = elim (Option-cases (lookup h c.cache)) [
        | inr ((other, t), hit) ↦
            rw (hit, get_cert)
              (
                s.cached,
                newer-move_to_end g h c.order ne (listed c g (cert, s.created) s.valid s.cached),
              )
        | inl new ↦ elim (Option-cases (generate h)) [
          | inl failed ↦ rw (new, failed, get_cert) (s.cached, omega arith)
          | inr (fresh, made) ↦
              rw (new, made, get_cert)
                (add_cert-Within c g h cert fresh now s.created s.valid ne new s.cached
                  (omega (arith, s.recent)))
        ]
      ]

  -- requests, each with its time and host
  unfoldable pub run : (Bytes → Option Cert) → CertCache Cert → List (ℕ × Bytes) → CertCache Cert
  run generate c [] = c
  run generate c ((now, h) ∷ rs) = run generate (get_cert generate c now h).0 rs

  run-Within :
      (rs : List (ℕ × Bytes)) (generate : Bytes → Option Cert) (c : CertCache Cert) (g : Bytes)
      (cert : Cert) (n : ℕ)
      → Within c g cert n
      → AllOther g rs
      → n + length rs < c.max_size
      → Within (run generate c rs) g cert (n + length rs)
  unfolding run
  run-Within [] generate c g cert n s others near =
      let same : n ≡ n + 0 = omega arith in rw (← same) s
  run-Within ((now, h) ∷ rs) generate c g cert n s others near =
      let same : n + 1 + length rs ≡ n + suc (length rs) = omega arith in
      rw (← same) (
        run-Within rs generate (get_cert generate c now h).0 g cert (n + 1)
          (step-Within generate c now g h cert n s others.0 (omega arith)) others.1
          (omega (arith, get_cert-max_size generate c now h s.valid)))

  add_cert-newest :
      (c : CertCache Cert) (g : Bytes) (cert : Cert) (now : ℕ)
      → IsValid c
      → lookup g c.cache ≡ none
      → newer g (add_cert c now g cert).order ≡ 0
  unfolding add_cert
  add_cert-newest c g cert now w new =
      let unlisted : mentions g c.order ≡ 0 =
        sym (mentions-perm g w.same) ∙ absent_of_lookup g c.cache new in
      elim (Bool-cases (leb c.max_size (length c.cache))) [
        | inr room ↦ rw room (newer_self g c.order unlisted)
        | inl full ↦
            let (oldest, s) =
              evict_oldest-Evicted c w (omega (arith, w.positive, leb→le _ _ full)) in
            rw full (
              newer_self g (evict_oldest c).order
                (unfold mentions in omega (arith, ap (mentions g) s.first)))
      ]

  -- the host has just been served
  served-Within :
      (generate : Bytes → Option Cert) (c : CertCache Cert) (now : ℕ) (g : Bytes) (cert : Cert)
      → IsValid c
      → (get_cert generate c now g).1 ≡ some cert
      → Within (get_cert generate c now g).0 g cert 0
  unfolding get_cert
  served-Within generate c now g cert w e = elim (Option-cases (lookup g c.cache)) [
    | inr ((old, t), hit) ↦ record {
      valid = get_cert-IsValid generate c now g w;
      created = t;
      cached = rw (hit, get_cert) (ground arith);
      recent =
          rw (hit, get_cert)
            (le_of_eq (
              newer_self g (remove_host g c.order)
                (omega (arith, w.distinct g, moved g c.order (listed c g (old, t) w hit)))));
    }
    | inl new ↦ elim (Option-cases (generate g)) [
      | inl failed ↦ absurd (ground arith)
      | inr (made, done) ↦
          let same : made ≡ cert = ground arith in
          record {
            valid = get_cert-IsValid generate c now g w;
            created = now;
            cached = rw (new, done, get_cert) (added made same);
            recent = rw (new, done, get_cert) (le_of_eq (add_cert-newest c g made now w new));
          }
    ]
  ]
    where
      moved :
          (g : Bytes) (o : List Bytes)
          → mentions g o ≢ 0
          → suc (mentions g (remove_host g o)) ≡ mentions g o
      moved g o there =
          unfold mentions in
          ground (arith, mentions-perm g (remove_host-perm g o there), beq_iff g g)

      added :
          (made : Cert) → made ≡ cert → lookup g (add_cert c now g made).cache ≡ some (cert, now)
      added made same = unfold add_cert in rw same (lookup-insert_self g (cert, now) _)

  hit_again :
      (generate : Bytes → Option Cert) (c : CertCache Cert) (g : Bytes) (cert : Cert) (n later : ℕ)
      → Within c g cert n
      → (get_cert generate c later g).1 ≡ some cert
  unfolding get_cert
  hit_again generate c g cert n later s = let found = s.cached in ground arith

  -- A host that was served with a certificate gets the same one again, even where no certificate
  -- can be made by then, if fewer than maxSize requests, all for other hosts, came in between.
  pub served_again :
      (generate remake : Bytes → Option Cert) (c : CertCache Cert) (now later : ℕ) (g : Bytes)
      (cert : Cert) (rs : List (ℕ × Bytes))
      → IsValid c
      → (get_cert generate c now g).1 ≡ some cert
      → AllOther g rs
      → length rs < c.max_size
      → (get_cert remake (run generate (get_cert generate c now g).0 rs) later g).1 ≡ some cert
  served_again generate remake c now later g cert rs w e others near =
      hit_again remake _ g cert (0 + length rs) later (
        run-Within rs generate (get_cert generate c now g).0 g cert 0
          (served-Within generate c now g cert w e) others
          (omega (arith, get_cert-max_size generate c now g w)))
