-- ===== src/Tls/CertCache/Tests.antt =====
-- Runs of the certificate cache of internal/tls/certcache.go, and its theorems at a small cache.
use langley.Prelude.{
  ℕ, ◌≡◌, ◌≢◌, refl, [], ◌∷◌, Option, some, none, arith, Bytes, codes, beq, length, lookup, insert,
  erase,
}
use langley.Tls.CertCache.{
  CertCache, new_cert_cache, get_cert, get_certificate, add_cert, evict_oldest, move_to_end,
}
use langley.Tls.CertCache.Invariant.{new-IsValid}
use langley.Tls.CertCache.Lru.{run, served_again}

program : Unit {0}
unfolding beq lookup insert erase new_cert_cache get_cert get_certificate add_cert evict_oldest
    move_to_end run
program = tt

abbrev a : Bytes
a = codes "a"

abbrev b : Bytes
b = codes "b"

abbrev c : Bytes
c = codes "c"

-- a certificate is the length of its host
abbrev make : Bytes → Option ℕ
make host = some (length host)

abbrev fail : Bytes → Option ℕ
fail host = none

abbrev empty : CertCache ℕ
empty = new_cert_cache ℕ 2

-- `a` is used again before `c` comes, so `b` goes
order_after : (run make empty ((1, a) ∷ (2, b) ∷ (3, a) ∷ (4, c) ∷ [])).order ≡ a ∷ c ∷ []
unfolding program
order_after = refl

b-ne-a : b ≢ a
b-ne-a = λ e. ground arith

served_again_example :
    (get_cert fail (run make (get_cert make empty 1 a).0 ((2, b) ∷ [])) 3 a).1 ≡ some 1
unfolding program
served_again_example =
    served_again make fail empty 1 3 a 1 ((2, b) ∷ []) (new-IsValid 2) refl (b-ne-a, tt)
      (omega arith)
