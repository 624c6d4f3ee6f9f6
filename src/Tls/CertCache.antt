-- ===== src/Tls/CertCache.antt =====
-- internal/tls/certcache.go: the LRU cache of certificates. The generation of a certificate
-- (crypto/rsa, crypto/x509, a random serial) is a parameter, which may fail.
pub mod Ordered
pub mod Invariant
pub mod Lru
mod Tests
use langley.Prelude.{
  ℕ, zero, suc, Bool, true, false, List, [], ◌∷◌, ◌++◌, Option, none, some, Bytes, beq, ltb, leb,
  if◌then◌else◌, length, Dict, lookup, insert, erase,
}

-- `cache` keeps the certificate of an entry and its creation time; `order` has the oldest first
pub record CertCache (Cert : Type 0) : Type 0 where
  pub max_size : ℕ
  pub cache : Dict (Cert × ℕ)
  pub order : List Bytes

-- a size of zero or less means the default; `max_size` is its positive part
pub new_cert_cache : (Cert : Type 0) → ℕ → CertCache Cert
new_cert_cache Cert max_size = record {
  max_size = if ltb 0 max_size then max_size else 1000;
  cache = [];
  order = [];
}

-- the loop of moveToEnd: the order without the first mention of the host
unfoldable pub remove_host : Bytes → List Bytes → List Bytes
remove_host host [] = []
remove_host host (h ∷ order) = if beq h host then order else h ∷ remove_host host order

unfoldable pub move_to_end : Bytes → List Bytes → List Bytes
unfolding remove_host
move_to_end host order = remove_host host order ++ host ∷ []

-- the server name of the ClientHello, or the local address if it is empty; `none` for neither
abbrev server_name : Bytes → Option Bytes → Option Bytes
server_name [] addr = addr
server_name (c ∷ s) addr = some (c ∷ s)

module _ {Cert : Type 0} where
  unfoldable pub evict_oldest : CertCache Cert → CertCache Cert
  evict_oldest c = elim c.order [
    | [] ↦ c
    | oldest ∷ rest ↦ record c { order = rest; cache = erase oldest c.cache }
  ]

  pub size : CertCache Cert → ℕ
  size c = length c.cache

  pub clear : CertCache Cert → CertCache Cert
  clear c = record c { cache = []; order = [] }

  -- the new entry, after room was made
  unfoldable pub add_cert : CertCache Cert → ℕ → Bytes → Cert → CertCache Cert
  unfolding evict_oldest
  add_cert c now host cert =
      let d = if leb c.max_size (length c.cache) then evict_oldest c else c in
      record d { cache = insert host (cert, now) d.cache; order = d.order ++ host ∷ [] }

  -- `generate` stands for generateCert, and `none` for an error
  unfoldable pub get_cert :
      (Bytes → Option Cert) → CertCache Cert → ℕ → Bytes → CertCache Cert × Option Cert
  unfolding move_to_end add_cert
  get_cert generate c now host = elim (lookup host c.cache) [
    | some (cert, created) ↦ (record c { order = move_to_end host c.order }, some cert)
    | none ↦ elim (generate host) [
      | none ↦ (c, none)
      | some cert ↦ (add_cert c now host cert, some cert)
    ]
  ]

  unfoldable pub get_certificate :
      (Bytes → Option Cert)
      → CertCache Cert
      → ℕ
      → Bytes
      → Option Bytes
      → CertCache Cert × Option Cert
  unfolding get_cert
  get_certificate generate c now name addr = elim (server_name name addr) [
    | none ↦ (c, none)
    | some host ↦ get_cert generate c now host
  ]
