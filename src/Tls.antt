-- ===== src/Tls.antt =====
-- internal/tls: the cache of generated certificates.
pub mod CertCache
