-- ===== src/Proxy/Mitm/Forwarded.antt =====
-- The request that internal/proxy/mitm.go sends upstream.
