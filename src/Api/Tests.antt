-- ===== src/Api/Tests.antt =====
-- The theorems on internal/api at concrete requests.
use langley.Prelude.{
  ℕ, ◌+◌, ◌-◌, ◌*◌, ◌≤◌, ◌≡◌, refl, List, [], ◌∷◌, some, Bytes, codes, lookup, insert, beq, arith,
}
use langley.Go.Strings.{last_index, has_prefix, index}
use langley.Api.RateLimit.{Bucket, RateLimiter, new_rate_limiter, unit, allow, extract_ip}
use langley.Api.RateLimit.Bound.{last_time, allowed_of, allowed_of_bound}

abbrev client : Bytes
client = codes "10.0.0.1"

abbrev three_requests : List (ℕ × Bytes)
three_requests = (0, client) ∷ (1, client) ∷ (600_000_000, client) ∷ []

-- at 2 per second and a burst of 1, the second of them is refused
three_requests_allowed : allowed_of client (new_rate_limiter 2 1) three_requests ≡ 2
unfolding allowed_of beq allow lookup insert
three_requests_allowed = refl

allowed_of_bound_example :
    allowed_of client (new_rate_limiter 2 1) three_requests * unit
    ≤ 1 * unit + (last_time 0 three_requests - 0) * 2
allowed_of_bound_example =
    allowed_of_bound 2 1 0 client three_requests (omega arith)
      (omega arith, (omega arith, (omega arith, tt)))

-- a limiter that has seen one request of the client, at time 0
abbrev used : RateLimiter
used = record {
  buckets = (client, record { tokens = 0; last_check = 0 }) ∷ [];
  rate = 2;
  burst = 1;
  cleanup_t = 5;
}

used-spaced :
    (b : Bucket) → lookup client used.buckets ≡ some b → unit ≤ (600_000_000 - b.last_check) * 2
unfolding lookup
used-spaced b e = ground (arith, e)

extract_ip_plain : extract_ip (codes "10.0.0.1:8080") ≡ client
unfolding extract_ip last_index has_prefix
extract_ip_plain = refl

extract_ip_bracket : extract_ip (codes "[::1]:80") ≡ codes "::1"
unfolding extract_ip last_index has_prefix index
extract_ip_bracket = refl
