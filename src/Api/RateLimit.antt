-- ===== src/Api/RateLimit.antt =====
-- internal/api/ratelimit.go: a token bucket for each client address. Times are nanoseconds, and
-- tokens are counted in units of 10^-9, in which the refill of a whole rate per second is exact:
-- float64 is taken as exact here. The clock of time.Now does not run backwards. A limiter's mutex
-- makes each of Allow and a round of cleanup one step.
pub mod Bound
use langley.Prelude.{
  ℕ, suc, ◌+◌, ◌-◌, ◌*◌, Bool, true, false, List, [], ◌∷◌, Option, none, some, Bytes, codes, Dict,
  lookup, insert, ltb, leb, if◌then◌else◌, take, drop,
}
use langley.Go.Strings.{last_index, has_prefix, index}

-- one token, and one second
abbrev pub unit : ℕ
unit = 1_000_000_000

pub record Bucket : Type 0 where
  pub tokens : ℕ
  pub last_check : ℕ

pub record RateLimiter : Type 0 where
  pub buckets : Dict Bucket
  pub rate : ℕ
  pub burst : ℕ
  pub cleanup_t : ℕ

abbrev pub new_rate_limiter : ℕ → ℕ → RateLimiter
new_rate_limiter rate burst = record {
  buckets = [];
  rate = rate;
  burst = burst;
  cleanup_t = 5 * 60 * unit;
}

-- the bucket of a new client; `float64(burst) - 1` is negative for a burst of 0, which nothing
-- configures
abbrev pub first_bucket : ℕ → ℕ → Bucket
first_bucket burst now = record { tokens = burst * unit - unit; last_check = now }

-- the tokens at `now`, no more than the burst
unfoldable pub refill : ℕ → ℕ → ℕ → Bucket → Bucket
refill rate burst now b =
    let tokens = b.tokens + (now - b.last_check) * rate in
    record { tokens = if ltb (burst * unit) tokens then burst * unit else tokens; last_check = now }

-- a request takes a token, if there is one
unfoldable pub spend : Bucket → Bucket × Bool
spend b = if leb unit b.tokens then (record b { tokens = b.tokens - unit }, true) else (b, false)

-- the bucket of an address after a request, and whether the request is let through
unfoldable pub served : RateLimiter → ℕ → Option Bucket → Bucket × Bool
unfolding refill spend
served rl now none = (first_bucket rl.burst now, true)
served rl now (some b) = spend (refill rl.rate rl.burst now b)

unfoldable pub allow : RateLimiter → ℕ → Bytes → RateLimiter × Bool
unfolding served
allow rl now ip =
    let (c, allowed) = served rl now (lookup ip rl.buckets) in
    (record rl { buckets = insert ip c rl.buckets }, allowed)

unfoldable pub keep_recent : ℕ → ℕ → Dict Bucket → Dict Bucket
keep_recent cleanup_t now [] = []
keep_recent cleanup_t now ((ip, b) ∷ bs) =
    let rest = keep_recent cleanup_t now bs in
    if ltb (b.last_check + cleanup_t) now then rest else (ip, b) ∷ rest

-- a round of the loop of cleanup
unfoldable pub cleanup : RateLimiter → ℕ → RateLimiter
unfolding keep_recent
cleanup rl now = record rl { buckets = keep_recent rl.cleanup_t now rl.buckets }

-- extractIP of a remote address
unfoldable pub extract_ip : Bytes → Bytes
extract_ip remote = elim (last_index b':' remote) [
  | none ↦ remote
  | some i ↦
      if has_prefix remote (codes "[")
      then elim (index remote (codes "]:")) [ some j ↦ drop 1 (take j remote) | none ↦ remote ]
      else take i remote
]

-- Middleware: the limiter, and the status of a refused request
unfoldable pub middleware : RateLimiter → ℕ → Bytes → RateLimiter × Option ℕ
unfolding allow extract_ip
middleware rl now remote =
    let (r, allowed) = allow rl now (extract_ip remote) in (r, if allowed then none else some 429)
