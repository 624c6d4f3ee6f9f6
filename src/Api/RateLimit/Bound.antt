-- ===== src/Api/RateLimit/Bound.antt =====
-- The bound of a token bucket of internal/api/ratelimit.go on the requests that it lets through.
use langley.Prelude.{
  beq, ℕ, ◌+◌, ◌-◌, ◌*◌, ◌≤◌, ◌<◌, ◌≡◌, ◌≢◌, sym, refl, ap, ◌∙◌, Bool, true, false, List, [], ◌∷◌,
  Option, none, some, Bytes, lookup, insert, lookup-insert_self, lookup-insert_ne, beq_iff, leb,
  if◌then◌else◌, Bool-cases, inl, inr, arith,
}
use native.Mathlib.Nat.{add-mul}
use langley.Api.RateLimit.{
  Bucket, RateLimiter, unit, new_rate_limiter, refill, spend, served, allow,
}

-- requests at their times, after `t`
abbrev pub Timed : ℕ → List (ℕ × Bytes) → Type 0
Timed t [] = Unit {0}
Timed t ((now, ip) ∷ rs) = (t ≤ now) × Timed now rs

-- the time of the last request
abbrev pub last_time : ℕ → List (ℕ × Bytes) → ℕ
last_time t [] = t
last_time t ((now, ip) ∷ rs) = last_time now rs

-- the requests of an address that are let through
unfoldable pub allowed_of : Bytes → RateLimiter → List (ℕ × Bytes) → ℕ
allowed_of ip rl [] = 0
allowed_of ip rl ((now, other) ∷ rs) =
    let (r, ok) = allow rl now other in
    let rest = allowed_of ip r rs in if beq ip other then (if ok then 1 + rest else rest) else rest

spread : (a b c r : ℕ) → a ≤ b → b ≤ c → (c - a) * r ≡ (c - b) * r + (b - a) * r
spread a b c r h k = ap (λ x. x * r) (omega arith) ∙ add-mul (c - b) (b - a) r

-- what an address may still spend at `t`, from its bucket, in units of 10^-9 tokens
unfoldable credit_of : ℕ → ℕ → ℕ → Option Bucket → ℕ
credit_of rate burst t none = burst * unit
credit_of rate burst t (some b) = (refill rate burst t b).tokens

abbrev credit : Bytes → RateLimiter → ℕ → ℕ
credit ip rl t = credit_of rl.rate rl.burst t (lookup ip rl.buckets)

-- a bucket was last used by `t`
abbrev RecentBucket : ℕ → Option Bucket → Type 0
RecentBucket t none = Unit {0}
RecentBucket t (some b) = b.last_check ≤ t

abbrev Recent : Bytes → RateLimiter → ℕ → Type 0
Recent ip rl t = RecentBucket t (lookup ip rl.buckets)

credit_grows :
    (rate burst t now : ℕ) (o : Option Bucket)
    → RecentBucket t o
    → t ≤ now
    → credit_of rate burst now o ≤ credit_of rate burst t o + (now - t) * rate
unfolding credit_of refill
credit_grows rate burst t now none r h = omega arith
credit_grows rate burst t now (some b) r h = ground (arith, spread b.last_check t now rate r h)

Recent-later : (t now : ℕ) (o : Option Bucket) → RecentBucket t o → t ≤ now → RecentBucket now o
Recent-later t now none r h = tt
Recent-later t now (some b) r h = omega arith

abbrev cost : Bool → ℕ
cost true = unit
cost false = 0

served-cost :
    (rl : RateLimiter) (now : ℕ) (o : Option Bucket)
    → unit ≤ rl.burst * unit
    → RecentBucket now o
    → let (c, ok) = served rl now o in
      (credit_of rl.rate rl.burst now (some c) + cost ok ≤ credit_of rl.rate rl.burst now o)
      × (c.last_check ≤ now)
unfolding served credit_of refill spend
served-cost rl now none h r = (ground arith, omega arith)
served-cost rl now (some b) h r =
    elim (Bool-cases (leb unit (refill rl.rate rl.burst now b).tokens)) [
      | inl paid ↦ rw paid (ground arith, omega arith)
      | inr poor ↦ rw poor (ground arith, omega arith)
    ]

true-ne-false : true ≢ false
true-ne-false e = cc e

-- what a request does to the credit of an address
record Stepped (ip : Bytes) (rl : RateLimiter) (now : ℕ) (other : Bytes) : Type 0 where
  step : RateLimiter
  ok : Bool
  runs : allow rl now other ≡ (step, ok)
  paid : credit ip step now + (if beq ip other then cost ok else 0) ≤ credit ip rl now
  recent : Recent ip step now
  rate_kept : step.rate ≡ rl.rate
  burst_kept : step.burst ≡ rl.burst

step_lem :
    (ip : Bytes) (rl : RateLimiter) (now : ℕ) (other : Bytes)
    → unit ≤ rl.burst * unit
    → Recent ip rl now
    → Stepped ip rl now other
step_lem ip rl now other h r =
    let (c, ok) = served rl now (lookup other rl.buckets) in
    let after : RateLimiter = record rl { buckets = insert other c rl.buckets } in
    elim (Bool-cases (beq ip other)) [
      | inl mine ↦
          let same : ip ≡ other = (beq_iff ip other).0 mine in
          let found : lookup ip (insert other c rl.buckets) ≡ some c =
            rw same (lookup-insert_self other c rl.buckets) in
          let (paid, last) = served-cost rl now (lookup other rl.buckets) h (rw same at r) in
          record {
            step = after;
            ok = ok;
            runs = unfold allow in refl;
            paid = rw (mine, found) (rw same paid);
            recent = rw found last;
            rate_kept = refl;
            burst_kept = refl;
          }
      | inr not_mine ↦
          let kept : lookup ip (insert other c rl.buckets) ≡ lookup ip rl.buckets =
            lookup-insert_ne other ip c rl.buckets
              (λ e. true-ne-false (sym ((beq_iff ip other).1 (sym e)) ∙ not_mine)) in
          record {
            step = after;
            ok = ok;
            runs = unfold allow in refl;
            paid = rw (not_mine, kept) (omega arith);
            recent = rw kept r;
            rate_kept = refl;
            burst_kept = refl;
          }
    ]

last_time_le : (t : ℕ) (rs : List (ℕ × Bytes)) → Timed t rs → t ≤ last_time t rs
last_time_le t [] h = omega arith
last_time_le t ((now, ip) ∷ rs) h = omega (arith, last_time_le now rs h.1, h.0)

tally :
    (ok mine : Bool) (n before after at_start later early : ℕ) {all : ℕ}
    → n * unit ≤ after + later
    → after + (if mine then cost ok else 0) ≤ before
    → before ≤ at_start + early
    → all ≡ later + early
    → (if mine then if ok then 1 + n else n else n) * unit ≤ at_start + all
tally true true n before after at_start later early h k g e = omega arith
tally false true n before after at_start later early h k g e = omega arith
tally ok false n before after at_start later early h k g e = omega arith

allowed_of-credit :
    (ip : Bytes) (rl : RateLimiter) (t : ℕ) (rs : List (ℕ × Bytes))
    → unit ≤ rl.burst * unit
    → Recent ip rl t
    → Timed t rs
    → allowed_of ip rl rs * unit ≤ credit ip rl t + (last_time t rs - t) * rl.rate
unfolding allowed_of
allowed_of-credit ip rl t [] h r k = omega arith
allowed_of-credit ip rl t ((now, other) ∷ rs) h r k =
    let s = step_lem ip rl now other h (Recent-later t now (lookup ip rl.buckets) r k.0) in
    let rest = allowed_of-credit ip s.step now rs (rw s.burst_kept h) s.recent k.1 in
    let grown = credit_grows rl.rate rl.burst t now (lookup ip rl.buckets) r k.0 in
    let spent = spread t now (last_time now rs) rl.rate k.0 (last_time_le now rs k.1) in
    rw s.runs (
      tally s.ok (beq ip other) _ _ _ _ _ _ (rw s.rate_kept at rest) (rw s.rate_kept at s.paid)
        grown spent)

-- Of the requests of an address that come in time order from `t` on, to a new limiter with a burst
-- of 1 and more and with no round of cleanup between them, those that are let through are at most
-- the burst and the rate times the time from `t` to the last request (here in units of 10^-9),
-- whatever requests other addresses make.
pub allowed_of_bound :
    (rate burst t : ℕ) (ip : Bytes) (rs : List (ℕ × Bytes))
    → 0 < burst
    → Timed t rs
    → allowed_of ip (new_rate_limiter rate burst) rs * unit
      ≤ burst * unit + (last_time t rs - t) * rate
unfolding credit_of lookup
allowed_of_bound rate burst t ip rs h k =
    allowed_of-credit ip (new_rate_limiter rate burst) t rs (omega arith) tt k

-- A request that comes at least the time of one refilled token after the last request of its
-- address is let through, if the burst is 1 and more; so is the first request of an address.
pub allow_spaced :
    (rl : RateLimiter) (now : ℕ) (ip : Bytes)
    → 0 < rl.burst
    → ((b : Bucket) → lookup ip rl.buckets ≡ some b → unit ≤ (now - b.last_check) * rl.rate)
    → (allow rl now ip).1 ≡ true
unfolding allow
allow_spaced rl now ip h spaced = by_bucket (lookup ip rl.buckets) refl
  where
    by_bucket : (o : Option Bucket) → lookup ip rl.buckets ≡ o → (served rl now o).1 ≡ true
    by_bucket none e = unfold served in refl
    by_bucket (some b) e = unfold served spend refill in ground (arith, spaced b e)
