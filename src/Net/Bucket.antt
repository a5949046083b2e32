-- ===== src/Net/Bucket.antt =====
-- The token bucket that internal/net/ratelimit.go keeps for each owner and
-- internal/net/subnetlimit.go for each subnet. The two files hold the same code under other names.
-- Tokens are counted in units: `unit` of them make one token, `rate` of them accrue in a
-- nanosecond. Times are nanoseconds of the clock that the caller passes.
pub mod Level
pub mod Runs
pub mod Pruning
use revika.Base.{
  ℕ, ◌+◌, ◌-◌, ◌*◌, Bool, true, false, ◌&&◌, Option, none, some, ltb, leb, if◌then◌else◌, Eq, ◌==◌,
  Map, empty_map, put, prune_map,
}

pub record Bucket : Type 0 where
  pub tokens : ℕ
  pub last : ℕ

pub record Limiter (K : Type 0) : Type 0 where
  pub unit : ℕ
  pub rate : ℕ
  pub burst : ℕ
  pub buckets : Map K Bucket
  pub last_prune : ℕ

-- ten minutes in nanoseconds
abbrev pub bucket_idle : ℕ
bucket_idle = 600 * 1000000000

-- A burst below one token is raised to one token.
unfoldable pub fresh_limiter : {K : Type 0} → ℕ → ℕ → ℕ → Limiter K
fresh_limiter unit rate burst = record {
  unit = unit;
  rate = rate;
  burst = if ltb burst unit then unit else burst;
  buckets = empty_map;
  last_prune = 0;
}

-- The nil limiter stands for a rate of 0.
unfoldable pub new_limiter : {K : Type 0} → ℕ → ℕ → ℕ → Option (Limiter K)
unfolding fresh_limiter
new_limiter unit rate burst = if leb rate 0 then none else some (fresh_limiter unit rate burst)

module _ {K : Type 0} where
  -- The test by which the loop of `pruneLocked` deletes a bucket.
  unfoldable pub refilled : Limiter K → ℕ → Bucket → Bool
  refilled l now b =
      leb bucket_idle (now - b.last) && leb l.burst (b.tokens + (now - b.last) * l.rate)

  unfoldable pub prune_locked : Limiter K → ℕ → Limiter K
  prune_locked l now =
      if ltb (now - l.last_prune) bucket_idle
      then l
      else record l { buckets = prune_map (refilled l now) l.buckets; last_prune = now }

  -- Credits what has accrued since the last access, up to the burst.
  unfoldable pub refill : Limiter K → ℕ → Bucket → Bucket
  refill l now b =
      if ltb b.last now
      then record {
        tokens =
            (let t = b.tokens + (now - b.last) * l.rate in if ltb l.burst t then l.burst else t);
        last = now;
      }
      else b

  -- The charge of one token, and whether the request is allowed.
  unfoldable pub charge : Limiter K → Bucket → Bool × Bucket
  charge l b =
      if leb l.unit b.tokens then (true, record b { tokens = b.tokens - l.unit }) else (false, b)

  -- What a call does with the bucket that it finds. A new key starts full and spends one token.
  unfoldable pub spend : Limiter K → ℕ → Option Bucket → Bool × Bucket
  unfolding refill charge
  spend l now none = (true, record { tokens = l.burst - l.unit; last = now })
  spend l now (some b) = charge l (refill l now b)

module _ {K : Type 0} ⦃e : Eq K⦄ where
  -- `Allow` for a key, once the limiter is there and the key is known.
  unfoldable pub allow_key : Limiter K → K → ℕ → Bool × Limiter K
  unfolding prune_locked spend
  allow_key l key now =
      let l' = prune_locked l now in
      let r = spend l' now (l'.buckets key) in (r.0, record l' { buckets = put l'.buckets key r.1 })

  -- `Allow` of a request whose key may be missing: without one it is unmetered.
  unfoldable pub allow_keyed : Limiter K → Option K → ℕ → Bool × Limiter K
  allow_keyed l none now = (true, l)
  allow_keyed l (some key) now = allow_key l key now
