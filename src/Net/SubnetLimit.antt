-- ===== src/Net/SubnetLimit.antt =====
-- internal/net/subnetlimit.go: the limiter of requests, one bucket for each source subnet.
pub mod Networks
use revika.Base.{
  ℕ, zero, ◌-◌, ◌*◌, ◌/◌, ◌^◌, min, ◌≡◌, ◌↔◌, ◌<◌, ap, refl, ◌+◌, ◌≤◌, Bool, true, ◌&&◌, ◌||◌, map,
  Option, none, some, List, [], ◌∷◌, arith, ltb, leb, eqb, if◌then◌else◌, Bytes, bytes_eq, length,
}
use revika.Net.Bucket.{Limiter, new_limiter, allow_keyed}
use revika.Net.Bucket.Level.{IsValid}
use revika.Net.Bucket.Runs.{Timed, Timed-map, has_key, admitted_keyed, admitted_keyed-bound}

-- `SubnetRateLimiter`: its masks are kept as their prefix lengths.
pub record SubnetLimiter : Type 0 where
  pub limiter : Limiter Bytes
  pub prefix4 : ℕ
  pub prefix6 : ℕ

abbrev pub default_prefix4 : ℕ
default_prefix4 = 24

abbrev pub default_prefix6 : ℕ
default_prefix6 = 56

unfoldable pub new_subnet_limiter : ℕ → ℕ → ℕ → ℕ → ℕ → Option SubnetLimiter
unfolding new_limiter
new_subnet_limiter unit rate burst prefix4 prefix6 =
    elim (new_limiter {K = Bytes} unit rate burst) [
      | none ↦ none
      | some l ↦ some (record {
        limiter = l;
        prefix4 = if leb prefix4 0 || ltb 32 prefix4 then default_prefix4 else prefix4;
        prefix6 = if leb prefix6 0 || ltb 128 prefix6 then default_prefix6 else prefix6;
      })
    ]

-- Go's `CIDRMask` and `IP.Mask`: the first `prefix` bits of the address stay, the others are zero.
unfoldable pub mask : ℕ → Bytes → Bytes
mask prefix [] = []
mask prefix (b ∷ bs) = let low = 2 ^ (8 - min prefix 8) in (b / low * low) ∷ mask (prefix - 8) bs

-- Go's `IP.To4`: an address of 4 bytes, or of 16 bytes behind the prefix ::ffff:0:0/96.
unfoldable pub to4 : Bytes → Option Bytes
to4 (a ∷ b ∷ c ∷ d ∷ []) = some (a ∷ b ∷ c ∷ d ∷ [])
to4
      (zero ∷ zero ∷ zero ∷ zero ∷ zero ∷ zero ∷ zero ∷ zero ∷ zero ∷ zero ∷ x ∷ y ∷ a ∷ b ∷ c ∷ d
        ∷ []) =
    if eqb x 0xff && eqb y 0xff then some (a ∷ b ∷ c ∷ d ∷ []) else none
to4 ip = none

-- Go's `IP.To16`: an address of 4 bytes is mapped, one of 16 bytes stays.
unfoldable pub to16 : Bytes → Option Bytes
to16 ip =
    if eqb (length ip) 4
    then some (0 ∷ 0 ∷ 0 ∷ 0 ∷ 0 ∷ 0 ∷ 0 ∷ 0 ∷ 0 ∷ 0 ∷ 0xff ∷ 0xff ∷ ip)
    else if eqb (length ip) 16
    then some ip
    else none

-- The end of `key`, for an address that carries an IP.
unfoldable pub ip_key : SubnetLimiter → Bytes → Option Bytes
unfolding mask to4 to16
ip_key s ip = elim (to4 ip) [
  | some v4 ↦ some (mask s.prefix4 v4)
  | none ↦ elim (to16 ip) [ some v6 ↦ some (mask s.prefix6 v6) | none ↦ none ]
]

-- `to_ip` is go-multiaddr's `ToIP`; its errors and the nil address are `none`.
module _ {Addr : Type 0} (to_ip : Addr → Option Bytes) where
  unfoldable pub key : SubnetLimiter → Addr → Option Bytes
  unfolding ip_key
  key s addr = elim (to_ip addr) [ none ↦ none | some ip ↦ ip_key s ip ]

  -- `Allow`: with no limiter, or with no IP to key a bucket on, a request is unmetered.
  unfoldable pub allow : Option SubnetLimiter → Addr → ℕ → Bool × Option SubnetLimiter
  unfolding allow_keyed
  allow none addr now = (true, none)
  allow (some s) addr now =
      let r = allow_keyed s.limiter (key s addr) now in (r.0, some (record s { limiter = r.1 }))

  -- How many of the requests from the subnet `k` a limiter allows.
  unfoldable pub admitted : Bytes → SubnetLimiter → List (Addr × ℕ) → ℕ
  unfolding allow
  admitted k s [] = 0
  admitted k s ((addr, t) ∷ calls) =
      let r = allow_keyed s.limiter (key s addr) t in
      (if has_key (key s addr) k && r.0 then 1 else 0)
      + admitted k (record s { limiter = r.1 }) calls

  admitted-keyed :
      (k : Bytes) (s : SubnetLimiter) (calls : List (Addr × ℕ))
      → admitted k s calls ≡ admitted_keyed k s.limiter (map (λ c. (key s c.0, c.1)) calls)
  unfolding admitted admitted_keyed key
  admitted-keyed k s [] = refl
  admitted-keyed k s ((addr, t) ∷ calls) =
      rw (admitted-keyed k (record s { limiter = (allow_keyed s.limiter (key s addr) t).1 }) calls)
        refl

  -- Over any requests at ordered times a valid limiter allows those with one key together at most the
  -- burst and what accrues in that time.
  pub one_key-bound :
      (k : Bytes) (s : SubnetLimiter) (now stop : ℕ) (calls : List (Addr × ℕ))
      → IsValid now s.limiter
      → Timed now stop calls
      → admitted k s calls * s.limiter.unit ≤ s.limiter.burst + (stop - now) * s.limiter.rate
  one_key-bound k s now stop calls v h =
      rw (admitted-keyed k s calls)
        (admitted_keyed-bound k s.limiter now stop _ v (Timed-map (key s) now stop calls h))

-- At /24 the key of an IPv4 address is its first three bytes.
mask-default :
    (a b c d : ℕ) → d < 256 → mask default_prefix4 (a ∷ b ∷ c ∷ d ∷ []) ≡ a ∷ b ∷ c ∷ 0 ∷ []
unfolding mask
mask-default a b c d h = ground arith

ip_key-default :
    (s : SubnetLimiter) (a b c d : ℕ)
    → s.prefix4 ≡ default_prefix4
    → d < 256
    → ip_key s (a ∷ b ∷ c ∷ d ∷ []) ≡ some (a ∷ b ∷ c ∷ 0 ∷ [])
unfolding ip_key
ip_key-default s a b c d p h = rw p (ap some (mask-default a b c d h))

-- With the default prefix two IPv4 addresses have one key, and so one bucket, exactly when their
-- first three bytes agree.
pub ip_key-eq_iff :
    (s : SubnetLimiter) (a b c d a' b' c' d' : ℕ)
    → s.prefix4 ≡ default_prefix4
    → d < 256
    → d' < 256
    → (ip_key s (a ∷ b ∷ c ∷ d ∷ []) ≡ ip_key s (a' ∷ b' ∷ c' ∷ d' ∷ []))
      ↔ ((a ≡ a') × (b ≡ b') × (c ≡ c'))
ip_key-eq_iff s a b c d a' b' c' d' p h h' =
    rw (ip_key-default s a b c d p h, ip_key-default s a' b' c' d' p h')
      (λ q. (ground arith, ground arith, ground arith), λ q. ground arith)
