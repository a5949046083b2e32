-- ===== src/Net/SubnetLimit/Networks.antt =====
-- What the limiter of internal/net/subnetlimit.go allows the addresses of one network, for prefixes of
-- whole bytes.
use mathlib.Core.Option.{some-injective}
use native.Mathlib.Nat.{le_trans, mul-le-mul_right}
use revika.Base.{
  ℕ, zero, suc, ◌+◌, ◌-◌, ◌*◌, min, ◌≡◌, ◌≤◌, refl, sym, ap, ◌∙◌, Bool, true, false, ◌&&◌, Option,
  none, some, List, [], ◌∷◌, arith, ltb, eqb, if◌then◌else◌, Bytes, bytes_eq, ◌==◌, length, take,
  Bool-cases, inl, inr,
}
use revika.Net.Bucket.{allow_keyed}
use revika.Net.Bucket.Level.{IsValid}
use revika.Net.Bucket.Runs.{Timed, has_key}
use revika.Net.SubnetLimit.{SubnetLimiter, mask, to4, to16, ip_key, key, admitted, one_key-bound}

abbrev all_bytes : Bytes → Bool
all_bytes [] = true
all_bytes (b ∷ bs) = ltb b 256 && all_bytes bs

-- Two addresses of one length with the same first `n` bytes.
abbrev pub same_net : ℕ → Bytes → Bytes → Bool
same_net n xs ys =
    (all_bytes xs && all_bytes ys) && (eqb (length xs) (length ys) && (take n xs == take n ys))

abbrev same_of : ℕ → Option Bytes → Option Bytes → Bool
same_of n (some x) (some y) = same_net n x y
same_of n none y = false
same_of n (some x) none = false

abbrev same_family : ℕ → Option Bytes → Option Bytes → Bool → Bool
same_family n (some x) (some y) rest = same_net n x y
same_family n none none rest = rest
same_family n none (some y) rest = false
same_family n (some x) none rest = false

-- Two IPv4 addresses with the same first `n4` bytes, or two IPv6 addresses with the same first `n6`.
unfoldable pub in_subnet : ℕ → ℕ → Bytes → Bytes → Bool
unfolding to4 to16
in_subnet n4 n6 home ip = same_family n4 (to4 home) (to4 ip) (same_of n6 (to16 home) (to16 ip))

mask-same :
    (n : ℕ) (xs ys : Bytes)
    → all_bytes xs ≡ true
    → all_bytes ys ≡ true
    → length xs ≡ length ys
    → take n xs ≡ take n ys
    → mask (8 * n) xs ≡ mask (8 * n) ys
unfolding mask
mask-same n [] [] h h' l t = refl
mask-same n [] (y ∷ ys) h h' l t = absurd (omega (arith, l))
mask-same n (x ∷ xs) [] h h' l t = absurd (omega (arith, l))
mask-same zero (x ∷ xs) (y ∷ ys) h h' l t = ground (
  arith,
  h,
  h',
  mask-same zero xs ys (ground (arith, h)) (ground (arith, h')) (omega (arith, l)) refl,
)
mask-same (suc n) (x ∷ xs) (y ∷ ys) h h' l t =
    let rest : mask (8 * n) xs ≡ mask (8 * n) ys =
      mask-same n xs ys (ground (arith, h)) (ground (arith, h')) (omega (arith, l))
        (ground (arith, t)) in
    let full : min (8 * suc n) 8 ≡ 8 = omega arith in
    let less : 8 * suc n - 8 ≡ 8 * n = omega arith in rw (full, less, rest) (ground (arith, t))

same_net-mask :
    (n : ℕ) (xs ys : Bytes) → same_net n xs ys ≡ true → mask (8 * n) xs ≡ mask (8 * n) ys
same_net-mask n xs ys h =
    mask-same n xs ys (ground (arith, h)) (ground (arith, h)) (ground (arith, h))
      (ground (arith, h))

-- Addresses of one network have one key.
pub in_subnet-key :
    (s : SubnetLimiter) (n4 n6 : ℕ) (home ip k : Bytes)
    → s.prefix4 ≡ 8 * n4
    → s.prefix6 ≡ 8 * n6
    → ip_key s home ≡ some k
    → in_subnet n4 n6 home ip ≡ true
    → ip_key s ip ≡ some k
unfolding ip_key in_subnet
in_subnet-key s n4 n6 home ip k p4 p6 h same = go (to4 home) (to4 ip) (to16 home) (to16 ip) h same
  where
    masked : (n p : ℕ) (x y : Bytes) → p ≡ 8 * n → same_net n x y ≡ true → mask p y ≡ mask p x
    masked n p x y e t = rw e (sym (same_net-mask n x y t))

    go :
        (a b c d : Option Bytes)
        → (elim a [
          | some v4 ↦ some (mask s.prefix4 v4)
          | none ↦ elim c [ some v6 ↦ some (mask s.prefix6 v6) | none ↦ none ]
        ])
          ≡ some k
        → same_family n4 a b (same_of n6 c d) ≡ true
        → (elim b [
          | some v4 ↦ some (mask s.prefix4 v4)
          | none ↦ elim d [ some v6 ↦ some (mask s.prefix6 v6) | none ↦ none ]
        ])
          ≡ some k
    go (some x) (some y) c d h t = ap some (masked n4 s.prefix4 x y p4 t) ∙ h
    go (some x) none c d h t = absurd (cc t)
    go none (some y) c d h t = absurd (cc t)
    go none none (some x) (some y) h t = ap some (masked n6 s.prefix6 x y p6 t) ∙ h
    go none none (some x) none h t = absurd (cc t)
    go none none none d h t = absurd (cc h)

module _ {Addr : Type 0} (to_ip : Addr → Option Bytes) (n4 n6 : ℕ) (home : Bytes) where
  abbrev from_home : Option Bytes → Bool
  from_home none = false
  from_home (some ip) = in_subnet n4 n6 home ip

  -- How many of the requests from the network of `home` a limiter allows.
  unfoldable pub admitted_in : SubnetLimiter → List (Addr × ℕ) → ℕ
  unfolding in_subnet allow_keyed
  admitted_in s [] = 0
  admitted_in s ((addr, t) ∷ calls) =
      let r = allow_keyed s.limiter (key to_ip s addr) t in
      (if from_home (to_ip addr) && r.0 then 1 else 0)
      + admitted_in (record s { limiter = r.1 }) calls

  from_home-key :
      (s : SubnetLimiter) (k : Bytes) (addr : Addr)
      → s.prefix4 ≡ 8 * n4
      → s.prefix6 ≡ 8 * n6
      → ip_key s home ≡ some k
      → from_home (to_ip addr) ≡ true
      → has_key (key to_ip s addr) k ≡ true
  unfolding key
  from_home-key s k addr p4 p6 h same = go (to_ip addr) same
    where
      own : (x : Option Bytes) → x ≡ some k → has_key x k ≡ true
      own none e = absurd (cc e)
      own (some j) e = ground (arith, some-injective _ _ e)

      go :
          (o : Option Bytes)
          → from_home o ≡ true
          → has_key (elim o [ none ↦ none | some ip ↦ ip_key s ip ]) k ≡ true
      go none t = absurd (cc t)
      go (some ip) t = own (ip_key s ip) (in_subnet-key s n4 n6 home ip k p4 p6 h t)

  admitted_in-le :
      (k : Bytes) (s : SubnetLimiter) (calls : List (Addr × ℕ))
      → s.prefix4 ≡ 8 * n4
      → s.prefix6 ≡ 8 * n6
      → ip_key s home ≡ some k
      → admitted_in s calls ≤ admitted to_ip k s calls
  unfolding admitted_in admitted ip_key
  admitted_in-le k s [] p4 p6 h = omega arith
  admitted_in-le k s ((addr, t) ∷ calls) p4 p6 h =
      let r = allow_keyed s.limiter (key to_ip s addr) t in
      let rest = admitted_in-le k (record s { limiter = r.1 }) calls p4 p6 h in
      elim (Bool-cases (from_home (to_ip addr))) [
        | inl same ↦ rw (same, from_home-key s k addr p4 p6 h same) (omega (arith, rest))
        | inr other ↦ rw other (omega (arith, rest))
      ]

  -- Where the prefixes are of whole bytes, over any requests at ordered times from `now` to `stop`, a
  -- valid limiter allows all the addresses of one network together, which are those that agree with a
  -- given one in the bytes of the prefix of their family, at most the burst and what accrues in that
  -- time.
  pub subnet-bound :
      (k : Bytes) (s : SubnetLimiter) (now stop : ℕ) (calls : List (Addr × ℕ))
      → s.prefix4 ≡ 8 * n4
      → s.prefix6 ≡ 8 * n6
      → ip_key s home ≡ some k
      → IsValid now s.limiter
      → Timed now stop calls
      → admitted_in s calls * s.limiter.unit ≤ s.limiter.burst + (stop - now) * s.limiter.rate
  subnet-bound k s now stop calls p4 p6 h v t =
      le_trans (mul-le-mul_right s.limiter.unit (admitted_in-le k s calls p4 p6 h))
        (one_key-bound to_ip k s now stop calls v t)
