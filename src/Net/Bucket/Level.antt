-- ===== src/Net/Bucket/Level.antt =====
-- What a key may still spend at a given time, and how one call of `Allow` changes it.
use native.Mathlib.Nat.{add-mul}
use revika.Base.{
  ℕ, ◌+◌, ◌-◌, ◌*◌, ◌≤◌, min, ◌≡◌, refl, ap, ◌∙◌, if_pos, if_neg, ◌≢◌, inl, inr, Bool, true, false,
  Option, none, some, arith, ltb, leb, if◌then◌else◌, Bool-cases, prune_option, Eq,
}
use revika.Net.Bucket.{Bucket, Limiter, bucket_idle, refilled, prune_locked, spend, allow_key}

-- More time gives no less.
accrue_mono : (rate a b : ℕ) → a ≤ b → a * rate ≤ b * rate
accrue_mono rate a b h = grind arith

-- Waiting from `now` to `t` gives at most what accrues in that time.
accrue_wait :
    (rate last now t : ℕ) → now ≤ t → (t - last) * rate ≤ (now - last) * rate + (t - now) * rate
accrue_wait rate last now t h = omega (
  arith,
  accrue_mono rate (t - last) (now - last + (t - now)) (omega arith),
  add-mul (now - last) (t - now) rate,
)

abbrev pub level_of : ℕ → ℕ → ℕ → Option Bucket → ℕ
level_of burst rate t none = burst
level_of burst rate t (some b) = min burst (b.tokens + (t - b.last) * rate)

-- What a call at a level decides, and the bucket that it leaves.
abbrev pub spend_level : ℕ → ℕ → ℕ → Bool × Bucket
spend_level unit now v =
    (leb unit v, record { tokens = if leb unit v then v - unit else v; last = now })

abbrev pub Fits : ℕ → ℕ → Option Bucket → Type 0
Fits burst now none = Unit
Fits burst now (some b) = (b.tokens ≤ burst) × (b.last ≤ now)

pub level_of-le : (burst rate t : ℕ) (o : Option Bucket) → level_of burst rate t o ≤ burst
level_of-le burst rate t none = omega arith
level_of-le burst rate t (some b) = omega arith

pub level_of-wait :
    (burst rate now t : ℕ) (o : Option Bucket)
    → now ≤ t
    → level_of burst rate t o ≤ level_of burst rate now o + (t - now) * rate
level_of-wait burst rate now t none h = omega arith
level_of-wait burst rate now t (some b) h = omega (arith, accrue_wait rate b.last now t h)

pub Fits-later : (burst now t : ℕ) (o : Option Bucket) → now ≤ t → Fits burst now o → Fits burst t o
Fits-later burst now t none h f = tt
Fits-later burst now t (some b) h f = (f.0, omega arith)

pub spend_level-Fits :
    (burst unit t v : ℕ) → v ≤ burst → Fits burst t (some (spend_level unit t v).1)
spend_level-Fits burst unit t v h = ground arith

module _ {K : Type 0} where
  -- The units that `key` has at time `t`. A key with no bucket has a full one.
  unfoldable pub level : Limiter K → K → ℕ → ℕ
  level l key t = level_of l.burst l.rate t (l.buckets key)

  pub level-le : (l : Limiter K) (k : K) (t : ℕ) → level l k t ≤ l.burst
  unfolding level
  level-le l k t = level_of-le l.burst l.rate t (l.buckets k)

  pub level-wait :
      (l : Limiter K) (k : K) (now t : ℕ)
      → now ≤ t
      → level l k t ≤ level l k now + (t - now) * l.rate
  unfolding level
  level-wait l k now t h = level_of-wait l.burst l.rate now t (l.buckets k) h

  -- A state that calls at times up to `now` have left.
  pub record IsValid (now : ℕ) (l : Limiter K) : Type 0 where
    pub room : l.unit ≤ l.burst
    pub fits : (k : K) → Fits l.burst now (l.buckets k)

  -- A call depends on the bucket by its level alone.
  pub spend_lem :
      (l : Limiter K) (now : ℕ) (o : Option Bucket)
      → l.unit ≤ l.burst
      → Fits l.burst now o
      → spend l now o ≡ spend_level l.unit now (level_of l.burst l.rate now o)
  unfolding spend
  spend_lem l now none r h = ground arith
  spend_lem l now (some b) r h = ground arith

  -- A bucket that `prune_locked` drops has refilled, now and at every later time.
  pub level_of-prune :
      (l : Limiter K) (now t : ℕ) (o : Option Bucket)
      → now ≤ t
      → level_of l.burst l.rate t (prune_option (refilled l now) o) ≡ level_of l.burst l.rate t o
  unfolding refilled
  level_of-prune l now t none h = refl
  level_of-prune l now t (some b) h = ground (arith, accrue_mono l.rate (now - b.last) (t - b.last))

  pub Fits-prune :
      (l : Limiter K) (now t : ℕ) (o : Option Bucket)
      → now ≤ t
      → Fits l.burst now o
      → Fits l.burst t (prune_option (refilled l t) o)
  Fits-prune l now t none h f = tt
  Fits-prune l now t (some b) h f = ground arith

  -- Pruning changes no level, and keeps the parameters.
  pub record Pruned (now : ℕ) (l l' : Limiter K) : Type 0 where
    pub unit : l'.unit ≡ l.unit
    pub rate : l'.rate ≡ l.rate
    pub burst : l'.burst ≡ l.burst
    pub levels :
        (k : K) (t : ℕ)
        → now ≤ t
        → level_of l.burst l.rate t (l'.buckets k) ≡ level_of l.burst l.rate t (l.buckets k)

  pub prune_locked-Pruned : (l : Limiter K) (now : ℕ) → Pruned now l (prune_locked l now)
  unfolding prune_locked
  prune_locked-Pruned l now = elim (Bool-cases (ltb (now - l.last_prune) bucket_idle)) [
    | inl early ↦
        rw early (record { unit = refl; rate = refl; burst = refl; levels = λ k t h. refl })
    | inr due ↦ rw due (record {
      unit = refl;
      rate = refl;
      burst = refl;
      levels = λ k t h. level_of-prune l now t (l.buckets k) h;
    })
  ]

  pub prune_locked-IsValid :
      (l : Limiter K) (now t : ℕ) → now ≤ t → IsValid now l → IsValid t (prune_locked l t)
  unfolding prune_locked
  prune_locked-IsValid l now t h v = elim (Bool-cases (ltb (t - l.last_prune) bucket_idle)) [
    | inl early ↦
        rw early (record { room = v.room; fits = λ k. Fits-later l.burst now t _ h (v.fits k) })
    | inr due ↦
        rw due (record { room = v.room; fits = λ k. Fits-prune l now t (l.buckets k) h (v.fits k) })
  ]

module _ {K : Type 0} ⦃e : Eq K⦄ (l : Limiter K) (now t : ℕ) (key : K) (after : now ≤ t)
    (v : IsValid now l) where
  spend-prune_locked :
      spend (prune_locked l t) t ((prune_locked l t).buckets key)
      ≡ spend_level l.unit t (level l key t)
  unfolding level
  spend-prune_locked =
      let w = prune_locked-IsValid l now t after v in
      let p = prune_locked-Pruned l t in
      spend_lem (prune_locked l t) t ((prune_locked l t).buckets key) w.room (w.fits key)
      ∙ cc (p.unit, p.rate, p.burst, p.levels key t (omega arith))

  -- A request is allowed exactly when its key has a token.
  pub allow_key-decides : (allow_key l key t).0 ≡ leb l.unit (level l key t)
  unfolding allow_key
  allow_key-decides = ap (λ r. r.0) spend-prune_locked

  pub allow_key-bucket :
      (allow_key l key t).1.buckets key ≡ some (spend_level l.unit t (level l key t)).1
  unfolding allow_key
  allow_key-bucket = rw (if_pos (e.dec key key) refl true false, spend-prune_locked) refl

  pub allow_key-unit : (allow_key l key t).1.unit ≡ l.unit
  unfolding allow_key
  allow_key-unit = (prune_locked-Pruned l t).unit

  pub allow_key-rate : (allow_key l key t).1.rate ≡ l.rate
  unfolding allow_key
  allow_key-rate = (prune_locked-Pruned l t).rate

  pub allow_key-burst : (allow_key l key t).1.burst ≡ l.burst
  unfolding allow_key
  allow_key-burst = (prune_locked-Pruned l t).burst

  -- The other keys keep their levels, from now on.
  pub allow_key-level_ne :
      (k : K) (u : ℕ) → key ≢ k → t ≤ u → level (allow_key l key t).1 k u ≡ level l k u
  unfolding level allow_key
  allow_key-level_ne k u ne later =
      rw (if_neg (e.dec key k) ne true false, allow_key-burst, allow_key-rate)
        ((prune_locked-Pruned l t).levels k u later)

  pub allow_key-level_self :
      (u : ℕ)
      → level (allow_key l key t).1 key u
        ≡ level_of l.burst l.rate u (some (spend_level l.unit t (level l key t)).1)
  allow_key-level_self u =
      unfold level in rw (allow_key-bucket, allow_key-burst, allow_key-rate) refl

  pub allow_key-IsValid : IsValid t (allow_key l key t).1
  unfolding allow_key
  allow_key-IsValid =
      let w = prune_locked-IsValid l now t after v in
      record {
        room = w.room;
        fits = λ k. elim (e.dec key k) [
          | yes same ↦
              rw (if_pos (e.dec key k) same true false, spend-prune_locked, allow_key-burst)
                (spend_level-Fits l.burst l.unit t (level l key t) (level-le l key t))
          | no other ↦ rw (if_neg (e.dec key k) other true false) (w.fits k)
        ];
      }
