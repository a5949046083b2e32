-- ===== src/Ledger/Quota.antt =====
-- How the quota of an owner grows with its age (`effectiveQuota`), and what `AddOwner` grants of it.
use native.Mathlib.Nat.{
  div-mul-le_self, div-le_of_le-mul, le-div_iff_mul-le, mul-le-mul_left, add-mul, mul_comm, mul-pos,
  le_trans,
}
use revika.Base.{
  ℕ, ◌+◌, ◌-◌, ◌*◌, ◌/◌, ◌<◌, ◌≤◌, ◌≡◌, ap, sym, ◌∙◌, false, arith, leb, leb→le, ◌||◌, max,
  Bool-cases, inl, inr,
}
use revika.Ledger.{Options, effective_quota}

gt→leb : (a b : ℕ) → b < a → leb a b ≡ false
gt→leb a b h = ground arith

max_mono : (a b : ℕ) → a ≤ b → max a 1 ≤ max b 1
max_mono a b h = omega arith

div_mono : (k a b : ℕ) → 0 < k → a ≤ b → a / k ≤ b / k
div_mono k a b p h = (le-div_iff_mul-le p).1 (le_trans (div-mul-le_self a k) h)

-- The numerator of the ramp is at most its denominator.
module _ (full num den ramp age : ℕ) where
  share-le : num < den → age < ramp → num * ramp + (den - num) * age ≤ den * ramp
  share-le h a =
      let grown : (den - num) * age ≤ (den - num) * ramp =
        mul-le-mul_left (den - num) (omega arith) in
      let whole : num * ramp + (den - num) * ramp ≡ den * ramp =
        sym (add-mul num (den - num) ramp) ∙ ap (λ x. x * ramp) (omega arith) in
      omega (arith, grown, whole)

  scaled-le : num < den → age < ramp → full * (num * ramp + (den - num) * age) / (den * ramp) ≤ full
  scaled-le h a =
      div-le_of_le-mul (den * ramp)
        (rw (mul_comm (den * ramp) full) (mul-le-mul_left full (share-le h a)))

  scaled_mono :
      (age' : ℕ)
      → 0 < den
      → 0 < ramp
      → age ≤ age'
      → full * (num * ramp + (den - num) * age) / (den * ramp)
        ≤ full * (num * ramp + (den - num) * age') / (den * ramp)
  scaled_mono age' d r a =
      let grown : (den - num) * age ≤ (den - num) * age' = mul-le-mul_left (den - num) a in
      div_mono (den * ramp) _ _ (mul-pos d r) (mul-le-mul_left full (omega (arith, grown)))

-- The quota in force never exceeds the configured one.
pub quota-le :
    (opts : Options) (first_seen now : ℕ)
    → 0 < opts.quota_bytes
    → effective_quota opts first_seen now ≤ opts.quota_bytes
unfolding effective_quota
quota-le opts first_seen now p =
    let scaled =
      scaled-le opts.quota_bytes opts.fraction_num opts.fraction_den opts.quota_ramp
        (now - first_seen) in
    ground (arith, scaled)

quota-pos :
    (opts : Options) (first_seen now : ℕ)
    → 0 < opts.quota_bytes
    → 0 < effective_quota opts first_seen now
unfolding effective_quota
quota-pos opts first_seen now p = ground arith

quota-full :
    (opts : Options) (first_seen now : ℕ)
    → opts.quota_ramp ≤ now - first_seen
    → effective_quota opts first_seen now ≡ opts.quota_bytes
unfolding effective_quota
quota-full opts first_seen now old = ground arith

rises_early :
    (opts : Options) (first_seen now later : ℕ)
    → now ≤ later
    → later - first_seen < opts.quota_ramp
    → effective_quota opts first_seen now ≤ effective_quota opts first_seen later
unfolding effective_quota
rises_early opts first_seen now later h young =
    let age = now - first_seen in
    let age' = later - first_seen in
    let rises =
      scaled_mono opts.quota_bytes opts.fraction_num opts.fraction_den opts.quota_ramp age age' in
    elim (Bool-cases (leb opts.fraction_num 0 || leb opts.fraction_den opts.fraction_num)) [
      | inl off ↦ rw off (ground arith)
      | inr on ↦
          rw
            (
              on,
              gt→leb opts.quota_ramp 0 (omega arith),
              gt→leb opts.quota_ramp age (omega arith),
              gt→leb opts.quota_ramp age' (omega arith),
            )
            (max_mono _ _ (rises (ground arith) (omega arith) (omega arith)))
    ]

-- The quota in force never falls as time passes, it is never zero, and it is the configured one at and
-- after the end of the ramp.
pub quota-grows :
    (opts : Options) (first_seen now later : ℕ)
    → 0 < opts.quota_bytes
    → now ≤ later
    → (effective_quota opts first_seen now ≤ effective_quota opts first_seen later)
      × (0 < effective_quota opts first_seen now)
      × (effective_quota opts first_seen (first_seen + opts.quota_ramp + now) ≡ opts.quota_bytes)
quota-grows opts first_seen now later p h = (
  elim (Bool-cases (leb opts.quota_ramp (later - first_seen))) [
    | inl old ↦
        rw (quota-full opts first_seen later (leb→le opts.quota_ramp (later - first_seen) old))
          (quota-le opts first_seen now p)
    | inr young ↦ rises_early opts first_seen now later h (ground arith)
  ],
  quota-pos opts first_seen now p,
  quota-full opts first_seen (first_seen + opts.quota_ramp + now) (omega arith),
)
