-- ===== src/Net/Bucket/Runs.antt =====
-- Runs of a limiter over the requests of many keys: how much a key is admitted, and that the
-- pruning of idle buckets changes no decision.
use native.Mathlib.Nat.{add-mul, le_trans}
use revika.Base.{
  ℕ, ◌+◌, ◌-◌, ◌*◌, ◌≤◌, ◌≡◌, refl, if_pos, if_neg, Option, none, some, Bool, true, false, ◌&&◌,
  List, [], ◌∷◌, map, arith, if◌then◌else◌, Eq, ◌==◌,
}
use revika.Net.Bucket.{Limiter, allow_key, allow_keyed}
use revika.Net.Bucket.Level.{
  IsValid, level, level-le, level-wait, allow_key-decides, allow_key-level_ne, allow_key-level_self,
  allow_key-rate, allow_key-unit, allow_key-IsValid,
}

-- The calls come in the order of their times, which lie from `now` to `stop`.
abbrev pub Timed : {K : Type 0} → ℕ → ℕ → List (K × ℕ) → Type 0
Timed now stop [] = now ≤ stop
Timed now stop ((k, t) ∷ calls) = (now ≤ t) × Timed t stop calls

pub Timed-map :
    {A B : Type 0} (f : A → B) (now stop : ℕ) (calls : List (A × ℕ))
    → Timed now stop calls
    → Timed now stop (map (λ c. (f c.0, c.1)) calls)
Timed-map f now stop [] h = h
Timed-map f now stop ((a, t) ∷ calls) h = (h.0, Timed-map f t stop calls h.1)

pub Timed-le :
    {K : Type 0} (now stop : ℕ) (calls : List (K × ℕ)) → Timed now stop calls → now ≤ stop
Timed-le now stop [] h = h
Timed-le now stop ((k, t) ∷ calls) h = le_trans h.0 (Timed-le t stop calls h.1)

pay_step :
    (b : Bool) (a unit before at after rate now t stop : ℕ)
    → now ≤ t
    → t ≤ stop
    → after + (if b then unit else 0) ≤ at
    → at ≤ before + (t - now) * rate
    → a * unit ≤ after + (stop - t) * rate
    → ((if b then 1 else 0) + a) * unit ≤ before + (stop - now) * rate
pay_step true a unit before at after rate now t stop h k paid waited rest =
    let e : stop - now ≡ t - now + (stop - t) = omega arith in
    rw e (omega (arith, add-mul (t - now) (stop - t) rate))
pay_step false a unit before at after rate now t stop h k paid waited rest =
    let e : stop - now ≡ t - now + (stop - t) = omega arith in
    rw e (omega (arith, add-mul (t - now) (stop - t) rate))

no_wait : (rate t : ℕ) → (t - t) * rate ≡ 0
no_wait rate t = let e : t - t ≡ 0 = omega arith in rw e (omega arith)

module _ {K : Type 0} ⦃e : Eq K⦄ where
  -- How many of the calls for `k` a limiter allows.
  unfoldable pub admitted : K → Limiter K → List (K × ℕ) → ℕ
  admitted k l [] = 0
  admitted k l ((j, t) ∷ calls) =
      let r = allow_key l j t in (if (j == k) && r.0 then 1 else 0) + admitted k r.1 calls

  -- The cost of one call to `k` is paid from its level.
  allow_key-pays :
      (l : Limiter K) (now t : ℕ) (j k : K)
      → now ≤ t
      → IsValid now l
      → level (allow_key l j t).1 k t + (if (j == k) && (allow_key l j t).0 then l.unit else 0)
        ≤ level l k t
  allow_key-pays l now t j k h v = elim (e.dec j k) [
    | yes same ↦
        rw
          (
            if_pos (e.dec j k) same true false,
            allow_key-decides l now t j h v,
            ← same,
            allow_key-level_self l now t j h v,
          )
          (ground (arith, no_wait l.rate t))
    | no other ↦
        rw
          (
            if_neg (e.dec j k) other true false,
            allow_key-level_ne l now t j h v k t other (omega arith),
          )
          (omega arith)
  ]

  pub admitted-level :
      (k : K) (l : Limiter K) (now stop : ℕ) (calls : List (K × ℕ))
      → IsValid now l
      → Timed now stop calls
      → admitted k l calls * l.unit ≤ level l k now + (stop - now) * l.rate
  unfolding admitted
  admitted-level k l now stop [] v h = omega arith
  admitted-level k l now stop ((j, t) ∷ calls) v h =
      let r = allow_key l j t in
      let ih = admitted-level k r.1 t stop calls (allow_key-IsValid l now t j h.0 v) h.1 in
      pay_step ((j == k) && r.0) (admitted k r.1 calls) l.unit _ _ _ l.rate now t stop h.0
        (Timed-le t stop calls h.1) (allow_key-pays l now t j k h.0 v) (level-wait l k now t h.0)
        (rw (allow_key-unit l now t j h.0 v, allow_key-rate l now t j h.0 v) at ih)

  -- From any valid state, over any calls of any keys at ordered times from `now` to `stop`, a key is
  -- admitted for at most its burst and what accrues in that time.
  pub admitted_key-bound :
      (k : K) (l : Limiter K) (now stop : ℕ) (calls : List (K × ℕ))
      → IsValid now l
      → Timed now stop calls
      → admitted k l calls * l.unit ≤ l.burst + (stop - now) * l.rate
  admitted_key-bound k l now stop calls v h =
      omega (arith, admitted-level k l now stop calls v h, level-le l k now)

  abbrev pub has_key : Option K → K → Bool
  has_key none k = false
  has_key (some j) k = j == k

  -- How many of the requests with the key `k` a limiter allows.
  unfoldable pub admitted_keyed : K → Limiter K → List (Option K × ℕ) → ℕ
  admitted_keyed k l [] = 0
  admitted_keyed k l ((o, t) ∷ calls) =
      let r = allow_keyed l o t in
      (if has_key o k && r.0 then 1 else 0) + admitted_keyed k r.1 calls

  -- The requests that have a key.
  with_keys : List (Option K × ℕ) → List (K × ℕ)
  with_keys [] = []
  with_keys ((none, t) ∷ calls) = with_keys calls
  with_keys ((some k, t) ∷ calls) = (k, t) ∷ with_keys calls

  Timed-with_keys :
      (now start stop : ℕ) (calls : List (Option K × ℕ))
      → now ≤ start
      → Timed start stop calls
      → Timed now stop (with_keys calls)
  unfolding with_keys
  Timed-with_keys now start stop [] h t = le_trans h t
  Timed-with_keys now start stop ((none, u) ∷ calls) h t =
      Timed-with_keys now u stop calls (le_trans h t.0) t.1
  Timed-with_keys now start stop ((some k, u) ∷ calls) h t =
      (le_trans h t.0, Timed-with_keys u u stop calls (omega arith) t.1)

  admitted-with_keys :
      (k : K) (l : Limiter K) (calls : List (Option K × ℕ))
      → admitted_keyed k l calls ≡ admitted k l (with_keys calls)
  unfolding admitted_keyed allow_keyed with_keys admitted
  admitted-with_keys k l [] = refl
  admitted-with_keys k l ((none, t) ∷ calls) = omega (arith, admitted-with_keys k l calls)
  admitted-with_keys k l ((some j, t) ∷ calls) =
      omega (arith, admitted-with_keys k (allow_key l j t).1 calls)

  pub admitted_keyed-bound :
      (k : K) (l : Limiter K) (now stop : ℕ) (calls : List (Option K × ℕ))
      → IsValid now l
      → Timed now stop calls
      → admitted_keyed k l calls * l.unit ≤ l.burst + (stop - now) * l.rate
  admitted_keyed-bound k l now stop calls v h = rw (admitted-with_keys k l calls) (
      admitted_key-bound k l now stop (with_keys calls) v
        (Timed-with_keys now now stop calls (omega arith) h))
