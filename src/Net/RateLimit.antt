-- ===== src/Net/RateLimit.antt =====
-- internal/net/ratelimit.go: the limiter of write verbs, one bucket for each owner key.
use mathlib.Core.Option.{some-injective}
use revika.Base.{
  ℕ, ◌+◌, ◌-◌, ◌*◌, ◌≤◌, ◌≡◌, refl, subst, Bool, true, false, ◌&&◌, Option, none, some, List, [],
  ◌∷◌, map, arith, leb, if◌then◌else◌, Bool-cases, inl, inr, if_neg, ◌==◌, Bytes, bytes_eq,
}
use revika.Net.Bucket.{Limiter, fresh_limiter, new_limiter, allow_keyed}
use revika.Net.Bucket.Level.{IsValid}
use revika.Net.Bucket.Runs.{Timed, Timed-map, has_key, admitted_keyed, admitted_keyed-bound}

-- There is no bucket for an empty owner.
abbrev pub owner_key : Bytes → Option Bytes
owner_key [] = none
owner_key (b ∷ owner) = some (b ∷ owner)

-- `Allow`: with no limiter every write is unmetered. The limiter is changed in place.
unfoldable pub allow : Option (Limiter Bytes) → Bytes → ℕ → Bool × Option (Limiter Bytes)
unfolding allow_keyed
allow none owner now = (true, none)
allow (some l) owner now = let r = allow_keyed l (owner_key owner) now in (r.0, some r.1)

fresh_limiter-IsValid :
    {K : Type 0} (unit rate burst now : ℕ) → IsValid now (fresh_limiter {K = K} unit rate burst)
unfolding fresh_limiter
fresh_limiter-IsValid unit rate burst now = record { room = ground arith; fits = λ k. tt }

-- A limiter as it is built is valid, whatever its parameters.
pub new_limiter-IsValid :
    {K : Type 0} (unit rate burst now : ℕ) {l : Limiter K}
    → new_limiter unit rate burst ≡ some l
    → IsValid now l
unfolding new_limiter
new_limiter-IsValid {K} unit rate burst now {l} h = elim (Bool-cases (leb rate 0)) [
  | inl off ↦ absurd (let e : none ≡ some l = rw off at h in cc)
  | inr on ↦
      let e : some (fresh_limiter {K = K} unit rate burst) ≡ some l = rw on at h in
      subst (IsValid now) (some-injective _ _ e) (fresh_limiter-IsValid unit rate burst now)
]

-- How many of the writes of `owner` a limiter allows.
unfoldable pub admitted : Bytes → Option (Limiter Bytes) → List (Bytes × ℕ) → ℕ
admitted owner l [] = 0
admitted owner l ((o, t) ∷ calls) =
    let r = allow l o t in (if (o == owner) && r.0 then 1 else 0) + admitted owner r.1 calls

owner_matches : (o : Bytes) (b : ℕ) (w : Bytes) → ((o == (b ∷ w)) ≡ has_key (owner_key o) (b ∷ w))
owner_matches [] b w = if_neg (bytes_eq.dec [] (b ∷ w)) (λ p. cc) true false
owner_matches (c ∷ o) b w = refl

admitted-keyed :
    (b : ℕ) (w : Bytes) (l : Limiter Bytes) (calls : List (Bytes × ℕ))
    → admitted (b ∷ w) (some l) calls
      ≡ admitted_keyed (b ∷ w) l (map (λ c. (owner_key c.0, c.1)) calls)
unfolding admitted admitted_keyed allow
admitted-keyed b w l [] = refl
admitted-keyed b w l ((o, t) ∷ calls) =
    rw (owner_matches o b w, admitted-keyed b w (allow_keyed l (owner_key o) t).1 calls) refl

-- Over any writes of any owners at ordered times from `now` to `stop`, a valid limiter allows an
-- owner at most the burst and what accrues in that time.
pub admitted-bound :
    (b : ℕ) (w : Bytes) (l : Limiter Bytes) (now stop : ℕ) (calls : List (Bytes × ℕ))
    → IsValid now l
    → Timed now stop calls
    → admitted (b ∷ w) (some l) calls * l.unit ≤ l.burst + (stop - now) * l.rate
admitted-bound b w l now stop calls v h =
    rw (admitted-keyed b w l calls)
      (admitted_keyed-bound (b ∷ w) l now stop _ v (Timed-map owner_key now stop calls h))
