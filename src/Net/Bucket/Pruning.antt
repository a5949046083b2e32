-- ===== src/Net/Bucket/Pruning.antt =====
-- Pruning is lossless: a limiter that never prunes makes the same decisions.
use native.Mathlib.Nat.{le_trans}
use revika.Base.{
  ℕ, ◌≤◌, ◌≡◌, ◌≢◌, refl, ap, ap₂, sym, ◌∙◌, if_pos, if_neg, Bool, true, false, some, List, [], ◌∷◌,
  leb, Eq, put,
}
use revika.Net.Bucket.{Limiter, spend, allow_key}
use revika.Net.Bucket.Level.{
  IsValid, Fits-later, spend_level-Fits, level, level_of, spend_level, level-le, spend_lem,
  allow_key-decides, allow_key-level_ne, allow_key-level_self, allow_key-burst, allow_key-rate,
  allow_key-unit, allow_key-IsValid,
}
use revika.Net.Bucket.Runs.{Timed}

module _ {K : Type 0} ⦃e : Eq K⦄ where
  -- The decisions of a run.
  unfoldable pub decisions : Limiter K → List (K × ℕ) → List Bool
  decisions l [] = []
  decisions l ((k, t) ∷ calls) = let r = allow_key l k t in r.0 ∷ decisions r.1 calls

  -- `allow_key` without its call of `prune_locked`.
  unfoldable pub allow_unpruned : Limiter K → K → ℕ → Bool × Limiter K
  allow_unpruned l key now =
      let r = spend l now (l.buckets key) in (r.0, record l { buckets = put l.buckets key r.1 })

  unfoldable pub decisions_unpruned : Limiter K → List (K × ℕ) → List Bool
  decisions_unpruned l [] = []
  decisions_unpruned l ((k, t) ∷ calls) =
      let r = allow_unpruned l k t in r.0 ∷ decisions_unpruned r.1 calls

  record Agree (now : ℕ) (l s : Limiter K) : Type 0 where
    unit : l.unit ≡ s.unit
    rate : l.rate ≡ s.rate
    burst : l.burst ≡ s.burst
    levels : (k : K) (t : ℕ) → now ≤ t → level l k t ≡ level s k t
    valid : IsValid now l
    valid' : IsValid now s

  module _ (s : Limiter K) (now t : ℕ) (key : K) (after : now ≤ t) (v : IsValid now s) where
    spend-unpruned : spend s t (s.buckets key) ≡ spend_level s.unit t (level s key t)
    unfolding level
    spend-unpruned =
        spend_lem s t (s.buckets key) v.room (Fits-later s.burst now t _ after (v.fits key))

    allow_unpruned-IsValid : IsValid t (allow_unpruned s key t).1
    unfolding allow_unpruned
    allow_unpruned-IsValid = record {
      room = v.room;
      fits = λ k. elim (e.dec key k) [
        | yes same ↦
            rw (if_pos (e.dec key k) same true false, spend-unpruned)
              (spend_level-Fits s.burst s.unit t (level s key t) (level-le s key t))
        | no other ↦
            rw (if_neg (e.dec key k) other true false) (Fits-later s.burst now t _ after (v.fits k))
      ];
    }

    level-unpruned_self :
        (u : ℕ)
        → level (allow_unpruned s key t).1 key u
          ≡ level_of s.burst s.rate u (some (spend_level s.unit t (level s key t)).1)
    unfolding allow_unpruned
    level-unpruned_self u =
        unfold level in rw (if_pos (e.dec key key) refl true false, spend-unpruned) refl

    level-unpruned_ne :
        (k : K) (u : ℕ) → key ≢ k → level (allow_unpruned s key t).1 k u ≡ level s k u
    unfolding level allow_unpruned
    level-unpruned_ne k u ne = rw (if_neg (e.dec key k) ne true false) refl

  module _ (l s : Limiter K) (now t : ℕ) (key : K) (h : now ≤ t) (a : Agree now l s) where
    same_decision : (allow_key l key t).0 ≡ (allow_unpruned s key t).0
    unfolding allow_unpruned
    same_decision =
        allow_key-decides l now t key h a.valid
        ∙ ap₂ leb a.unit (a.levels key t h)
        ∙ sym (ap (λ r. r.0) (spend-unpruned s now t key h a.valid'))

    same_levels :
        (k : K) (u : ℕ)
        → t ≤ u
        → level (allow_key l key t).1 k u ≡ level (allow_unpruned s key t).1 k u
    same_levels k u later = elim (e.dec key k) [
      | yes same ↦
          rw
            (
              ← same,
              allow_key-level_self l now t key h a.valid,
              level-unpruned_self s now t key h a.valid',
              a.levels key t h,
              a.unit,
              a.rate,
              a.burst,
            )
            refl
      | no other ↦
          rw
            (
              allow_key-level_ne l now t key h a.valid k u other later,
              level-unpruned_ne s now t key h a.valid' k u other,
            )
            (a.levels k u (le_trans h later))
    ]

    Agree-step : Agree t (allow_key l key t).1 (allow_unpruned s key t).1
    Agree-step = record {
      unit = allow_key-unit l now t key h a.valid ∙ a.unit ∙ unfold allow_unpruned in refl;
      rate = allow_key-rate l now t key h a.valid ∙ a.rate ∙ unfold allow_unpruned in refl;
      burst = allow_key-burst l now t key h a.valid ∙ a.burst ∙ unfold allow_unpruned in refl;
      levels = same_levels;
      valid = allow_key-IsValid l now t key h a.valid;
      valid' = allow_unpruned-IsValid s now t key h a.valid';
    }

  decisions-Agree :
      (l s : Limiter K) (now stop : ℕ) (calls : List (K × ℕ))
      → Agree now l s
      → Timed now stop calls
      → decisions l calls ≡ decisions_unpruned s calls
  unfolding decisions decisions_unpruned
  decisions-Agree l s now stop [] a h = refl
  decisions-Agree l s now stop ((k, t) ∷ calls) a h = ap₂ ◌∷◌ (same_decision l s now t k h.0 a) (
      decisions-Agree (allow_key l k t).1 (allow_unpruned s k t).1 t stop calls
        (Agree-step l s now t k h.0 a) h.1)

  -- Over any calls of any keys at ordered times, a valid limiter decides as it would if it never
  -- dropped a bucket.
  pub prune-lossless :
      (l : Limiter K) (now stop : ℕ) (calls : List (K × ℕ))
      → IsValid now l
      → Timed now stop calls
      → decisions l calls ≡ decisions_unpruned l calls
  prune-lossless l now stop calls v = decisions-Agree l l now stop calls (record {
    unit = refl;
    rate = refl;
    burst = refl;
    levels = λ k t h. refl;
    valid = v;
    valid' = v;
  })
