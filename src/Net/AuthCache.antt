-- ===== src/Net/AuthCache.antt =====
-- internal/net/authcache.go: the replay cache over token signatures, with the time test of
-- `verifyToken` in internal/net/auth.go. Times are nanoseconds; a token is stamped in seconds.
pub mod Replay
use revika.Base.{
  ℕ, ◌+◌, ◌-◌, ◌*◌, Bool, true, false, ◌&&◌, Option, none, some, ltb, leb, if◌then◌else◌, Eq, ◌==◌,
  Map, empty_map, put, prune_map,
}

abbrev pub second : ℕ
second = 1000000000

-- five minutes
abbrev pub token_skew : ℕ
token_skew = 300 * second

-- one minute
abbrev pub gc_interval : ℕ
gc_interval = 60 * second

-- The time test of `verifyToken`: the stamp is at most the skew before or after the clock.
unfoldable pub in_window : ℕ → ℕ → Bool
in_window now ts = leb (now - ts * second) token_skew && leb (ts * second - now) token_skew

-- The expiry of each signature that was seen, and the time of the last sweep.
pub record Cache (Sig : Type 0) : Type 0 where
  pub entries : Map Sig ℕ
  pub last_gc : ℕ

unfoldable pub new_cache : {Sig : Type 0} → Cache Sig
new_cache = record { entries = empty_map; last_gc = 0 }

-- `if exp, ok := c.entries[sig]; ok && now.Before(exp)`
abbrev pub is_live : Option ℕ → ℕ → Bool
is_live none now = false
is_live (some exp) now = ltb now exp

module _ {Sig : Type 0} where
  -- The sweep at the start of `seen`.
  unfoldable pub sweep : Cache Sig → ℕ → Cache Sig
  sweep c now =
      if leb gc_interval (now - c.last_gc)
      then record { entries = prune_map (λ exp. ltb exp now) c.entries; last_gc = now }
      else c

module _ {Sig : Type 0} ⦃e : Eq Sig⦄ where
  unfoldable pub seen : Cache Sig → Sig → ℕ → Bool × Cache Sig
  seen c sig now =
      let c' = sweep c now in
      if is_live (c'.entries sig) now
      then (true, c')
      else (false, record c' { entries = put c'.entries sig (now + 2 * token_skew) })
