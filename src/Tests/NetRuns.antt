-- ===== src/Tests/NetRuns.antt =====
-- Runs of the limiters, of the replay cache and of the abuse monitor.
use revika.Base.{
  ℕ, ◌+◌, ◌-◌, ◌*◌, ◌≤◌, ◌≡◌, refl, true, false, none, some, List, [], ◌∷◌, arith, Bytes, bytes_eq,
  nat_eq, inl, inr, bytes_eq,
}
use revika.Net.Bucket.{Limiter, fresh_limiter, new_limiter, allow_key}
use revika.Net.Bucket.Level.{IsValid}
use revika.Net.Bucket.Runs.{Timed}
use revika.Net.Bucket.Pruning.{decisions, decisions_unpruned, prune-lossless}
use revika.Net.RateLimit.{admitted, admitted-bound, new_limiter-IsValid, allow}
use revika.Net.SubnetLimit as Subnet
use revika.Net.SubnetLimit.{SubnetLimiter, ip_key, ip_key-eq_iff}
use revika.Net.SubnetLimit.Networks.{in_subnet, admitted_in, subnet-bound}
use revika.Net.AuthCache.{new_cache, seen, token_skew, in_window, second, sweep}
use revika.Net.AuthCache.Replay as Replay
use revika.Net.AuthCache.Replay.{replay-refused, fresh-accepted, token_once, replay_at_edge}
use revika.Net.Abuse.{
  AbuseConfig, AbuseMonitor, Event, move, lie, blocks, new_abuse_monitor, off_schedule, handle,
  record_rebalance_move,
}
use revika.Net.Abuse.Moves.{OnSchedule}
use revika.Net.Abuse.Lies.{lie_blocks, LiesWithin, lies-blocked}

-- Two tokens of 10 units, one unit in a nanosecond.
abbrev limiter : Limiter Bytes
limiter = fresh_limiter 10 1 20

limiter-IsValid : IsValid 0 limiter
limiter-IsValid = new_limiter-IsValid 10 1 20 0 (unfold new_limiter in refl)

abbrev writer : Bytes
writer = 7 ∷ []

abbrev writes : List (Bytes × ℕ)
writes = (writer, 1) ∷ (writer, 2) ∷ (writer, 3) ∷ (8 ∷ [], 4) ∷ (writer, 30) ∷ []

-- The burst, and one more after the refill.
admitted-writes : admitted writer (some limiter) writes ≡ 3
unfolding admitted bytes_eq allow allow_key fresh_limiter
admitted-writes = refl

writes-Timed : Timed 0 40 writes
writes-Timed =
    (omega arith, (omega arith, (omega arith, (omega arith, (omega arith, omega arith)))))

admitted-bound_example :
    admitted writer (some limiter) writes * limiter.unit ≤ limiter.burst + (40 - 0) * limiter.rate
admitted-bound_example = admitted-bound 7 [] limiter 0 40 writes limiter-IsValid writes-Timed

prune-lossless_example : decisions limiter writes ≡ decisions_unpruned limiter writes
prune-lossless_example = prune-lossless limiter 0 40 writes limiter-IsValid writes-Timed

abbrev subnets : SubnetLimiter
subnets = record { limiter = limiter; prefix4 = 24; prefix6 = 56 }

-- Three addresses of one /24, one of another, and one with no IP.
abbrev requests : List (Bytes × ℕ)
requests =
    (10 ∷ 0 ∷ 0 ∷ 1 ∷ [], 1)
    ∷ (10 ∷ 0 ∷ 0 ∷ 2 ∷ [], 1)
    ∷ (10 ∷ 0 ∷ 0 ∷ 3 ∷ [], 2)
    ∷ (10 ∷ 0 ∷ 1 ∷ 3 ∷ [], 2)
    ∷ ([], 3)
    ∷ []

abbrev subnet : Bytes
subnet = 10 ∷ 0 ∷ 0 ∷ 0 ∷ []

admitted-requests : Subnet.admitted some subnet subnets requests ≡ 2
unfolding Subnet.admitted Subnet.key bytes_eq allow_key fresh_limiter
admitted-requests = refl

abbrev home : Bytes
home = 10 ∷ 0 ∷ 0 ∷ 7 ∷ []

home_key : Subnet.ip_key subnets home ≡ some subnet
unfolding ip_key
home_key = refl

in_home : admitted_in some 3 7 home subnets requests ≡ 2
unfolding admitted_in Subnet.key in_subnet bytes_eq allow_key fresh_limiter
in_home = refl

subnet-bound_example :
    admitted_in some 3 7 home subnets requests * subnets.limiter.unit
    ≤ subnets.limiter.burst + (9 - 0) * subnets.limiter.rate
subnet-bound_example =
    subnet-bound some 3 7 home subnet subnets 0 9 requests refl refl home_key limiter-IsValid
      (omega arith, (omega arith, (omega arith, (omega arith, (omega arith, omega arith)))))

-- A token stamped at second 1000, first seen ten seconds before.
abbrev sig : Bytes
sig = 5 ∷ []

abbrev first_seen : ℕ
first_seen = 990 * second

abbrev between : List (Bytes × ℕ)
between = (6 ∷ [], 995 * second) ∷ (4 ∷ [], 1100 * second) ∷ []

first_lem : (seen new_cache sig first_seen).0 ≡ false
unfolding seen new_cache sweep
first_lem = refl

token_once_example :
    (seen (Replay.run (seen new_cache sig first_seen).1 between) sig (1200 * second)).0 ≡ true
token_once_example =
    token_once new_cache sig 1000 first_seen (1200 * second) between (unfold in_window in refl)
      (unfold in_window in refl) first_lem (omega arith, (omega arith, omega arith)) (omega arith)

first_edge : (seen new_cache sig (1000 * second - token_skew)).0 ≡ false
unfolding seen new_cache sweep
first_edge = refl

replay_at_edge_example :
    (in_window (1000 * second - token_skew) 1000 ≡ true)
    × (in_window (1000 * second + token_skew) 1000 ≡ true)
    × ((seen (seen new_cache sig (1000 * second - token_skew)).1 sig (1000 * second + token_skew)).0
        ≡ false)
replay_at_edge_example = replay_at_edge new_cache sig 1000 (omega arith) first_edge

-- A sweep is due each 100 ns, moves less than 10 ns apart are one sweep, and three lies within
-- 50 ns get a peer blocked.
abbrev cfg : AbuseConfig
cfg = record { rebalance_interval = 100; tolerance = 5; coalesce = 10; strikes = 3; decay = 50 }

abbrev monitor : AbuseMonitor ℕ
monitor = new_abuse_monitor cfg

abbrev moves : List (Event ℕ)
moves = move 1 1000 ∷ move 1 1005 ∷ lie 1 1050 ∷ move 2 1060 ∷ move 1 1101 ∷ []

-- A sweep that comes too soon after the last is a violation.
moves_blocks : blocks monitor (move 1 1000 ∷ move 1 1050 ∷ []) ≡ (1, off_schedule) ∷ []
unfolding blocks new_abuse_monitor handle record_rebalance_move nat_eq
moves_blocks = refl

moves-OnSchedule : OnSchedule 1 monitor.cfg none moves
unfolding new_abuse_monitor nat_eq
moves-OnSchedule = (tt, tt, (omega arith, inl (omega arith), (omega arith, inr (omega arith), tt)))

abbrev told : List (Event ℕ)
told = lie 1 1000 ∷ lie 2 1001 ∷ lie 1 1010 ∷ move 1 1020 ∷ lie 1 1030 ∷ []

told-LiesWithin : LiesWithin 1 1000 (1000 + monitor.cfg.decay) told
unfolding new_abuse_monitor
told-LiesWithin = (
  (λ p. (omega arith, omega arith)),
  (
    (λ p. (omega arith, omega arith)),
    ((λ p. (omega arith, omega arith)), ((λ p. (omega arith, omega arith)), tt)),
  ),
)

lies-blocked_example : 1 ≤ lie_blocks 1 (blocks monitor told)
unfolding nat_eq
lies-blocked_example =
    lies-blocked 1 monitor 1000 told told-LiesWithin (unfold new_abuse_monitor in omega arith)
      (unfold new_abuse_monitor in omega arith)
