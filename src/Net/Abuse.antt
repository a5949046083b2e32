-- ===== src/Net/Abuse.antt =====
-- internal/net/abuse.go: the monitor of rebalance moves and of possession lies. Times are
-- nanoseconds since Go's zero time, which a field that was never set holds. A call returns the
-- reason for which it blocks the peer, if it does, and the new monitor. Logging is left out.
pub mod Moves
pub mod Lies
use revika.Base.{
  ℕ, ◌+◌, ◌-◌, ◌*◌, ◌/◌, Bool, true, false, ◌&&◌, Option, none, some, List, [], ◌∷◌, ◌++◌, length,
  keep, ltb, leb, eqb, if◌then◌else◌, Eq, Map, empty_map, put,
}

abbrev pub minute : ℕ
minute = 60 * 1000000000

pub record AbuseConfig : Type 0 where
  pub rebalance_interval : ℕ
  pub tolerance : ℕ
  pub coalesce : ℕ
  pub strikes : ℕ
  pub decay : ℕ

abbrev pub default_coalesce : ℕ → ℕ
default_coalesce interval =
    if ltb 0 interval && ltb (interval / 4) (5 * minute) then interval / 4 else 5 * minute

-- Zero fields take their defaults.
unfoldable pub with_defaults : AbuseConfig → AbuseConfig
with_defaults c = record {
  rebalance_interval = c.rebalance_interval;
  tolerance = if eqb c.tolerance 0 then 10 * minute else c.tolerance;
  coalesce = if eqb c.coalesce 0 then default_coalesce c.rebalance_interval else c.coalesce;
  strikes = if eqb c.strikes 0 then 3 else c.strikes;
  decay = if eqb c.decay 0 then 24 * 60 * minute else c.decay;
}

pub record PeerAbuse : Type 0 where
  pub last_move : ℕ
  pub last_event : ℕ
  pub have_event : Bool
  pub strikes : List ℕ

-- `&peerAbuse{}`
abbrev pub no_abuse : PeerAbuse
no_abuse = record { last_move = 0; last_event = 0; have_event = false; strikes = [] }

pub record AbuseMonitor (Peer : Type 0) : Type 0 where
  pub cfg : AbuseConfig
  pub peers : Map Peer PeerAbuse

pub data Reason : Type 0 where
  off_schedule possession_lies : Reason

unfoldable pub new_abuse_monitor : {Peer : Type 0} → AbuseConfig → AbuseMonitor Peer
unfolding with_defaults
new_abuse_monitor cfg = record { cfg = with_defaults cfg; peers = empty_map }

-- `RecordRebalanceMove` on what is known of the peer. The first move is a baseline.
unfoldable pub move_peer : AbuseConfig → Option PeerAbuse → ℕ → Option Reason × PeerAbuse
move_peer cfg none now =
    (none, record { last_move = now; last_event = now; have_event = true; strikes = [] })
move_peer cfg (some st) now =
    if ltb now (st.last_move + cfg.coalesce) then (none, record st { last_move = now }) else (
      if st.have_event && ltb (now + cfg.tolerance) (st.last_event + cfg.rebalance_interval)
          then some off_schedule
          else none,
      record st { last_move = now; last_event = now; have_event = true },
    )

abbrev pub or_new : Option PeerAbuse → PeerAbuse
or_new none = no_abuse
or_new (some st) = st

-- `t.After(cutoff)`, with the cutoff `now - decay`
abbrev pub is_recent : AbuseConfig → ℕ → ℕ → Bool
is_recent cfg now t = ltb now (t + cfg.decay)

-- `RecordPossessionLie` on what is known of the peer.
unfoldable pub lie_peer : AbuseConfig → Option PeerAbuse → ℕ → Option Reason × PeerAbuse
lie_peer cfg o now =
    let st = or_new o in
    let strikes = keep (is_recent cfg now) st.strikes ++ now ∷ [] in
    if leb cfg.strikes (length strikes)
    then (some possession_lies, record st { strikes = [] })
    else (none, record st { strikes = strikes })

module _ {Peer : Type 0} ⦃e : Eq Peer⦄ where
  unfoldable pub record_rebalance_move :
      AbuseMonitor Peer → Peer → ℕ → Option Reason × AbuseMonitor Peer
  unfolding move_peer
  record_rebalance_move m p now =
      if leb m.cfg.rebalance_interval 0
      then (none, m)
      else (let r = move_peer m.cfg (m.peers p) now in
          (r.0, record m { peers = put m.peers p r.1 }))

  unfoldable pub record_possession_lie :
      AbuseMonitor Peer → Peer → ℕ → Option Reason × AbuseMonitor Peer
  unfolding lie_peer
  record_possession_lie m p now =
      let r = lie_peer m.cfg (m.peers p) now in (r.0, record m { peers = put m.peers p r.1 })

-- What the shard server and the rebalancer report to the monitor.
pub data Event (Peer : Type 0) : Type 0 where
  move : Peer → ℕ → Event Peer
  lie : Peer → ℕ → Event Peer

abbrev pub blocked : {Peer : Type 0} → Peer → Option Reason → List (Peer × Reason)
blocked p none = []
blocked p (some r) = (p, r) ∷ []

module _ {Peer : Type 0} ⦃e : Eq Peer⦄ where
  unfoldable pub handle : AbuseMonitor Peer → Event Peer → List (Peer × Reason) × AbuseMonitor Peer
  handle m (move p now) = let r = record_rebalance_move m p now in (blocked p r.0, r.1)
  handle m (lie p now) = let r = record_possession_lie m p now in (blocked p r.0, r.1)

  -- The blocks that a run of reports causes, in order.
  unfoldable pub blocks : AbuseMonitor Peer → List (Event Peer) → List (Peer × Reason)
  blocks m [] = []
  blocks m (event ∷ events) = let r = handle m event in r.0 ++ blocks r.1 events
