-- ===== src/Net/Abuse/Lies.antt =====
-- Possession lies: as many as the strike budget within the decay time get a peer blocked, and
-- fewer never do.
use revika.Base.{
  ℕ, suc, ◌+◌, ◌≤◌, ◌<◌, ◌≡◌, ◌≢◌, ◌⊎◌, ◌&&◌, refl, ap, Bool, true, false, Option, none, some, List,
  [], ◌∷◌, ◌++◌, arith, put, if_pos, if_neg, Eq, ◌==◌, leb, length, keep, length-append,
  length-keep-le, if◌then◌else◌, Bool-cases, inl, inr,
}
use revika.Net.Abuse.{
  AbuseConfig, PeerAbuse, AbuseMonitor, Reason, off_schedule, possession_lies, move_peer, lie_peer,
  record_rebalance_move, record_possession_lie, Event, move, lie, handle, blocks, blocked, or_new,
  is_recent,
}

-- The strikes that are no older than `start`.
abbrev since : ℕ → List ℕ → ℕ
since start [] = 0
since start (t ∷ ts) = (if leb start t then 1 else 0) + since start ts

since-append :
    (start : ℕ) (xs ys : List ℕ) → since start (xs ++ ys) ≡ since start xs + since start ys
since-append start [] ys = omega arith
since-append start (x ∷ xs) ys = omega (arith, since-append start xs ys)

since-le-length : (start : ℕ) (xs : List ℕ) → since start xs ≤ length xs
since-le-length start [] = omega arith
since-le-length start (x ∷ xs) = ground (arith, since-le-length start xs)

-- What is no older than `start` is recent, until the decay time after `start` has passed.
since-keep :
    (cfg : AbuseConfig) (start now : ℕ) (xs : List ℕ)
    → now < start + cfg.decay
    → since start (keep (is_recent cfg now) xs) ≡ since start xs
unfolding keep
since-keep cfg start now [] h = refl
since-keep cfg start now (x ∷ xs) h = ground (arith, since-keep cfg start now xs h)

abbrev pub strikes_of : Option PeerAbuse → List ℕ
strikes_of o = (or_new o).strikes

-- Whether the monitor blocks for lies.
abbrev for_lies : Option Reason → ℕ
for_lies none = 0
for_lies (some off_schedule) = 0
for_lies (some possession_lies) = 1

-- A lie leads to a block, or adds a strike that stays for the decay time.
lie_peer-adds :
    (cfg : AbuseConfig) (start now : ℕ) (o : Option PeerAbuse)
    → start ≤ now
    → now < start + cfg.decay
    → since start (strikes_of o) < cfg.strikes
    → ((lie_peer cfg o now).0 ≡ some possession_lies)
      ⊎ ((suc (since start (strikes_of o)) ≡ since start (lie_peer cfg o now).1.strikes)
          × (since start (lie_peer cfg o now).1.strikes < cfg.strikes))
unfolding lie_peer
lie_peer-adds cfg start now o h k few =
    let xs = keep (is_recent cfg now) (strikes_of o) in
    ground (
      arith,
      since-append start xs (now ∷ []),
      since-le-length start (xs ++ now ∷ []),
      since-keep cfg start now (strikes_of o) k,
    )

-- A lie adds one strike at most, and does not block while the budget is not reached.
lie_peer-few :
    (cfg : AbuseConfig) (now : ℕ) (o : Option PeerAbuse)
    → length (strikes_of o) + 1 < cfg.strikes
    → ((lie_peer cfg o now).0 ≡ none)
      × (length (lie_peer cfg o now).1.strikes ≤ length (strikes_of o) + 1)
unfolding lie_peer
lie_peer-few cfg now o few =
    let xs = keep (is_recent cfg now) (strikes_of o) in
    ground (arith, length-append xs (now ∷ []), length-keep-le (is_recent cfg now) (strikes_of o))

move_peer-strikes :
    (cfg : AbuseConfig) (now : ℕ) (o : Option PeerAbuse)
    → (move_peer cfg o now).1.strikes ≡ strikes_of o
unfolding move_peer
move_peer-strikes cfg now none = refl
move_peer-strikes cfg now (some st) = ground arith

abbrev is_lie : Reason → Bool
is_lie off_schedule = false
is_lie possession_lies = true

module _ {Peer : Type 0} ⦃e : Eq Peer⦄ (p : Peer) where
  -- The blocks of `p` for lies.
  abbrev pub lie_blocks : List (Peer × Reason) → ℕ
  lie_blocks [] = 0
  lie_blocks (b ∷ bs) = (if (b.0 == p) && is_lie b.1 then 1 else 0) + lie_blocks bs

  -- The lies of `p` that are reported.
  abbrev pub lies : List (Event Peer) → ℕ
  lies [] = 0
  lies (move j now ∷ events) = lies events
  lies (lie j now ∷ events) = (if j == p then 1 else 0) + lies events

  -- The lies of `p` are reported from `start` on and before `stop`.
  abbrev pub LiesWithin : ℕ → ℕ → List (Event Peer) → Type 0
  LiesWithin start stop [] = Unit
  LiesWithin start stop (move j now ∷ events) = LiesWithin start stop events
  LiesWithin start stop (lie j now ∷ events) =
      (j ≡ p → (start ≤ now) × (now < stop)) × LiesWithin start stop events

  lie_blocks-append :
      (xs ys : List (Peer × Reason)) → lie_blocks (xs ++ ys) ≡ lie_blocks xs + lie_blocks ys
  lie_blocks-append [] ys = omega arith
  lie_blocks-append (x ∷ xs) ys = omega (arith, lie_blocks-append xs ys)

  strikes-put :
      (m : AbuseMonitor Peer) (j : Peer) (st : PeerAbuse)
      → strikes_of (put m.peers j st p) ≡ (if j == p then st.strikes else strikes_of (m.peers p))
  strikes-put m j st = ground arith

  strikes-put_self :
      (m : AbuseMonitor Peer) (j : Peer) (st : PeerAbuse)
      → j ≡ p
      → strikes_of (put m.peers j st p) ≡ st.strikes
  strikes-put_self m j st same = rw (if_pos (e.dec j p) same true false) refl

  strikes-put_ne :
      (m : AbuseMonitor Peer) (j : Peer) (st : PeerAbuse)
      → j ≢ p
      → strikes_of (put m.peers j st p) ≡ strikes_of (m.peers p)
  strikes-put_ne m j st other = rw (if_neg (e.dec j p) other true false) refl

  lies-cons_self :
      (j : Peer) (now : ℕ) (events : List (Event Peer))
      → j ≡ p
      → lies (lie j now ∷ events) ≡ 1 + lies events
  lies-cons_self j now events same = rw (if_pos (e.dec j p) same true false) refl

  lies-cons_ne :
      (j : Peer) (now : ℕ) (events : List (Event Peer))
      → j ≢ p
      → lies (lie j now ∷ events) ≡ 0 + lies events
  lies-cons_ne j now events other = rw (if_neg (e.dec j p) other true false) refl

  strikes-move :
      (m : AbuseMonitor Peer) (j : Peer) (now : ℕ)
      → strikes_of ((record_rebalance_move m j now).1.peers p) ≡ strikes_of (m.peers p)
  unfolding record_rebalance_move
  strikes-move m j now = ground (
    arith,
    strikes-put m j (move_peer m.cfg (m.peers j) now).1,
    move_peer-strikes m.cfg now (m.peers j),
  )

  cfg-move :
      (m : AbuseMonitor Peer) (j : Peer) (now : ℕ) → (record_rebalance_move m j now).1.cfg ≡ m.cfg
  unfolding record_rebalance_move
  cfg-move m j now = ground arith

  move_peer-no_lie :
      (cfg : AbuseConfig) (o : Option PeerAbuse) (now : ℕ)
      → (move_peer cfg o now).0 ≢ some possession_lies
  unfolding move_peer
  move_peer-no_lie cfg none now h = cc
  move_peer-no_lie cfg (some st) now h = ground arith

  blocked-no_lie :
      (j : Peer) (o : Option Reason) → o ≢ some possession_lies → lie_blocks (blocked j o) ≡ 0
  blocked-no_lie j none h = refl
  blocked-no_lie j (some off_schedule) h = ground arith
  blocked-no_lie j (some possession_lies) h = absurd (h refl)

  blocked-other : (j : Peer) (o : Option Reason) → j ≢ p → lie_blocks (blocked j o) ≡ 0
  blocked-other j none ne = refl
  blocked-other j (some r) ne = ground arith

  blocked-lie :
      (j : Peer) (o : Option Reason)
      → j ≡ p
      → o ≡ some possession_lies
      → lie_blocks (blocked j o) ≡ 1
  blocked-lie j none same h = cc
  blocked-lie j (some r) same h = ground arith

  blocked-move :
      (m : AbuseMonitor Peer) (j : Peer) (now : ℕ)
      → lie_blocks (blocked j (record_rebalance_move m j now).0) ≡ 0
  unfolding record_rebalance_move
  blocked-move m j now = elim (Bool-cases (leb m.cfg.rebalance_interval 0)) [
    | inl off ↦ rw off refl
    | inr on ↦ rw on (blocked-no_lie j _ (move_peer-no_lie m.cfg (m.peers j) now))
  ]

  -- From the state of `p`, and for its lies within the decay time: once they reach the budget,
  -- `p` is blocked.
  pub lies-blocked :
      (m : AbuseMonitor Peer) (start : ℕ) (events : List (Event Peer))
      → LiesWithin start (start + m.cfg.decay) events
      → since start (strikes_of (m.peers p)) < m.cfg.strikes
      → m.cfg.strikes ≤ since start (strikes_of (m.peers p)) + lies events
      → 1 ≤ lie_blocks (blocks m events)
  unfolding blocks handle record_possession_lie
  lies-blocked m start [] w few enough = absurd (omega arith)
  lies-blocked m start (move j now ∷ events) w few enough =
      let r = record_rebalance_move m j now in
      let ih =
        lies-blocked r.1 start events (rw (cfg-move m j now) w)
          (rw (cfg-move m j now, strikes-move m j now) few)
          (rw (cfg-move m j now, strikes-move m j now) enough) in
      omega (arith, lie_blocks-append (blocked j r.0) (blocks r.1 events))
  lies-blocked m start (lie j now ∷ events) w few enough =
      let q = lie_peer m.cfg (m.peers j) now in
      let m' : AbuseMonitor Peer = record m { peers = put m.peers j q.1 } in
      elim (e.dec j p) [
        | yes same ↦
            elim (lie_peer-adds m.cfg start now (m.peers j) (w.0 same).0 (w.0 same).1
              (rw same few)) [
                | inl spoke ↦ omega (
                  arith,
                  lie_blocks-append (blocked j q.0) (blocks m' events),
                  blocked-lie j q.0 same spoke,
                )
                | inr grown ↦
                    let held : since start (strikes_of (m.peers j))
                        ≡ since start (strikes_of (m.peers p)) =
                      ap (λ x. since start (strikes_of (m.peers x))) same in
                    let here = strikes-put_self m j q.1 same in
                    let ih =
                      lies-blocked m' start events w.1 (rw here grown.1)
                        (rw here (omega (arith, lies-cons_self j now events same))) in
                    omega (arith, lie_blocks-append (blocked j q.0) (blocks m' events))
              ]
        | no other ↦
            let here = strikes-put_ne m j q.1 other in
            let ih =
              lies-blocked m' start events w.1 (rw here few)
                (rw here (omega (arith, lies-cons_ne j now events other))) in
            omega (arith, lie_blocks-append (blocked j q.0) (blocks m' events))
      ]

  -- A peer with fewer lies in all than the budget, counting the strikes that it has, is not
  -- blocked for them.
  pub few_lies-blocked :
      (m : AbuseMonitor Peer) (events : List (Event Peer))
      → length (strikes_of (m.peers p)) + lies events < m.cfg.strikes
      → lie_blocks (blocks m events) ≡ 0
  unfolding blocks handle record_possession_lie
  few_lies-blocked m [] few = refl
  few_lies-blocked m (move j now ∷ events) few =
      let r = record_rebalance_move m j now in
      let ih = few_lies-blocked r.1 events (rw (cfg-move m j now, strikes-move m j now) few) in
      omega (arith, lie_blocks-append (blocked j r.0) (blocks r.1 events), blocked-move m j now)
  few_lies-blocked m (lie j now ∷ events) few =
      let q = lie_peer m.cfg (m.peers j) now in
      let m' : AbuseMonitor Peer = record m { peers = put m.peers j q.1 } in
      elim (e.dec j p) [
        | yes same ↦
            let held : length (strikes_of (m.peers j)) ≡ length (strikes_of (m.peers p)) =
              ap (λ x. length (strikes_of (m.peers x))) same in
            let count = lies-cons_self j now events same in
            let quiet = lie_peer-few m.cfg now (m.peers j) (omega arith) in
            let ih =
              few_lies-blocked m' events (rw (strikes-put_self m j q.1 same) (omega arith)) in
            rw quiet.0 ih
        | no other ↦
            let count = lies-cons_ne j now events other in
            let ih = few_lies-blocked m' events (rw (strikes-put_ne m j q.1 other) (omega arith)) in
            omega (
              arith,
              lie_blocks-append (blocked j q.0) (blocks m' events),
              blocked-other j q.0 other,
            )
      ]
