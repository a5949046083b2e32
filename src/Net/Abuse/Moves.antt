-- ===== src/Net/Abuse/Moves.antt =====
-- Rebalance moves: a peer that keeps the schedule is never blocked for it.
use revika.Base.{
  ℕ, ◌+◌, ◌≤◌, ◌<◌, ◌≡◌, ◌≢◌, refl, ◌⊎◌, true, false, Option, none, some, List, [], ◌∷◌, ◌++◌,
  arith, ap, ◌∙◌, Option-cases, put, if_pos, if_neg, Eq, leb, All, inl, inr,
}
use revika.Net.Abuse.{
  AbuseConfig, PeerAbuse, AbuseMonitor, Reason, off_schedule, move_peer, lie_peer,
  record_rebalance_move, record_possession_lie, Event, move, lie, handle, blocks, blocked,
}

-- What the monitor knows of a peer whose last move was at the given time, if it ever moved.
abbrev pub Knows : Option ℕ → Option PeerAbuse → Type 0
Knows none none = Unit
Knows none (some st) = (st.have_event ≡ false) × (st.last_event ≡ 0)
Knows (some last) none = ⊥
Knows (some last) (some st) = (st.last_move ≡ last) × (st.last_event ≤ last)

-- A move that keeps the schedule comes soon after the last one, as part of its sweep, or late
-- enough after it.
abbrev pub InTime : AbuseConfig → Option ℕ → ℕ → Type 0
InTime cfg none now = Unit
InTime cfg (some last) now =
    (now < last + cfg.coalesce) ⊎ (last + cfg.rebalance_interval ≤ now + cfg.tolerance)

move_peer-InTime :
    (cfg : AbuseConfig) (last : Option ℕ) (o : Option PeerAbuse) (now : ℕ)
    → Knows last o
    → InTime cfg last now
    → (move_peer cfg o now).0 ≡ none
unfolding move_peer
move_peer-InTime cfg none none now k h = refl
move_peer-InTime cfg none (some st) now k h = ground arith
move_peer-InTime cfg (some last) none now k h = absurd k
move_peer-InTime cfg (some last) (some st) now k h = ground arith

-- The moves come in the order of their times.
abbrev After : Option ℕ → ℕ → Type 0
After none now = Unit
After (some last) now = last ≤ now

move_peer-Knows :
    (cfg : AbuseConfig) (last : Option ℕ) (o : Option PeerAbuse) (now : ℕ)
    → Knows last o
    → After last now
    → Knows (some now) (some (move_peer cfg o now).1)
unfolding move_peer
move_peer-Knows cfg none none now k h = omega arith
move_peer-Knows cfg none (some st) now k h = ground arith
move_peer-Knows cfg (some last) none now k h = absurd k
move_peer-Knows cfg (some last) (some st) now k h = ground arith

lie_peer-Knows :
    (cfg : AbuseConfig) (last : Option ℕ) (o : Option PeerAbuse) (now : ℕ)
    → Knows last o
    → Knows last (some (lie_peer cfg o now).1)
unfolding lie_peer
lie_peer-Knows cfg none none now k = ground arith
lie_peer-Knows cfg none (some st) now k = ground arith
lie_peer-Knows cfg (some last) none now k = absurd k
lie_peer-Knows cfg (some last) (some st) now k = ground arith

lie_peer-reason :
    (cfg : AbuseConfig) (o : Option PeerAbuse) (now : ℕ)
    → (lie_peer cfg o now).0 ≢ some off_schedule
unfolding lie_peer
lie_peer-reason cfg o now h = ground arith

abbrev pub ByDec : {A : Type 0} → Dec A → Type 0 → Type 0 → Type 0
ByDec (yes _) P Q = P
ByDec (no _) P Q = Q

module _ {Peer : Type 0} ⦃e : Eq Peer⦄ (p : Peer) where
  -- The moves of `p` keep the schedule, its last one having been at the given time.
  abbrev pub OnSchedule : AbuseConfig → Option ℕ → List (Event Peer) → Type 0
  OnSchedule cfg last [] = Unit
  OnSchedule cfg last (move j now ∷ events) =
      ByDec (e.dec j p) (After last now × InTime cfg last now × OnSchedule cfg (some now) events)
        (OnSchedule cfg last events)
  OnSchedule cfg last (lie j now ∷ events) = OnSchedule cfg last events

  -- The block that the schedule test causes.
  abbrev pub NotOffSchedule : Peer × Reason → Type 0
  NotOffSchedule b = b ≢ (p, off_schedule)

  move-blocks :
      (cfg : AbuseConfig) (last : Option ℕ) (o : Option PeerAbuse) (j : Peer) (now : ℕ)
      → (j ≡ p → Knows last o × InTime cfg last now)
      → All NotOffSchedule (blocked j (move_peer cfg o now).0)
  move-blocks cfg last o j now h = elim (Option-cases (move_peer cfg o now).0) [
    | inl quiet ↦ rw quiet tt
    | inr (r, spoke) ↦ rw spoke (
      (λ same.
          cc (spoke, let k = h (ap (λ b. b.0) same) in move_peer-InTime cfg last o now k.0 k.1)),
      tt,
    )
  ]

  lie-blocks :
      (cfg : AbuseConfig) (o : Option PeerAbuse) (j : Peer) (now : ℕ)
      → All NotOffSchedule (blocked j (lie_peer cfg o now).0)
  lie-blocks cfg o j now = elim (Option-cases (lie_peer cfg o now).0) [
    | inl quiet ↦ rw quiet tt
    | inr (r, spoke) ↦
        rw spoke (λ same. lie_peer-reason cfg o now (spoke ∙ ap (λ b. some b.1) same), tt)
  ]

  All-append :
      (xs ys : List (Peer × Reason))
      → All NotOffSchedule xs
      → All NotOffSchedule ys
      → All NotOffSchedule (xs ++ ys)
  All-append [] ys a b = b
  All-append (x ∷ xs) ys a b = (a.0, All-append xs ys a.1 b)

  -- The state of `p` and its schedule after a move of `j`.
  record Next (m : AbuseMonitor Peer) (j : Peer) (last : Option ℕ) (now : ℕ)
      (events : List (Event Peer)) : Type 0 where
    last' : Option ℕ
    knows : Knows last' (put m.peers j (move_peer m.cfg (m.peers j) now).1 p)
    schedule : OnSchedule m.cfg last' events
    in_time : j ≡ p → Knows last (m.peers j) × InTime m.cfg last now

  next :
      (m : AbuseMonitor Peer) (j : Peer) (last : Option ℕ) (now : ℕ) (events : List (Event Peer))
      (d : Dec (j ≡ p))
      → Knows last (m.peers p)
      → ByDec d
          (After last now × InTime m.cfg last now × OnSchedule m.cfg (some now) events)
          (OnSchedule m.cfg last events)
      → Next m j last now events
  next m j last now events (yes same) k s = record {
    last' = some now;
    knows =
        rw (if_pos (e.dec j p) same true false, same)
          (move_peer-Knows m.cfg last (m.peers p) now k s.0);
    schedule = s.2;
    in_time = λ _. (rw same k, s.1);
  }
  next m j last now events (no other) k s = record {
    last' = last;
    knows = rw (if_neg (e.dec j p) other true false) k;
    schedule = s;
    in_time = λ same. absurd (other same);
  }

  move_lem :
      (m : AbuseMonitor Peer) (j : Peer) (now : ℕ)
      → 0 < m.cfg.rebalance_interval
      → record_rebalance_move m j now ≡ (
        (move_peer m.cfg (m.peers j) now).0,
        record m { peers = put m.peers j (move_peer m.cfg (m.peers j) now).1 },
      )
  unfolding record_rebalance_move
  move_lem m j now pos =
      let on : leb m.cfg.rebalance_interval 0 ≡ false = ground arith in rw on refl

  lie-Knows :
      (m : AbuseMonitor Peer) (j : Peer) (last : Option ℕ) (now : ℕ)
      → Knows last (m.peers p)
      → Knows last (put m.peers j (lie_peer m.cfg (m.peers j) now).1 p)
  lie-Knows m j last now k = elim (e.dec j p) [
    | yes same ↦
        rw (if_pos (e.dec j p) same true false, same) (lie_peer-Knows m.cfg last (m.peers p) now k)
    | no other ↦ rw (if_neg (e.dec j p) other true false) k
  ]

  -- A peer that keeps the schedule is never blocked for its moves, whatever the other peers do and
  -- whatever possession lies are reported between them.
  pub blocks-OnSchedule :
      (last : Option ℕ) (m : AbuseMonitor Peer) (events : List (Event Peer))
      → 0 < m.cfg.rebalance_interval
      → Knows last (m.peers p)
      → OnSchedule m.cfg last events
      → All NotOffSchedule (blocks m events)
  unfolding blocks handle record_possession_lie
  blocks-OnSchedule last m [] pos k s = tt
  blocks-OnSchedule last m (lie j now ∷ events) pos k s =
      All-append _ _ (lie-blocks m.cfg (m.peers j) j now) (
        blocks-OnSchedule last (record_possession_lie m j now).1 events pos
          (lie-Knows m j last now k) s)
  blocks-OnSchedule last m (move j now ∷ events) pos k s =
      let n = next m j last now events (e.dec j p) k s in
      let m' : AbuseMonitor Peer = record m {
        peers = put m.peers j (move_peer m.cfg (m.peers j) now).1;
      } in
      rw (move_lem m j now pos) (
        All-append _ _ (move-blocks m.cfg last (m.peers j) j now n.in_time)
          (blocks-OnSchedule n.last' m' events pos n.knows n.schedule))
