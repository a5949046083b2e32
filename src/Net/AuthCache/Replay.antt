-- ===== src/Net/AuthCache/Replay.antt =====
-- A signature that was accepted is refused until its entry expires, whatever comes between.
use revika.Base.{
  ℕ, ◌+◌, ◌-◌, ◌*◌, ◌≤◌, ◌<◌, ◌≡◌, ◌≢◌, refl, ◌∙◌, All, lt→ltb, true, false, none, some, List, [],
  ◌∷◌, arith, Eq, ltb,
}
use revika.Net.AuthCache.{Cache, seen, sweep, token_skew, in_window, second, new_cache}
use revika.Net.Bucket.Runs.{Timed, Timed-le}

module _ {Sig : Type 0} ⦃e : Eq Sig⦄ where
  -- The cache after a run of calls.
  unfoldable pub run : Cache Sig → List (Sig × ℕ) → Cache Sig
  run c [] = c
  run c ((s, t) ∷ calls) = run (seen c s t).1 calls

  -- A sweep keeps an entry up to its expiry.
  sweep-keeps :
      (c : Cache Sig) (s : Sig) (now exp : ℕ)
      → now ≤ exp
      → c.entries s ≡ some exp
      → (sweep c now).entries s ≡ some exp
  unfolding sweep
  sweep-keeps c s now exp h p = ground arith

  -- So does a call, for any signature.
  seen-keeps :
      (c : Cache Sig) (s j : Sig) (now exp : ℕ)
      → now < exp
      → c.entries s ≡ some exp
      → (seen c j now).1.entries s ≡ some exp
  unfolding seen
  seen-keeps c s j now exp h p = ground (arith, sweep-keeps c s now exp (omega arith) p)

  run-keeps :
      (c : Cache Sig) (s : Sig) (now stop exp : ℕ) (calls : List (Sig × ℕ))
      → Timed now stop calls
      → stop < exp
      → c.entries s ≡ some exp
      → (run c calls).entries s ≡ some exp
  unfolding run
  run-keeps c s now stop exp [] t h p = p
  run-keeps c s now stop exp ((j, u) ∷ calls) t h p =
      run-keeps (seen c j u).1 s u stop exp calls t.1 h
        (seen-keeps c s j u exp (omega (arith, Timed-le u stop calls t.1)) p)

  seen-accepts :
      (c : Cache Sig) (s : Sig) (now : ℕ)
      → (seen c s now).0 ≡ false
      → (seen c s now).1.entries s ≡ some (now + 2 * token_skew)
  unfolding seen
  seen-accepts c s now h = ground arith

  -- What a call decides for a signature whose entry the cache holds.
  seen-entry :
      (c : Cache Sig) (s : Sig) (now exp : ℕ)
      → now ≤ exp
      → c.entries s ≡ some exp
      → (seen c s now).0 ≡ ltb now exp
  unfolding seen
  seen-entry c s now exp h p = ground (arith, sweep-keeps c s now exp h p)

  -- A signature that was accepted at `now` is refused at any later time before `now` plus twice
  -- the skew, whatever calls come between.
  pub replay-refused :
      (c : Cache Sig) (s : Sig) (now stop : ℕ) (calls : List (Sig × ℕ))
      → (seen c s now).0 ≡ false
      → Timed now stop calls
      → stop < now + 2 * token_skew
      → (seen (run (seen c s now).1 calls) s stop).0 ≡ true
  replay-refused c s now stop calls first t h =
      let p =
        run-keeps (seen c s now).1 s now stop (now + 2 * token_skew) calls t h
          (seen-accepts c s now first) in
      seen-entry (run (seen c s now).1 calls) s stop (now + 2 * token_skew) (omega arith) p
      ∙ lt→ltb stop (now + 2 * token_skew) h

  -- A call leaves alone what it does not name.
  seen-fresh :
      (c : Cache Sig) (s j : Sig) (now : ℕ)
      → j ≢ s
      → c.entries s ≡ none
      → (seen c j now).1.entries s ≡ none
  unfolding seen sweep
  seen-fresh c s j now ne p = ground arith

  run-fresh :
      (c : Cache Sig) (s : Sig) (calls : List (Sig × ℕ))
      → All (λ x. x.0 ≢ s) calls
      → c.entries s ≡ none
      → (run c calls).entries s ≡ none
  unfolding run
  run-fresh c s [] a p = p
  run-fresh c s ((j, t) ∷ calls) a p =
      run-fresh (seen c j t).1 s calls a.1 (seen-fresh c s j t a.0 p)

  -- A signature that no earlier call presented is never taken for a replay.
  pub fresh-accepted :
      (s : Sig) (now : ℕ) (calls : List (Sig × ℕ))
      → All (λ x. x.0 ≢ s) calls
      → (seen (run new_cache calls) s now).0 ≡ false
  unfolding seen sweep new_cache
  fresh-accepted s now calls a = ground (arith, run-fresh new_cache s calls a refl)

  -- A token that the time test lets through at `now` and again later is refused the second time,
  -- but at the one instant that lies exactly twice the skew after the first.
  pub token_once :
      (c : Cache Sig) (s : Sig) (ts now stop : ℕ) (calls : List (Sig × ℕ))
      → in_window now ts ≡ true
      → in_window stop ts ≡ true
      → (seen c s now).0 ≡ false
      → Timed now stop calls
      → stop ≢ now + 2 * token_skew
      → (seen (run (seen c s now).1 calls) s stop).0 ≡ true
  unfolding in_window
  token_once c s ts now stop calls w w' first t ne =
      replay-refused c s now stop calls first t (ground arith)

  -- At that instant it is accepted again: a token that comes in at the first moment of its window
  -- and once more at the last moment passes the time test and the cache both times.
  pub replay_at_edge :
      (c : Cache Sig) (s : Sig) (ts : ℕ)
      → token_skew ≤ ts * second
      → (seen c s (ts * second - token_skew)).0 ≡ false
      → (in_window (ts * second - token_skew) ts ≡ true)
        × (in_window (ts * second + token_skew) ts ≡ true)
        × ((seen (seen c s (ts * second - token_skew)).1 s (ts * second + token_skew)).0 ≡ false)
  unfolding in_window
  replay_at_edge c s ts h first =
      let start = ts * second - token_skew in
      let p = seen-accepts c s start first in
      let q =
        seen-entry (seen c s start).1 s (ts * second + token_skew) (start + 2 * token_skew)
          (omega arith) p in
      (ground arith, ground arith, ground (arith, q))
