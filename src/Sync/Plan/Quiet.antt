-- ===== src/Sync/Plan/Quiet.antt =====
-- The base that a pass leaves: a second pass over unchanged sides has nothing to do, and a path
-- left in conflict is in conflict again.
use revika.Base.{◌≡◌, refl, Bool, true, false, Option, none, some, List, [], ◌∷◌, Map, ap}
use revika.Sync.State.{FilePath, LocalState, RemoteState, BaseEntry, kind_eqb}
use revika.Sync.Decide.{ConflictPolicy, decide}
use revika.Sync.Decide.Safety.{decide-agree}
use revika.Sync.Plan.{
  Snapshots, decide_path, sort_stable, collect, plan, skipped, rebuild_base, agreed,
}

-- The two scans after a pass show the same kinds of objects at the same paths.
abbrev pub SameShape : Option LocalState → Option RemoteState → Type 0
SameShape none none = Unit
SameShape (some ls) (some rs) = kind_eqb ls.kind rs.kind ≡ true
SameShape ls rs = ⊥

agreed-quiet :
    (policy : ConflictPolicy) (p : FilePath) (ls : Option LocalState) (rs : Option RemoteState)
    → SameShape ls rs
    → decide policy p ls rs (agreed ls rs) ≡ (none, false)
agreed-quiet policy p none none h = unfold decide in refl
agreed-quiet policy p none (some rs) h = absurd h
agreed-quiet policy p (some ls) none h = absurd h
agreed-quiet policy p (some ls) (some rs) h = rw h (decide-agree policy p ls rs h)

-- The snapshots of the next pass, if nothing changes in between.
abbrev pub next_pass :
    Map FilePath BaseEntry
    → (FilePath → Bool)
    → Map FilePath LocalState
    → Map FilePath RemoteState
    → Snapshots
next_pass old skip local remote = record {
  base = rebuild_base old skip local remote;
  local = local;
  remote = remote;
}

collect-quiet :
    (policy : ConflictPolicy) (old : Map FilePath BaseEntry) (local : Map FilePath LocalState)
    (remote : Map FilePath RemoteState) (paths : List FilePath)
    → ((p : FilePath) → SameShape (local p) (remote p))
    → collect policy (next_pass old (λ p. false) local remote) paths ≡ []
unfolding collect rebuild_base
collect-quiet policy old local remote [] h = refl
collect-quiet policy old local remote (p ∷ paths) h =
    rw (agreed-quiet policy p (local p) (remote p) (h p))
      (collect-quiet policy old local remote paths h)

-- After a pass that left no conflict, if the two sides show the same shape, a second pass plans
-- nothing under any policy, whatever base the first one started from.
pub plan-quiet :
    (policy : ConflictPolicy) (old : Map FilePath BaseEntry) (local : Map FilePath LocalState)
    (remote : Map FilePath RemoteState) (paths : List FilePath)
    → ((p : FilePath) → SameShape (local p) (remote p))
    → plan policy (next_pass old (λ p. false) local remote) paths ≡ []
unfolding plan
plan-quiet policy old local remote paths h =
    ap sort_stable (collect-quiet policy old local remote paths h)

-- A path that is left in conflict keeps its base entry, and while the two sides stay as they are the
-- next pass decides it in the same way.
pub conflict-resurfaces :
    (policy : ConflictPolicy) (s : Snapshots) (p : FilePath)
    → skipped policy s p ≡ true
    → decide_path policy (next_pass s.base (skipped policy s) s.local s.remote) p
      ≡ decide_path policy s p
unfolding rebuild_base
conflict-resurfaces policy s p h = rw h refl
