-- ===== src/Sync/Decide/Safety.antt =====
-- What a decision never does: overwrite a side that changed while conflicts are skipped, or act on
-- what the base says is agreed.
use revika.Base.{
  ◌≡◌, refl, not, ◌||◌, Bool, true, false, Option, none, some, arith, bytes_eq, if_pos,
}
use revika.Sync.State.{
  LocalState, RemoteState, BaseEntry, FilePath, local_matches, remote_matches, agree, kind_eqb,
}
use revika.Sync.Decide.{
  ConflictPolicy, skip, OpKind, mkdir_remote, mkdir_local, upload, download, delete_remote,
  delete_local, conflict, decide,
}
use revika.Sync.Decide.Table.{Change, absent, unchanged, local_change, remote_change, kind_of}

-- The operations that write to the stored tree, and those that write to the disk.
abbrev pub writes_remote : Option OpKind → Bool
writes_remote (some upload) = true
writes_remote (some mkdir_remote) = true
writes_remote (some delete_remote) = true
writes_remote k = false

abbrev pub writes_local : Option OpKind → Bool
writes_local (some download) = true
writes_local (some mkdir_local) = true
writes_local (some delete_local) = true
writes_local k = false

abbrev pub is_still : Change → Bool
is_still absent = true
is_still unchanged = true
is_still c = false

-- When conflicts are skipped, the operation for a path writes to a side only if the path has not
-- changed there since the two sides agreed.
pub skip-writes :
    (p : FilePath) (ls : Option LocalState) (rs : Option RemoteState) (be : Option BaseEntry)
    → (not (writes_remote (kind_of (decide skip p ls rs be).0)) || is_still (remote_change be rs)
        ≡ true)
      × (not (writes_local (kind_of (decide skip p ls rs be).0)) || is_still (local_change be ls)
          ≡ true)
unfolding decide
skip-writes p none none none = (refl, refl)
skip-writes p none none (some be) = (refl, refl)
skip-writes p (some ls) none none = (ground arith, ground arith)
skip-writes p (some ls) none (some be) = (ground arith, ground arith)
skip-writes p none (some rs) none = (ground arith, ground arith)
skip-writes p none (some rs) (some be) = (ground arith, ground arith)
skip-writes p (some ls) (some rs) none = (ground arith, ground arith)
skip-writes p (some ls) (some rs) (some be) = (ground arith, ground arith)

local_matches-agree : (ls : LocalState) (rs : RemoteState) → local_matches (agree ls rs) ls ≡ true
unfolding local_matches agree
local_matches-agree ls rs = ground arith

remote_matches-agree :
    (ls : LocalState) (rs : RemoteState)
    → kind_eqb ls.kind rs.kind ≡ true
    → remote_matches (agree ls rs) rs ≡ true
unfolding remote_matches agree
remote_matches-agree ls rs h =
    rw
      (
        if_pos (bytes_eq.dec rs.content rs.content) refl true false,
        if_pos (bytes_eq.dec rs.meta rs.meta) refl true false,
      )
      (ground arith)

-- A path that has just been agreed on asks for nothing.
pub decide-agree :
    (policy : ConflictPolicy) (p : FilePath) (ls : LocalState) (rs : RemoteState)
    → kind_eqb ls.kind rs.kind ≡ true
    → decide policy p (some ls) (some rs) (some (agree ls rs)) ≡ (none, false)
unfolding decide
decide-agree policy p ls rs h =
    ground (arith, local_matches-agree ls rs, remote_matches-agree ls rs h)

abbrev pub is_conflict : Option OpKind → Bool
is_conflict (some conflict) = true
is_conflict k = false

-- The decision reports an unresolved conflict exactly when its operation is one.
pub decide-skipped :
    (policy : ConflictPolicy) (p : FilePath) (ls : Option LocalState) (rs : Option RemoteState)
    (be : Option BaseEntry)
    → (decide policy p ls rs be).1 ≡ is_conflict (kind_of (decide policy p ls rs be).0)
unfolding decide
decide-skipped policy p none none be = refl
decide-skipped policy p (some ls) none none = ground arith
decide-skipped policy p (some ls) none (some be) = ground arith
decide-skipped policy p none (some rs) none = ground arith
decide-skipped policy p none (some rs) (some be) = ground arith
decide-skipped policy p (some ls) (some rs) be = ground arith
