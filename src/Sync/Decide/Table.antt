-- ===== src/Sync/Decide/Table.antt =====
-- The decision against the table in the package comment of internal/sync/sync.go: what became of a
-- path on either side since the two agreed settles what is done with it.
use revika.Base.{◌≡◌, Option, none, some, arith, if◌then◌else◌}
use revika.Sync.State.{
  Kind, leaf, dir, LocalState, RemoteState, BaseEntry, FilePath, local_matches, remote_matches,
}
use revika.Sync.Decide.{
  ConflictPolicy, prefer_local, prefer_remote, skip, OpKind, mkdir_remote, mkdir_local, upload,
  download, delete_remote, delete_local, conflict, Op, decide,
}

-- What became of a path on one side since the base.
pub data Change : Type 0 where
  absent fresh unchanged changed deleted : Change

abbrev pub local_change : Option BaseEntry → Option LocalState → Change
local_change none none = absent
local_change none (some ls) = fresh
local_change (some be) none = deleted
local_change (some be) (some ls) = if local_matches be ls then unchanged else changed

abbrev pub remote_change : Option BaseEntry → Option RemoteState → Change
remote_change none none = absent
remote_change none (some rs) = fresh
remote_change (some be) none = deleted
remote_change (some be) (some rs) = if remote_matches be rs then unchanged else changed

-- To carry a change of the local side over to the remote side.
abbrev pub push : Kind → Change → Option OpKind
push k absent = none
push k unchanged = none
push k deleted = some delete_remote
push leaf fresh = some upload
push leaf changed = some upload
push dir fresh = some mkdir_remote
push dir changed = some mkdir_remote

-- To carry a change of the remote side over to the local side.
abbrev pub pull : Kind → Change → Option OpKind
pull k absent = none
pull k unchanged = none
pull k deleted = some delete_local
pull leaf fresh = some download
pull leaf changed = some download
pull dir fresh = some mkdir_local
pull dir changed = some mkdir_local

-- Both sides changed, and not by the same deletion.
abbrev pub resolve : ConflictPolicy → Kind → Change → Kind → Change → Option OpKind
resolve prefer_local k l j r = push k l
resolve prefer_remote k l j r = pull j r
resolve skip k l j r = some conflict

abbrev pub verdict : ConflictPolicy → Kind → Change → Kind → Change → Option OpKind
verdict policy k l j absent = push k l
verdict policy k l j unchanged = push k l
verdict policy k absent j r = pull j r
verdict policy k unchanged j r = pull j r
verdict policy k deleted j deleted = none
verdict policy k l j r = resolve policy k l j r

abbrev pub local_kind : Option LocalState → Kind
local_kind none = leaf
local_kind (some ls) = ls.kind

abbrev pub remote_kind : Option RemoteState → Kind
remote_kind none = leaf
remote_kind (some rs) = rs.kind

-- A path that is on both sides is a file or link on both.
abbrev pub IsLeafPair : Option LocalState → Option RemoteState → Type 0
IsLeafPair (some ls) (some rs) = (ls.kind ≡ leaf) × (rs.kind ≡ leaf)
IsLeafPair ls rs = Unit

abbrev pub kind_of : Option Op → Option OpKind
kind_of none = none
kind_of (some o) = some o.kind

-- For a path that is missing on a side, or is a file or link on both, the kind of the operation is
-- the one of the table, under every policy.
pub decide-verdict :
    (policy : ConflictPolicy) (p : FilePath) (ls : Option LocalState) (rs : Option RemoteState)
    (be : Option BaseEntry)
    → IsLeafPair ls rs
    → kind_of (decide policy p ls rs be).0
      ≡ verdict policy (local_kind ls) (local_change be ls) (remote_kind rs) (remote_change be rs)
unfolding decide
decide-verdict policy p none none none h = ground arith
decide-verdict policy p none none (some be) h = ground arith
decide-verdict policy p (some ls) none none h = ground arith
decide-verdict policy p (some ls) none (some be) h = ground arith
decide-verdict policy p none (some rs) none h = ground arith
decide-verdict policy p none (some rs) (some be) h = ground arith
decide-verdict policy p (some ls) (some rs) none h = ground arith
decide-verdict policy p (some ls) (some rs) (some be) h = ground arith
