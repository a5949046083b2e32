-- ===== src/Sync/Decide.antt =====
-- internal/sync/reconcile.go: the operation for one path, from its state on both sides and in the
-- base.
pub mod Table
pub mod Safety
use Prim.Native.String.{◌++◌ as ◌<>◌}
use revika.Base.{Bool, true, false, not, ◌&&◌, Option, none, some, String, if◌then◌else◌}
use revika.Sync.State.{
  Kind, leaf, dir, is_dir, kind_eqb, LocalState, RemoteState, zero_local, zero_remote, BaseEntry,
  FilePath, local_matches, remote_matches,
}

pub data ConflictPolicy : Type 0 where
  prefer_local prefer_remote skip : ConflictPolicy

pub data OpKind : Type 0 where
  mkdir_remote mkdir_local upload download delete_remote delete_local conflict : OpKind

pub record Op : Type 0 where
  pub kind : OpKind
  pub path : FilePath
  pub is_dir : Bool
  pub is_symlink : Bool
  pub reason : String

abbrev op : OpKind → FilePath → Bool → Bool → String → Option Op × Bool
op kind path is_dir is_symlink reason = (
  some (record {
    kind = kind;
    path = path;
    is_dir = is_dir;
    is_symlink = is_symlink;
    reason = reason;
  }),
  false,
)

abbrev skipped_op : FilePath → String → Option Op × Bool
skipped_op path reason = (
  some (record {
    kind = conflict;
    path = path;
    is_dir = false;
    is_symlink = false;
    reason = reason;
  }),
  true,
)

unfoldable pub conflict_op :
    ConflictPolicy → FilePath → LocalState → Bool → RemoteState → Bool → String → Option Op × Bool
conflict_op prefer_local p ls has_local rs has_remote why =
    if has_local
    then (if is_dir ls.kind
        then op mkdir_remote p true false ("conflict (" <> why <> ") → prefer-local")
        else op upload p false ls.is_symlink ("conflict (" <> why <> ") → prefer-local"))
    else op delete_remote p (is_dir rs.kind) false
        ("conflict (" <> why <> ") → prefer-local (delete)")
conflict_op prefer_remote p ls has_local rs has_remote why =
    if has_remote
    then (if is_dir rs.kind
        then op mkdir_local p true false ("conflict (" <> why <> ") → prefer-remote")
        else op download p false rs.is_symlink ("conflict (" <> why <> ") → prefer-remote"))
    else op delete_local p (is_dir ls.kind) false
        ("conflict (" <> why <> ") → prefer-remote (delete)")
conflict_op skip p ls has_local rs has_remote why =
    skipped_op p ("conflict (" <> why <> ") → skipped")

-- `!bok || !be.localMatches(ls)`
unfoldable pub local_changed : Option BaseEntry → LocalState → Bool
local_changed none ls = true
local_changed (some be) ls = not (local_matches be ls)

unfoldable pub remote_changed : Option BaseEntry → RemoteState → Bool
remote_changed none rs = true
remote_changed (some be) rs = not (remote_matches be rs)

unfoldable pub decide_both :
    ConflictPolicy → FilePath → LocalState → RemoteState → Option BaseEntry → Option Op × Bool
unfolding conflict_op local_changed remote_changed
decide_both policy p ls rs be =
    if not (kind_eqb ls.kind rs.kind)
    then conflict_op policy p ls true rs true "kind mismatch (dir vs file)"
    else if is_dir ls.kind
    then (none, false)
    else (let l_changed = local_changed be ls in
        let r_changed = remote_changed be rs in
        if l_changed && r_changed
        then conflict_op policy p ls true rs true "both changed"
        else if l_changed
        then op upload p false ls.is_symlink "local changed"
        else if r_changed
        then op download p false rs.is_symlink "remote changed"
        else (none, false))

unfoldable pub decide_local_only :
    ConflictPolicy → FilePath → LocalState → Option BaseEntry → Option Op × Bool
unfolding conflict_op
decide_local_only policy p ls (some be) =
    if local_matches be ls
    then (if is_dir ls.kind
        then op delete_local p true false "deleted remotely"
        else op delete_local p false false "deleted remotely")
    else conflict_op policy p ls true zero_remote false "changed locally, deleted remotely"
decide_local_only policy p ls none =
    if is_dir ls.kind
    then op mkdir_remote p true false "new locally"
    else op upload p false ls.is_symlink "new locally"

unfoldable pub decide_remote_only :
    ConflictPolicy → FilePath → RemoteState → Option BaseEntry → Option Op × Bool
unfolding conflict_op
decide_remote_only policy p rs (some be) =
    if remote_matches be rs
    then op delete_remote p (is_dir rs.kind) false "deleted locally"
    else conflict_op policy p zero_local false rs true "deleted locally, changed remotely"
decide_remote_only policy p rs none =
    if is_dir rs.kind
    then op mkdir_local p true false "new remotely"
    else op download p false rs.is_symlink "new remotely"

-- The operation, if any, and whether the path is a conflict that is left unresolved.
unfoldable pub decide :
    ConflictPolicy
    → FilePath
    → Option LocalState
    → Option RemoteState
    → Option BaseEntry
    → Option Op × Bool
unfolding decide_both decide_local_only decide_remote_only
decide policy p (some ls) (some rs) be = decide_both policy p ls rs be
decide policy p (some ls) none be = decide_local_only policy p ls be
decide policy p none (some rs) be = decide_remote_only policy p rs be
decide policy p none none be = (none, false)
