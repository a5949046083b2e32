-- ===== src/Sync/State.antt =====
-- internal/sync/sync.go, state.go and remote.go: what a scan says of a path, and what the two sides
-- last agreed on. A path is the string of its bytes. The 64-bit sizes and times are only compared
-- for equality, and stand as the numbers of their bits.
use revika.Base.{
  ℕ, ◌+◌, Bool, true, false, ◌&&◌, [], ◌∷◌, eqb, if◌then◌else◌, Bytes, bytes_eq, ◌==◌,
}

pub data Kind : Type 0 where
  leaf dir : Kind

abbrev pub is_dir : Kind → Bool
is_dir leaf = false
is_dir dir = true

-- `a == b` on kinds
abbrev pub kind_eqb : Kind → Kind → Bool
kind_eqb leaf leaf = true
kind_eqb leaf dir = false
kind_eqb dir leaf = false
kind_eqb dir dir = true

pub record LocalState : Type 0 where
  pub kind : Kind
  pub is_symlink : Bool
  pub size : ℕ
  pub mtime_ns : ℕ
  pub mode : ℕ

pub record RemoteState : Type 0 where
  pub id : Bytes
  pub kind : Kind
  pub is_symlink : Bool
  pub size : ℕ
  pub content : Bytes
  pub meta : Bytes

-- The state that Go passes for a path that is absent.
abbrev pub zero_local : LocalState
zero_local = record { kind = leaf; is_symlink = false; size = 0; mtime_ns = 0; mode = 0 }

abbrev pub zero_remote : RemoteState
zero_remote = record { id = []; kind = leaf; is_symlink = false; size = 0; content = []; meta = [] }

pub record BaseEntry : Type 0 where
  pub dir : Bool
  pub size : ℕ
  pub mtime_ns : ℕ
  pub content : Bytes
  pub meta : Bytes

abbrev pub FilePath : Type 0
FilePath = Bytes

abbrev pub bool_eqb : Bool → Bool → Bool
bool_eqb true b = b
bool_eqb false true = false
bool_eqb false false = true

-- `localMatches`: directories carry no content that is tracked.
unfoldable pub local_matches : BaseEntry → LocalState → Bool
local_matches b ls =
    if bool_eqb (is_dir ls.kind) b.dir
    then (if is_dir ls.kind then true else eqb ls.size b.size && eqb ls.mtime_ns b.mtime_ns)
    else false

-- `remoteMatches`
unfoldable pub remote_matches : BaseEntry → RemoteState → Bool
remote_matches b rs =
    if bool_eqb (is_dir rs.kind) b.dir
    then (rs.content == b.content) && (rs.meta == b.meta)
    else false

unfoldable pub agree : LocalState → RemoteState → BaseEntry
agree ls rs = record {
  dir = is_dir ls.kind;
  size = ls.size;
  mtime_ns = ls.mtime_ns;
  content = rs.content;
  meta = rs.meta;
}

-- `/`
abbrev pub slash : ℕ
slash = b'/'

unfoldable pub count_slashes : FilePath → ℕ
count_slashes [] = 0
count_slashes (c ∷ p) = (if eqb c slash then 1 else 0) + count_slashes p

-- The number of components of a path.
unfoldable pub depth : FilePath → ℕ
unfolding count_slashes
depth [] = 0
depth (c ∷ p) = count_slashes (c ∷ p) + 1
