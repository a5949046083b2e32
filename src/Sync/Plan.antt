-- ===== src/Sync/Plan.antt =====
-- internal/sync/reconcile.go: the plan of a pass over all paths, and the base that the pass leaves.
-- Go ranges over its maps in any order: `paths` is the order in which the union of the three
-- snapshots is visited, each path once.
pub mod Order
pub mod Quiet
pub mod Skipped
use revika.Base.{
  ℕ, Bool, true, false, not, ◌&&◌, ◌||◌, Option, none, some, List, [], ◌∷◌, ltb, eqb, if◌then◌else◌,
  Map,
}
use revika.Sync.State.{LocalState, RemoteState, BaseEntry, FilePath, agree, depth, kind_eqb, slash}
use revika.Sync.Decide.{
  ConflictPolicy, OpKind, mkdir_remote, mkdir_local, upload, download, delete_remote, delete_local,
  conflict, Op, decide,
}

pub record Snapshots : Type 0 where
  pub base : Map FilePath BaseEntry
  pub local : Map FilePath LocalState
  pub remote : Map FilePath RemoteState

abbrev pub decide_path : ConflictPolicy → Snapshots → FilePath → Option Op × Bool
decide_path policy s p = decide policy p (s.local p) (s.remote p) (s.base p)

unfoldable pub is_delete : OpKind → Bool
is_delete delete_remote = true
is_delete delete_local = true
is_delete k = false

-- `a < b` on strings
unfoldable pub path_ltb : FilePath → FilePath → Bool
path_ltb [] [] = false
path_ltb [] (d ∷ q) = true
path_ltb (c ∷ p) [] = false
path_ltb (c ∷ p) (d ∷ q) = ltb c d || (eqb c d && path_ltb p q)

-- The comparison that `plan` hands to `sort.SliceStable`.
unfoldable pub less : Op → Op → Bool
unfolding is_delete
less a b =
    if is_delete a.kind
    then (if is_delete b.kind then ltb (depth b.path) (depth a.path) else false)
    else if is_delete b.kind
    then true
    else if eqb (depth a.path) (depth b.path)
    then path_ltb a.path b.path
    else ltb (depth a.path) (depth b.path)

-- A stable sort: an element goes behind those that are less than it, and before its equals.
unfoldable pub place : Op → List Op → List Op
place a [] = a ∷ []
place a (b ∷ ops) = let rest = place a ops in if less b a then b ∷ rest else a ∷ b ∷ ops

unfoldable pub sort_stable : List Op → List Op
unfolding place
sort_stable [] = []
sort_stable (a ∷ ops) = place a (sort_stable ops)

abbrev pub cons_op : Option Op → List Op → List Op
cons_op none ops = ops
cons_op (some o) ops = o ∷ ops

-- The loop of `plan` over the paths.
unfoldable pub collect : ConflictPolicy → Snapshots → List FilePath → List Op
collect policy s [] = []
collect policy s (p ∷ paths) = cons_op (decide_path policy s p).0 (collect policy s paths)

unfoldable pub plan : ConflictPolicy → Snapshots → List FilePath → List Op
unfolding sort_stable collect
plan policy s paths = sort_stable (collect policy s paths)

-- The paths whose conflict the plan leaves unresolved.
unfoldable pub skipped : ConflictPolicy → Snapshots → FilePath → Bool
skipped policy s p = (decide_path policy s p).1

abbrev pub agreed : Option LocalState → Option RemoteState → Option BaseEntry
agreed (some ls) (some rs) = if kind_eqb ls.kind rs.kind then some (agree ls rs) else none
agreed ls rs = none

-- `rebuildBase`, from the scans after the pass: what is on both sides is agreed, but for the
-- skipped paths, which keep the entry that they had.
unfoldable pub rebuild_base :
    Map FilePath BaseEntry
    → (FilePath → Bool)
    → Map FilePath LocalState
    → Map FilePath RemoteState
    → Map FilePath BaseEntry
rebuild_base old skip local remote p = if skip p then old p else agreed (local p) (remote p)

-- Whether `q` is `p` or lies below it.
unfoldable pub is_below : FilePath → FilePath → Bool
is_below [] [] = true
is_below [] (d ∷ q) = eqb d slash
is_below (c ∷ p) [] = false
is_below (c ∷ p) (d ∷ q) = eqb c d && is_below p q

-- `deleteLocal`: `os.RemoveAll` takes the path and all that is below it.
unfoldable pub delete_local_path : FilePath → Map FilePath LocalState → Map FilePath LocalState
unfolding is_below
delete_local_path p local q = if is_below p q then none else local q
