-- ===== src/Sync/Plan/Skipped.antt =====
-- A path that is skipped is not always left untouched: the deletion of a directory takes all that
-- is below it.
use mathlib.Core.List.{Mem, mem-filter_map}
use mathlib.Core.List.Perm
use revika.Base.{◌≡◌, refl, true, false, none, some, List, [], ◌∷◌, ◌++◌, arith}
use revika.Sync.State.{FilePath, LocalState, BaseEntry, dir, slash, local_matches}
use revika.Sync.Decide.{Op, skip, delete_local, decide}
use revika.Sync.Plan.{
  Snapshots, decide_path, plan, skipped, rebuild_base, is_below, delete_local_path,
}
use revika.Sync.Plan.Order.{decision, plan-decisions}

is_below-append : (p rest : FilePath) → is_below p (p ++ slash ∷ rest) ≡ true
unfolding is_below
is_below-append [] rest = refl
is_below-append (c ∷ p) rest = ground (arith, is_below-append p rest)

edited_file :
    (q : FilePath) (fe : BaseEntry) (file : LocalState)
    → local_matches fe file ≡ false
    → (decide skip q (some file) none (some fe)).1 ≡ true
unfolding decide
edited_file q fe file changed = rw changed refl

-- The operation for a directory that was deleted remotely and not touched locally.
abbrev pub directory_deletion : FilePath → Op
directory_deletion p = record {
  kind = delete_local;
  path = p;
  is_dir = true;
  is_symlink = false;
  reason = "deleted remotely";
}

kept_directory :
    (p : FilePath) (be : BaseEntry) (ls : LocalState)
    → ls.kind ≡ dir
    → be.dir ≡ true
    → (decide skip p (some ls) none (some be)).0 ≡ some (directory_deletion p)
unfolding decide local_matches
kept_directory p be ls k d = ground arith

-- What is decided for a path that the pass visits is in its plan.
planned :
    (s : Snapshots) (paths : List FilePath) (p : FilePath) (o : Op)
    → Mem p paths
    → decision skip s p ≡ some o
    → Mem o (plan skip s paths)
planned s paths p o m e =
    (Perm.mem_iff (plan-decisions skip s paths).0).1
      ((mem-filter_map (decision skip s) paths).1 ∣ (p, m, e) ∣₁)

-- Where a directory is deleted remotely and a file below it is deleted remotely and edited locally, and
-- the pass visits the directory, the file's conflict is skipped under the policy `skip`, which keeps its
-- entry in the base; but the plan has the deletion of the local directory, which removes the edited
-- file; and on what that leaves the next pass has nothing to do for the file.
pub skip_deletes_conflict :
    (s : Snapshots) (paths : List FilePath) (p rest : FilePath) (be fe : BaseEntry)
    (ls file : LocalState)
    → Mem p paths
    → s.base p ≡ some be
    → s.local p ≡ some ls
    → s.remote p ≡ none
    → ls.kind ≡ dir
    → be.dir ≡ true
    → s.base (p ++ slash ∷ rest) ≡ some fe
    → s.local (p ++ slash ∷ rest) ≡ some file
    → s.remote (p ++ slash ∷ rest) ≡ none
    → local_matches fe file ≡ false
    → let after = delete_local_path p s.local in
      let base = rebuild_base s.base (skipped skip s) after s.remote in
      (skipped skip s (p ++ slash ∷ rest) ≡ true)
      × (Mem (directory_deletion p) (plan skip s paths)
          × ((base (p ++ slash ∷ rest) ≡ some fe)
              × ((after (p ++ slash ∷ rest) ≡ none)
                  × (decide_path skip
                        (record { base = base; local = after; remote = s.remote })
                        (p ++ slash ∷ rest)
                      ≡ (none, false)))))
unfolding skipped delete_local_path rebuild_base decide
skip_deletes_conflict s paths p rest be fe ls file m b l r k d b' l' r' changed =
    let q : FilePath = p ++ slash ∷ rest in
    let left : skipped skip s q ≡ true = cc (l', r', b', edited_file q fe file changed) in
    let gone : delete_local_path p s.local q ≡ none = rw (is_below-append p rest) refl in
    (
      left,
      (
        planned s paths p (directory_deletion p) m (cc (l, r, b, kept_directory p be ls k d)),
        (rw left b', (gone, rw (gone, r') refl)),
      ),
    )
