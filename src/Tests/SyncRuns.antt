-- ===== src/Tests/SyncRuns.antt =====
-- Runs of the reconciler: a directory with a file in it, and a file beside it.
use mathlib.Core.List.{filter_map, Perm}
use mathlib.Core.List.{Mem, mem-cons_of_mem, mem-cons_self}
use revika.Base.{
  ◌≡◌, refl, not, ◌||◌, true, false, none, some, List, [], ◌∷◌, Map, empty_map, put, bytes_eq,
  if_pos, if_neg,
}
use revika.Sync.State.{
  leaf, dir, LocalState, RemoteState, BaseEntry, FilePath, slash, local_matches, remote_matches,
}
use revika.Sync.Decide.{prefer_local, prefer_remote, skip, upload, decide}
use revika.Sync.Decide.Table.{kind_of, verdict, local_change, remote_change, decide-verdict}
use revika.Sync.Decide.Safety.{writes_remote, writes_local, is_still, skip-writes}
use revika.Sync.Plan.{Snapshots, decide_path, plan, skipped, rebuild_base, delete_local_path}
use revika.Sync.Plan.Order.{decision, Sorted, plan-decisions}
use revika.Sync.Plan.Quiet.{SameShape}
use revika.Sync.Plan.Skipped.{directory_deletion, skip_deletes_conflict}

abbrev docs : FilePath
docs = b'd' ∷ []

abbrev inner : FilePath
inner = b'd' ∷ slash ∷ b'x' ∷ []

abbrev note : FilePath
note = b'n' ∷ []

abbrev folder : LocalState
folder = record { kind = dir; is_symlink = false; size = 0; mtime_ns = 5; mode = 0o755 }

abbrev draft : LocalState
draft = record { kind = leaf; is_symlink = false; size = 12; mtime_ns = 90; mode = 0o644 }

abbrev stored : RemoteState
stored = record {
  id = 1 ∷ [];
  kind = leaf;
  is_symlink = false;
  size = 10;
  content = 2 ∷ [];
  meta = 3 ∷ [];
}

abbrev folder_entry : BaseEntry
folder_entry = record { dir = true; size = 0; mtime_ns = 5; content = []; meta = [] }

abbrev file_entry : BaseEntry
file_entry = record { dir = false; size = 10; mtime_ns = 50; content = 2 ∷ []; meta = 3 ∷ [] }

-- The directory was deleted remotely, and the file in it was edited locally.
abbrev edited : Snapshots
edited = record {
  base = put (put empty_map docs folder_entry) inner file_entry;
  local = put (put empty_map docs folder) inner draft;
  remote = put empty_map note stored;
}

decide-verdict_example :
    kind_of (decide prefer_remote note (some draft) (some stored) (some file_entry)).0
    ≡ verdict prefer_remote leaf
        (local_change (some file_entry) (some draft))
        leaf
        (remote_change (some file_entry) (some stored))
decide-verdict_example =
    decide-verdict prefer_remote note (some draft) (some stored) (some file_entry) (refl, refl)

-- The edit is uploaded.
decide_run :
    kind_of (decide prefer_remote note (some draft) (some stored) (some file_entry)).0 ≡ some upload
unfolding decide local_matches remote_matches bytes_eq
decide_run = refl

abbrev visited : List FilePath
visited = docs ∷ inner ∷ note ∷ []

plan-decisions_example :
    Perm (plan prefer_local edited visited) (filter_map (decision prefer_local edited) visited)
    × Sorted (plan prefer_local edited visited)
plan-decisions_example = plan-decisions prefer_local edited visited

skip-writes_example :
    (not (writes_remote (kind_of (decide skip inner (some draft) none (some file_entry)).0))
        || is_still (remote_change (some file_entry) none)
      ≡ true)
    × (not (writes_local (kind_of (decide skip inner (some draft) none (some file_entry)).0))
          || is_still (local_change (some file_entry) (some draft))
        ≡ true)
skip-writes_example = skip-writes inner (some draft) none (some file_entry)

abbrev settled : Map FilePath LocalState
settled = put empty_map note draft

abbrev settled_remote : Map FilePath RemoteState
settled_remote = put empty_map note stored

settled-SameShape : (p : FilePath) → SameShape (settled p) (settled_remote p)
settled-SameShape p = elim (bytes_eq.dec note p) [
  | yes same ↦ rw (if_pos (bytes_eq.dec note p) same true false) refl
  | no other ↦ rw (if_neg (bytes_eq.dec note p) other true false) tt
]

inner-skipped : skipped skip edited inner ≡ true
unfolding skipped decide bytes_eq local_matches
inner-skipped = refl

inner-changed : local_matches file_entry draft ≡ false
unfolding local_matches
inner-changed = refl

edited_lem :
    (edited.base docs ≡ some folder_entry)
    × (edited.local docs ≡ some folder)
    × (edited.remote docs ≡ none)
    × (edited.base inner ≡ some file_entry)
    × (edited.local inner ≡ some draft)
    × (edited.remote inner ≡ none)
unfolding bytes_eq
edited_lem = (refl, refl, refl, refl, refl, refl)

skip_deletes_conflict_example :
    let after = delete_local_path docs edited.local in
    let base = rebuild_base edited.base (skipped skip edited) after edited.remote in
    (skipped skip edited inner ≡ true)
    × (Mem (directory_deletion docs) (plan skip edited (note ∷ docs ∷ inner ∷ []))
        × ((base inner ≡ some file_entry)
            × ((after inner ≡ none)
                × (decide_path skip
                      (record { base = base; local = after; remote = edited.remote })
                      inner
                    ≡ (none, false)))))
skip_deletes_conflict_example =
    skip_deletes_conflict edited (note ∷ docs ∷ inner ∷ []) docs (b'x' ∷ []) folder_entry file_entry
      folder draft (mem-cons_of_mem note mem-cons_self) edited_lem.0 edited_lem.1 edited_lem.2 refl
      refl edited_lem.3 edited_lem.4 edited_lem.5 inner-changed
