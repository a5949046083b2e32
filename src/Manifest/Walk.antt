-- ===== src/Manifest/Walk.antt =====
-- internal/manifest/dir.go: paths through a tree of directories. Directories are stored and loaded
-- through the interface `DirStore`, which Manifest/Blobs fills; `no_attrs` is the empty Metadata.
pub mod Open
pub mod Grafted
pub mod Removed
use revika.Base.{
  ℕ, Bool, true, false, Option, none, some, List, [], ◌∷◌, if◌then◌else◌, Bytes, ◌≡◌, ◌≢◌, ◌>>=◌,
  All,
}
use revika.Manifest.{
  Kind, dir, is_dir, ReadCap, StatCache, Entry, DirManifest, new_dir, lookup, upsert, remove,
}
use revika.Manifest.Entries.{IsSorted}

-- `LoadDir` and `StoreDir` in a world of blobs, and which directory a cap stands for in it.
pub record DirStore {ℓ} (M : Type ℓ) (W : Type 0) : Type (1 ⊔ ℓ) where
  pub load_dir : W → ReadCap → Option (DirManifest M)
  pub store_dir : W → DirManifest M → Option ReadCap × W
  pub Holds : W → ReadCap → DirManifest M → Type 0
  pub Fits : ReadCap → Type 0
  pub IsText : Bytes → Type 0

-- The caps and the names of its entries can be written, and read back as they were.
abbrev pub AllFit {ℓ} : {M : Type ℓ} {W : Type 0} → DirStore M W → DirManifest M → Type 0
AllFit dirs d = All (λ e. dirs.Fits e.cap × dirs.IsText e.name) d.entries

-- A cap that stands for a directory is a directory's and loads it, with caps and names that can be
-- written; what is stored, in order and with such caps and names, the new cap stands for, and it can be
-- written too; and no cap loses what it stands for.
pub record DirLaws {ℓ} {M : Type ℓ} {W : Type 0} (dirs : DirStore M W) : Type ℓ where
  pub is_a_dir : (w : W) (c : ReadCap) (d : DirManifest M) → dirs.Holds w c d → is_dir c.kind ≡ true
  pub loads :
      (w : W) (c : ReadCap) (d : DirManifest M) → dirs.Holds w c d → dirs.load_dir w c ≡ some d
  pub fitting : (w : W) (c : ReadCap) (d : DirManifest M) → dirs.Holds w c d → AllFit dirs d
  pub stores :
      (w : W) (d : DirManifest M) (c : ReadCap)
      → IsSorted d.entries
      → AllFit dirs d
      → (dirs.store_dir w d).0 ≡ some c
      → dirs.Holds (dirs.store_dir w d).1 c d × dirs.Fits c
  pub keeps :
      (w : W) (d d' : DirManifest M) (c : ReadCap)
      → dirs.Holds w c d
      → dirs.Holds (dirs.store_dir w d').1 c d

-- The StatCache of a directory that is rewritten.
abbrev pub dir_stat : StatCache
dir_stat = record {
  kind = dir;
  size = 0;
  mode = 0;
  mod_time_ns = 0;
  content_version = [];
  meta_version = [];
}

abbrev pub dir_entry : Bytes → ReadCap → Entry
dir_entry name c = record { name = name; cap = c; stat = dir_stat }

-- The entry of a grafted child: the kind of its stat is the child's.
abbrev pub child_entry : Bytes → ReadCap → StatCache → Entry
child_entry name child stat = record {
  name = name;
  cap = child;
  stat = record {
    kind = child.kind;
    size = stat.size;
    mode = stat.mode;
    mod_time_ns = stat.mod_time_ns;
    content_version = stat.content_version;
    meta_version = stat.meta_version;
  };
}

module _ {ℓ} {M : Type ℓ} {W : Type 0} (dirs : DirStore M W) where
  -- `Resolve`, on the components of the path.
  unfoldable pub resolve : W → ReadCap → List Bytes → Option ReadCap
  resolve w cur [] = some cur
  resolve w cur (name ∷ parts) =
      if is_dir cur.kind
      then (dirs.load_dir w cur >>= (λ d. lookup d name >>= (λ e. resolve w e.cap parts)))
      else none

  -- `ResolveEntry`: the root has a nameless entry.
  unfoldable pub resolve_entry : W → ReadCap → List Bytes → Option Entry
  resolve_entry w cur [] = some (dir_entry [] cur)
  resolve_entry w cur (name ∷ []) =
      if is_dir cur.kind then (dirs.load_dir w cur >>= (λ d. lookup d name)) else none
  resolve_entry w cur (name ∷ next ∷ parts) =
      if is_dir cur.kind
      then (dirs.load_dir w cur
          >>= (λ d. lookup d name >>= (λ e. resolve_entry w e.cap (next ∷ parts))))
      else none

  abbrev pub Rewritten : Type 0
  Rewritten = Option ReadCap × W

  abbrev pub store_some : W → Option (DirManifest M) → Rewritten
  store_some w none = (none, w)
  store_some w (some d) = dirs.store_dir w d

  -- The directory that an entry leads to.
  abbrev pub subdir_of : W → Option Entry → Rewritten
  subdir_of w none = (none, w)
  subdir_of w (some e) = if is_dir e.cap.kind then (some e.cap, w) else (none, w)

  -- The entry of a rewritten subdirectory in its parent.
  abbrev pub relink : DirManifest M → Bytes → Rewritten → Rewritten
  relink d name (none, w) = (none, w)
  relink d name (some c, w) = dirs.store_dir w (upsert d (dir_entry name c))

  abbrev pub below : DirManifest M → Bytes → (W → ReadCap → Rewritten) → Rewritten → Rewritten
  below d name rest (none, w) = (none, w)
  below d name rest (some c, w) = relink d name (rest w c)

  module _ (no_attrs : M) where
    -- A missing directory on the path is created empty.
    abbrev pub subdir_or_new : W → Option Entry → Rewritten
    subdir_or_new w none = dirs.store_dir w (new_dir no_attrs)
    subdir_or_new w (some e) = subdir_of w (some e)

    abbrev pub graft_leaf : W → Bytes → ReadCap → StatCache → Option (DirManifest M) → Rewritten
    graft_leaf w name child stat none = (none, w)
    graft_leaf w name child stat (some d) =
        dirs.store_dir w (upsert d (child_entry name child stat))

    abbrev pub graft_below :
        W → Bytes → (W → ReadCap → Rewritten) → Option (DirManifest M) → Rewritten
    graft_below w name rest none = (none, w)
    graft_below w name rest (some d) = below d name rest (subdir_or_new w (lookup d name))

    -- `graft`; `Graft` refuses the path with no components.
    unfoldable pub graft : W → ReadCap → List Bytes → ReadCap → StatCache → Rewritten
    graft w c [] child stat = (none, w)
    graft w c (name ∷ []) child stat = graft_leaf w name child stat (dirs.load_dir w c)
    graft w c (name ∷ next ∷ parts) child stat =
        graft_below w name (λ w' c'. graft w' c' (next ∷ parts) child stat) (dirs.load_dir w c)

  abbrev pub removed_of : DirManifest M × Bool → Option (DirManifest M)
  removed_of (d, true) = some d
  removed_of (d, false) = none

  abbrev pub remove_leaf : W → Bytes → Option (DirManifest M) → Rewritten
  remove_leaf w name none = (none, w)
  remove_leaf w name (some d) = store_some w (removed_of (remove d name))

  abbrev pub remove_below :
      W → Bytes → (W → ReadCap → Rewritten) → Option (DirManifest M) → Rewritten
  remove_below w name rest none = (none, w)
  remove_below w name rest (some d) = below d name rest (subdir_of w (lookup d name))

  -- `graftRemove`; `GraftRemove` refuses the path with no components.
  unfoldable pub graft_remove : W → ReadCap → List Bytes → Rewritten
  graft_remove w c [] = (none, w)
  graft_remove w c (name ∷ []) = remove_leaf w name (dirs.load_dir w c)
  graft_remove w c (name ∷ next ∷ parts) =
      remove_below w name (λ w' c'. graft_remove w' c' (next ∷ parts)) (dirs.load_dir w c)
