-- ===== src/Manifest/Merge/Kept.antt =====
-- A merge (internal/manifest/merge.go) keeps every side's entries and copies if the names of copies are
-- fresh, and loses an entry if a copy takes its name.
use revika.Base.{
  ℕ, suc, true, none, some, List, [], ◌∷◌, Bytes, bytes_eq, ◌≡◌, ◌≢◌, refl, sym, ◌∙◌, All,
}
use revika.Net.RootSelect.{bytes_ltb}
use revika.Manifest.{ReadCap, Entry, DirManifest, new_dir, lookup}
use revika.Manifest.Entries.{before_irrefl}
use revika.Manifest.Walk.{DirStore, DirLaws}
use revika.Manifest.Walk.Open.{Keeps}
use revika.Manifest.Merge.Keeping.{merge_dir-Keeps}
use revika.Manifest.Walk.Grafted.{lookup-new_dir}
use revika.Manifest.Merge.{
  Choice, entry_map, union_names, Merging, Merged, store_merged, load_dir_opt, merge_dir,
}
use revika.Manifest.Merge.Verdicts.{Verdict, choose-Verdict, differ-cap_equal}
use revika.Manifest.Merge.Settled.{Avoids, Settles, Apart, Tidy, AllSettled, merge_names-AllSettled}
use revika.Manifest.Merge.Copies.{
  Labels-both, StoredAs, stored_merge-StoredAs, NamesSorted, union_names-NamesSorted, choices,
  choices-Fits, touched, clash,
}

module _ (label : Bytes → Bytes) (distinct_labels : (n m : Bytes) → label n ≡ label m → n ≡ m) where
  -- No copy takes the name of an entry that is visited.
  abbrev pub IsFresh : List Bytes → List Bytes → Type 0
  IsFresh all names = All (λ n. Avoids (label n) all) names

  IsFresh-tail : (n : Bytes) (all names : List Bytes) → IsFresh (n ∷ all) names → IsFresh all names
  IsFresh-tail n all [] f = tt
  IsFresh-tail n all (m ∷ names) f = (f.0.1, IsFresh-tail n all names f.1)

  module _ {M : Type 0} {W : Type 0} (dirs : DirStore M W)
      (sub : W → Bytes → ReadCap → ReadCap → ReadCap → Merged dirs) (prefix : Bytes)
      (I : W → Type 0) (I_sub : (w : W) (p : Bytes) (b l r : ReadCap) → I w → I (sub w p b l r).1)
      (b l r : List Entry) where
    abbrev choice : Bytes → Choice
    choice = choices label b l r

    Apart-names :
        (n : Bytes) (names : List Bytes)
        → All (λ y. bytes_ltb n y ≡ true) names
        → Avoids (label n) names
        → IsFresh (n ∷ names) names
        → All (Apart dirs sub prefix I I_sub choice n) names
    Apart-names n names h u f = each names h u f
      where
        each :
            (ms : List Bytes)
            → All (λ y. bytes_ltb n y ≡ true) ms
            → Avoids (label n) ms
            → IsFresh (n ∷ names) ms
            → All (Apart dirs sub prefix I I_sub choice n) ms
        each [] h u f = tt
        each (m ∷ ms) h u f = (
          λ x s t.
              clash label n m x (before_irrefl n m h.0) u.0 f.0.0
                (λ same. before_irrefl n m h.0 (distinct_labels n m same))
                (touched label n x (choice n) (choices-Fits label b l r n).1 s)
                (touched label m x (choice m) (choices-Fits label b l r m).1 t),
          each ms h.1 u.1 f.1,
        )

    names-Tidy :
        (names : List Bytes)
        → NamesSorted names
        → IsFresh names names
        → Tidy dirs sub prefix I I_sub choice names
    names-Tidy [] s f = tt
    names-Tidy (n ∷ names) s f =
        let fits = choices-Fits label b l r n in
        (
          (
            fits.0,
            λ le copy e same. f.0.0 (sym same ∙ Labels-both label n (choice n) le copy fits.1 e),
          ),
          (
            Apart-names n names s.0 f.0.1 f.1,
            names-Tidy names s.1 (IsFresh-tail n names names f.1),
          ),
        )

  module _ {M : Type 0} {W : Type 0} (dirs : DirStore M W) (laws : DirLaws dirs)
      (no_attrs : M) where
    absent : (attrs : M) (names : List Bytes) → All (λ m. lookup (new_dir attrs) m ≡ none) names
    absent attrs [] = tt
    absent attrs (n ∷ names) = (lookup-new_dir attrs n, absent attrs names)

    -- A name for which the merged directory settles a verdict; a merged subdirectory is what the same
    -- merge, of one level less, answers in a world that keeps all that was in `w`.
    abbrev pub Decided :
        ℕ → W → Bytes → DirManifest M → List Entry → List Entry → List Entry → Bytes → Type 0
    Decided fuel w prefix out b l r n =
        (c : Choice) × (Verdict label n (entry_map b n) (entry_map l n) (entry_map r n) c
          × Settles dirs (merge_dir dirs no_attrs label fuel) prefix (Keeps dirs w) out n c)

    store_merged-Settled :
        (sub : W → Bytes → ReadCap → ReadCap → ReadCap → Merged dirs) (prefix : Bytes)
        (I : W → Type 0) (I_sub : (w : W) (p : Bytes) (b l r : ReadCap) → I w → I (sub w p b l r).1)
        (choice : Bytes → Choice) (out0 : DirManifest M) (names : List Bytes) (m : Merging dirs)
        (c : ReadCap) (conflicts : List Bytes)
        → AllSettled dirs sub prefix I I_sub choice out0 names m
        → (store_merged dirs m).0 ≡ some (c, conflicts)
        → (out : DirManifest M) × (StoredAs dirs c (store_merged dirs m).1 out
            × All (λ n. Settles dirs sub prefix I out n (choice n)) names)
    store_merged-Settled sub prefix I I_sub choice out0 names (none, w) c conflicts s h =
        absurd (cc h)
    store_merged-Settled sub prefix I I_sub choice out0 names (some (out, more), w) c conflicts s
          h =
        (
          out,
          (stored_merge-StoredAs dirs out w more conflicts c (dirs.store_dir w out) refl h, s.1),
        )

    Settles-Decided :
        (fuel : ℕ) (w : W) (prefix : Bytes) (b l r : List Entry) (out : DirManifest M)
        (names : List Bytes)
        → All
            (λ n.
              Settles dirs
                (merge_dir dirs no_attrs label fuel)
                prefix
                (Keeps dirs w)
                out
                n
                (choices label b l r n))
            names
        → All (Decided fuel w prefix out b l r) names
    Settles-Decided fuel w prefix b l r out [] h = tt
    Settles-Decided fuel w prefix b l r out (n ∷ names) h = (
      (
        choices label b l r n,
        (choose-Verdict label n (entry_map b n) (entry_map l n) (entry_map r n), h.0),
      ),
      Settles-Decided fuel w prefix b l r out names h.1,
    )

    -- When two directories have both changed, each in its own way, distinct names have distinct copies,
    -- and no copy takes the name of an entry, the directory that is stored as their merge settles a
    -- verdict for every name of either side: what one side alone changed is as that side has it; where
    -- both changed it, an entry that one side deleted is there, two directories have the one that the
    -- same merge answers for them in a world that keeps all that was there, and of two others the local
    -- entry keeps the name and the remote one is there as the copy.
    pub merge_dir-Decided :
        (fuel : ℕ) (w : W) (prefix : Bytes) (base local remote : ReadCap) (b l r : DirManifest M)
        (c : ReadCap) (conflicts : List Bytes)
        → local ≢ remote
        → base ≢ local
        → base ≢ remote
        → load_dir_opt dirs no_attrs label w base ≡ some b
        → load_dir_opt dirs no_attrs label w local ≡ some l
        → load_dir_opt dirs no_attrs label w remote ≡ some r
        → IsFresh (union_names l.entries r.entries) (union_names l.entries r.entries)
        → (merge_dir dirs no_attrs label (suc fuel) w prefix base local remote).0
          ≡ some (c, conflicts)
        → (out : DirManifest M) × (StoredAs dirs c
              (merge_dir dirs no_attrs label (suc fuel) w prefix base local remote).1
              out
            × All
                (Decided fuel w prefix out b.entries l.entries r.entries)
                (union_names l.entries r.entries))
    unfolding merge_dir
    merge_dir-Decided fuel w prefix base local remote b l r c conflicts u' v' x' lb ll lr fresh h =
        let names : List Bytes = union_names l.entries r.entries in
        let sub = merge_dir dirs no_attrs label fuel in
        let choice = choices label b.entries l.entries r.entries in
        let I_sub =
          λ (w1 : W) (p : Bytes) (b1 l1 r1 : ReadCap) (k : Keeps dirs w w1) (c1 : ReadCap)
              (d1 : DirManifest M) (held : dirs.Holds w c1 d1).
            merge_dir-Keeps dirs laws no_attrs label fuel w1 p b1 l1 r1 c1 d1 (k c1 d1 held) in
        let u = differ-cap_equal local remote u' in
        let v = differ-cap_equal base local v' in
        let x = differ-cap_equal base remote x' in
        let h' = rw (u, v, x, lb, ll, lr) at h in
        let settled =
          store_merged-Settled sub prefix (Keeps dirs w) I_sub choice (new_dir l.attrs) names _ c
            conflicts
            (merge_names-AllSettled dirs sub prefix (Keeps dirs w) I_sub choice (new_dir l.attrs) []
              w names (λ c1 d1 held. held) tt (absent l.attrs names)
              (names-Tidy dirs sub prefix (Keeps dirs w) I_sub b.entries l.entries r.entries names
                (union_names-NamesSorted l.entries r.entries) fresh))
            h' in
        rw (u, v, x, lb, ll, lr)
          (
            settled.0,
            (
              settled.1.0,
              Settles-Decided fuel w prefix b.entries l.entries r.entries settled.0 names
                  settled.1.1,
            ),
          )
