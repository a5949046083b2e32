-- ===== src/Manifest/Merge/Lost.antt =====
-- A merge (internal/manifest/merge.go) of two directories in which a copy takes the name of an entry.
use revika.Base.{ℕ, suc, some, List, [], ◌∷◌, ◌++◌, Bytes, bytes_eq, ◌≡◌, ◌≢◌, refl, subst}
use revika.Manifest.{ReadCap, Entry, DirManifest, new_dir, lookup, upsert}
use revika.Manifest.Entries.{IsSorted}
use revika.Manifest.Walk.{DirStore}
use revika.Manifest.Merge.{
  Choice, take_entry, both, union_names, Merged, merge_names, load_dir_opt, merge_dir,
}
use revika.Manifest.Merge.Verdicts.{differ-cap_equal}
use revika.Manifest.Merge.Settled.{upsert_own, upsert-IsSorted}
use revika.Manifest.Merge.Copies.{
  choices, choices-Fits, StoredAs, stored_merge-StoredAs, stored_merge-conflicts, Labels-both,
}

module _ (label : Bytes → Bytes) {M : Type 0} {W : Type 0} (dirs : DirStore M W)
    (no_attrs : M) where
  two_names :
      (sub : W → Bytes → ReadCap → ReadCap → ReadCap → Merged dirs) (prefix : Bytes)
      (choice : Bytes → Choice) (out : DirManifest M) (w : W) (m n : Bytes) (e le copy : Entry)
      → choice m ≡ take_entry e
      → choice n ≡ both le copy
      → merge_names dirs sub prefix choice out [] w (m ∷ n ∷ [])
        ≡ (some (upsert (upsert (upsert out e) le) copy, (prefix ++ n) ∷ []), w)
  unfolding merge_names
  two_names sub prefix choice out w m n e le copy p q = rw (p, q) refl

  copy_last :
      (out : DirManifest M) (e le copy : Entry)
      → IsSorted out.entries
      → lookup (upsert (upsert (upsert out e) le) copy) copy.name ≡ some copy
  copy_last out e le copy s =
      upsert_own (upsert (upsert out e) le) copy
        (upsert-IsSorted (upsert out e) le (upsert-IsSorted out e s))

  -- When two directories have both changed and have two names in all, of which the first is the name
  -- that the labeler gives to a copy of the second; the merge takes an entry for the first; and both
  -- sides edited the second: then the directory that is stored as their merge has the copy under the
  -- first name, so the entry is not there, and the second name is the only conflict that is reported.
  pub merge_dir-overwrites :
      (fuel : ℕ) (w : W) (prefix : Bytes) (base local remote : ReadCap) (b l r : DirManifest M)
      (c : ReadCap) (conflicts : List Bytes) (n : Bytes) (e le copy : Entry)
      → local ≢ remote
      → base ≢ local
      → base ≢ remote
      → load_dir_opt dirs no_attrs label w base ≡ some b
      → load_dir_opt dirs no_attrs label w local ≡ some l
      → load_dir_opt dirs no_attrs label w remote ≡ some r
      → union_names l.entries r.entries ≡ label n ∷ n ∷ []
      → choices label b.entries l.entries r.entries (label n) ≡ take_entry e
      → choices label b.entries l.entries r.entries n ≡ both le copy
      → (merge_dir dirs no_attrs label (suc fuel) w prefix base local remote).0
        ≡ some (c, conflicts)
      → (out : DirManifest M) × (StoredAs dirs c
            (merge_dir dirs no_attrs label (suc fuel) w prefix base local remote).1
            out
          × ((lookup out (label n) ≡ some copy) × (conflicts ≡ (prefix ++ n) ∷ [])))
  unfolding merge_dir
  merge_dir-overwrites fuel w prefix base local remote b l r c conflicts n e le copy u' v' x' lb ll
        lr names p q h =
      let u = differ-cap_equal local remote u' in
      let v = differ-cap_equal base local v' in
      let x = differ-cap_equal base remote x' in
      let choice = choices label b.entries l.entries r.entries in
      let out : DirManifest M = upsert (upsert (upsert (new_dir l.attrs) e) le) copy in
      let two =
        two_names (merge_dir dirs no_attrs label fuel) prefix choice (new_dir l.attrs) w (label n) n
          e le copy p q in
      let named : copy.name ≡ label n =
        Labels-both label n (choice n) le copy
          (choices-Fits label b.entries l.entries r.entries n).1 q in
      let h' = rw (u, v, x, lb, ll, lr, names, two) at h in
      rw (u, v, x, lb, ll, lr, names, two)
        (
          out,
          (
            stored_merge-StoredAs dirs out w ((prefix ++ n) ∷ []) conflicts c (dirs.store_dir w out)
                refl h',
            (
              subst (λ y. lookup out y ≡ some copy) named
                  (copy_last (new_dir l.attrs) e le copy tt),
              stored_merge-conflicts dirs ((prefix ++ n) ∷ []) conflicts c (dirs.store_dir w out)
                  h',
            ),
          ),
        )
