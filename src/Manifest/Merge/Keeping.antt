-- ===== src/Manifest/Merge/Keeping.antt =====
-- A merge (internal/manifest/merge.go) keeps what was in the world.
use revika.Base.{
  ℕ, zero, suc, Option, none, some, List, [], ◌∷◌, Bytes, bytes_eq, ◌≡◌, inl, inr, refl, sym, subst,
  Bool-cases,
}
use revika.Manifest.{ReadCap, DirManifest, new_dir}
use revika.Manifest.Walk.{DirStore, DirLaws}
use revika.Manifest.Walk.Open.{Keeps}
use revika.Manifest.Merge.{
  Choice, nothing, take_entry, flagged, both, descend, cap_equal, union_names, Merging, Merged,
  with_subdir, merge_name, then_names, merge_names, stored_merge, store_merged, load_dir_opt,
  merge_loaded, merge_dir,
}
use revika.Manifest.Merge.Copies.{choices}

module _ {M : Type 0} {W : Type 0} (dirs : DirStore M W) (laws : DirLaws dirs) where
  module _ (sub : W → Bytes → ReadCap → ReadCap → ReadCap → Merged dirs) (prefix : Bytes)
      (choice : Bytes → Choice)
      (sub_keeps : (w : W) (p : Bytes) (b l r : ReadCap) → Keeps dirs w (sub w p b l r).1) where
    subdir-Keeps :
        (w : W) (out : DirManifest M) (conflicts : List Bytes) (n : Bytes) (m : Merged dirs)
        → Keeps dirs w m.1
        → Keeps dirs w (with_subdir dirs out conflicts n m).1
    subdir-Keeps w out conflicts n (none, w') k = k
    subdir-Keeps w out conflicts n (some (c, more), w') k = k

    pub merge_name-Keeps :
        (out : DirManifest M) (conflicts : List Bytes) (w : W) (n : Bytes) (c : Choice)
        → Keeps dirs w (merge_name dirs sub prefix choice out conflicts w n c).1
    merge_name-Keeps out conflicts w n nothing = λ c d h. h
    merge_name-Keeps out conflicts w n (take_entry e) = λ c d h. h
    merge_name-Keeps out conflicts w n (flagged e) = λ c d h. h
    merge_name-Keeps out conflicts w n (both le copy) = λ c d h. h
    merge_name-Keeps out conflicts w n (descend b l r) =
        subdir-Keeps w out conflicts n _ (sub_keeps w _ b l r)

    then-Keeps :
        (w : W) (rest : DirManifest M → List Bytes → W → Merging dirs) (m : Merging dirs)
        → Keeps dirs w m.1
        → ((out : DirManifest M) (conflicts : List Bytes) (w' : W)
            → Keeps dirs w' (rest out conflicts w').1)
        → Keeps dirs w (then_names dirs sub prefix choice rest m).1
    then-Keeps w rest (none, w') k more = k
    then-Keeps w rest (some (out, conflicts), w') k more =
        λ c d h. more out conflicts w' c d (k c d h)

    pub merge_names-Keeps :
        (out : DirManifest M) (conflicts : List Bytes) (w : W) (names : List Bytes)
        → Keeps dirs w (merge_names dirs sub prefix choice out conflicts w names).1
    unfolding merge_names
    merge_names-Keeps out conflicts w [] = λ c d h. h
    merge_names-Keeps out conflicts w (n ∷ names) =
        then-Keeps w
          (λ out' conflicts' w'. merge_names dirs sub prefix choice out' conflicts' w' names)
          (merge_name dirs sub prefix choice out conflicts w n (choice n))
          (merge_name-Keeps out conflicts w n (choice n))
          (λ out' conflicts' w'. merge_names-Keeps out' conflicts' w' names)

  stored-world :
      (conflicts : List Bytes) (r : Option ReadCap × W) → (stored_merge dirs conflicts r).1 ≡ r.1
  stored-world conflicts (none, w) = refl
  stored-world conflicts (some c, w) = refl

  store_merged-Keeps :
      (w : W) (m : Merging dirs) → Keeps dirs w m.1 → Keeps dirs w (store_merged dirs m).1
  store_merged-Keeps w (none, w') k = k
  store_merged-Keeps w (some (out, conflicts), w') k =
      subst (Keeps dirs w) (sym (stored-world conflicts (dirs.store_dir w' out)))
        (λ c d h. laws.keeps w' d out c (k c d h))

  module _ (no_attrs : M) (label : Bytes → Bytes) where
    merge_loaded-Keeps :
        (sub : W → Bytes → ReadCap → ReadCap → ReadCap → Merged dirs) (w : W) (prefix : Bytes)
        (b l r : Option (DirManifest M))
        → ((w : W) (p : Bytes) (b l r : ReadCap) → Keeps dirs w (sub w p b l r).1)
        → Keeps dirs w (merge_loaded dirs no_attrs label sub w prefix b l r).1
    merge_loaded-Keeps sub w prefix none l r k = λ c d h. h
    merge_loaded-Keeps sub w prefix (some b) none r k = λ c d h. h
    merge_loaded-Keeps sub w prefix (some b) (some l) none k = λ c d h. h
    merge_loaded-Keeps sub w prefix (some b) (some l) (some r) k = store_merged-Keeps w _ (
        merge_names-Keeps sub prefix (choices label b.entries l.entries r.entries) k
          (new_dir l.attrs) [] w (union_names l.entries r.entries))

    -- A merge keeps what was in the world, whether it answers or not.
    pub merge_dir-Keeps :
        (fuel : ℕ) (w : W) (prefix : Bytes) (b l r : ReadCap)
        → Keeps dirs w (merge_dir dirs no_attrs label fuel w prefix b l r).1
    unfolding merge_dir
    merge_dir-Keeps zero w prefix b l r = λ c d h. h
    merge_dir-Keeps (suc fuel) w prefix b l r =
        let rest =
          merge_loaded-Keeps (merge_dir dirs no_attrs label fuel) w prefix
            (load_dir_opt dirs no_attrs label w b) (load_dir_opt dirs no_attrs label w l)
            (load_dir_opt dirs no_attrs label w r)
            (λ w' p b' l' r'. merge_dir-Keeps fuel w' p b' l' r') in
        elim (Bool-cases (cap_equal l r)) [
          | inl e ↦ rw e (λ c d h. h)
          | inr e ↦ rw e (elim (Bool-cases (cap_equal b l)) [
            | inl e' ↦ rw e' (λ c d h. h)
            | inr e' ↦ rw e' (elim (Bool-cases (cap_equal b r)) [
              | inl e'' ↦ rw e'' (λ c d h. h)
              | inr e'' ↦ rw e'' rest
            ])
          ])
        ]
