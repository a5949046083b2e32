-- ===== src/Manifest/Merge/Total.antt =====
-- A merge (internal/manifest/merge.go) of trees that are no deeper than the fuel answers, unless a
-- directory cannot be stored.
use revika.Base.{
  ℕ, zero, suc, true, Option, none, some, List, [], ◌∷◌, Bytes, bytes_eq, ◌≡◌, ◌⊎◌, inl, inr, ap,
  refl, All, Bool-cases,
}
use revika.Manifest.{ReadCap, DirManifest, new_dir}
use revika.Manifest.Walk.{DirStore, DirLaws}
use revika.Manifest.Walk.Open.{Keeps}
use revika.Manifest.Merge.{
  Choice, nothing, take_entry, flagged, both, descend, cap_present, cap_equal, entry_map,
  union_names, Merging, Merged, with_subdir, merge_name, then_names, merge_names, stored_merge,
  store_merged, load_dir_opt, merge_loaded, merge_dir,
}
use revika.Manifest.Merge.Copies.{choices}
use revika.Manifest.Merge.Keeping.{merge_name-Keeps, merge_names-Keeps, merge_dir-Keeps}
use revika.Manifest.Merge.Depth.{IsLeaf, Within, Goes, Goes-Keeps, choose-Goes, entry_map-Within}

module _ {M : Type 0} {W : Type 0} (dirs : DirStore M W) (laws : DirLaws dirs) where
  -- A directory cannot be stored in a world that keeps all that was in `w`.
  abbrev pub StoreFails : W → Type 0
  StoreFails w =
      (w1 : W) × (d : DirManifest M) × (Keeps dirs w w1 × ((dirs.store_dir w1 d).0 ≡ none))

  -- There is an answer, or the storing of a directory fails.
  abbrev pub AnswersOrFails : {A : Type 0} → W → Option A × W → Type 0
  AnswersOrFails {A} w r = ((x : A) × (r.0 ≡ some x)) ⊎ StoreFails w

  later :
      {A : Type 0} (w w' : W) (r : Option A × W)
      → Keeps dirs w w'
      → AnswersOrFails w' r
      → AnswersOrFails w r
  later w w' r k (inl h) = inl h
  later w w' r k (inr (w1, d, (k', e))) = inr (w1, d, (λ c x h. k' c x (k c x h), e))

  module _ (sub : W → Bytes → ReadCap → ReadCap → ReadCap → Merged dirs) (prefix : Bytes)
      (choice : Bytes → Choice) (k : ℕ)
      (sub_keeps : (w : W) (p : Bytes) (b l r : ReadCap) → Keeps dirs w (sub w p b l r).1)
      (sub_answers : (w : W) (p : Bytes) (b l r : ReadCap)
        → Within dirs k w b
        → Within dirs k w l
        → Within dirs k w r
        → AnswersOrFails w (sub w p b l r)) where
    subdir-answers :
        (w : W) (out : DirManifest M) (conflicts : List Bytes) (n : Bytes) (m : Merged dirs)
        → AnswersOrFails w m
        → AnswersOrFails w (with_subdir dirs out conflicts n m)
    subdir-answers w out conflicts n (none, w') (inl h) = absurd (cc h.1)
    subdir-answers w out conflicts n (some (c, more), w') (inl h) = inl (_, refl)
    subdir-answers w out conflicts n m (inr f) = inr f

    merge_name-answers :
        (out : DirManifest M) (conflicts : List Bytes) (w : W) (n : Bytes) (c : Choice)
        → Goes dirs k w c
        → AnswersOrFails w (merge_name dirs sub prefix choice out conflicts w n c)
    merge_name-answers out conflicts w n nothing g = inl (_, refl)
    merge_name-answers out conflicts w n (take_entry e) g = inl (_, refl)
    merge_name-answers out conflicts w n (flagged e) g = inl (_, refl)
    merge_name-answers out conflicts w n (both le copy) g = inl (_, refl)
    merge_name-answers out conflicts w n (descend b l r) g =
        subdir-answers w out conflicts n _ (sub_answers w _ b l r g.0 g.1.0 g.1.1)

    then-answers :
        (w : W) (rest : DirManifest M → List Bytes → W → Merging dirs) (m : Merging dirs)
        → AnswersOrFails w m
        → Keeps dirs w m.1
        → ((out : DirManifest M) (conflicts : List Bytes) (w' : W)
            → Keeps dirs w w'
            → AnswersOrFails w' (rest out conflicts w'))
        → AnswersOrFails w (then_names dirs sub prefix choice rest m)
    then-answers w rest (none, w') (inl h) keeps more = absurd (cc h.1)
    then-answers w rest (some (out, conflicts), w') (inl h) keeps more =
        later w w' (rest out conflicts w') keeps (more out conflicts w' keeps)
    then-answers w rest m (inr f) keeps more = inr f

    pub merge_names-answers :
        (out : DirManifest M) (conflicts : List Bytes) (w : W) (names : List Bytes)
        → ((n : Bytes) → Goes dirs k w (choice n))
        → AnswersOrFails w (merge_names dirs sub prefix choice out conflicts w names)
    unfolding merge_names
    merge_names-answers out conflicts w [] g = inl (_, refl)
    merge_names-answers out conflicts w (n ∷ names) g =
        then-answers w
          (λ out' conflicts' w'. merge_names dirs sub prefix choice out' conflicts' w' names)
          (merge_name dirs sub prefix choice out conflicts w n (choice n))
          (merge_name-answers out conflicts w n (choice n) (g n))
          (merge_name-Keeps dirs laws sub prefix choice sub_keeps out conflicts w n (choice n))
          (λ out' conflicts' w' keeps.
            merge_names-answers out' conflicts' w' names
              (λ m. Goes-Keeps dirs k w w' (choice m) keeps (g m)))

  stored-answers :
      (w w' : W) (out : DirManifest M) (conflicts : List Bytes) (s : Option ReadCap × W)
      → Keeps dirs w w'
      → dirs.store_dir w' out ≡ s
      → AnswersOrFails w (stored_merge dirs conflicts s)
  stored-answers w w' out conflicts (none, w1) k e = inr (w', out, (k, ap (λ s. s.0) e))
  stored-answers w w' out conflicts (some c, w1) k e = inl (_, refl)

  store_merged-answers :
      (w : W) (m : Merging dirs)
      → Keeps dirs w m.1
      → AnswersOrFails w m
      → AnswersOrFails w (store_merged dirs m)
  store_merged-answers w (none, w') k (inl h) = absurd (cc h.1)
  store_merged-answers w (some (out, conflicts), w') k (inl h) =
      stored-answers w w' out conflicts (dirs.store_dir w' out) k refl
  store_merged-answers w m k (inr f) = inr f

  module _ (no_attrs : M) (label : Bytes → Bytes) where
    load_leaf :
        (w : W) (c : ReadCap)
        → IsLeaf dirs c
        → load_dir_opt dirs no_attrs label w c ≡ some (new_dir no_attrs)
    unfolding load_dir_opt
    load_leaf w c h = rw h refl

    load_held :
        (w : W) (c : ReadCap) (d : DirManifest M)
        → dirs.Holds w c d
        → (cap_present c ≡ true)
        → load_dir_opt dirs no_attrs label w c ≡ some d
    unfolding load_dir_opt
    load_held w c d h p = rw (p, laws.is_a_dir w c d h) (laws.loads w c d h)

    load-Within :
        (k : ℕ) (w : W) (c : ReadCap)
        → Within dirs (suc k) w c
        → (d : DirManifest M) × ((load_dir_opt dirs no_attrs label w c ≡ some d)
            × All (λ e. Within dirs k w e.cap) d.entries)
    unfolding Within
    load-Within k w c (inl leaf) = (new_dir no_attrs, (load_leaf w c leaf, tt))
    load-Within k w c (inr (d, (h, all))) = elim (Bool-cases (cap_present c)) [
      | inl p ↦ (d, (load_held w c d h p, all))
      | inr p ↦ (new_dir no_attrs, (load_leaf w c (rw p refl), tt))
    ]

    unchanged_or :
        (fuel : ℕ) (w : W) (prefix : Bytes) (base local remote : ReadCap)
        → AnswersOrFails w (
            merge_loaded dirs no_attrs label
              (merge_dir dirs no_attrs label fuel)
              w
              prefix
              (load_dir_opt dirs no_attrs label w base)
              (load_dir_opt dirs no_attrs label w local)
              (load_dir_opt dirs no_attrs label w remote))
        → AnswersOrFails w (merge_dir dirs no_attrs label (suc fuel) w prefix base local remote)
    unfolding merge_dir
    unchanged_or fuel w prefix base local remote a = elim (Bool-cases (cap_equal local remote)) [
      | inl e ↦ rw e (inl (_, refl))
      | inr e ↦ rw e (elim (Bool-cases (cap_equal base local)) [
        | inl e' ↦ rw e' (inl (_, refl))
        | inr e' ↦ rw e' (elim (Bool-cases (cap_equal base remote)) [
          | inl e'' ↦ rw e'' (inl (_, refl))
          | inr e'' ↦ rw e'' a
        ])
      ])
    ]

    leaves_merged :
        (sub : W → Bytes → ReadCap → ReadCap → ReadCap → Merged dirs) (w : W) (prefix : Bytes)
        → AnswersOrFails w (
            merge_loaded dirs no_attrs label sub w prefix
              (some (new_dir no_attrs))
              (some (new_dir no_attrs))
              (some (new_dir no_attrs)))
    unfolding union_names merge_names
    leaves_merged sub w prefix =
        stored-answers w w (new_dir no_attrs) [] (dirs.store_dir w (new_dir no_attrs)) (λ c d h. h)
          refl

    pub merge_dir-answers :
        (k : ℕ) (w : W) (prefix : Bytes) (base local remote : ReadCap)
        → Within dirs k w base
        → Within dirs k w local
        → Within dirs k w remote
        → ((x : ReadCap × List Bytes) × ((merge_dir dirs no_attrs label
                (suc k)
                w
                prefix
                base
                local
                remote).0
              ≡ some x))
          ⊎ StoreFails w
    unfolding Within
    merge_dir-answers zero w prefix base local remote tb tl tr =
        unchanged_or zero w prefix base local remote (
          rw (load_leaf w base tb, load_leaf w local tl, load_leaf w remote tr)
            (leaves_merged (merge_dir dirs no_attrs label zero) w prefix))
    merge_dir-answers (suc k) w prefix base local remote tb tl tr =
        let b = load-Within k w base tb in
        let l = load-Within k w local tl in
        let r = load-Within k w remote tr in
        let sub = merge_dir dirs no_attrs label (suc k) in
        let choice = choices label b.0.entries l.0.entries r.0.entries in
        let names : List Bytes = union_names l.0.entries r.0.entries in
        let sub_keeps = λ (w' : W) (p : Bytes) (b' l' r' : ReadCap).
          merge_dir-Keeps dirs laws no_attrs label (suc k) w' p b' l' r' in
        unchanged_or (suc k) w prefix base local remote (
          rw (b.1.0, l.1.0, r.1.0)
            (store_merged-answers w _
              (merge_names-Keeps dirs laws sub prefix choice sub_keeps (new_dir l.0.attrs) [] w
                names)
              (merge_names-answers sub prefix choice k sub_keeps
                (λ w' p b' l' r' b'' l'' r''. merge_dir-answers k w' p b' l' r' b'' l'' r'')
                (new_dir l.0.attrs) [] w names
                (λ n.
                  choose-Goes dirs label k w n (entry_map b.0.entries n) (entry_map l.0.entries n)
                    (entry_map r.0.entries n) (entry_map-Within dirs k w b.0.entries n b.1.1)
                    (entry_map-Within dirs k w l.0.entries n l.1.1)
                    (entry_map-Within dirs k w r.0.entries n r.1.1)))))
