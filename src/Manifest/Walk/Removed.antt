-- ===== src/Manifest/Walk/Removed.antt =====
-- What a path leads to after `GraftRemove` (internal/manifest/dir.go).
use mathlib.Core.Option.{some-injective}
use revika.Base.{
  Bool, true, false, Option, none, some, List, [], ◌∷◌, Bytes, ◌≡◌, inl, inr, refl, sym, ap, ◌∙◌,
  subst, arith, All, Bool-cases, ◌>>=◌, bytes_eq,
}
use revika.Manifest.{is_dir, ReadCap, Entry, DirManifest, lookup, remove}
use revika.Manifest.Entries.{IsSorted, entry_named, All-remove_entry}
use revika.Manifest.Search.{lookup-remove, lookup_lem}
use revika.Manifest.Walk.{
  DirStore, DirLaws, AllFit, resolve, store_some, subdir_of, removed_of, graft_remove,
}
use revika.Manifest.Walk.Open.{
  Parts, IsOpen, Keeps, IsOpen-Keeps, resolve-step, resolve-Keeps, same_dir,
}
use revika.Manifest.Walk.Grafted.{store-Keeps, Grafts, Sub, there-Sub, graft_below-Grafts}

module _ {M : Type 0} {W : Type 0} (dirs : DirStore M W) (laws : DirLaws dirs) (no_attrs : M) where
  remove-AllFit : (d : DirManifest M) (name : Bytes) → AllFit dirs d → AllFit dirs (remove d name).0
  unfolding remove
  remove-AllFit d name h =
      All-remove_entry (λ x. dirs.Fits x.cap × dirs.IsText x.name) name d.entries h

  entry_named-IsText :
      (name : Bytes) (x : Entry) (xs : List Entry)
      → All (λ e. dirs.Fits e.cap × dirs.IsText e.name) xs
      → entry_named name xs ≡ some x
      → dirs.IsText name
  entry_named-IsText name x [] h e = absurd (cc e)
  entry_named-IsText name x (y ∷ xs) h e = elim (bytes_eq.dec y.name name) [
    | yes same ↦ subst dirs.IsText same h.0.1
    | no other ↦ entry_named-IsText name x xs h.1 (ground (arith, e, other))
  ]

  found-IsText :
      (d : DirManifest M) (name : Bytes) (x : Entry)
      → IsSorted d.entries
      → lookup d name ≡ some x
      → AllFit dirs d
      → dirs.IsText name
  found-IsText d name x sorted found h =
      entry_named-IsText name x d.entries h (sym (lookup_lem d name sorted) ∙ found)

  found-Sub :
      (w : W) (c : ReadCap) (d : DirManifest M) (name : Bytes) (o : Option Entry) (c1 : ReadCap)
      → dirs.Holds w c d
      → IsSorted d.entries
      → lookup d name ≡ o
      → (subdir_of dirs w o).0 ≡ some c1
      → Sub dirs laws no_attrs w c name c1 (subdir_of dirs w o).1
  found-Sub w c d name none c1 h sorted found e = absurd (cc e)
  found-Sub w c d name (some x) c1 h sorted found e = elim (Bool-cases (is_dir x.cap.kind)) [
    | inl is ↦
        let same : x.cap ≡ c1 = some-injective _ _ (rw is at e) in
        rw is (
          subst (λ y. Sub dirs laws no_attrs w c name y w) same
            (there-Sub dirs laws no_attrs w c d name x h found is
              (found-IsText d name x sorted found (laws.fitting w c d h))))
    | inr leaf ↦ absurd (let no : none ≡ some c1 = rw leaf at e in cc)
  ]

  remove_frame :
      (w : W) (c : ReadCap) (d : DirManifest M) (name : Bytes) (c' : ReadCap) (w' : W)
      (q : List Bytes)
      → dirs.Holds w c d
      → IsSorted d.entries
      → Keeps dirs w w'
      → dirs.Holds w' c' (remove d name).0
      → Parts (name ∷ []) q
      → IsOpen dirs w c q
      → (resolve dirs w' c' q ≡ resolve dirs w c q) × IsOpen dirs w' c' q
  remove_frame w c d name c' w' [] h s k h' p o = absurd p
  remove_frame w c d name c' w' (b ∷ q) h s k h' (inr p) o = absurd p.1
  remove_frame w c d name c' w' (b ∷ q) h s k h' (inl apart) o =
      let other : lookup (remove d name).0 b ≡ lookup d b =
        ground (arith, apart, (lookup-remove d name b s).1.1) in
      let same = same_dir dirs laws w c o.0 d o.1.0 h in
      (
        resolve-step dirs laws w' c' (remove d name).0 b q h'
            ∙ ap (λ r. r >>= (λ x. resolve dirs w' x.cap q)) other
            ∙ sym (resolve-step dirs laws w' c d b q (k c d h))
            ∙ resolve-Keeps dirs laws w w' c (b ∷ q) k o,
        (
          (remove d name).0,
          (
            h',
            (
              (lookup-remove d name b s).0,
              λ x found is.
                  IsOpen-Keeps dirs w w' x.cap q k
                    (o.1.1.1 x (ap (λ y. lookup y b) same ∙ sym other ∙ found) is),
            ),
          ),
        ),
      )

  leaf-Grafts :
      (w : W) (c : ReadCap) (d : DirManifest M) (name : Bytes) (r : DirManifest M × Bool)
      (c' : ReadCap)
      → dirs.Holds w c d
      → IsSorted d.entries
      → remove d name ≡ r
      → (store_some dirs w (removed_of dirs r)).0 ≡ some c'
      → Grafts dirs laws no_attrs w c (name ∷ []) none c' (store_some dirs w (removed_of dirs r)).1
  leaf-Grafts w c d name (d', false) c' h s e stored = absurd (cc stored)
  leaf-Grafts w c d name (d', true) c' h s e stored =
      let is : (remove d name).0 ≡ d' = ap (λ p. p.0) e in
      let w' : W = (dirs.store_dir w d').1 in
      let sorted : IsSorted d'.entries =
        subst (λ (x : DirManifest M). IsSorted x.entries) is (lookup-remove d name name s).0 in
      let fit : AllFit dirs d' =
        subst (AllFit dirs) is (remove-AllFit d name (laws.fitting w c d h)) in
      let (h', fits) = laws.stores w d' c' sorted fit stored in
      let gone : lookup d' name ≡ none =
        ap (λ (x : DirManifest M). lookup x name) (sym is)
        ∙ ground (arith, (lookup-remove d name name s).1.1) in
      let keeps : Keeps dirs w w' = store-Keeps dirs laws no_attrs w d' in
      record {
        keeps = keeps;
        fits = fits;
        reaches = rw (resolve-step dirs laws w' c' d' name [] h', gone) refl;
        opens = (
          d',
          (h', (sorted, λ x found is. absurd (let no : none ≡ some x = sym gone ∙ found in cc))),
        );
        frame = λ q p o.
            remove_frame w c d name c' w' q h s keeps
              (subst (λ (x : DirManifest M). dirs.Holds w' c' x) (sym is) h') p o;
      }

  graft_remove-Grafts :
      (w : W) (c : ReadCap) (parts : List Bytes) (c' : ReadCap)
      → IsOpen dirs w c parts
      → (graft_remove dirs w c parts).0 ≡ some c'
      → Grafts dirs laws no_attrs w c parts none c' (graft_remove dirs w c parts).1
  unfolding graft_remove
  graft_remove-Grafts w c [] c' o h = absurd (cc h)
  graft_remove-Grafts w c (name ∷ []) c' o h =
      let l = laws.loads w c o.0 o.1.0 in
      rw l (leaf-Grafts w c o.0 name (remove o.0 name) c' o.1.0 o.1.1.0 refl (rw l at h))
  graft_remove-Grafts w c (name ∷ next ∷ parts) c' o h =
      let l = laws.loads w c o.0 o.1.0 in
      rw l (
        graft_below-Grafts dirs laws no_attrs w c o.0 name next parts none
          (λ w1 c1. graft_remove dirs w1 c1 (next ∷ parts)) (subdir_of dirs w (lookup o.0 name)) c'
          o.1.0 o.1.1.0 (λ c1 e. found-Sub w c o.0 name (lookup o.0 name) c1 o.1.0 o.1.1.0 refl e)
          (λ c1 w1 c2 sub e.
            graft_remove-Grafts w1 c1 (next ∷ parts) c2 (sub.opens (next ∷ parts) o) e)
          (rw l at h))

  -- If every directory that a path goes through is in the world and in order, a removal at the path
  -- that succeeds makes a root from which the path leads nowhere; and a path that parts from it, and
  -- goes through such directories, leads to what it led to before.
  pub resolve-graft_remove :
      (w : W) (c : ReadCap) (parts q : List Bytes) (c' : ReadCap)
      → IsOpen dirs w c parts
      → IsOpen dirs w c q
      → Parts parts q
      → (graft_remove dirs w c parts).0 ≡ some c'
      → let w' = (graft_remove dirs w c parts).1 in
        (resolve dirs w' c' parts ≡ none)
        × ((resolve dirs w' c' q ≡ resolve dirs w c q) × IsOpen dirs w' c' q)
  resolve-graft_remove w c parts q c' o oq p h =
      let g = graft_remove-Grafts w c parts c' o h in (g.reaches, g.frame q p oq)
