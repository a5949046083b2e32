-- ===== src/Manifest/Merge/Settled.antt =====
-- What a merged directory (internal/manifest/merge.go) holds under each name.
use revika.Base.{
  ap, ◌++◌, none, some, List, [], ◌∷◌, Bytes, bytes_eq, ◌≡◌, ◌≢◌, ◌⊎◌, inl, inr, refl, sym, ◌∙◌,
  subst, arith, All,
}
use revika.Manifest.{ReadCap, Entry, DirManifest, lookup, upsert}
use revika.Manifest.Entries.{IsSorted}
use revika.Manifest.Search.{lookup-upsert}
use revika.Manifest.Walk.{DirStore, dir_entry}
use revika.Manifest.Paths.{slash}
use revika.Manifest.Merge.{
  Choice, nothing, take_entry, flagged, both, descend, Merging, Merged, with_subdir, merge_name,
  then_names, merge_names,
}

-- No name is `n`.
abbrev pub Avoids : Bytes → List Bytes → Type 0
Avoids n names = All (λ m. m ≢ n) names

-- The names that a choice writes: its own, and that of a copy.
abbrev pub Writes : Bytes → Bytes → Choice → Type 0
Writes n m nothing = ⊥
Writes n m (take_entry e) = n ≡ m
Writes n m (flagged e) = n ≡ m
Writes n m (both le copy) = (n ≡ m) ⊎ (copy.name ≡ m)
Writes n m (descend b l r) = n ≡ m

-- The entries of a choice stand under its name.
abbrev pub IsFor : Bytes → Choice → Type 0
IsFor n nothing = Unit
IsFor n (take_entry e) = e.name ≡ n
IsFor n (flagged e) = e.name ≡ n
IsFor n (both le copy) = le.name ≡ n
IsFor n (descend b l r) = Unit

module _ {M : Type 0} where
  -- A step from one directory to the next keeps the order and all but the names that it writes.
  record Moves (out out' : DirManifest M) (n : Bytes) (c : Choice) : Type 0 where
    sorted : IsSorted out'.entries
    keeps : (m : Bytes) → (Writes n m c → ⊥) → lookup out' m ≡ lookup out m

  pub upsert_own :
      (d : DirManifest M) (e : Entry) → IsSorted d.entries → lookup (upsert d e) e.name ≡ some e
  upsert_own d e s = ground (arith, (lookup-upsert d e e.name s).1.1)

  pub upsert_other :
      (d : DirManifest M) (e : Entry) (m : Bytes)
      → IsSorted d.entries
      → e.name ≢ m
      → lookup (upsert d e) m ≡ lookup d m
  upsert_other d e m s u = ground (arith, u, (lookup-upsert d e m s).1.1)

  pub upsert-IsSorted :
      (d : DirManifest M) (e : Entry) → IsSorted d.entries → IsSorted (upsert d e).entries
  upsert-IsSorted d e s = (lookup-upsert d e e.name s).0

  one-Moves :
      (out : DirManifest M) (n : Bytes) (e : Entry) (c : Choice)
      → IsSorted out.entries
      → ((m : Bytes) → e.name ≡ m → Writes n m c)
      → Moves out (upsert out e) n c
  one-Moves out n e c s w = record {
    sorted = upsert-IsSorted out e s;
    keeps = λ m u. upsert_other out e m s (λ same. u (w m same));
  }

  module _ {W : Type 0} (dirs : DirStore M W)
      (sub : W → Bytes → ReadCap → ReadCap → ReadCap → Merged dirs) (prefix : Bytes)
      (I : W → Type 0) where
    -- The cap is what the merge of three subdirectories answered in a world that satisfies `I`.
    abbrev pub IsMergedAt : Bytes → ReadCap → ReadCap → ReadCap → ReadCap → Type 0
    IsMergedAt n b l r c =
        (w : W) × (more : List Bytes) × (I w
          × ((sub w (prefix ++ (n ++ (slash ∷ []))) b l r).0 ≡ some (c, more)))

    -- What a choice asks of the merged directory.
    abbrev pub Settles : DirManifest M → Bytes → Choice → Type 0
    Settles out n nothing = lookup out n ≡ none
    Settles out n (take_entry e) = lookup out n ≡ some e
    Settles out n (flagged e) = lookup out n ≡ some e
    Settles out n (both le copy) = (lookup out n ≡ some le) × (lookup out copy.name ≡ some copy)
    Settles out n (descend b l r) =
        (c : ReadCap) × (IsMergedAt n b l r c × (lookup out n ≡ some (dir_entry n c)))

  module _ {W : Type 0} (dirs : DirStore M W)
      (sub : W → Bytes → ReadCap → ReadCap → ReadCap → Merged dirs) (prefix : Bytes)
      (I : W → Type 0) (I_sub : (w : W) (p : Bytes) (b l r : ReadCap) → I w → I (sub w p b l r).1)
      (choice : Bytes → Choice) where
    abbrev Settled : DirManifest M → Bytes → Choice → Type 0
    Settled out n c = Settles dirs sub prefix I out n c

    -- What one round leaves.
    abbrev AfterRound : DirManifest M → Bytes → Choice → Merging dirs → Type 0
    AfterRound out n c (none, w) = Unit
    AfterRound out n c (some (out', conflicts), w) =
        I w × (Moves out out' n c × ((lookup out n ≡ none) → Settled out' n c))

    subdir-AfterRound :
        (out : DirManifest M) (conflicts : List Bytes) (n : Bytes) (b l r : ReadCap) (w : W)
        (merged : Merged dirs)
        → IsSorted out.entries
        → I w
        → I merged.1
        → sub w (prefix ++ (n ++ (slash ∷ []))) b l r ≡ merged
        → AfterRound out n (descend b l r) (with_subdir dirs out conflicts n merged)
    subdir-AfterRound out conflicts n b l r w (none, w') s i i' e = tt
    subdir-AfterRound out conflicts n b l r w (some (c, more), w') s i i' e = (
      i',
      (
        one-Moves out n (dir_entry n c) (descend b l r) s (λ m same. same),
        λ gone. (c, ((w, more, (i, ap (λ m. m.0) e)), upsert_own out (dir_entry n c) s)),
      ),
    )

    merge_name-AfterRound :
        (out : DirManifest M) (conflicts : List Bytes) (w : W) (n : Bytes) (c : Choice)
        → I w
        → IsSorted out.entries
        → IsFor n c
        → ((le copy : Entry) → c ≡ both le copy → copy.name ≢ n)
        → AfterRound out n c (merge_name dirs sub prefix choice out conflicts w n c)
    merge_name-AfterRound out conflicts w n nothing i s f u =
        (i, (record { sorted = s; keeps = λ m v. refl }, λ gone. gone))
    merge_name-AfterRound out conflicts w n (take_entry e) i s f u = (
      i,
      (
        one-Moves out n e (take_entry e) s (λ m same. sym f ∙ same),
        λ gone. subst (λ x. lookup (upsert out e) x ≡ some e) f (upsert_own out e s),
      ),
    )
    merge_name-AfterRound out conflicts w n (flagged e) i s f u = (
      i,
      (
        one-Moves out n e (flagged e) s (λ m same. sym f ∙ same),
        λ gone. subst (λ x. lookup (upsert out e) x ≡ some e) f (upsert_own out e s),
      ),
    )
    merge_name-AfterRound out conflicts w n (both le copy) i s f u =
        let s1 = upsert-IsSorted out le s in
        (
          i,
          (
            record {
              sorted = upsert-IsSorted (upsert out le) copy s1;
              keeps = λ m v.
                  upsert_other (upsert out le) copy m s1 (λ same. v (inr same))
                  ∙ upsert_other out le m s (λ same. v (inl (sym f ∙ same)));
            },
            λ gone. (
              upsert_other (upsert out le) copy n s1 (u le copy refl)
                  ∙ subst (λ x. lookup (upsert out le) x ≡ some le) f (upsert_own out le s),
              upsert_own (upsert out le) copy s1,
            ),
          ),
        )
    merge_name-AfterRound out conflicts w n (descend b l r) i s f u =
        subdir-AfterRound out conflicts n b l r w _ s i (I_sub w _ b l r i) refl

    abbrev pub Touches : Bytes → Bytes → Type 0
    Touches n x = (n ≡ x) ⊎ Writes n x (choice n)

    -- Two names have nothing to do with each other.
    abbrev pub Apart : Bytes → Bytes → Type 0
    Apart n m = (x : Bytes) → Touches n x → Touches m x → ⊥

    -- Each entry stands under its name, copies under names of their own, and names are apart.
    abbrev pub Tidy : List Bytes → Type 0
    Tidy [] = Unit
    Tidy (n ∷ names) =
        (IsFor n (choice n) × ((le copy : Entry) → choice n ≡ both le copy → copy.name ≢ n))
        × (All (Apart n) names × Tidy names)

    Settles-kept :
        (out out' : DirManifest M) (n : Bytes) (c : Choice)
        → ((x : Bytes) → (n ≡ x) ⊎ Writes n x c → lookup out' x ≡ lookup out x)
        → Settled out n c
        → Settled out' n c
    Settles-kept out out' n nothing k s = k n (inl refl) ∙ s
    Settles-kept out out' n (take_entry e) k s = k n (inl refl) ∙ s
    Settles-kept out out' n (flagged e) k s = k n (inl refl) ∙ s
    Settles-kept out out' n (both le copy) k s =
        (k n (inl refl) ∙ s.0, k copy.name (inr (inr refl)) ∙ s.1)
    Settles-kept out out' n (descend b l r) k s = (s.0, (s.1.0, k n (inl refl) ∙ s.1.1))

    abbrev pub Unwritten : Bytes → List Bytes → Type 0
    Unwritten m names = All (λ n. Writes n m (choice n) → ⊥) names

    Apart-Unwritten :
        (n x : Bytes) (names : List Bytes) → All (Apart n) names → Touches n x → Unwritten x names
    Apart-Unwritten n x [] a t = tt
    Apart-Unwritten n x (m ∷ names) a t = ((λ w. a.0 x t (inr w)), Apart-Unwritten n x names a.1 t)

    abbrev pub AllSettled : DirManifest M → List Bytes → Merging dirs → Type 0
    AllSettled out names (none, w) = Unit
    AllSettled out names (some (out', conflicts), w) =
        (IsSorted out'.entries × ((m : Bytes) → Unwritten m names → lookup out' m ≡ lookup out m))
        × All (λ n. Settled out' n (choice n)) names

    Absent-kept :
        (out out1 : DirManifest M) (n : Bytes) (names : List Bytes)
        → Moves out out1 n (choice n)
        → All (Apart n) names
        → All (λ m. lookup out m ≡ none) names
        → All (λ m. lookup out1 m ≡ none) names
    Absent-kept out out1 n [] mv a g = tt
    Absent-kept out out1 n (m ∷ names) mv a g =
        (mv.keeps m (λ w. a.0 m (inr w) (inl refl)) ∙ g.0, Absent-kept out out1 n names mv a.1 g.1)

    rest-AllSettled :
        (out out1 : DirManifest M) (n : Bytes) (names : List Bytes) (r : Merging dirs)
        → Moves out out1 n (choice n)
        → Settled out1 n (choice n)
        → All (Apart n) names
        → AllSettled out1 names r
        → AllSettled out (n ∷ names) r
    rest-AllSettled out out1 n names (none, w) mv s a h = tt
    rest-AllSettled out out1 n names (some (out', conflicts), w) mv s a h = (
      (h.0.0, λ m u. h.0.1 m u.1 ∙ mv.keeps m u.0),
      (Settles-kept out1 out' n (choice n) (λ x t. h.0.1 x (Apart-Unwritten n x names a t)) s, h.1),
    )

    then-AllSettled :
        (out : DirManifest M) (n : Bytes) (names : List Bytes)
        (rest : DirManifest M → List Bytes → W → Merging dirs) (r : Merging dirs)
        → lookup out n ≡ none
        → All (Apart n) names
        → All (λ m. lookup out m ≡ none) names
        → AfterRound out n (choice n) r
        → ((out1 : DirManifest M) (conflicts : List Bytes) (w : W)
            → I w
            → IsSorted out1.entries
            → All (λ m. lookup out1 m ≡ none) names
            → AllSettled out1 names (rest out1 conflicts w))
        → AllSettled out (n ∷ names) (then_names dirs sub prefix choice rest r)
    then-AllSettled out n names rest (none, w) gone a g h more = tt
    then-AllSettled out n names rest (some (out1, conflicts), w) gone a g h more =
        rest-AllSettled out out1 n names (rest out1 conflicts w) h.1.0 (h.1.1 gone) a
          (more out1 conflicts w h.0 h.1.0.sorted (Absent-kept out out1 n names h.1.0 a g))

    pub merge_names-AllSettled :
        (out : DirManifest M) (conflicts : List Bytes) (w : W) (names : List Bytes)
        → I w
        → IsSorted out.entries
        → All (λ m. lookup out m ≡ none) names
        → Tidy names
        → AllSettled out names (merge_names dirs sub prefix choice out conflicts w names)
    unfolding merge_names
    merge_names-AllSettled out conflicts w [] i s g t = ((s, λ m u. refl), tt)
    merge_names-AllSettled out conflicts w (n ∷ names) i s g t =
        then-AllSettled out n names
          (λ out' conflicts' w'. merge_names dirs sub prefix choice out' conflicts' w' names)
          (merge_name dirs sub prefix choice out conflicts w n (choice n)) g.0 t.1.0 g.1
          (merge_name-AfterRound out conflicts w n (choice n) i s t.0.0 t.0.1)
          (λ out1 conflicts1 w1 i1 s1 g1.
            merge_names-AllSettled out1 conflicts1 w1 names i1 s1 g1 t.1.1)
