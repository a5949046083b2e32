-- ===== src/Manifest/Merge/Copies.antt =====
-- The entries that a merge chooses (internal/manifest/merge.go), under which names, and in which order
-- the names are visited.
use mathlib.Core.Option.{some-injective}
use revika.Base.{
  true, Option, none, some, List, [], ◌∷◌, if◌then◌else◌, Bytes, bytes_eq, ◌==◌, ◌≡◌, ◌≢◌, ◌⊎◌, inl,
  inr, refl, sym, ap, ◌∙◌, subst, arith, All, Bool-cases, ◌&&◌,
}
use revika.Net.RootSelect.{bytes_ltb}
use revika.Manifest.{is_dir, ReadCap, Entry, DirManifest}
use revika.Manifest.Entries.{before_trans, before_other}
use revika.Manifest.Walk.{DirStore}
use revika.Manifest.Merge.{
  Choice, nothing, take_entry, flagged, both, descend, kept, contested, choose, entry_map, or_later,
  insert_name, add_names, union_names, stored_merge,
}
use revika.Manifest.Merge.Settled.{Writes, IsFor}

abbrev HasName : Bytes → Option Entry → Type 0
HasName n none = Unit
HasName n (some e) = e.name ≡ n

or_later-HasName :
    (n : Bytes) (a b : Option Entry) → HasName n a → HasName n b → HasName n (or_later a b)
or_later-HasName n none b h k = k
or_later-HasName n (some e) b h k = h

one-HasName : (n : Bytes) (e : Entry) → HasName n (if e.name == n then some e else none)
one-HasName n e = ground arith

entry_map-HasName : (es : List Entry) (n : Bytes) → HasName n (entry_map es n)
unfolding entry_map
entry_map-HasName [] n = tt
entry_map-HasName (e ∷ es) n =
    or_later-HasName n (entry_map es n) _ (entry_map-HasName es n) (one-HasName n e)

-- The names come in order, each once.
abbrev pub NamesSorted : List Bytes → Type 0
NamesSorted [] = Unit
NamesSorted (x ∷ xs) = All (λ y. bytes_ltb x y ≡ true) xs × NamesSorted xs

insert_name-All :
    (a n : Bytes) (xs : List Bytes)
    → bytes_ltb a n ≡ true
    → All (λ y. bytes_ltb a y ≡ true) xs
    → All (λ y. bytes_ltb a y ≡ true) (insert_name n xs)
unfolding insert_name
insert_name-All a n [] h u = (h, tt)
insert_name-All a n (x ∷ xs) h u = ground (arith, h, u, insert_name-All a n xs h u.1)

later-All :
    (a b : Bytes) (xs : List Bytes)
    → bytes_ltb a b ≡ true
    → All (λ y. bytes_ltb b y ≡ true) xs
    → All (λ y. bytes_ltb a y ≡ true) xs
later-All a b [] h u = tt
later-All a b (x ∷ xs) h u = (before_trans a b x h u.0, later-All a b xs h u.1)

insert_name-NamesSorted :
    (n : Bytes) (xs : List Bytes) → NamesSorted xs → NamesSorted (insert_name n xs)
unfolding insert_name
insert_name-NamesSorted n [] h = (tt, tt)
insert_name-NamesSorted n (x ∷ xs) h = ground (
  arith,
  h,
  insert_name-NamesSorted n xs h.1,
  λ (l : bytes_ltb x n ≡ true). insert_name-All x n xs l h.0,
  λ (l : bytes_ltb n x ≡ true). later-All n x xs l h.0,
  λ (u : n ≢ x). before_other x n u,
)

add_names-NamesSorted :
    (es : List Entry) (names : List Bytes) → NamesSorted names → NamesSorted (add_names es names)
unfolding add_names
add_names-NamesSorted [] names h = h
add_names-NamesSorted (e ∷ es) names h =
    insert_name-NamesSorted e.name (add_names es names) (add_names-NamesSorted es names h)

pub union_names-NamesSorted : (a b : List Entry) → NamesSorted (union_names a b)
unfolding union_names
union_names-NamesSorted a b =
    add_names-NamesSorted a (add_names b []) (add_names-NamesSorted b [] tt)

module _ (label : Bytes → Bytes) where
  -- The copy of a choice has the name that the labeler gives.
  abbrev pub Labels : Bytes → Choice → Type 0
  Labels n (both le copy) = copy.name ≡ label n
  Labels n nothing = Unit
  Labels n (take_entry e) = Unit
  Labels n (flagged e) = Unit
  Labels n (descend b l r) = Unit

  abbrev pub Fits : Bytes → Choice → Type 0
  Fits n c = IsFor n c × Labels n c

  kept-Fits : (n : Bytes) (o : Option Entry) → HasName n o → Fits n (kept o)
  kept-Fits n none h = (tt, tt)
  kept-Fits n (some e) h = (h, tt)

  contested-Fits :
      (n : Bytes) (be le re : Option Entry)
      → HasName n le
      → HasName n re
      → Fits n (contested label n be le re)
  contested-Fits n be none none h k = (tt, tt)
  contested-Fits n be none (some r) h k = (k, tt)
  contested-Fits n be (some l) none h k = (h, tt)
  contested-Fits n be (some l) (some r) h k =
      elim (Bool-cases (is_dir l.cap.kind && is_dir r.cap.kind)) [
        | inl dirs ↦ rw dirs (tt, tt)
        | inr leaves ↦ rw leaves (h, refl)
      ]

  choose-Fits :
      (n : Bytes) (be le re : Option Entry)
      → HasName n le
      → HasName n re
      → Fits n (choose label n be le re)
  unfolding choose
  choose-Fits n be le re h k =
      ground (arith, kept-Fits n le h, kept-Fits n re k, contested-Fits n be le re h k)

  -- The choices of a merge of three directories.
  abbrev pub choices : List Entry → List Entry → List Entry → Bytes → Choice
  choices b l r n = choose label n (entry_map b n) (entry_map l n) (entry_map r n)

  pub choices-Fits : (b l r : List Entry) (n : Bytes) → Fits n (choices b l r n)
  choices-Fits b l r n =
      choose-Fits n (entry_map b n) (entry_map l n) (entry_map r n) (entry_map-HasName l n)
        (entry_map-HasName r n)

  pub touched :
      (n x : Bytes) (c : Choice) → Labels n c → (n ≡ x) ⊎ Writes n x c → (n ≡ x) ⊎ (label n ≡ x)
  touched n x c f (inl same) = inl same
  touched n x nothing f (inr w) = absurd w
  touched n x (take_entry e) f (inr w) = inl w
  touched n x (flagged e) f (inr w) = inl w
  touched n x (both le copy) f (inr (inl w)) = inl w
  touched n x (both le copy) f (inr (inr w)) = inr (sym f ∙ w)
  touched n x (descend b l r) f (inr w) = inl w

  pub clash :
      (n m x : Bytes)
      → n ≢ m
      → m ≢ label n
      → n ≢ label m
      → label n ≢ label m
      → (n ≡ x) ⊎ (label n ≡ x)
      → (m ≡ x) ⊎ (label m ≡ x)
      → ⊥
  clash n m x u v w y (inl p) (inl q) = u (p ∙ sym q)
  clash n m x u v w y (inl p) (inr q) = w (p ∙ sym q)
  clash n m x u v w y (inr p) (inl q) = v (q ∙ sym p)
  clash n m x u v w y (inr p) (inr q) = y (p ∙ sym q)

  pub Labels-both :
      (n : Bytes) (c : Choice) (le copy : Entry)
      → Labels n c
      → c ≡ both le copy
      → copy.name ≡ label n
  Labels-both n c le copy f e = subst (Labels n) e f

module _ {M : Type 0} {W : Type 0} (dirs : DirStore M W) where
  -- The directory that a merge stored.
  abbrev pub StoredAs : ReadCap → W → DirManifest M → Type 0
  StoredAs c w' out = (w : W) × (dirs.store_dir w out ≡ (some c, w'))

  pub stored_merge-StoredAs :
      (out : DirManifest M) (w : W) (conflicts more : List Bytes) (c : ReadCap)
      (r : Option ReadCap × W)
      → dirs.store_dir w out ≡ r
      → (stored_merge dirs conflicts r).0 ≡ some (c, more)
      → StoredAs c (stored_merge dirs conflicts r).1 out
  stored_merge-StoredAs out w conflicts more c (none, w') e h = absurd (cc h)
  stored_merge-StoredAs out w conflicts more c (some c', w') e h =
      let same : c' ≡ c = ap (λ p. p.0) (some-injective _ _ h) in
      (w, e ∙ ap (λ x. (some x, w')) same)

  pub stored_merge-conflicts :
      (conflicts more : List Bytes) (c : ReadCap) (r : Option ReadCap × W)
      → (stored_merge dirs conflicts r).0 ≡ some (c, more)
      → more ≡ conflicts
  stored_merge-conflicts conflicts more c (none, w) h = absurd (cc h)
  stored_merge-conflicts conflicts more c (some c', w) h =
      sym (ap (λ p. p.1) (some-injective _ _ h))
