-- ===== src/Tests/PathRuns.antt =====
-- Paths through a tree of directories in a list, and the components of a path.
use mathlib.Core.Option.{some-injective}
use revika.Base.{
  ℕ, zero, suc, ◌≡◌, inl, inr, refl, sym, ◌∙◌, subst, true, false, Option, some, none, List, [],
  ◌∷◌, ◌++◌, Bytes, arith, length, get_elem?, if◌then◌else◌, bytes_eq, All,
}
use revika.Net.RootSelect.{bytes_ltb}
use revika.Manifest.{
  Kind, is_dir, Entry, DirManifest, ReadCap, lookup, search, search_loop, halve, remove,
  remove_entry,
}
use revika.Manifest.Entries.{IsSorted}
use revika.Manifest.Walk.{DirStore, DirLaws, dir_stat, resolve, graft, graft_remove}
use revika.Manifest.Walk.Open.{Parts, IsOpen}
use revika.Manifest.Walk.Grafted.{resolve-graft}
use revika.Manifest.Walk.Removed.{resolve-graft_remove}
use revika.Manifest.Paths.{split_path, split_at_slash, clean_elements}
use revika.Manifest.Paths.Clean.{elements, IsName, split_path-IsName}

-- A world is a list of directories, and a directory's cap has its place for K.
abbrev pub Dirs : Type 0
Dirs = List (DirManifest ℕ)

abbrev pub cap_at : Kind → ℕ → ReadCap
cap_at kind n = record {
  kind = kind;
  key = [];
  compressed = false;
  k = n;
  m = 1;
  shards = (n ∷ []) ∷ [];
}

abbrev pub load_at : Dirs → ReadCap → Option (DirManifest ℕ)
load_at w c = if is_dir c.kind then get_elem? w c.k else none

abbrev pub IsAt : Dirs → ReadCap → DirManifest ℕ → Type 0
IsAt w c d = (is_dir c.kind ≡ true) × (get_elem? w c.k ≡ some d)

abbrev pub listed : DirStore ℕ Dirs
listed = record {
  load_dir = load_at;
  store_dir = λ w d. (some (cap_at Kind.dir (length w)), w ++ (d ∷ []));
  Holds = IsAt;
  Fits = λ c. Unit {0};
  IsText = λ name. Unit {0};
}

get-append_last : (w : Dirs) (d : DirManifest ℕ) → get_elem? (w ++ (d ∷ [])) (length w) ≡ some d
get-append_last [] d = refl
get-append_last (x ∷ w) d = get-append_last w d

get-append_left :
    (w : Dirs) (d d' : DirManifest ℕ) (n : ℕ)
    → get_elem? w n ≡ some d
    → get_elem? (w ++ (d' ∷ [])) n ≡ some d
get-append_left [] d d' n h = absurd (cc h)
get-append_left (x ∷ w) d d' zero h = h
get-append_left (x ∷ w) d d' (suc n) h = get-append_left w d d' n h

All-Unit : (xs : List Entry) → All (λ e. Unit {0} × Unit {0}) xs
All-Unit [] = tt
All-Unit (x ∷ xs) = ((tt, tt), All-Unit xs)

pub listed-laws : DirLaws listed
listed-laws = record {
  is_a_dir = λ w c d h. h.0;
  loads = λ w c d h. rw h.0 h.1;
  fitting = λ w c d h. All-Unit d.entries;
  stores = λ w d c sorted fits h. (
    subst (λ x. IsAt (w ++ (d ∷ [])) x d) (some-injective _ _ h) (refl, get-append_last w d),
    tt,
  );
  keeps = λ w d d' c h. (h.0, get-append_left w d d' c.k h.1);
}

abbrev pub entry_at : Bytes → Kind → ℕ → Entry
entry_at name kind n = record { name = name; cap = cap_at kind n; stat = dir_stat }

abbrev root_dir : DirManifest ℕ
root_dir = record {
  attrs = 6;
  entries = entry_at (100 ∷ []) Kind.dir 0 ∷ entry_at (102 ∷ []) Kind.file 9 ∷ [];
}

abbrev below_dir : DirManifest ℕ
below_dir = record { attrs = 5; entries = entry_at (103 ∷ []) Kind.file 8 ∷ [] }

-- The root, 1, with the directory "d", 0, and the file "f"; "d" holds the file "g".
abbrev tree : Dirs
tree = below_dir ∷ root_dir ∷ []

abbrev pub no_attrs : ℕ
no_attrs = 0

abbrev dg : List Bytes
dg = (100 ∷ []) ∷ (103 ∷ []) ∷ []

abbrev dh : List Bytes
dh = (100 ∷ []) ∷ (104 ∷ []) ∷ []

abbrev root : ReadCap
root = cap_at Kind.dir 1

abbrev new_file : ReadCap
new_file = cap_at Kind.file 77

root_lookup : lookup root_dir (100 ∷ []) ≡ some (entry_at (100 ∷ []) Kind.dir 0)
unfolding lookup search search_loop halve bytes_ltb bytes_eq
root_lookup = refl

root-IsSorted : IsSorted root_dir.entries
unfolding bytes_ltb
root-IsSorted = ((refl, tt), (tt, tt))

open_below : (name : Bytes) → IsOpen listed tree (cap_at Kind.dir 0) (name ∷ [])
open_below name = (below_dir, ((refl, refl), ((tt, tt), λ e found is. tt)))

open_run : (name : Bytes) → IsOpen listed tree root ((100 ∷ []) ∷ name ∷ [])
open_run name = (
  root_dir,
  (
    (refl, refl),
    (
      root-IsSorted,
      λ e found is.
          subst (λ (x : Entry). IsOpen listed tree x.cap (name ∷ []))
            (some-injective _ _ (sym root_lookup ∙ found)) (open_below name),
    ),
  ),
)

Parts-dh : Parts dh dg
Parts-dh = inr (refl, inl (λ h. ground arith))

Parts-dg : Parts dg dh
Parts-dg = inr (refl, inl (λ h. ground arith))

graft_run : (graft listed no_attrs tree root dh new_file dir_stat).0 ≡ some (cap_at Kind.dir 3)
unfolding graft lookup search search_loop halve bytes_ltb bytes_eq
graft_run = refl

remove_run : (graft_remove listed tree root dg).0 ≡ some (cap_at Kind.dir 3)
unfolding graft_remove lookup search search_loop halve bytes_ltb bytes_eq remove remove_entry
remove_run = refl

resolve-graft_example :
    let r = graft listed no_attrs tree root dh new_file dir_stat in
    (resolve listed r.1 (cap_at Kind.dir 3) dh ≡ some new_file)
    × (IsOpen listed r.1 (cap_at Kind.dir 3) dh
        × ((resolve listed r.1 (cap_at Kind.dir 3) dg ≡ resolve listed tree root dg)
            × IsOpen listed r.1 (cap_at Kind.dir 3) dg))
resolve-graft_example =
    resolve-graft listed listed-laws no_attrs tree root dh dg new_file dir_stat (cap_at Kind.dir 3)
      (open_run (104 ∷ [])) (open_run (103 ∷ [])) Parts-dh tt (tt, (tt, tt)) graft_run

resolve-graft_remove_example :
    let r = graft_remove listed tree root dg in
    (resolve listed r.1 (cap_at Kind.dir 3) dg ≡ none)
    × ((resolve listed r.1 (cap_at Kind.dir 3) dh ≡ resolve listed tree root dh)
        × IsOpen listed r.1 (cap_at Kind.dir 3) dh)
resolve-graft_remove_example =
    resolve-graft_remove listed listed-laws no_attrs tree root dg dh (cap_at Kind.dir 3)
      (open_run (103 ∷ [])) (open_run (104 ∷ [])) Parts-dg remove_run

-- "a/../../b//./c" has the components "b" and "c".
abbrev winding : Bytes
winding = 97 ∷ 47 ∷ 46 ∷ 46 ∷ 47 ∷ 46 ∷ 46 ∷ 47 ∷ 98 ∷ 47 ∷ 47 ∷ 46 ∷ 47 ∷ 99 ∷ []

winding_run : elements winding ≡ (98 ∷ []) ∷ (99 ∷ []) ∷ []
unfolding clean_elements split_at_slash bytes_eq
winding_run = refl

split_path-IsName_example :
    (split_path winding ≡ some (elements winding)) × All IsName (elements winding)
split_path-IsName_example = split_path-IsName winding
