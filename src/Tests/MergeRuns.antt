-- ===== src/Tests/MergeRuns.antt =====
-- Merges of small directories, and the theorems at them.
use revika.Base.{
  List, ◌⊎◌, ℕ, zero, ◌≡◌, ◌≢◌, refl, sym, ap, Option, some, [], ◌∷◌, ◌++◌, Bytes, arith, bytes_eq,
  All, drop, take, get_elem?, inr, ◌+◌, subst, ◌∙◌,
}
use revika.Net.RootSelect.{bytes_ltb}
use revika.Manifest.{
  Kind, Entry, DirManifest, ReadCap, lookup, upsert, replace_entry, placed, insert_by_name,
  sort_by_name,
}
use revika.Manifest.Merge.{
  take_entry, both, cap_present, default_labeler, copy_of, choose, entry_map, union_names,
  load_dir_opt, merge_dir,
}
use revika.Manifest.Merge.Copies.{choices, StoredAs}
use revika.Manifest.Merge.Kept.{IsFresh, Decided, merge_dir-Decided}
use revika.Manifest.Merge.Lost.{merge_dir-overwrites}
use revika.Manifest.Merge.Depth.{Within}
use revika.Manifest.Merge.Total.{StoreFails, merge_dir-answers}
use revika.Tests.PathRuns.{Dirs, cap_at, listed, listed-laws, entry_at, no_attrs}

-- "a.txt" and "a (conflict).txt"
abbrev a_txt : Bytes
a_txt = 97 ∷ 46 ∷ 116 ∷ 120 ∷ 116 ∷ []

abbrev a_conflict_txt : Bytes
a_conflict_txt =
    97 ∷ 32 ∷ 40 ∷ 99 ∷ 111 ∷ 110 ∷ 102 ∷ 108 ∷ 105 ∷ 99 ∷ 116 ∷ 41 ∷ 46 ∷ 116 ∷ 120 ∷ 116 ∷ []

label_run : default_labeler a_txt ≡ a_conflict_txt
unfolding default_labeler
label_run = refl

-- The copy of an earlier conflict, and a file whose content is at a cap.
abbrev dir_with : ℕ → DirManifest ℕ
dir_with n = record {
  attrs = n;
  entries = entry_at a_conflict_txt Kind.file 50 ∷ entry_at a_txt Kind.file n ∷ [];
}

abbrev three : Dirs
three = dir_with 60 ∷ dir_with 61 ∷ dir_with 62 ∷ []

abbrev old_copy : Entry
old_copy = entry_at a_conflict_txt Kind.file 50

abbrev new_copy : Entry
new_copy = entry_at a_conflict_txt Kind.file 62

abbrev base_cap : ReadCap
base_cap = cap_at Kind.dir 0

abbrev local_cap : ReadCap
local_cap = cap_at Kind.dir 1

abbrev remote_cap : ReadCap
remote_cap = cap_at Kind.dir 2

apart : (n m : ℕ) → n ≢ m → cap_at Kind.dir n ≢ cap_at Kind.dir m
apart n m h e = h (ap (λ (c : ReadCap). c.k) e)

abbrev loaded : (label : Bytes → Bytes) → ℕ → Option (DirManifest ℕ)
loaded label n = load_dir_opt listed no_attrs label three (cap_at Kind.dir n)

loaded_run :
    (label : Bytes → Bytes)
    → (loaded label 0 ≡ some (dir_with 60))
      × ((loaded label 1 ≡ some (dir_with 61)) × (loaded label 2 ≡ some (dir_with 62)))
unfolding load_dir_opt
loaded_run label = (refl, (refl, refl))

names_run : union_names (dir_with 61).entries (dir_with 62).entries ≡ a_conflict_txt ∷ a_txt ∷ []
unfolding union_names bytes_ltb bytes_eq
names_run = refl

kept_run :
    (label : Bytes → Bytes)
    → choices label (dir_with 60).entries (dir_with 61).entries (dir_with 62).entries a_conflict_txt
      ≡ take_entry old_copy
unfolding choose entry_map bytes_eq
kept_run label = refl

both_run :
    (label : Bytes → Bytes)
    → choices label (dir_with 60).entries (dir_with 61).entries (dir_with 62).entries a_txt
      ≡ both (entry_at a_txt Kind.file 61) (copy_of label a_txt (entry_at a_txt Kind.file 62))
unfolding choose entry_map bytes_eq
both_run label = refl

merged_run :
    (merge_dir listed no_attrs default_labeler 1 three [] base_cap local_cap remote_cap).0
    ≡ some (cap_at Kind.dir 3, a_txt ∷ [])
unfolding merge_dir upsert placed replace_entry insert_by_name sort_by_name bytes_ltb bytes_eq
    default_labeler
merged_run = refl

merge_dir-overwrites_example :
    (out : DirManifest ℕ) × (StoredAs listed
        (cap_at Kind.dir 3)
        (merge_dir listed no_attrs default_labeler 1 three [] base_cap local_cap remote_cap).1
        out
      × ((lookup out (default_labeler a_txt)
            ≡ some (copy_of default_labeler a_txt (entry_at a_txt Kind.file 62)))
          × (a_txt ∷ [] ≡ ([] ++ a_txt) ∷ [])))
merge_dir-overwrites_example =
    merge_dir-overwrites default_labeler listed no_attrs zero three [] base_cap local_cap remote_cap
      (dir_with 60) (dir_with 61) (dir_with 62) (cap_at Kind.dir 3) (a_txt ∷ []) a_txt old_copy
      (entry_at a_txt Kind.file 61) (copy_of default_labeler a_txt (entry_at a_txt Kind.file 62))
      (apart 1 2 (λ h. ground arith)) (apart 0 1 (λ h. ground arith))
      (apart 0 2 (λ h. ground arith)) (loaded_run default_labeler).0
      (loaded_run default_labeler).1.0 (loaded_run default_labeler).1.1
      (names_run ∙ ap (λ y. y ∷ a_txt ∷ []) (sym label_run))
      (ap
          (choices default_labeler (dir_with 60).entries (dir_with 61).entries
            (dir_with 62).entries)
          label_run
        ∙ kept_run default_labeler)
      (both_run default_labeler) merged_run

-- A labeler that puts a byte in front.
abbrev mark : Bytes → Bytes
mark n = 0 ∷ n

mark_injective : (n m : Bytes) → mark n ≡ mark m → n ≡ m
mark_injective n m h = ap (drop 1) h

marked_run :
    (merge_dir listed no_attrs mark 1 three [] base_cap local_cap remote_cap).0
    ≡ some (cap_at Kind.dir 3, a_txt ∷ [])
unfolding merge_dir upsert placed replace_entry insert_by_name sort_by_name bytes_ltb bytes_eq
marked_run = refl

-- Trees with the directories under a name "d".
abbrev root_with : ℕ → DirManifest ℕ
root_with n = record { attrs = n; entries = entry_at (100 ∷ []) Kind.dir n ∷ [] }

abbrev nested : Dirs
nested = three ++ (root_with 0 ∷ root_with 1 ∷ root_with 2 ∷ [])

abbrev loaded_in : Dirs → ℕ → Option (DirManifest ℕ)
loaded_in w n = load_dir_opt listed no_attrs mark w (cap_at Kind.dir n)

nested_loaded :
    (loaded_in nested 3 ≡ some (root_with 0))
    × ((loaded_in nested 4 ≡ some (root_with 1)) × (loaded_in nested 5 ≡ some (root_with 2)))
unfolding load_dir_opt
nested_loaded = (refl, (refl, refl))

nested_names : union_names (root_with 1).entries (root_with 2).entries ≡ (100 ∷ []) ∷ []
unfolding union_names bytes_ltb bytes_eq
nested_names = refl

nested-IsFresh : IsFresh mark mark_injective ((100 ∷ []) ∷ []) ((100 ∷ []) ∷ [])
nested-IsFresh = (((λ e. ground (arith, ap (take 1) e)), tt), tt)

nested_run :
    (merge_dir listed no_attrs mark 2 nested []
      (cap_at Kind.dir 3)
      (cap_at Kind.dir 4)
      (cap_at Kind.dir 5)).0
    ≡ some (cap_at Kind.dir 7, (100 ∷ 47 ∷ a_txt) ∷ [])
unfolding merge_dir upsert placed replace_entry insert_by_name sort_by_name bytes_ltb bytes_eq
nested_run = refl

-- The two directories under "d" are merged, and in them the two files.
merge_dir-Decided_example :
    (out : DirManifest ℕ) × (StoredAs listed
        (cap_at Kind.dir 7)
        (merge_dir listed no_attrs mark 2 nested []
          (cap_at Kind.dir 3)
          (cap_at Kind.dir 4)
          (cap_at Kind.dir 5)).1
        out
      × All
          (Decided mark mark_injective listed listed-laws no_attrs 1 nested [] out
            (root_with 0).entries
            (root_with 1).entries
            (root_with 2).entries)
          (union_names (root_with 1).entries (root_with 2).entries))
merge_dir-Decided_example =
    merge_dir-Decided mark mark_injective listed listed-laws no_attrs 1 nested []
      (cap_at Kind.dir 3) (cap_at Kind.dir 4) (cap_at Kind.dir 5) (root_with 0) (root_with 1)
      (root_with 2) (cap_at Kind.dir 7) ((100 ∷ 47 ∷ a_txt) ∷ []) (apart 4 5 (λ h. ground arith))
      (apart 3 4 (λ h. ground arith)) (apart 3 5 (λ h. ground arith)) nested_loaded.0
      nested_loaded.1.0 nested_loaded.1.1
      (subst (λ ns. IsFresh mark mark_injective ns ns) (sym nested_names) nested-IsFresh) nested_run

nested-Within :
    (n : ℕ)
    → get_elem? nested n ≡ some (dir_with (60 + n))
    → get_elem? nested (3 + n) ≡ some (root_with n)
    → Within listed 2 nested (cap_at Kind.dir (3 + n))
unfolding Within cap_present
nested-Within n below above = inr (
  root_with n,
  ((refl, above), (inr (dir_with (60 + n), ((refl, below), (refl, (refl, tt)))), tt)),
)

merge_dir-answers_example :
    ((x : ReadCap × List Bytes) × ((merge_dir listed no_attrs mark 3 nested []
          (cap_at Kind.dir 3)
          (cap_at Kind.dir 4)
          (cap_at Kind.dir 5)).0
        ≡ some x))
    ⊎ StoreFails listed listed-laws nested
merge_dir-answers_example =
    merge_dir-answers listed listed-laws no_attrs mark 2 nested [] (cap_at Kind.dir 3)
      (cap_at Kind.dir 4) (cap_at Kind.dir 5) (nested-Within 0 refl refl)
      (nested-Within 1 refl refl) (nested-Within 2 refl refl)
