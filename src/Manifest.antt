-- ===== src/Manifest.antt =====
-- internal/manifest/dir.go: a directory's entries, and the operations that write and remove one. Names
-- are the strings of their bytes. A directory's own attributes are the parameter `M`: the operations
-- carry them over. The sort is written out as an insertion sort; entries of distinct names have one
-- order, whichever sort it is.
pub mod Entries
pub mod Search
pub mod Edits
pub mod Walk
pub mod Blobs
pub mod Paths
pub mod Merge
use revika.Base.{
  ℕ, zero, suc, ◌+◌, ◌/◌, not, ltb, length, get_elem?, Bool, true, false, Option, none, some, List,
  [], ◌∷◌, ◌++◌, if◌then◌else◌, Bytes, bytes_eq, ◌==◌,
}
use revika.Net.RootSelect.{bytes_ltb}

pub data Kind : Type 0 where
  file : Kind
  dir : Kind

abbrev pub is_dir : Kind → Bool
is_dir file = false
is_dir dir = true

pub record ReadCap : Type 0 where
  pub kind : Kind
  pub key : Bytes
  pub compressed : Bool
  pub k : ℕ
  pub m : ℕ
  pub shards : List Bytes

pub record StatCache : Type 0 where
  pub kind : Kind
  pub size : ℕ
  pub mode : ℕ
  pub mod_time_ns : ℕ
  pub content_version : Bytes
  pub meta_version : Bytes

pub record Entry : Type 0 where
  pub name : Bytes
  pub cap : ReadCap
  pub stat : StatCache

pub record DirManifest {ℓ} (M : Type ℓ) : Type ℓ where
  pub attrs : M
  pub entries : List Entry

-- `sort.Slice` by name.
unfoldable pub insert_by_name : Entry → List Entry → List Entry
insert_by_name e [] = e ∷ []
insert_by_name e (x ∷ xs) =
    let rest = insert_by_name e xs in if bytes_ltb x.name e.name then x ∷ rest else e ∷ x ∷ xs

unfoldable pub sort_by_name : List Entry → List Entry
sort_by_name [] = []
sort_by_name (x ∷ xs) = insert_by_name x (sort_by_name xs)

-- The loop of `Upsert`: the entries, and whether one was replaced.
unfoldable pub replace_entry : Entry → List Entry → List Entry × Bool
replace_entry e [] = ([], false)
replace_entry e (cur ∷ xs) =
    let r = replace_entry e xs in if cur.name == e.name then (e ∷ r.0, true) else (cur ∷ r.0, r.1)

-- The loop of `Remove`: the entries, and whether one was removed.
unfoldable pub remove_entry : Bytes → List Entry → List Entry × Bool
remove_entry name [] = ([], false)
remove_entry name (cur ∷ xs) =
    let r = remove_entry name xs in if cur.name == name then (r.0, true) else (cur ∷ r.0, r.1)

unfoldable pub placed : Entry → List Entry × Bool → List Entry
placed e r = if r.1 then r.0 else sort_by_name (r.0 ++ (e ∷ []))

-- A round of `sort.Search` on the range from `r.0` to `r.1`: the half that holds the first index at
-- which the test holds. A range that is empty stays.
unfoldable pub halve : (ℕ → Bool) → ℕ × ℕ → ℕ × ℕ
halve f r =
    let h = (r.0 + r.1) / 2 in if ltb r.0 r.1 then (if f h then (r.0, h) else (suc h, r.1)) else r

unfoldable pub search_loop : (ℕ → Bool) → ℕ → ℕ × ℕ → ℕ
search_loop f zero r = r.0
search_loop f (suc fuel) r = search_loop f fuel (halve f r)

-- `sort.Search`: a round takes an index off the range at least, so it needs no more rounds than `n`.
unfoldable pub search : ℕ → (ℕ → Bool) → ℕ
search n f = search_loop f n (0, n)

-- The test of `Lookup`, which is only called at indices of entries.
abbrev pub not_before : Bytes → Option Entry → Bool
not_before name none = true
not_before name (some e) = not (bytes_ltb e.name name)

abbrev pub with_name : Bytes → Option Entry → Option Entry
with_name name none = none
with_name name (some e) = if e.name == name then some e else none

module _ {ℓ} {M : Type ℓ} where
  -- `Lookup`: an index past the entries has no entry.
  unfoldable pub lookup : DirManifest M → Bytes → Option Entry
  lookup d name = with_name name (
      get_elem? d.entries
        (search (length d.entries) (λ i. not_before name (get_elem? d.entries i))))

  abbrev pub new_dir : M → DirManifest M
  new_dir attrs = record { attrs = attrs; entries = [] }

  unfoldable pub upsert : DirManifest M → Entry → DirManifest M
  upsert d e = record { attrs = d.attrs; entries = placed e (replace_entry e d.entries) }

  unfoldable pub remove : DirManifest M → Bytes → DirManifest M × Bool
  remove d name =
      let r = remove_entry name d.entries in (record { attrs = d.attrs; entries = r.0 }, r.1)
