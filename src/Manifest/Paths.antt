-- ===== src/Manifest/Paths.antt =====
-- internal/manifest/dir.go: the components of a path (`splitPath`), with `path.Clean` on rooted paths and
-- `strings.Split` at a slash, and the operations that take a path in one piece.
pub mod Clean
use revika.Base.{
  ℕ, zero, suc, Bool, true, false, ◌||◌, Option, none, some, List, [], ◌∷◌, ◌++◌, eqb,
  if◌then◌else◌, Bytes, bytes_eq, ◌==◌, ◌>>=◌,
}
use revika.Manifest.{ReadCap, StatCache, Entry, DirManifest}
use revika.Manifest.Walk.{DirStore, resolve, resolve_entry, graft, graft_remove}

abbrev pub slash : ℕ
slash = 47

-- "." and ".."
abbrev pub dot : Bytes
dot = 46 ∷ []

abbrev pub dot_dot : Bytes
dot_dot = 46 ∷ 46 ∷ []

abbrev pub cons_first : ℕ → List Bytes → List Bytes
cons_first b [] = (b ∷ []) ∷ []
cons_first b (name ∷ names) = (b ∷ name) ∷ names

-- `strings.Split` at a slash.
unfoldable pub split_at_slash : Bytes → List Bytes
split_at_slash [] = [] ∷ []
split_at_slash (b ∷ bs) =
    let rest = split_at_slash bs in if eqb b slash then [] ∷ rest else cons_first b rest

unfoldable pub join_slash : List Bytes → Bytes
join_slash [] = []
join_slash (name ∷ []) = name
join_slash (name ∷ next ∷ names) = name ++ (slash ∷ join_slash (next ∷ names))

abbrev pub is_skipped : Bytes → Bool
is_skipped name = (name == []) || (name == dot)

-- An element of a path before those that are kept, with the number of elements that a ".." behind it
-- still takes away.
abbrev pub keep_or_drop : Bytes → List Bytes × ℕ → List Bytes × ℕ
keep_or_drop name (names, zero) = (name ∷ names, zero)
keep_or_drop name (names, suc n) = (names, n)

-- The elements of a rooted path that `path.Clean` keeps: empty ones and "." go, and each ".." goes with
-- the element before it, or alone at the root.
unfoldable pub clean_elements : List Bytes → List Bytes × ℕ
clean_elements [] = ([], 0)
clean_elements (name ∷ names) =
    let rest = clean_elements names in
    if is_skipped name
    then rest
    else if name == dot_dot
    then (rest.0, suc rest.1)
    else keep_or_drop name rest

-- `path.Clean` of a slash and the path.
unfoldable pub clean_rooted : Bytes → Bytes
clean_rooted p = slash ∷ join_slash (clean_elements (split_at_slash p)).0

-- `strings.TrimPrefix` of a slash.
abbrev pub trim_slash : Bytes → Bytes
trim_slash [] = []
trim_slash (b ∷ bs) = if eqb b slash then bs else b ∷ bs

abbrev pub contains_name : Bytes → List Bytes → Bool
contains_name name [] = false
contains_name name (x ∷ xs) = (x == name) || contains_name name xs

-- `splitPath`
unfoldable pub split_path : Bytes → Option (List Bytes)
unfolding clean_rooted split_at_slash
split_path p =
    let clean = clean_rooted p in
    if clean == (slash ∷ [])
    then some []
    else (let parts = split_at_slash (trim_slash clean) in
        if contains_name dot_dot parts then none else some parts)

module _ {ℓ} {M : Type ℓ} {W : Type 0} (dirs : DirStore M W) where
  -- `Resolve`
  unfoldable pub resolve_path : W → ReadCap → Bytes → Option ReadCap
  resolve_path w root p = split_path p >>= (λ parts. resolve dirs w root parts)

  -- `ResolveEntry`
  unfoldable pub resolve_entry_path : W → ReadCap → Bytes → Option Entry
  resolve_entry_path w root p = split_path p >>= (λ parts. resolve_entry dirs w root parts)

  abbrev pub graft_parts :
      M → W → ReadCap → Option (List Bytes) → ReadCap → StatCache → Option ReadCap × W
  graft_parts no_attrs w root none child stat = (none, w)
  graft_parts no_attrs w root (some []) child stat = (none, w)
  graft_parts no_attrs w root (some (name ∷ parts)) child stat =
      graft dirs no_attrs w root (name ∷ parts) child stat

  -- `Graft`: nothing can be grafted onto the root.
  unfoldable pub graft_path : M → W → ReadCap → Bytes → ReadCap → StatCache → Option ReadCap × W
  graft_path no_attrs w root p child stat = graft_parts no_attrs w root (split_path p) child stat

  abbrev pub remove_parts : W → ReadCap → Option (List Bytes) → Option ReadCap × W
  remove_parts w root none = (none, w)
  remove_parts w root (some []) = (none, w)
  remove_parts w root (some (name ∷ parts)) = graft_remove dirs w root (name ∷ parts)

  -- `GraftRemove`
  unfoldable pub remove_path : W → ReadCap → Bytes → Option ReadCap × W
  remove_path w root p = remove_parts w root (split_path p)
