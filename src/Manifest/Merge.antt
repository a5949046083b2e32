-- ===== src/Manifest/Merge.antt =====
-- internal/manifest/merge.go: the three-way merge of two trees. `label` names the copy of a conflict;
-- the recursion runs on fuel, a level of directories a unit, since caps could in principle form a cycle.
pub mod Settled
pub mod Verdicts
pub mod Copies
pub mod Kept
pub mod Lost
pub mod Keeping
pub mod Depth
pub mod Total
use revika.Base.{
  ℕ, zero, suc, Bool, true, false, not, ◌&&◌, Option, none, some, List, [], ◌∷◌, ◌++◌, eqb,
  if◌then◌else◌, Bytes, bytes_eq, ◌==◌, map,
}
use revika.Net.RootSelect.{bytes_ltb}
use revika.Manifest.{Kind, file, dir, is_dir, ReadCap, Entry, DirManifest, new_dir, upsert}
use revika.Manifest.Walk.{DirStore, dir_entry}
use revika.Manifest.Blobs.{kind_eqb}
use revika.Manifest.Paths.{slash}

abbrev pub bool_eqb : Bool → Bool → Bool
bool_eqb true b = b
bool_eqb false b = not b

unfoldable pub shards_eqb : List Bytes → List Bytes → Bool
shards_eqb [] [] = true
shards_eqb [] (y ∷ ys) = false
shards_eqb (x ∷ xs) [] = false
shards_eqb (x ∷ xs) (y ∷ ys) = (x == y) && shards_eqb xs ys

-- `capEqual`
unfoldable pub cap_equal : ReadCap → ReadCap → Bool
unfolding shards_eqb
cap_equal a b =
    kind_eqb a.kind b.kind
    && (bool_eqb a.compressed b.compressed
        && (eqb a.k b.k && (eqb a.m b.m && ((a.key == b.key) && shards_eqb a.shards b.shards))))

abbrev zeros : ℕ → Bytes
zeros zero = []
zeros (suc n) = 0 ∷ zeros n

-- `ReadCap{}`
unfoldable pub zero_cap : ReadCap
zero_cap = record { kind = file; key = zeros 32; compressed = false; k = 0; m = 0; shards = [] }

abbrev pub has_shards : List Bytes → Bool
has_shards [] = false
has_shards (x ∷ xs) = true

-- `capPresent`
unfoldable pub cap_present : ReadCap → Bool
cap_present c = has_shards c.shards

-- `path.Ext`: from the last dot of the last element on.
abbrev pub contains_byte : ℕ → Bytes → Bool
contains_byte b [] = false
contains_byte b (x ∷ xs) = if eqb x b then true else contains_byte b xs

abbrev pub dot_byte : ℕ
dot_byte = 46

unfoldable pub stem_and_ext : Bytes → Bytes × Bytes
stem_and_ext [] = ([], [])
stem_and_ext (b ∷ bs) =
    let rest = stem_and_ext bs in
    if eqb b dot_byte && (not (contains_byte dot_byte bs) && not (contains_byte slash bs))
    then ([], b ∷ bs)
    else (b ∷ rest.0, rest.1)

-- " (conflict)"
abbrev pub conflict_mark : Bytes
conflict_mark = 32 ∷ 40 ∷ 99 ∷ 111 ∷ 110 ∷ 102 ∷ 108 ∷ 105 ∷ 99 ∷ 116 ∷ 41 ∷ []

-- `DefaultLabeler`
unfoldable pub default_labeler : Bytes → Bytes
unfolding stem_and_ext
default_labeler name = let r = stem_and_ext name in r.0 ++ (conflict_mark ++ r.1)

abbrev pub or_later : Option Entry → Option Entry → Option Entry
or_later none first = first
or_later (some e) first = some e

-- `entryMap`: the last entry of a name counts.
unfoldable pub entry_map : List Entry → Bytes → Option Entry
entry_map [] name = none
entry_map (e ∷ es) name = or_later (entry_map es name) (if e.name == name then some e else none)

-- `unionNames`: the names in order, each once.
unfoldable pub insert_name : Bytes → List Bytes → List Bytes
insert_name n [] = n ∷ []
insert_name n (x ∷ xs) =
    let rest = insert_name n xs in
    if n == x then x ∷ xs else if bytes_ltb x n then x ∷ rest else n ∷ x ∷ xs

unfoldable pub add_names : List Entry → List Bytes → List Bytes
unfolding insert_name
add_names [] names = names
add_names (e ∷ es) names = insert_name e.name (add_names es names)

unfoldable pub union_names : List Entry → List Entry → List Bytes
unfolding add_names
union_names a b = add_names a (add_names b [])

-- What the switch of `mergeDir` does with a name: nothing, an entry, an entry with a conflict, two
-- entries with a conflict, or a merge of two directories.
pub data Choice : Type 0 where
  nothing : Choice
  take_entry : Entry → Choice
  flagged : Entry → Choice
  both : Entry → Entry → Choice
  descend : ReadCap → ReadCap → ReadCap → Choice

abbrev pub cap_of : Option Entry → ReadCap
cap_of none = zero_cap
cap_of (some e) = e.cap

abbrev pub kept : Option Entry → Choice
kept none = nothing
kept (some e) = take_entry e

module _ (label : Bytes → Bytes) where
  abbrev pub copy_of : Bytes → Entry → Entry
  copy_of name re = record { name = label name; cap = re.cap; stat = re.stat }

  -- Both sides changed the name. A name that neither side has is not visited.
  abbrev pub contested : Bytes → Option Entry → Option Entry → Option Entry → Choice
  contested name be none none = nothing
  contested name be none (some re) = flagged re
  contested name be (some le) none = flagged le
  contested name be (some le) (some re) =
      if is_dir le.cap.kind && is_dir re.cap.kind
      then descend (cap_of be) le.cap re.cap
      else both le (copy_of name re)

  unfoldable pub choose : Bytes → Option Entry → Option Entry → Option Entry → Choice
  unfolding cap_equal zero_cap
  choose name be le re =
      if cap_equal (cap_of le) (cap_of re)
      then kept le
      else (if cap_equal (cap_of be) (cap_of le)
          then kept re
          else (if cap_equal (cap_of be) (cap_of re) then kept le else contested name be le re))

module _ {ℓ} {M : Type ℓ} {W : Type 0} (dirs : DirStore M W) where
  -- A merged directory so far, with the conflicts.
  abbrev pub Merging : Type ℓ
  Merging = Option (DirManifest M × List Bytes) × W

  abbrev pub Merged : Type 0
  Merged = Option (ReadCap × List Bytes) × W

  abbrev pub with_subdir : DirManifest M → List Bytes → Bytes → Merged → Merging
  with_subdir out conflicts name (none, w) = (none, w)
  with_subdir out conflicts name (some (c, more), w) =
      (some (upsert out (dir_entry name c), conflicts ++ more), w)

  module _ (sub : W → Bytes → ReadCap → ReadCap → ReadCap → Merged) (prefix : Bytes)
      (choice : Bytes → Choice) where
    -- One round of the loop of `mergeDir`.
    abbrev pub merge_name : DirManifest M → List Bytes → W → Bytes → Choice → Merging
    merge_name out conflicts w name nothing = (some (out, conflicts), w)
    merge_name out conflicts w name (take_entry e) = (some (upsert out e, conflicts), w)
    merge_name out conflicts w name (flagged e) =
        (some (upsert out e, conflicts ++ ((prefix ++ name) ∷ [])), w)
    merge_name out conflicts w name (both le copy) =
        (some (upsert (upsert out le) copy, conflicts ++ ((prefix ++ name) ∷ [])), w)
    merge_name out conflicts w name (descend b l r) =
        with_subdir out conflicts name (sub w (prefix ++ (name ++ (slash ∷ []))) b l r)

    abbrev pub then_names : (DirManifest M → List Bytes → W → Merging) → Merging → Merging
    then_names rest (none, w) = (none, w)
    then_names rest (some (out, conflicts), w) = rest out conflicts w

    unfoldable pub merge_names : DirManifest M → List Bytes → W → List Bytes → Merging
    merge_names out conflicts w [] = (some (out, conflicts), w)
    merge_names out conflicts w (name ∷ names) =
        then_names (λ out' conflicts' w'. merge_names out' conflicts' w' names)
          (merge_name out conflicts w name (choice name))

  abbrev pub stored_merge : List Bytes → Option ReadCap × W → Merged
  stored_merge conflicts (none, w) = (none, w)
  stored_merge conflicts (some c, w) = (some (c, conflicts), w)

  abbrev pub store_merged : Merging → Merged
  store_merged (none, w) = (none, w)
  store_merged (some (out, conflicts), w) = stored_merge conflicts (dirs.store_dir w out)

  module _ (no_attrs : M) (label : Bytes → Bytes) where
    -- `loadDirOpt`
    unfoldable pub load_dir_opt : W → ReadCap → Option (DirManifest M)
    unfolding cap_present
    load_dir_opt w c =
        if cap_present c && is_dir c.kind then dirs.load_dir w c else some (new_dir no_attrs)

    abbrev pub merge_loaded :
        (W → Bytes → ReadCap → ReadCap → ReadCap → Merged)
        → W
        → Bytes
        → Option (DirManifest M)
        → Option (DirManifest M)
        → Option (DirManifest M)
        → Merged
    merge_loaded sub w prefix none l r = (none, w)
    merge_loaded sub w prefix (some b) none r = (none, w)
    merge_loaded sub w prefix (some b) (some l) none = (none, w)
    merge_loaded sub w prefix (some b) (some l) (some r) = store_merged (
        merge_names sub prefix
          (λ name.
            choose label name (entry_map b.entries name) (entry_map l.entries name)
              (entry_map r.entries name))
          (new_dir l.attrs) [] w (union_names l.entries r.entries))

    -- `mergeDir`, which `Merge3` calls at the root with no prefix. `none` is an error, or no fuel.
    unfoldable pub merge_dir : ℕ → W → Bytes → ReadCap → ReadCap → ReadCap → Merged
    unfolding cap_equal load_dir_opt merge_names choose union_names entry_map
    merge_dir zero w prefix base local remote = (none, w)
    merge_dir (suc fuel) w prefix base local remote =
        let rest =
          merge_loaded (merge_dir fuel) w prefix (load_dir_opt w base) (load_dir_opt w local)
            (load_dir_opt w remote) in
        if cap_equal local remote
        then (some (local, []), w)
        else (if cap_equal base local
            then (some (remote, []), w)
            else (if cap_equal base remote then (some (local, []), w) else rest))
