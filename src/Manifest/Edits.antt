-- ===== src/Manifest/Edits.antt =====
-- Any number of `Upsert` and `Remove` calls on a directory (internal/manifest/dir.go), against the map
-- from names to entries that they stand for.
use revika.Base.{
  Option, none, some, List, [], ◌∷◌, if◌then◌else◌, Bytes, bytes_eq, ◌==◌, ◌≡◌, refl, ap, ◌∙◌,
  fun_ext,
}
use revika.Manifest.{Entry, DirManifest, lookup, upsert, remove}
use revika.Manifest.Entries.{IsSorted}
use revika.Manifest.Search.{lookup-upsert, lookup-remove}

pub data Edit : Type 0 where
  write : Entry → Edit
  unlink : Bytes → Edit

-- What an edit means for the map.
abbrev pub meant : (Bytes → Option Entry) → Edit → Bytes → Option Entry
meant f (write e) n = if e.name == n then some e else f n
meant f (unlink name) n = if name == n then none else f n

abbrev pub all_meant : (Bytes → Option Entry) → List Edit → Bytes → Option Entry
all_meant f [] = f
all_meant f (x ∷ xs) = all_meant (meant f x) xs

module _ {ℓ} {M : Type ℓ} where
  abbrev pub edit : DirManifest M → Edit → DirManifest M
  edit d (write e) = upsert d e
  edit d (unlink name) = (remove d name).0

  abbrev pub edits : DirManifest M → List Edit → DirManifest M
  edits d [] = d
  edits d (x ∷ xs) = edits (edit d x) xs

  Edited : DirManifest M → DirManifest M → (Bytes → Option Entry) → Type ℓ
  Edited d d' f = IsSorted d'.entries × ((d'.attrs ≡ d.attrs) × (lookup d' ≡ f))

  Edited-edit :
      (d : DirManifest M) (x : Edit) → IsSorted d.entries → Edited d (edit d x) (meant (lookup d) x)
  unfolding Edited
  Edited-edit d (write e) h =
      let r = lookup-upsert d e in ((r [] h).0, ((r [] h).1.0, fun_ext (λ n. (r n h).1.1)))
  Edited-edit d (unlink name) h =
      let r = lookup-remove d name in ((r [] h).0, ((r [] h).1.0, fun_ext (λ n. (r n h).1.1)))

  -- On a directory whose entries are in the order of their names, without two of one name, any list of
  -- edits keeps this order and the attributes, and `lookup` then finds under every name what the edits
  -- mean for the map from names to entries.
  pub lookup-edits :
      (xs : List Edit) (d : DirManifest M)
      → IsSorted d.entries
      → IsSorted (edits d xs).entries
        × (((edits d xs).attrs ≡ d.attrs) × (lookup (edits d xs) ≡ all_meant (lookup d) xs))
  unfolding Edited
  lookup-edits [] d h = (h, (refl, refl))
  lookup-edits (x ∷ xs) d h =
      let one : Edited d (edit d x) (meant (lookup d) x) = Edited-edit d x h in
      let rest = lookup-edits xs (edit d x) one.0 in
      (rest.0, (rest.1.0 ∙ one.1.0, rest.1.1 ∙ ap (λ f. all_meant f xs) one.1.1))
