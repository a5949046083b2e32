-- ===== src/Tests/ManifestRuns.antt =====
-- Runs of the directory operations, and their theorems at concrete inputs.
use revika.Base.{ℕ, false, some, none, List, [], ◌∷◌, Bytes, bytes_eq, ◌≡◌, refl}
use revika.Net.RootSelect.{bytes_ltb}
use revika.Manifest.{
  Kind, Entry, DirManifest, halve, search_loop, search, lookup, replace_entry, remove_entry, placed,
  insert_by_name, sort_by_name, upsert, remove,
}
use revika.Manifest.Entries.{IsSorted}
use revika.Manifest.Edits.{Edit, edits, all_meant, lookup-edits}

abbrev item : Bytes → ℕ → Entry
item name key = record {
  name = name;
  cap = record {
    kind = Kind.file;
    key = key ∷ [];
    compressed = false;
    k = 1;
    m = 1;
    shards = (key ∷ []) ∷ [];
  };
  stat = record {
    kind = Kind.file;
    size = 3;
    mode = 420;
    mod_time_ns = 7;
    content_version = [];
    meta_version = [];
  };
}

abbrev home : DirManifest ℕ
home = record { attrs = 5; entries = item (2 ∷ []) 1 ∷ item (4 ∷ []) 2 ∷ item (4 ∷ 1 ∷ []) 3 ∷ [] }

abbrev changes : List Edit
changes = Edit.write (item (3 ∷ []) 9) ∷ Edit.unlink (2 ∷ []) ∷ Edit.write (item (4 ∷ []) 8) ∷ []

home-IsSorted : IsSorted home.entries
unfolding bytes_ltb
home-IsSorted = ((refl, (refl, tt)), ((refl, tt), (tt, tt)))

changes_run :
    edits home changes
    ≡ record { attrs = 5; entries = item (3 ∷ []) 9 ∷ item (4 ∷ []) 8 ∷ item (4 ∷ 1 ∷ []) 3 ∷ [] }
unfolding upsert remove replace_entry remove_entry placed insert_by_name sort_by_name bytes_ltb
    bytes_eq
changes_run = refl

lookup_run : (lookup home (4 ∷ []) ≡ some (item (4 ∷ []) 2)) × (lookup home (3 ∷ []) ≡ none)
unfolding lookup search search_loop halve bytes_ltb bytes_eq
lookup_run = (refl, refl)

lookup-edits_example :
    IsSorted (edits home changes).entries
    × (((edits home changes).attrs ≡ 5)
        × (lookup (edits home changes) ≡ all_meant (lookup home) changes))
lookup-edits_example = lookup-edits changes home home-IsSorted
