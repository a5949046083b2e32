-- ===== src/Repair/Rotten.antt =====
-- Repair over a disk store: a file that was corrupted is never replaced.
use revika.Base.{
  ℕ, ◌-◌, ◌≡◌, ◌≢◌, refl, true, false, Option, none, some, List, [], ◌∷◌, length, get_elem?, eqb,
  ltb, if_neg, bytes_eq, Bytes, Bool-cases, Option-cases, inl, inr,
}
use revika.Store as Store
use revika.Store.{ShardId, DiskStore, Outcome, ok, failed, disk_put, disk_get, disk_has, is_held}
use revika.Repair.{
  Fetched, shard, not_found, corrupt, StoreOps, Erasure, put_regenerated, put_missing, restore,
  regenerate, repair_chunk, repair_chunks, repair, is_error, fetch,
}

abbrev pub to_fetched : Outcome Bytes → Fetched
to_fetched (ok bytes) = shard bytes
to_fetched (failed Store.not_found) = not_found
to_fetched (failed Store.corrupt) = corrupt

module _ (hash_of : Bytes → ShardId) where
  -- `DiskStore` as a `store.Store`.
  abbrev pub disk_ops : StoreOps DiskStore
  disk_ops = record {
    put_shard = λ d bytes. (let r = disk_put hash_of d bytes in (some r.0, r.1));
    get_shard = λ d id. to_fetched (disk_get hash_of d id);
    has_shard = λ d id. some (disk_has d id);
  }

  module _ (id : ShardId) (rotten : Bytes) where
    disk_put-file :
        (d : DiskStore) (bytes : Bytes)
        → d id ≡ some rotten
        → (disk_put hash_of d bytes).1 id ≡ some rotten
    unfolding disk_put
    disk_put-file d bytes h = elim (bytes_eq.dec (hash_of bytes) id) [
      | yes same ↦ rw (same, h) h
      | no other ↦ elim (Bool-cases (is_held (d (hash_of bytes)))) [
        | inl there ↦ rw there h
        | inr absent ↦ rw (absent, if_neg (bytes_eq.dec (hash_of bytes) id) other true false) h
      ]
    ]

    put_regenerated-file :
        (d : DiskStore) (want : Option ShardId) (bytes : Option Bytes)
        → d id ≡ some rotten
        → (put_regenerated disk_ops d want bytes).1 id ≡ some rotten
    put_regenerated-file d none bytes h = h
    put_regenerated-file d (some want) none h = h
    put_regenerated-file d (some want) (some bytes) h = disk_put-file d bytes h

    put_missing-file :
        (ids : List ShardId) (regen : List Bytes) (d : DiskStore) (missing : List ℕ)
        → d id ≡ some rotten
        → (put_missing disk_ops ids regen d missing).1 id ≡ some rotten
    unfolding put_missing
    put_missing-file ids regen d [] h = h
    put_missing-file ids regen d (pos ∷ missing) h =
        let r = put_regenerated disk_ops d (get_elem? ids pos) (get_elem? regen pos) in
        let kept = put_regenerated-file d (get_elem? ids pos) (get_elem? regen pos) h in
        elim (Bool-cases (is_error disk_ops r.0)) [
          | inl e ↦ rw e kept
          | inr e ↦ rw e (put_missing-file ids regen r.1 missing kept)
        ]

    module _ (code : Erasure) where
      regenerate-file :
          (ids : List ShardId) (d : DiskStore) (missing : List ℕ) (sealed : Option Bytes)
          → d id ≡ some rotten
          → (regenerate disk_ops code ids d missing sealed).1 id ≡ some rotten
      regenerate-file ids d missing none h = h
      regenerate-file ids d missing (some sealed) h = elim (Option-cases (code.encode sealed)) [
        | inl e ↦ rw e h
        | inr (regen, e) ↦ rw e (put_missing-file ids regen d missing h)
      ]

      restore-file :
          (ids : List ShardId) (d : DiskStore) (found : Option (List (Option Bytes) × List ℕ))
          → d id ≡ some rotten
          → (restore disk_ops code ids d found).1 id ≡ some rotten
      restore-file ids d none h = h
      restore-file ids d (some (shards, missing)) h = elim (Bool-cases (eqb (length missing) 0)) [
        | inl whole ↦ rw whole h
        | inr gaps ↦ elim (Bool-cases (ltb (length ids - length missing) code.data_shards)) [
          | inl few ↦ rw (gaps, few) h
          | inr enough ↦ rw (gaps, enough) (regenerate-file ids d missing (code.decode shards) h)
        ]
      ]

      repair_chunks-file :
          (d : DiskStore) (chunks : List (List ShardId))
          → d id ≡ some rotten
          → (repair_chunks disk_ops code d chunks).1 id ≡ some rotten
      unfolding repair_chunks repair_chunk
      repair_chunks-file d [] h = h
      repair_chunks-file d (ids ∷ chunks) h =
          repair_chunks-file (repair_chunk disk_ops code d ids).1 chunks
            (restore-file ids d (fetch disk_ops d 0 ids) h)

      -- On a disk store a shard whose file was corrupted is still corrupt after any repair of any
      -- chunks: it cannot be read, and Has, by which the report goes, says that it is there.
      pub repair-rotten :
          (d : DiskStore) (chunks : List (List ShardId))
          → d id ≡ some rotten
          → hash_of rotten ≢ id
          → (disk_get hash_of (repair disk_ops code d chunks).1 id ≡ failed Store.corrupt)
            × (disk_has (repair disk_ops code d chunks).1 id ≡ true)
      unfolding repair disk_get disk_has
      repair-rotten d chunks h ne =
          rw
            (repair_chunks-file d chunks h, if_neg (bytes_eq.dec (hash_of rotten) id) ne true false)
            (refl, refl)
