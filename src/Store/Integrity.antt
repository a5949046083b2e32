-- ===== src/Store/Integrity.antt =====
-- What a store returns for an identifier hashes to it.
use revika.Base.{
  ◌≡◌, ◌≢◌, refl, true, false, Option, none, some, List, [], ◌∷◌, arith, if_pos, if_neg, bytes_eq,
  Bytes, put, remove, Bool-cases, inl, inr,
}
use revika.Store.{
  ShardId, ok, failed, corrupt, is_held, MemStore, new_mem_store, mem_get, mem_put, mem_delete,
  DiskStore, disk_put, disk_get, Access, store_put, store_delete, mem_run,
}

module _ (hash_of : Bytes → ShardId) where
  abbrev pub Addresses : ShardId → Option Bytes → Type 0
  Addresses id none = Unit
  Addresses id (some bytes) = hash_of bytes ≡ id

  -- Every blob is stored under its hash.
  abbrev pub IsAddressed : MemStore → Type 0
  IsAddressed m = (id : ShardId) → Addresses id (m id)

  put-IsAddressed :
      (m : MemStore) (bytes : Bytes) → IsAddressed m → IsAddressed (put m (hash_of bytes) bytes)
  put-IsAddressed m bytes a id = elim (bytes_eq.dec (hash_of bytes) id) [
    | yes same ↦ rw (if_pos (bytes_eq.dec (hash_of bytes) id) same true false) same
    | no other ↦ rw (if_neg (bytes_eq.dec (hash_of bytes) id) other true false) (a id)
  ]

  remove-IsAddressed : (m : MemStore) (j : ShardId) → IsAddressed m → IsAddressed (remove m j)
  remove-IsAddressed m j a id = elim (bytes_eq.dec j id) [
    | yes same ↦ rw (if_pos (bytes_eq.dec j id) same true false) tt
    | no other ↦ rw (if_neg (bytes_eq.dec j id) other true false) (a id)
  ]

  pub mem_put-IsAddressed :
      (m : MemStore) (bytes : Bytes) → IsAddressed m → IsAddressed (mem_put hash_of m bytes).1
  unfolding mem_put
  mem_put-IsAddressed m bytes a = elim (Bool-cases (is_held (m (hash_of bytes)))) [
    | inl there ↦ rw there a
    | inr absent ↦ rw absent (put-IsAddressed m bytes a)
  ]

  pub mem_run-IsAddressed :
      (m : MemStore) (calls : List Access) → IsAddressed m → IsAddressed (mem_run hash_of m calls)
  unfolding mem_run mem_put mem_delete
  mem_run-IsAddressed m [] a = a
  mem_run-IsAddressed m (store_put bytes ∷ calls) a =
      mem_run-IsAddressed (mem_put hash_of m bytes).1 calls (mem_put-IsAddressed m bytes a)
  mem_run-IsAddressed m (store_delete id ∷ calls) a = elim (Bool-cases (is_held (m id))) [
    | inl there ↦ rw there (mem_run-IsAddressed (remove m id) calls (remove-IsAddressed m id a))
    | inr absent ↦ rw absent (mem_run-IsAddressed m calls a)
  ]

  get-Addresses :
      (id : ShardId) (m : MemStore) (bytes : Bytes)
      → Addresses id (m id)
      → mem_get m id ≡ ok bytes
      → hash_of bytes ≡ id
  unfolding mem_get
  get-Addresses id m bytes a h = ground arith

  -- Whatever was put into a memory store and deleted from it, the bytes that it returns for an
  -- identifier hash to the identifier, though it does not check them.
  pub mem_get-hash :
      (calls : List Access) (id : ShardId) (bytes : Bytes)
      → mem_get (mem_run hash_of new_mem_store calls) id ≡ ok bytes
      → hash_of bytes ≡ id
  unfolding new_mem_store
  mem_get-hash calls id bytes h =
      get-Addresses id (mem_run hash_of new_mem_store calls) bytes
        (mem_run-IsAddressed new_mem_store calls (λ j. tt) id) h

  -- Whatever the files hold, the bytes that a disk store returns for an identifier hash to it.
  pub disk_get-hash :
      (d : DiskStore) (id : ShardId) (bytes : Bytes)
      → disk_get hash_of d id ≡ ok bytes
      → hash_of bytes ≡ id
  unfolding disk_get
  disk_get-hash d id bytes h = ground arith

  -- A put over a file that was corrupted is answered like any other and leaves the file as it is:
  -- the shard cannot be read afterwards.
  pub put_over_corrupt :
      (d : DiskStore) (bytes rotten : Bytes)
      → d (hash_of bytes) ≡ some rotten
      → hash_of rotten ≢ hash_of bytes
      → (disk_put hash_of d bytes ≡ (hash_of bytes, d))
        × (disk_get hash_of (disk_put hash_of d bytes).1 (hash_of bytes) ≡ failed corrupt)
  unfolding disk_put disk_get
  put_over_corrupt d bytes rotten h ne = (
    rw h refl,
    rw (h, h, if_neg (bytes_eq.dec (hash_of rotten) (hash_of bytes)) ne true false) refl,
  )
