-- ===== src/Store.antt =====
-- internal/store: the content-addressed store of shards, in memory (mem.go) and on disk (disk.go).
-- `hash_of` is SHA-256. The files of a DiskStore are a map from the identifier that a file's name
-- spells to the bytes in it; the bytes may be changed from outside. Failures of the disk are left out.
pub mod Integrity
pub mod Agreement
use revika.Base.{
  Bool, true, false, Option, none, some, List, [], ◌∷◌, if◌then◌else◌, bytes_eq, ◌==◌, Bytes, Map,
  empty_map, put, remove,
}

abbrev pub ShardId : Type 0
ShardId = Bytes

pub data StoreError : Type 0 where
  not_found corrupt : StoreError

pub data Outcome (A : Type 0) : Type 0 where
  ok : A → Outcome A
  failed : StoreError → Outcome A

abbrev pub is_held : Option Bytes → Bool
is_held none = false
is_held (some bytes) = true

-- `MemStore`
abbrev pub MemStore : Type 0
MemStore = Map ShardId Bytes

unfoldable pub new_mem_store : MemStore
new_mem_store = empty_map

abbrev pub found : Option Bytes → Outcome Bytes
found none = failed not_found
found (some bytes) = ok bytes

-- `MemStore.Get`
unfoldable pub mem_get : MemStore → ShardId → Outcome Bytes
mem_get m id = found (m id)

unfoldable pub mem_has : MemStore → ShardId → Bool
mem_has m id = is_held (m id)

unfoldable pub mem_delete : MemStore → ShardId → Outcome Unit × MemStore
mem_delete m id = if is_held (m id) then (ok tt, remove m id) else (failed not_found, m)

-- `DiskStore`: what the file of each identifier holds.
abbrev pub DiskStore : Type 0
DiskStore = Map ShardId Bytes

unfoldable pub disk_has : DiskStore → ShardId → Bool
disk_has d id = is_held (d id)

unfoldable pub disk_delete : DiskStore → ShardId → Outcome Unit × DiskStore
disk_delete d id = if is_held (d id) then (ok tt, remove d id) else (failed not_found, d)

module _ (hash_of : Bytes → ShardId) where
  -- `MemStore.Put` keeps the blob that is there.
  unfoldable pub mem_put : MemStore → Bytes → ShardId × MemStore
  mem_put m bytes = let id = hash_of bytes in (id, if is_held (m id) then m else put m id bytes)

  -- `DiskStore.Put`: a file that is there is taken for the shard, and is not read.
  unfoldable pub disk_put : DiskStore → Bytes → ShardId × DiskStore
  disk_put d bytes = let id = hash_of bytes in (id, if is_held (d id) then d else put d id bytes)

  abbrev pub checked : ShardId → Option Bytes → Outcome Bytes
  checked id none = failed not_found
  checked id (some bytes) = if hash_of bytes == id then ok bytes else failed corrupt

  -- `DiskStore.Get` recomputes the hash.
  unfoldable pub disk_get : DiskStore → ShardId → Outcome Bytes
  disk_get d id = checked id (d id)

-- The calls on a store.
pub data Access : Type 0 where
  store_put : Bytes → Access
  store_delete : ShardId → Access

module _ (hash_of : Bytes → ShardId) where
  unfoldable pub mem_run : MemStore → List Access → MemStore
  mem_run m [] = m
  mem_run m (store_put bytes ∷ calls) = mem_run (mem_put hash_of m bytes).1 calls
  mem_run m (store_delete id ∷ calls) = mem_run (mem_delete m id).1 calls

  unfoldable pub disk_run : DiskStore → List Access → DiskStore
  disk_run d [] = d
  disk_run d (store_put bytes ∷ calls) = disk_run (disk_put hash_of d bytes).1 calls
  disk_run d (store_delete id ∷ calls) = disk_run (disk_delete d id).1 calls
