-- ===== src/Store/Agreement.antt =====
-- While nobody changes its files, a disk store answers as a memory store does.
use revika.Base.{
  ◌≡◌, refl, true, false, List, [], ◌∷◌, if_pos, bytes_eq, Bytes, Option-cases, inl, inr,
}
use revika.Store.{
  ShardId, MemStore, new_mem_store, mem_get, mem_has, disk_get, disk_has, Access, store_put,
  store_delete, mem_run, disk_run, mem_put, disk_put, mem_delete, disk_delete,
}
use revika.Store.Integrity.{IsAddressed, mem_run-IsAddressed}

module _ (hash_of : Bytes → ShardId) where
  runs_agree :
      (m : MemStore) (calls : List Access) → disk_run hash_of m calls ≡ mem_run hash_of m calls
  unfolding disk_run mem_run disk_put mem_put disk_delete mem_delete
  runs_agree m [] = refl
  runs_agree m (store_put bytes ∷ calls) = runs_agree (mem_put hash_of m bytes).1 calls
  runs_agree m (store_delete id ∷ calls) = runs_agree (mem_delete m id).1 calls

  gets_agree :
      (m : MemStore) (id : ShardId) → IsAddressed hash_of m → disk_get hash_of m id ≡ mem_get m id
  unfolding disk_get mem_get
  gets_agree m id a = elim (Option-cases (m id)) [
    | inl gone ↦ rw gone refl
    | inr (bytes, e) ↦
        let h : hash_of bytes ≡ id = rw e at (a id) in
        rw (e, if_pos (bytes_eq.dec (hash_of bytes) id) h true false) refl
  ]

  -- After the same puts and deletions from empty, a disk store whose files nobody else touches and a
  -- memory store give the same answer for every identifier, to Get and to Has.
  pub disk-mem :
      (calls : List Access) (id : ShardId)
      → (disk_get hash_of (disk_run hash_of new_mem_store calls) id
          ≡ mem_get (mem_run hash_of new_mem_store calls) id)
        × (disk_has (disk_run hash_of new_mem_store calls) id
            ≡ mem_has (mem_run hash_of new_mem_store calls) id)
  unfolding new_mem_store disk_has mem_has
  disk-mem calls id = rw (runs_agree new_mem_store calls) (
    gets_agree (mem_run hash_of new_mem_store calls) id
        (mem_run-IsAddressed hash_of new_mem_store calls (λ j. tt)),
    refl,
  )
