-- ===== src/Repair/Memory.antt =====
-- A memory store keeps what repair relies on.
use revika.Base.{◌≡◌, ◌≢◌, refl, sym, ◌∙◌, true, Option, none, some, arith, bytes_eq, Bytes}
use revika.Store.{ShardId, MemStore, mem_put, mem_get, mem_has, is_held, found}
use revika.Store.Integrity.{Addresses, IsAddressed, mem_put-IsAddressed}
use revika.Repair.{shard, io_error, StoreOps}
use revika.Repair.Survey.{is_shard, StoreLaws}
use revika.Repair.Rotten.{to_fetched}

module _ (hash_of : Bytes → ShardId) where
  -- A memory store that was only written through its operations.
  abbrev pub SoundStore : Type 0
  SoundStore = (m : MemStore) × IsAddressed hash_of m

  -- `MemStore` as a `store.Store`.
  abbrev pub mem_ops : StoreOps SoundStore
  mem_ops = record {
    put_shard = λ s bytes. (
      some (mem_put hash_of s.0 bytes).0,
      ((mem_put hash_of s.0 bytes).1, mem_put-IsAddressed hash_of s.0 bytes s.1),
    );
    get_shard = λ s id. to_fetched (mem_get s.0 id);
    has_shard = λ s id. some (mem_has s.0 id);
  }

  put_held :
      (m : MemStore) (bytes : Bytes) (id : ShardId)
      → is_held (m id) ≡ true
      → is_held ((mem_put hash_of m bytes).1 id) ≡ true
  unfolding mem_put
  put_held m bytes id h = ground arith

  put_self :
      (m : MemStore) (bytes : Bytes) → is_held ((mem_put hash_of m bytes).1 (hash_of bytes)) ≡ true
  unfolding mem_put
  put_self m bytes = ground arith

  is_shard-found : (o : Option Bytes) → is_shard (to_fetched (found o)) ≡ is_held o
  is_shard-found none = refl
  is_shard-found (some bytes) = refl

  get_held : (s : SoundStore) (id : ShardId) → is_shard (mem_ops.get_shard s id) ≡ is_held (s.0 id)
  unfolding mem_get
  get_held s id = is_shard-found (s.0 id)

  found-hash :
      (id : ShardId) (o : Option Bytes) (bytes : Bytes)
      → Addresses hash_of id o
      → to_fetched (found o) ≡ shard bytes
      → hash_of bytes ≡ id
  found-hash id o bytes a h = ground arith

  found-io : (o : Option Bytes) → to_fetched (found o) ≢ io_error
  found-io none h = ground arith
  found-io (some bytes) h = ground arith

  pub mem-StoreLaws : StoreLaws mem_ops hash_of
  unfolding mem_get
  mem-StoreLaws = record {
    put_id = λ s bytes. (unfold mem_put in refl);
    put_get =
        λ s bytes. get_held (mem_ops.put_shard s bytes).1 (hash_of bytes) ∙ put_self s.0 bytes;
    put_keeps = λ s bytes id h.
        get_held (mem_ops.put_shard s bytes).1 id ∙ put_held s.0 bytes id (sym (get_held s id) ∙ h);
    get_hash = λ s id bytes h. found-hash id (s.0 id) bytes (s.1 id) h;
    get_io = λ s id. found-io (s.0 id);
  }
