-- ===== src/Pipeline.antt =====
-- internal/pipeline/pipeline.go: a chunk on its way into the store and back, and the files made of
-- chunks; internal/crypto/crypto.go: the nonce before the ciphertext. AES-GCM, DEFLATE, the Reed-Solomon
-- code and SHA-256 are the fields of `Primitives`; the bytes that the operating system's random source
-- will give are a stream. A store that knows stripes gets the descriptor with each shard; a plain one
-- ignores it. Contexts and the texts of errors are left out, and a writer takes all that it is given.
pub mod Laws
pub mod Chunks
pub mod Files
pub mod Recovered
use revika.Base.{
  ℕ, ◌+◌, Bool, true, false, Option, none, some, List, [], ◌∷◌, ◌++◌, map, ltb, length, take, drop,
  if◌then◌else◌, bytes_eq, ◌==◌, Bytes, ◌>>=◌, read_full,
}
use revika.Store.{ShardId}
use revika.Stripe.{Descriptor}
use revika.Repair.{StoreOps, Fetched, shard, not_found, corrupt, io_error}
use revika.Erasure.{Params, Codec, encode, decode}
use revika.Chunk.{eof, End, Item, chunk, failed, stuck}
use revika.Chunk.Fixed.{fixed}

abbrev pub Key : Type 0
Key = Bytes

pub record Primitives : Type 0 where
  pub gcm_seal : Key → Bytes → Bytes → Bytes
  pub gcm_open : Key → Bytes → Bytes → Option Bytes
  pub deflate : Bytes → Option Bytes
  pub inflate : Bytes → Option Bytes
  pub new_codec : ℕ → ℕ → Option Codec
  pub hash_of : Bytes → ShardId

pub record Config : Type 0 where
  pub chunk_size : ℕ
  pub params : Params
  pub compress : Bool

pub record ChunkRef : Type 0 where
  pub key : Key
  pub compressed : Bool
  pub shards : List ShardId

pub record FileManifest {ℓ} (M : Type ℓ) : Type ℓ where
  pub name : Bytes
  pub params : Config
  pub size : ℕ
  pub attrs : M
  pub chunks : List ChunkRef

-- `store.Store`, with the put that is used for the shard of a stripe.
pub record StripeStore (S : Type 0) : Type 0 where
  pub ops : StoreOps S
  pub put_stripe : Descriptor → S → Bytes → Option ShardId × S

-- A store that is not a `stripe.Putter`.
abbrev pub plain_store : {S : Type 0} → StoreOps S → StripeStore S
plain_store ops = record { ops = ops; put_stripe = λ d s bytes. ops.put_shard s bytes }

abbrev pub key_size : ℕ
key_size = 32

-- `NonceSize` of GCM.
abbrev pub nonce_size : ℕ
nonce_size = 12

-- `NewKey`, which takes its bytes off the random source.
unfoldable pub new_key : Bytes → Option (Key × Bytes)
new_key random = read_full key_size random

module _ (prims : Primitives) where
  -- `Seal`
  unfoldable pub seal : Key → Bytes → Bytes → Option (Bytes × Bytes)
  seal key plain random = do
    (nonce, random') ← read_full nonce_size random
    some (nonce ++ prims.gcm_seal key nonce plain, random')

  -- `Open`
  unfoldable pub open_sealed : Key → Bytes → Option Bytes
  open_sealed key sealed =
      if ltb (length sealed) nonce_size
      then none
      else prims.gcm_open key (take nonce_size sealed) (drop nonce_size sealed)

  -- The payload of a chunk, and whether it is compressed: only where that makes it shorter.
  abbrev pub shorter : Bytes → Option Bytes → Option (Bytes × Bool)
  shorter plain none = none
  shorter plain (some packed) =
      some (if ltb (length packed) (length plain) then (packed, true) else (plain, false))

  unfoldable pub pack : Bool → Bytes → Option (Bytes × Bool)
  pack true plain = shorter plain (prims.deflate plain)
  pack false plain = some (plain, false)

  unfoldable pub unpack : Bool → Bytes → Option Bytes
  unpack true payload = prims.inflate payload
  unpack false payload = some payload

  -- The first part of `storeChunk`: the reference, the shards, and what is left of the random source.
  unfoldable pub disperse : Config → Bytes → Bytes → Option (ChunkRef × (List Bytes × Bytes))
  unfolding new_key seal pack
  disperse cfg random plain = do
    (payload, compressed) ← pack cfg.compress plain
    (key, random1) ← new_key random
    (sealed, random2) ← seal key payload random1
    shards ← encode prims.new_codec cfg.params sealed
    some (
      record { key = key; compressed = compressed; shards = map prims.hash_of shards },
      (shards, random2),
    )

  unfoldable pub descriptor : Params → ChunkRef → Descriptor
  descriptor p ref = record { k = p.k; m = p.m; shards = ref.shards }

  abbrev pub is_stored_as : Option ShardId → ShardId → Bool
  is_stored_as none want = false
  is_stored_as (some got) want = got == want

  module _ {S : Type 0} (store : StripeStore S) where
    -- The loop of `storeChunk`: it ends at the first shard that is not stored under its hash.
    unfoldable pub put_shards : Descriptor → S → List Bytes → Bool × S
    put_shards desc s [] = (true, s)
    put_shards desc s (sh ∷ shards) =
        let r = store.put_stripe desc s sh in
        let rest = put_shards desc r.1 shards in
        if is_stored_as r.0 (prims.hash_of sh) then rest else (false, r.1)

    abbrev pub put_dispersed :
        Params → S → Option (ChunkRef × (List Bytes × Bytes)) → Option (ChunkRef × Bytes) × S
    put_dispersed p s none = (none, s)
    put_dispersed p s (some (ref, (shards, random))) =
        let r = put_shards (descriptor p ref) s shards in
        (if r.0 then some (ref, random) else none, r.1)

    -- `storeChunk`, which is `StoreBlob`
    unfoldable pub store_chunk : Config → S → Bytes → Bytes → Option (ChunkRef × Bytes) × S
    unfolding disperse descriptor put_shards
    store_chunk cfg s random plain = put_dispersed cfg.params s (disperse cfg random plain)

    -- A shard that is missing or corrupt is left to the erasure code.
    abbrev pub gathered : Fetched → Option (List (Option Bytes)) → Option (List (Option Bytes))
    gathered io_error rest = none
    gathered f none = none
    gathered (shard bytes) (some shards) = some (some bytes ∷ shards)
    gathered not_found (some shards) = some (none ∷ shards)
    gathered corrupt (some shards) = some (none ∷ shards)

    unfoldable pub gather : S → List ShardId → Option (List (Option Bytes))
    gather s [] = some []
    gather s (id ∷ ids) = gathered (store.ops.get_shard s id) (gather s ids)

    -- `loadChunk`, which is `LoadBlob`
    unfoldable pub load_chunk : S → Params → ChunkRef → Option Bytes
    unfolding gather open_sealed unpack
    load_chunk s p ref = do
      shards ← gather s ref.shards
      sealed ← decode prims.new_codec p shards
      payload ← open_sealed ref.key sealed
      unpack ref.compressed payload

    abbrev pub Stored : Type 0 → Type 0
    Stored A = Option (A × Bytes) × S

    abbrev pub add_chunk : ChunkRef → ℕ → Stored (List ChunkRef × ℕ) → Stored (List ChunkRef × ℕ)
    add_chunk ref n (none, s) = (none, s)
    add_chunk ref n (some ((refs, size), random), s) = (some ((ref ∷ refs, n + size), random), s)

    abbrev pub then_rest :
        ℕ → (S → Bytes → Stored (List ChunkRef × ℕ)) → Stored ChunkRef → Stored (List ChunkRef × ℕ)
    then_rest n rest (none, s) = (none, s)
    then_rest n rest (some (ref, random), s) = add_chunk ref n (rest s random)

    -- The loop of `StoreFile`: the chunks and the size.
    unfoldable pub store_items : Config → S → Bytes → List Item → Stored (List ChunkRef × ℕ)
    store_items cfg s random [] = (some (([], 0), random), s)
    store_items cfg s random (chunk bytes ∷ items) =
        then_rest (length bytes) (λ s' random'. store_items cfg s' random' items)
          (store_chunk cfg s random bytes)
    store_items cfg s random (failed ∷ items) = (none, s)
    store_items cfg s random (stuck ∷ items) = (none, s)

    -- `LoadFile`: what is written, and whether all of the file is.
    abbrev pub write_chunk : Option Bytes → Bytes × Bool → Bytes × Bool
    write_chunk none rest = ([], false)
    write_chunk (some plain) rest = (plain ++ rest.0, rest.1)

    unfoldable pub load_chunks : S → Params → List ChunkRef → Bytes × Bool
    load_chunks s p [] = ([], true)
    load_chunks s p (ref ∷ refs) = write_chunk (load_chunk s p ref) (load_chunks s p refs)

    -- `ReencryptFile`: each chunk is read and stored again under a new key.
    abbrev pub add_ref : ChunkRef → Stored (List ChunkRef) → Stored (List ChunkRef)
    add_ref ref (none, s) = (none, s)
    add_ref ref (some (refs, random), s) = (some (ref ∷ refs, random), s)

    abbrev pub then_refs :
        (S → Bytes → Stored (List ChunkRef)) → Stored ChunkRef → Stored (List ChunkRef)
    then_refs rest (none, s) = (none, s)
    then_refs rest (some (ref, random), s) = add_ref ref (rest s random)

    abbrev pub store_again : Config → S → Bytes → Option Bytes → Stored ChunkRef
    store_again cfg s random none = (none, s)
    store_again cfg s random (some plain) = store_chunk cfg s random plain

    unfoldable pub reencrypt_chunks : Config → S → Bytes → List ChunkRef → Stored (List ChunkRef)
    reencrypt_chunks cfg s random [] = (some ([], random), s)
    reencrypt_chunks cfg s random (ref ∷ refs) =
        then_refs (λ s' random'. reencrypt_chunks cfg s' random' refs)
          (store_again cfg s random (load_chunk s cfg.params ref))

    module _ {ℓ} {M : Type ℓ} where
      abbrev pub as_manifest :
          Config → M → Stored (List ChunkRef × ℕ) → Option (FileManifest M × Bytes) × S
      as_manifest cfg attrs (none, s) = (none, s)
      as_manifest cfg attrs (some ((refs, size), random), s) = (
        some
            (record { name = []; params = cfg; size = size; attrs = attrs; chunks = refs }, random),
        s,
      )

      -- `StoreFile` of a stream, with `attrs` for the attributes that are not yet set.
      unfoldable pub store_file :
          Config → M → S → Bytes → Bytes → End → Option (FileManifest M × Bytes) × S
      unfolding store_items
      store_file cfg attrs s random bytes end =
          as_manifest cfg attrs (store_items cfg s random (fixed bytes end cfg.chunk_size))

      unfoldable pub load_file : S → FileManifest M → Bytes × Bool
      unfolding load_chunks
      load_file s m = load_chunks s m.params.params m.chunks

      abbrev pub with_chunks :
          FileManifest M → Stored (List ChunkRef) → Option (FileManifest M × Bytes) × S
      with_chunks m (none, s) = (none, s)
      with_chunks m (some (refs, random), s) = (
        some (
          record {
            name = m.name;
            params = m.params;
            size = m.size;
            attrs = m.attrs;
            chunks = refs;
          },
          random,
        ),
        s,
      )

      unfoldable pub reencrypt_file :
          S → Bytes → FileManifest M → Option (FileManifest M × Bytes) × S
      unfolding reencrypt_chunks
      reencrypt_file s random m = with_chunks m (reencrypt_chunks m.params s random m.chunks)
