-- ===== src/Manifest/Blobs/Filled.antt =====
-- The blobs of internal/manifest keep what the walks of paths rely on; and a blob that `VerifyBlob`
-- finds to be recoverable is one that `LoadBlob` recovers.
use mathlib.Core.Option.{some-injective}
use revika.Base.{
  All-imp, ℕ, ◌+◌, ◌≤◌, ◌≡◌, ◌≢◌, refl, ap, ◌∙◌, subst, true, Option, none, some, List, [], ◌∷◌,
  length, if◌then◌else◌, Bytes, arith, All,
}
use revika.Repair.{Fetched, shard, not_found, corrupt, io_error}
use revika.Repair.Survey.{Held, alive, is_shard}
use revika.Pipeline.{Primitives, Config, ChunkRef, StripeStore, store_chunk}
use revika.Pipeline.Laws.{PrimitiveLaws, StripeLaws, alive-All}
use revika.Pipeline.Chunks.{Saved, store_chunk-Saved, store_chunk-Keeps}
use revika.Manifest.{Kind, dir, is_dir, ReadCap, DirManifest}
use revika.Manifest.Entries.{IsSorted}
use revika.Manifest.Walk.{DirStore, DirLaws}
use revika.Manifest.Blobs.Codec.{FitsCap, FitsEntry, JsonLaws, decode_dir-encode_dir, encoded_short}
use revika.Manifest.Blobs.{
  is_utf8, Json, verify_cap, cap_params, chunk_ref, cap_from_ref, encode_dir, decode_dir, as_cap,
  put_blob, get_blob, count_shards, one_more, verify_blob, world_after, put_encoded, store_dir,
  load_dir,
}

module _ (prims : Primitives) (laws : PrimitiveLaws prims) {S : Type 0} (store : StripeStore S)
    (stripes : StripeLaws store prims.hash_of) {M : Type 0} (json : Json M) (codec : JsonLaws json)
    (sized : (bytes : Bytes) → length (prims.hash_of bytes) ≡ 32) (cfg : Config) where
  -- A directory's cap whose shards can all be read: from as many as the code needs, in any store, the
  -- directory is loaded.
  pub record Stands (w : S × Bytes) (c : ReadCap) (d : DirManifest M) : Type 0 where
    pub kind : is_dir c.kind ≡ true
    pub fit : All FitsEntry d.entries
    pub there : All (Held store.ops w.0) c.shards
    pub enough : c.k ≤ length c.shards
    pub loaded :
        (s' : S) (random : Bytes)
        → c.k ≤ alive store.ops s' c.shards
        → load_dir prims store json (s', random) c ≡ some d

  -- `StoreDir` and `LoadDir` at a configuration.
  abbrev pub blob_dirs : DirStore M (S × Bytes)
  blob_dirs = record {
    load_dir = load_dir prims store json;
    store_dir = store_dir prims store json cfg;
    Holds = Stands;
    Fits = FitsCap;
    IsText = λ name. is_utf8 name ≡ true;
  }

  as_cap-Keeps :
      (kind : Kind) (r : Option (ChunkRef × Bytes) × S) (id : _)
      → Held store.ops r.1 id
      → Held store.ops (as_cap prims store kind cfg.params r).1 id
  as_cap-Keeps kind (none, s) id h = h
  as_cap-Keeps kind (some (ref, random), s) id h = h

  Stands-Keeps :
      (s s1 : S) (random left : Bytes) (c : ReadCap) (d : DirManifest M)
      → ((id : _) → Held store.ops s id → Held store.ops s1 id)
      → Stands (s, random) c d
      → Stands (s1, left) c d
  Stands-Keeps s s1 random left c d k h = record {
    kind = h.kind;
    fit = h.fit;
    there = All-imp (Held store.ops s) (Held store.ops s1) c.shards k h.there;
    enough = h.enough;
    loaded = h.loaded;
  }

  put_blob-Keeps :
      (kind : Kind) (s : S) (random bytes : Bytes) (id : _)
      → Held store.ops s id
      → Held store.ops (put_blob prims store cfg kind s random bytes).1 id
  unfolding put_blob
  put_blob-Keeps kind s random bytes id h =
      as_cap-Keeps kind (store_chunk prims store cfg s random bytes) id
        (store_chunk-Keeps prims laws store stripes cfg s random bytes id h)

  world_after-Keeps :
      (s : S) (random : Bytes) (r : Option (ReadCap × Bytes) × S) (c : ReadCap) (d : DirManifest M)
      → ((id : _) → Held store.ops s id → Held store.ops r.1 id)
      → Stands (s, random) c d
      → Stands (world_after prims store json random r).1 c d
  world_after-Keeps s random (none, s1) c d k h = Stands-Keeps s s1 random random c d k h
  world_after-Keeps s random (some (c', left), s1) c d k h = Stands-Keeps s s1 random left c d k h

  put_encoded-Keeps :
      (w : S × Bytes) (o : Option Bytes) (c : ReadCap) (d : DirManifest M)
      → Stands w c d
      → Stands (put_encoded prims store json cfg w o).1 c d
  put_encoded-Keeps w none c d h = h
  put_encoded-Keeps (s, random) (some bytes) c d h =
      world_after-Keeps s random (put_blob prims store cfg dir s random bytes) c d
        (put_blob-Keeps dir s random bytes) h

  named-sized :
      (ids : List Bytes)
      → All (λ id. (x : Bytes) × (id ≡ prims.hash_of x)) ids
      → All (λ id. length id ≡ 32) ids
  named-sized ids h =
      All-imp (λ id. (x : Bytes) × (id ≡ prims.hash_of x)) (λ id. length id ≡ 32) ids
        (λ id n. ap length n.1 ∙ sized n.0) h

  stored-Stands :
      (s : S) (random bytes : Bytes) (r : Option (ChunkRef × Bytes) × S) (c : ReadCap)
      (d : DirManifest M)
      → ((ref : ChunkRef) (left : Bytes)
          → r.0 ≡ some (ref, left)
          → Saved prims laws store stripes cfg s bytes ref r.1)
      → decode_dir json bytes ≡ some d
      → All FitsEntry d.entries
      → (world_after prims store json random (as_cap prims store dir cfg.params r)).0 ≡ some c
      → Stands (world_after prims store json random (as_cap prims store dir cfg.params r)).1 c d
        × FitsCap c
  unfolding cap_from_ref load_dir get_blob cap_params chunk_ref
  stored-Stands s random bytes (none, s1) c d saved dec fits h = absurd (cc h)
  stored-Stands s random bytes (some (ref, left), s1) c d saved dec fits h =
      let v = saved ref left refl in
      subst (λ x. Stands (s1, left) x d × FitsCap x) (some-injective _ _ h)
        (
          record {
            kind = refl;
            fit = fits;
            there = v.there;
            enough = v.enough;
            loaded = λ s' random' l. rw (v.loads s' l) dec;
          },
          (v.key_size, (named-sized ref.shards v.named, v.few)),
        )

  encoded-Stands :
      (s : S) (random : Bytes) (d : DirManifest M) (o : Option Bytes) (c : ReadCap)
      → IsSorted d.entries
      → All FitsEntry d.entries
      → encode_dir json d ≡ o
      → (put_encoded prims store json cfg (s, random) o).0 ≡ some c
      → Stands (put_encoded prims store json cfg (s, random) o).1 c d × FitsCap c
  unfolding put_blob
  encoded-Stands s random d none c sorted fits e h = absurd (cc h)
  encoded-Stands s random d (some bytes) c sorted fits e h =
      stored-Stands s random bytes (store_chunk prims store cfg s random bytes) c d
        (λ ref left stored.
          store_chunk-Saved prims laws store stripes cfg s random bytes ref left
            (omega (arith, encoded_short json codec d bytes e)) stored)
        (decode_dir-encode_dir json codec d bytes sorted fits e) fits h

  store_dir-Keeps :
      (w : S × Bytes) (d d' : DirManifest M) (c : ReadCap)
      → Stands w c d
      → Stands (store_dir prims store json cfg w d').1 c d
  unfolding store_dir
  store_dir-Keeps (s, random) d d' c h = put_encoded-Keeps (s, random) (encode_dir json d') c d h

  store_dir-Stands :
      (w : S × Bytes) (d : DirManifest M) (c : ReadCap)
      → IsSorted d.entries
      → All FitsEntry d.entries
      → (store_dir prims store json cfg w d).0 ≡ some c
      → Stands (store_dir prims store json cfg w d).1 c d × FitsCap c
  unfolding store_dir
  store_dir-Stands (s, random) d c sorted fits h =
      encoded-Stands s random d (encode_dir json d) c sorted fits refl h

  pub blob-DirLaws : DirLaws blob_dirs
  blob-DirLaws = record {
    is_a_dir = λ w c d h. h.kind;
    loads = λ w c d h.
        h.loaded w.0 w.1 (omega (arith, alive-All store.ops w.0 c.shards h.there, h.enough));
    fitting = λ w c d h. h.fit;
    stores = λ w d c sorted fits h. store_dir-Stands w d c sorted fits h;
    keeps = λ w d d' c h. store_dir-Keeps w d d' c h;
  }

  one_more-Counts :
      (f : Fetched) (o : Option ℕ) (n : ℕ)
      → f ≢ io_error
      → o ≡ some n
      → one_more prims store f o ≡ some ((if is_shard f then 1 else 0) + n)
  one_more-Counts io_error o n u h = absurd (u refl)
  one_more-Counts (shard bytes) none n u h = absurd (cc h)
  one_more-Counts not_found none n u h = absurd (cc h)
  one_more-Counts corrupt none n u h = absurd (cc h)
  one_more-Counts (shard bytes) (some k) n u h = ap some (omega (arith, some-injective _ _ h))
  one_more-Counts not_found (some k) n u h = ap some (omega (arith, some-injective _ _ h))
  one_more-Counts corrupt (some k) n u h = ap some (omega (arith, some-injective _ _ h))

  count_shards-alive :
      (s : S) (ids : List _) → count_shards prims store s ids ≡ some (alive store.ops s ids)
  unfolding count_shards alive
  count_shards-alive s [] = refl
  count_shards-alive s (id ∷ ids) =
      one_more-Counts (store.ops.get_shard s id) (count_shards prims store s ids) _
        (stripes.base.get_io s id) (count_shards-alive s ids)

  -- With a hash without collisions and of 32 bytes, a directory that was stored, in order, with caps that
  -- fit and names that are valid UTF-8, is loaded by its cap from every state of the store, whose puts
  -- succeed and whose reads have no I/O error, in which `VerifyBlob`, which has no key, finds that its
  -- blob can be recovered.
  pub load_dir-verified :
      (w : S × Bytes) (d : DirManifest M) (c : ReadCap) (s' : S) (random : Bytes)
      → IsSorted d.entries
      → All FitsEntry d.entries
      → (store_dir prims store json cfg w d).0 ≡ some c
      → verify_blob prims store s' (verify_cap c) ≡ true
      → load_dir prims store json (s', random) c ≡ some d
  unfolding verify_blob verify_cap
  load_dir-verified w d c s' random sorted fits h v =
      (store_dir-Stands w d c sorted fits h).0.loaded s' random
        (ground (arith, v, count_shards-alive s' c.shards))
