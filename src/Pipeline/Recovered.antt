-- ===== src/Pipeline/Recovered.antt =====
-- What `StoreFile` and `LoadFile` (internal/pipeline/pipeline.go) promise together: files that were
-- stored are recovered from what is left of their shards, and with enough randomness they are stored.
use mathlib.Core.Option.{some-injective}
use revika.Base.{
  ℕ, zero, suc, ◌+◌, ◌*◌, ◌^◌, ◌≤◌, ◌<◌, ◌≡◌, refl, sym, ap, ◌∙◌, subst, Bool, true, false, Option,
  none, some, List, [], ◌∷◌, ◌++◌, arith, length, Bytes, All, read_full, map, length-append,
}
use revika.Erasure.{encode}
use revika.Chunk.{eof, Item, chunk, failed, stuck}
use revika.Chunk.Fixed.{fixed, bytes_of}
use revika.Pipeline.{
  Primitives, Config, ChunkRef, FileManifest, StripeStore, new_key, seal, shorter, pack, disperse,
  descriptor, store_chunk, load_chunks, load_file, Stored, add_chunk, then_rest, store_items,
  as_manifest, store_file,
}
use revika.Pipeline.Laws.{PrimitiveLaws, StripeLaws}
use revika.Pipeline.Chunks.{put_shards-Put}
use revika.Pipeline.Files.{Sized, CanLoad, fixed-Sized, store_file-AllSaved}

-- The primitives that can fail do not: DEFLATE, and the code at the parameters.
pub record Works (prims : Primitives) (cfg : Config) : Type 0 where
  pub deflates : (plain : Bytes) → (packed : Bytes) × (prims.deflate plain ≡ some packed)
  pub encodes :
      (sealed : Bytes)
      → (coded : List Bytes) × (encode prims.new_codec cfg.params sealed ≡ some coded)

-- A result, with `n` bytes fewer of the random source.
abbrev pub Spends : {A : Type 0} → ℕ → Bytes → Option (A × Bytes) → Type 0
Spends {A} n random o =
    (a : A) × ((left : Bytes) × ((o ≡ some (a, left)) × (n + length left ≡ length random)))

read_full-Spends : (n : ℕ) (bs : Bytes) → n ≤ length bs → Spends n bs (read_full n bs)
unfolding read_full
read_full-Spends zero bs h = ([], (bs, (refl, omega arith)))
read_full-Spends (suc n) [] h = absurd (omega arith)
read_full-Spends (suc n) (b ∷ bs) h =
    let (head, (rest, (e, size))) = read_full-Spends n bs (omega arith) in
    (b ∷ head, (rest, (rw e refl, omega (arith, size))))

-- The chunks that the iterator yields.
abbrev count_chunks : List Item → ℕ
count_chunks [] = 0
count_chunks (item ∷ items) = suc (count_chunks items)

count_chunks-Sized :
    (n : ℕ) (items : List Item) → Sized n items → count_chunks items ≤ length (bytes_of items)
unfolding bytes_of
count_chunks-Sized n [] z = omega arith
count_chunks-Sized n (chunk bytes ∷ items) z =
    omega (arith, z.0.0, length-append bytes (bytes_of items), count_chunks-Sized n items z.1)
count_chunks-Sized n (failed ∷ items) z = absurd z
count_chunks-Sized n (stuck ∷ items) z = absurd z

module _ (prims : Primitives) (laws : PrimitiveLaws prims) {S : Type 0} (store : StripeStore S)
    (stripes : StripeLaws store prims.hash_of) where
  shorter-some :
      (plain packed : Bytes) → (r : Bytes × Bool) × (shorter prims plain (some packed) ≡ some r)
  shorter-some plain packed = (_, refl)

  pack-some :
      (cfg : Config) (c : Bool) (plain : Bytes)
      → Works prims cfg
      → (r : Bytes × Bool) × (pack prims c plain ≡ some r)
  unfolding pack
  pack-some cfg true plain w = rw (w.deflates plain).1 (shorter-some plain (w.deflates plain).0)
  pack-some cfg false plain w = (_, refl)

  seal-Spends :
      (key plain random : Bytes)
      → 12 ≤ length random
      → Spends 12 random (seal prims key plain random)
  unfolding seal
  seal-Spends key plain random h =
      let (nonce, (left, (e, size))) = read_full-Spends 12 random h in
      (nonce ++ prims.gcm_seal key nonce plain, (left, (rw e refl, size)))

  store_chunk-Spends :
      (cfg : Config) (s : S) (random plain : Bytes)
      → Works prims cfg
      → 44 ≤ length random
      → Spends 44 random (store_chunk prims store cfg s random plain).0
  unfolding store_chunk disperse new_key
  store_chunk-Spends cfg s random plain w enough =
      let ((payload, compressed), packed) = pack-some cfg cfg.compress plain w in
      let (key, (random1, (has_key, size1))) = read_full-Spends 32 random (omega (arith, enough)) in
      let (sealed, (random2, (is_sealed, size2))) =
        seal-Spends key payload random1 (omega (arith, enough, size1)) in
      let (coded, is_coded) = w.encodes sealed in
      let ref : ChunkRef = record {
        key = key;
        compressed = compressed;
        shards = map prims.hash_of coded;
      } in
      let put = put_shards-Put prims laws store stripes (descriptor prims cfg.params ref) s coded in
      rw (packed, has_key, is_sealed, is_coded, put.done)
        (ref, (random2, (refl, omega (arith, size1, size2))))

  abbrev Done : {A : Type 0} → Option A → Type 0
  Done {A} o = (a : A) × (o ≡ some a)

  add_chunk-Done :
      (ref : ChunkRef) (n : ℕ) (q : Stored prims store (List ChunkRef × ℕ))
      → Done q.0
      → Done (add_chunk prims store ref n q).0
  add_chunk-Done ref n (none, s) h = absurd (cc h.1)
  add_chunk-Done ref n (some ((refs, size), random), s) h = (_, refl)

  then_rest-Done :
      (n : ℕ) (f : S → Bytes → Stored prims store (List ChunkRef × ℕ))
      (o : Stored prims store ChunkRef) (ref : ChunkRef) (random : Bytes)
      → o.0 ≡ some (ref, random)
      → ((s' : S) → Done (f s' random).0)
      → Done (then_rest prims store n f o).0
  then_rest-Done n f (none, s) ref random e h = absurd (cc e)
  then_rest-Done n f (some (ref', random'), s) ref random e h =
      let same : random ≡ random' = ap (λ q. q.1) (some-injective _ _ (sym e)) in
      add_chunk-Done ref' n (f s random') (subst (λ r. Done (f s r).0) same (h s))

  store_items-Done :
      (cfg : Config) (s : S) (random : Bytes) (n : ℕ) (items : List Item)
      → Works prims cfg
      → Sized n items
      → 44 * count_chunks items ≤ length random
      → Done (store_items prims store cfg s random items).0
  unfolding store_items
  store_items-Done cfg s random n [] w z enough = (_, refl)
  store_items-Done cfg s random n (failed ∷ items) w z enough = absurd z
  store_items-Done cfg s random n (stuck ∷ items) w z enough = absurd z
  store_items-Done cfg s random n (chunk bytes ∷ items) w z enough =
      let (ref, (left, (stored, size))) =
        store_chunk-Spends cfg s random bytes w (omega (arith, enough)) in
      then_rest-Done (length bytes) (λ s' r. store_items prims store cfg s' r items)
        (store_chunk prims store cfg s random bytes) ref left stored
        (λ s'. store_items-Done cfg s' left n items w z.1 (omega (arith, enough, size)))

  as_manifest-Done :
      {M : Type 0} (cfg : Config) (attrs : M) (q : Stored prims store (List ChunkRef × ℕ))
      → Done q.0
      → Done (as_manifest prims store cfg attrs q).0
  as_manifest-Done cfg attrs (none, s) h = absurd (cc h.1)
  as_manifest-Done cfg attrs (some ((refs, size), random), s) h = (_, refl)

  -- With a hash without collisions, a file that was stored, in chunks of at least one byte and less than
  -- 2 ^ 64 - 28, is written whole from any state of the store, whose puts succeed and whose reads have no
  -- I/O error, in which at least K shards of each of its chunks can be read, and its size is the number
  -- of its bytes.
  pub load_file-store_file :
      {M : Type 0} (cfg : Config) (attrs : M) (s : S) (random bytes : Bytes) (m : FileManifest M)
      (left : Bytes) (s' : S)
      → 0 < cfg.chunk_size
      → cfg.chunk_size + 28 < 2 ^ 64
      → (store_file prims store cfg attrs s random bytes eof).0 ≡ some (m, left)
      → All (CanLoad prims laws store stripes cfg s') m.chunks
      → (load_file prims store s' m ≡ (bytes, true)) × (m.size ≡ length bytes)
  unfolding load_file
  load_file-store_file cfg attrs s random bytes m left s' z small h l =
      let (saved, params) =
        store_file-AllSaved prims laws store stripes cfg attrs s random bytes m left z small h in
      (
        ap (λ (c : Config). load_chunks prims store s' c.params m.chunks) params ∙ saved.loads s' l,
        saved.size,
      )

  -- On a store whose puts succeed and whose reads have no I/O error, with a hash without collisions, and
  -- where DEFLATE and the code do not fail, chunks have at least one byte and less than 2 ^ 64 - 28, and
  -- the random source gives 44 bytes for each byte of the file, which is at least as much as for each
  -- chunk, a file is stored, and then written whole.
  pub store_file-recovers :
      {M : Type 0} (cfg : Config) (attrs : M) (s : S) (random bytes : Bytes)
      → Works prims cfg
      → 0 < cfg.chunk_size
      → cfg.chunk_size + 28 < 2 ^ 64
      → 44 * length bytes ≤ length random
      → (m : FileManifest M) × ((left : Bytes) × (((store_file prims store cfg attrs s random bytes
                eof).0
              ≡ some (m, left))
            × (load_file prims store (store_file prims store cfg attrs s random bytes eof).1 m
                ≡ (bytes, true))))
  store_file-recovers {M} cfg attrs s random bytes w z small enough =
      let items : List Item = fixed bytes eof cfg.chunk_size in
      let f = fixed-Sized prims laws store stripes cfg.chunk_size bytes z in
      let few : count_chunks items ≤ length bytes =
        subst (λ b. count_chunks items ≤ length b) f.1
          (count_chunks-Sized cfg.chunk_size items f.0) in
      let ((m, left), stored) : Done (store_file prims store cfg attrs s random bytes eof).0 =
        unfold store_file in
        as_manifest-Done cfg attrs (store_items prims store cfg s random items)
          (store_items-Done cfg s random cfg.chunk_size items w f.0 (omega (arith, few, enough))) in
      let (saved, params) =
        store_file-AllSaved prims laws store stripes cfg attrs s random bytes m left z small
          stored in
      (
        m,
        (
          left,
          (
            stored,
            (load_file-store_file cfg attrs s random bytes m left _ z small stored
                (saved.there _ (λ id k. k))).0,
          ),
        ),
      )
