-- ===== src/Pipeline/Files.antt =====
-- A file that was stored (`StoreFile`) is written back whole (`LoadFile`).
use mathlib.Core.Option.{some-injective}
use revika.Base.{
  ℕ, ◌+◌, ◌^◌, ◌≤◌, ◌<◌, ◌≡◌, refl, sym, ap, ◌∙◌, subst, true, none, some, List, [], ◌∷◌, ◌++◌,
  arith, length, Bytes, All, length-append,
}
use revika.Repair.Survey.{Held}
use revika.Chunk.{eof, Item, chunk, failed, stuck}
use revika.Chunk.Fixed.{fixed, bytes_of, even_chunks, fixed-chunks}
use revika.Pipeline.{
  Primitives, Config, ChunkRef, FileManifest, StripeStore, store_chunk, Stored, add_chunk,
  then_rest, store_items, as_manifest, store_file, load_chunks,
}
use revika.Pipeline.Laws.{PrimitiveLaws, StripeLaws}
use revika.Pipeline.Chunks.{Loadable, Saved, store_chunk-Saved, Saved-Loadable}

-- Chunks that have a byte and at most `n`, and no failure.
abbrev pub Sized : ℕ → List Item → Type 0
Sized n [] = Unit
Sized n (chunk bytes ∷ items) = ((0 < length bytes) × (length bytes ≤ n)) × Sized n items
Sized n (failed ∷ items) = ⊥
Sized n (stuck ∷ items) = ⊥

pub even_chunks-Sized :
    (n : ℕ) (items : List Item) → 0 < n → even_chunks n items ≡ true → Sized n items
unfolding even_chunks
even_chunks-Sized n [] z h = tt
even_chunks-Sized n (chunk bytes ∷ []) z h = ((ground (arith, h), ground (arith, h)), tt)
even_chunks-Sized n (chunk bytes ∷ item ∷ items) z h = (
  (ground (arith, h, z), ground (arith, h)),
  even_chunks-Sized n (item ∷ items) z (ground (arith, h)),
)
even_chunks-Sized n (failed ∷ items) z h = absurd (cc h)
even_chunks-Sized n (stuck ∷ items) z h = absurd (cc h)

module _ (prims : Primitives) (laws : PrimitiveLaws prims) {S : Type 0} (store : StripeStore S)
    (stripes : StripeLaws store prims.hash_of) where
  abbrev pub CanLoad : Config → S → ChunkRef → Type 0
  CanLoad cfg s ref = Loadable prims laws store stripes cfg.params s ref

  -- What the storing of chunks leaves.
  pub record AllSaved (cfg : Config) (s : S) (bytes : Bytes) (r : List ChunkRef × ℕ) (s1 : S)
      : Type 0 where
    pub keeps : (id : _) → Held store.ops s id → Held store.ops s1 id
    pub size : r.1 ≡ length bytes
    pub there :
        (s2 : S)
        → ((id : _) → Held store.ops s1 id → Held store.ops s2 id)
        → All (CanLoad cfg s2) r.0
    pub loads :
        (s' : S)
        → All (CanLoad cfg s') r.0
        → load_chunks prims store s' cfg.params r.0 ≡ (bytes, true)

  add_chunk-AllSaved :
      (cfg : Config) (s s1 : S) (bytes rest : Bytes) (ref : ChunkRef)
      (q : Stored prims store (List ChunkRef × ℕ)) (r : List ChunkRef × ℕ) (left : Bytes)
      → Saved prims laws store stripes cfg s bytes ref s1
      → ((r' : List ChunkRef × ℕ) (left' : Bytes)
          → q.0 ≡ some (r', left')
          → AllSaved cfg s1 rest r' q.1)
      → (add_chunk prims store ref (length bytes) q).0 ≡ some (r, left)
      → AllSaved cfg s (bytes ++ rest) r (add_chunk prims store ref (length bytes) q).1
  unfolding load_chunks
  add_chunk-AllSaved cfg s s1 bytes rest ref (none, s2) r left saved more h = absurd (cc h)
  add_chunk-AllSaved cfg s s1 bytes rest ref (some ((refs, n), random), s2) r left saved more h =
      let m = more (refs, n) random refl in
      let same : (ref ∷ refs, length bytes + n) ≡ r = ap (λ q. q.0) (some-injective _ _ h) in
      subst (λ q. AllSaved cfg s (bytes ++ rest) q s2) same
        (record {
          keeps = λ id k. m.keeps id (saved.keeps id k);
          size = ap (λ t. length bytes + t) m.size ∙ sym (length-append bytes rest);
          there = λ s3 k. (
            Saved-Loadable prims laws store stripes cfg s s1 s3 bytes ref saved
                (λ id l. k id (m.keeps id l)),
            m.there s3 k,
          );
          loads = λ s' l. rw (saved.loads s' l.0, m.loads s' l.1) refl;
        })

  then_rest-AllSaved :
      (cfg : Config) (s : S) (bytes rest : Bytes)
      (f : S → Bytes → Stored prims store (List ChunkRef × ℕ)) (o : Stored prims store ChunkRef)
      (r : List ChunkRef × ℕ) (left : Bytes)
      → ((ref : ChunkRef) (random : Bytes)
          → o.0 ≡ some (ref, random)
          → Saved prims laws store stripes cfg s bytes ref o.1)
      → ((s' : S) (random : Bytes) (r' : List ChunkRef × ℕ) (left' : Bytes)
          → (f s' random).0 ≡ some (r', left')
          → AllSaved cfg s' rest r' (f s' random).1)
      → (then_rest prims store (length bytes) f o).0 ≡ some (r, left)
      → AllSaved cfg s (bytes ++ rest) r (then_rest prims store (length bytes) f o).1
  then_rest-AllSaved cfg s bytes rest f (none, s1) r left saved more h = absurd (cc h)
  then_rest-AllSaved cfg s bytes rest f (some (ref, random), s1) r left saved more h =
      add_chunk-AllSaved cfg s s1 bytes rest ref (f s1 random) r left (saved ref random refl)
        (more s1 random) h

  store_items-AllSaved :
      (cfg : Config) (s : S) (random : Bytes) (items : List Item) (r : List ChunkRef × ℕ)
      (left : Bytes)
      → cfg.chunk_size + 28 < 2 ^ 64
      → Sized cfg.chunk_size items
      → (store_items prims store cfg s random items).0 ≡ some (r, left)
      → AllSaved cfg s (bytes_of items) r (store_items prims store cfg s random items).1
  unfolding store_items bytes_of load_chunks
  store_items-AllSaved cfg s random [] r left small z h =
      let same : ([], 0) ≡ r = ap (λ q. q.0) (some-injective _ _ h) in
      subst (λ q. AllSaved cfg s [] q s) same
        (record { keeps = λ id k. k; size = refl; there = λ s2 k. tt; loads = λ s' l. refl })
  store_items-AllSaved cfg s random (failed ∷ items) r left small z h = absurd z
  store_items-AllSaved cfg s random (stuck ∷ items) r left small z h = absurd z
  store_items-AllSaved cfg s random (chunk bytes ∷ items) r left small z h =
      then_rest-AllSaved cfg s bytes (bytes_of items)
        (λ s' random'. store_items prims store cfg s' random' items)
        (store_chunk prims store cfg s random bytes) r left
        (λ ref random' e.
          store_chunk-Saved prims laws store stripes cfg s random bytes ref random'
            (omega (arith, small, z.0.1)) e)
        (λ s' random' r' left' e. store_items-AllSaved cfg s' random' items r' left' small z.1 e) h

  pub fixed-Sized :
      (n : ℕ) (bytes : Bytes)
      → 0 < n
      → Sized n (fixed bytes eof n) × (bytes_of (fixed bytes eof n) ≡ bytes)
  fixed-Sized n bytes z =
      let f = fixed-chunks bytes n z in (even_chunks-Sized n (fixed bytes eof n) z f.1, f.0)

  as_manifest-AllSaved :
      {M : Type 0} (cfg : Config) (attrs : M) (s : S) (bytes : Bytes) (m : FileManifest M)
      (left : Bytes) (q : Stored prims store (List ChunkRef × ℕ))
      → ((r : List ChunkRef × ℕ) (left' : Bytes)
          → q.0 ≡ some (r, left')
          → AllSaved cfg s bytes r q.1)
      → (as_manifest prims store cfg attrs q).0 ≡ some (m, left)
      → AllSaved cfg s bytes (m.chunks, m.size) (as_manifest prims store cfg attrs q).1
        × (m.params ≡ cfg)
  as_manifest-AllSaved cfg attrs s bytes m left (none, s1) saved h = absurd (cc h)
  as_manifest-AllSaved {M} cfg attrs s bytes m left (some ((refs, n), random), s1) saved h =
      let made : FileManifest M = record {
        name = [];
        params = cfg;
        size = n;
        attrs = attrs;
        chunks = refs;
      } in
      let same : made ≡ m = ap (λ q. q.0) (some-injective _ _ h) in
      subst (λ (q : FileManifest M). AllSaved cfg s bytes (q.chunks, q.size) s1 × (q.params ≡ cfg))
        same (saved (refs, n) random refl, refl)

  pub store_file-AllSaved :
      {M : Type 0} (cfg : Config) (attrs : M) (s : S) (random bytes : Bytes) (m : FileManifest M)
      (left : Bytes)
      → 0 < cfg.chunk_size
      → cfg.chunk_size + 28 < 2 ^ 64
      → (store_file prims store cfg attrs s random bytes eof).0 ≡ some (m, left)
      → AllSaved cfg s bytes
          (m.chunks, m.size)
          (store_file prims store cfg attrs s random bytes eof).1
        × (m.params ≡ cfg)
  unfolding store_file
  store_file-AllSaved cfg attrs s random bytes m left z small h =
      let f = fixed-Sized cfg.chunk_size bytes z in
      as_manifest-AllSaved cfg attrs s bytes m left
        (store_items prims store cfg s random (fixed bytes eof cfg.chunk_size))
        (λ r left' e.
          subst
            (λ b.
              AllSaved cfg s b r
                (store_items prims store cfg s random (fixed bytes eof cfg.chunk_size)).1)
            f.1
            (store_items-AllSaved cfg s random (fixed bytes eof cfg.chunk_size) r left' small f.0
              e))
        h
