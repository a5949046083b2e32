-- ===== src/Pipeline/Chunks.antt =====
-- A chunk that was stored (`storeChunk`) is loaded from any store that still has enough of its shards.
use mathlib.Core.Option.{some-injective}
use revika.Base.{
  ◌+◌, ◌^◌, ◌≤◌, ◌<◌, ◌≡◌, refl, sym, ap, subst, Bool, true, false, Option, none, some, List, [],
  ◌∷◌, map, arith, length, Bytes, bytes_eq, bind-some, All-imp, if_pos, All,
}
use revika.Store.{ShardId}
use revika.Stripe.{Descriptor}
use revika.Repair.{Fetched, shard, not_found, corrupt, io_error}
use revika.Repair.Survey.{Survivors, lost, alive, Held}
use revika.Repair.Restored.{IsStripe}
use revika.Erasure.{Params, encode, code_of}
use revika.Erasure.RoundTrip.{length-encode, encode-few, encode-IsStripe}
use revika.Pipeline.Laws.{
  PrimitiveLaws, StripeLaws, alive-All, length-map, read_full-length, Packed, pack-Packed,
  seal-opens,
}
use revika.Pipeline.{
  Primitives, Config, ChunkRef, StripeStore, seal, open_sealed, pack, unpack, disperse, new_key,
  descriptor, put_shards, put_dispersed, store_chunk, gathered, gather, load_chunk,
}

module _ (prims : Primitives) (laws : PrimitiveLaws prims) where
  module _ {S : Type 0} (store : StripeStore S) (stripes : StripeLaws store prims.hash_of) where
    Gathered : S → List Bytes → Option (List (Option Bytes)) → Type 0
    Gathered s coded none = ⊥
    Gathered s coded (some shards) =
        Survivors coded shards
        × (alive store.ops s (map prims.hash_of coded) + lost shards ≡ length coded)

    gathered-lem :
        (s : S) (x : Bytes) (coded : List Bytes) (f : Fetched) (rest : Option (List (Option Bytes)))
        → store.ops.get_shard s (prims.hash_of x) ≡ f
        → Gathered s coded rest
        → Gathered s (x ∷ coded) (gathered prims store f rest)
    unfolding Gathered alive
    gathered-lem s x coded io_error rest e h = absurd (stripes.base.get_io s (prims.hash_of x) e)
    gathered-lem s x coded (shard bytes) none e h = absurd h
    gathered-lem s x coded not_found none e h = absurd h
    gathered-lem s x coded corrupt none e h = absurd h
    gathered-lem s x coded (shard bytes) (some shards) e h = rw e (
      (laws.no_collision bytes x (stripes.base.get_hash s (prims.hash_of x) bytes e), h.0),
      omega (arith, h.1),
    )
    gathered-lem s x coded not_found (some shards) e h = rw e (h.0, omega (arith, h.1))
    gathered-lem s x coded corrupt (some shards) e h = rw e (h.0, omega (arith, h.1))

    gather-Gathered :
        (s : S) (coded : List Bytes)
        → Gathered s coded (gather prims store s (map prims.hash_of coded))
    unfolding gather Gathered alive
    gather-Gathered s [] = (tt, refl)
    gather-Gathered s (x ∷ coded) =
        gathered-lem s x coded (store.ops.get_shard s (prims.hash_of x))
          (gather prims store s (map prims.hash_of coded)) refl (gather-Gathered s coded)

    load-Gathered :
        (s : S) (p : Params) (ref : ChunkRef) (coded : List Bytes) (sealed payload plain : Bytes)
        (found : Option (List (Option Bytes)))
        → gather prims store s ref.shards ≡ found
        → Gathered s coded found
        → IsStripe (code_of prims.new_codec p) sealed coded
        → p.k ≤ alive store.ops s (map prims.hash_of coded)
        → open_sealed prims ref.key sealed ≡ some payload
        → unpack prims ref.compressed payload ≡ some plain
        → load_chunk prims store s p ref ≡ some plain
    unfolding load_chunk Gathered
    load-Gathered s p ref coded sealed payload plain none e g stripe enough opened unpacked =
        absurd g
    load-Gathered s p ref coded sealed payload plain (some shards) e g stripe enough opened
          unpacked =
        rw (e, stripe.decodes shards g.0 (omega (arith, g.1, enough)), opened) unpacked

    load_chunk-disperse :
        (cfg : Config) (random plain : Bytes) (r : ChunkRef × (List Bytes × Bytes)) (s : S)
        → length plain + 28 < 2 ^ 64
        → disperse prims cfg random plain ≡ some r
        → cfg.params.k ≤ alive store.ops s r.0.shards
        → load_chunk prims store s cfg.params r.0 ≡ some plain
    unfolding disperse Packed
    load_chunk-disperse cfg random plain r s small h enough =
        let (packed, (is_packed, h1)) = bind-some (pack prims cfg.compress plain) _ r h in
        let (key, (has_key, h2)) = bind-some (new_key random) _ r h1 in
        let (sealed, (is_sealed, h3)) = bind-some (seal prims key.0 packed.0 key.1) _ r h2 in
        let (coded, (is_coded, h4)) =
          bind-some (encode prims.new_codec cfg.params sealed.0) _ r h3 in
        let p = pack-Packed prims laws cfg.compress plain packed is_packed in
        let o = seal-opens prims laws key.0 packed.0 key.1 sealed is_sealed in
        let ref : ChunkRef = record {
          key = key.0;
          compressed = packed.1;
          shards = map prims.hash_of coded;
        } in
        let same : ref ≡ r.0 = ap (λ q. q.0) (some-injective _ _ h4) in
        let short : length sealed.0 < 2 ^ 64 = omega (arith, o.1, p.1, small) in
        subst
          (λ q.
            cfg.params.k ≤ alive store.ops s q.shards
            → load_chunk prims store s cfg.params q ≡ some plain)
          same
          (λ e.
            load-Gathered s cfg.params ref coded sealed.0 packed.0 plain _ refl
              (gather-Gathered s coded)
              (encode-IsStripe prims.new_codec laws.codecs cfg.params sealed.0 coded short is_coded)
              e o.0 p.0)
          enough

    pub record Put (s : S) (shards : List Bytes) (r : Bool × S) : Type 0 where
      pub done : r.0 ≡ true
      pub keeps : (id : ShardId) → Held store.ops s id → Held store.ops r.1 id
      pub there : All (Held store.ops r.1) (map prims.hash_of shards)

    pub put_shards-Put :
        (d : Descriptor) (s : S) (shards : List Bytes)
        → Put s shards (put_shards prims store d s shards)
    unfolding put_shards
    put_shards-Put d s [] = record { done = refl; keeps = λ id h. h; there = tt }
    put_shards-Put d s (x ∷ shards) =
        let rest = put_shards-Put d (store.put_stripe d s x).1 shards in
        rw
          (
            stripes.stripe_id d s x,
            if_pos (bytes_eq.dec (prims.hash_of x) (prims.hash_of x)) refl true false,
          )
          (record {
            done = rest.done;
            keeps = λ id h. rest.keeps id (stripes.stripe_keeps d s x id h);
            there = (rest.keeps (prims.hash_of x) (stripes.stripe_get d s x), rest.there);
          })

    -- At least K of the shards can be read.
    abbrev pub Loadable : Params → S → ChunkRef → Type 0
    Loadable p s ref = p.k ≤ alive store.ops s ref.shards

    -- What a chunk's storing leaves.
    pub record Saved (cfg : Config) (s : S) (plain : Bytes) (ref : ChunkRef) (s1 : S) : Type 0 where
      pub keeps : (id : ShardId) → Held store.ops s id → Held store.ops s1 id
      pub there : All (Held store.ops s1) ref.shards
      pub enough : cfg.params.k ≤ length ref.shards
      pub few : length ref.shards ≤ 256
      pub key_size : length ref.key ≡ 32
      pub named : All (λ id. (x : Bytes) × (id ≡ prims.hash_of x)) ref.shards
      pub loads :
          (s' : S)
          → Loadable cfg.params s' ref
          → load_chunk prims store s' cfg.params ref ≡ some plain

    hashes-named :
        (coded : List Bytes)
        → All (λ id. (x : Bytes) × (id ≡ prims.hash_of x)) (map prims.hash_of coded)
    hashes-named [] = tt
    hashes-named (x ∷ coded) = ((x, refl), hashes-named coded)

    disperse-shards :
        (cfg : Config) (random plain : Bytes) (r : ChunkRef × (List Bytes × Bytes))
        → disperse prims cfg random plain ≡ some r
        → (r.0.shards ≡ map prims.hash_of r.1.0)
          × ((cfg.params.k ≤ length r.1.0) × ((length r.1.0 ≤ 256) × (length r.0.key ≡ 32)))
    unfolding disperse new_key
    disperse-shards cfg random plain r h =
        let (packed, (is_packed, h1)) = bind-some (pack prims cfg.compress plain) _ r h in
        let (key, (has_key, h2)) = bind-some (new_key random) _ r h1 in
        let (sealed, (is_sealed, h3)) = bind-some (seal prims key.0 packed.0 key.1) _ r h2 in
        let (coded, (is_coded, h4)) =
          bind-some (encode prims.new_codec cfg.params sealed.0) _ r h3 in
        let size = length-encode prims.new_codec laws.codecs cfg.params sealed.0 coded is_coded in
        subst
          (λ q.
            (q.0.shards ≡ map prims.hash_of q.1.0)
            × ((cfg.params.k ≤ length q.1.0) × ((length q.1.0 ≤ 256) × (length q.0.key ≡ 32))))
          (some-injective _ _ h4)
          (
            refl,
            (
              omega (arith, size),
              (
                omega (
                  arith,
                  size,
                  encode-few prims.new_codec laws.codecs cfg.params sealed.0 coded is_coded,
                ),
                read_full-length 32 random key has_key,
              ),
            ),
          )

    put_dispersed-Saved :
        (cfg : Config) (s : S) (random plain : Bytes) (ref : ChunkRef) (left : Bytes)
        (o : Option (ChunkRef × (List Bytes × Bytes)))
        → length plain + 28 < 2 ^ 64
        → disperse prims cfg random plain ≡ o
        → (put_dispersed prims store cfg.params s o).0 ≡ some (ref, left)
        → Saved cfg s plain ref (put_dispersed prims store cfg.params s o).1
    put_dispersed-Saved cfg s random plain ref left none small e h = absurd (cc h)
    put_dispersed-Saved cfg s random plain ref left (some (q, (coded, random'))) small e h =
        let put = put_shards-Put (descriptor prims cfg.params q) s coded in
        let same : q ≡ ref = ap (λ r. r.0) (some-injective _ _ (rw put.done at h)) in
        let d = disperse-shards cfg random plain (q, (coded, random')) e in
        let s1 : S = (put_shards prims store (descriptor prims cfg.params q) s coded).1 in
        subst (λ r. Saved cfg s plain r s1) same
          (record {
            keeps = put.keeps;
            there = subst (All (Held store.ops s1)) (sym d.0) put.there;
            enough = rw d.0 (omega (arith, d.1.0, length-map prims.hash_of coded));
            few = rw d.0 (omega (arith, d.1.1.0, length-map prims.hash_of coded));
            key_size = d.1.1.1;
            named = rw d.0 (hashes-named coded);
            loads = λ s' l. load_chunk-disperse cfg random plain (q, (coded, random')) s' small e l;
          })

    pub store_chunk-Saved :
        (cfg : Config) (s : S) (random plain : Bytes) (ref : ChunkRef) (left : Bytes)
        → length plain + 28 < 2 ^ 64
        → (store_chunk prims store cfg s random plain).0 ≡ some (ref, left)
        → Saved cfg s plain ref (store_chunk prims store cfg s random plain).1
    unfolding store_chunk
    store_chunk-Saved cfg s random plain ref left small h =
        put_dispersed-Saved cfg s random plain ref left (disperse prims cfg random plain) small refl
          h

    pub Saved-Loadable :
        (cfg : Config) (s s1 s2 : S) (plain : Bytes) (ref : ChunkRef)
        → Saved cfg s plain ref s1
        → ((id : ShardId) → Held store.ops s1 id → Held store.ops s2 id)
        → Loadable cfg.params s2 ref
    Saved-Loadable cfg s s1 s2 plain ref saved later =
        let held = All-imp (Held store.ops s1) (Held store.ops s2) ref.shards later saved.there in
        omega (arith, alive-All store.ops s2 ref.shards held, saved.enough)

    put_dispersed-Keeps :
        (p : Params) (s : S) (o : Option (ChunkRef × (List Bytes × Bytes))) (id : ShardId)
        → Held store.ops s id
        → Held store.ops (put_dispersed prims store p s o).1 id
    put_dispersed-Keeps p s none id h = h
    put_dispersed-Keeps p s (some (q, (coded, random))) id h =
        (put_shards-Put (descriptor prims p q) s coded).keeps id h

    -- No shard is lost by storing a chunk, whether that succeeds or not.
    pub store_chunk-Keeps :
        (cfg : Config) (s : S) (random plain : Bytes) (id : ShardId)
        → Held store.ops s id
        → Held store.ops (store_chunk prims store cfg s random plain).1 id
    unfolding store_chunk
    store_chunk-Keeps cfg s random plain id h =
        put_dispersed-Keeps cfg.params s (disperse prims cfg random plain) id h
