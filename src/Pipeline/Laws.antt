-- ===== src/Pipeline/Laws.antt =====
-- What the pipeline (internal/pipeline/pipeline.go) takes from other packages, and what sealing and
-- packing keep.
use mathlib.Core.Option.{some-injective}
use revika.Base.{
  ℕ, zero, suc, ◌+◌, ◌≤◌, ◌≡◌, inl, inr, refl, ap, ◌∙◌, subst, Bool, true, false, Option, none,
  some, List, [], ◌∷◌, ◌++◌, map, arith, ltb, length, Bytes, bytes_eq, bind-some, Bool-cases, All,
  take-append_left, drop-append_left, read_full, length-append,
}
use revika.Store.{ShardId}
use revika.Stripe.{Descriptor}
use revika.Repair.{StoreOps}
use revika.Repair.Survey.{StoreLaws, alive, Held}
use revika.Erasure.{Codec}
use revika.Erasure.RoundTrip.{CodecLaws}
use revika.Pipeline.{
  Key, Primitives, plain_store, StripeStore, nonce_size, seal, open_sealed, shorter, pack, unpack,
}

-- What the primitives promise: what is sealed opens under the same key and nonce and is 16 bytes
-- longer, what is deflated inflates, and the codes are those of their parameters.
pub record PrimitiveLaws (prims : Primitives) : Type 0 where
  pub opens :
      (key : Key) (nonce plain : Bytes)
      → prims.gcm_open key nonce (prims.gcm_seal key nonce plain) ≡ some plain
  pub tag :
      (key : Key) (nonce plain : Bytes)
      → length (prims.gcm_seal key nonce plain) ≡ length plain + 16
  pub inflates :
      (plain packed : Bytes) → prims.deflate plain ≡ some packed → prims.inflate packed ≡ some plain
  pub codecs : (k m : ℕ) (codec : Codec) → prims.new_codec k m ≡ some codec → CodecLaws k m codec
  pub no_collision : (a b : Bytes) → prims.hash_of a ≡ prims.hash_of b → a ≡ b

pub read_full-length :
    (n : ℕ) (bs : Bytes) (r : Bytes × Bytes) → read_full n bs ≡ some r → length r.0 ≡ n
unfolding read_full
read_full-length zero bs r h = ground (arith, h)
read_full-length (suc n) [] r h = absurd (cc h)
read_full-length (suc n) (b ∷ bs) r h =
    let (p, (e, same)) = bind-some (read_full n bs) _ r h in
    ground (arith, same, read_full-length n bs p e)

-- What a store promises of the put that is used for a stripe.
pub record StripeLaws {S : Type 0} (store : StripeStore S) (hash_of : Bytes → ShardId)
    : Type 0 where
  pub base : StoreLaws store.ops hash_of
  pub stripe_id :
      (d : Descriptor) (s : S) (bytes : Bytes)
      → (store.put_stripe d s bytes).0 ≡ some (hash_of bytes)
  pub stripe_get :
      (d : Descriptor) (s : S) (bytes : Bytes)
      → Held store.ops (store.put_stripe d s bytes).1 (hash_of bytes)
  pub stripe_keeps :
      (d : Descriptor) (s : S) (bytes : Bytes) (id : ShardId)
      → Held store.ops s id
      → Held store.ops (store.put_stripe d s bytes).1 id

-- A plain store keeps them if it keeps the laws of `store.Store`.
pub plain-StripeLaws :
    {S : Type 0} (ops : StoreOps S) (hash_of : Bytes → ShardId)
    → StoreLaws ops hash_of
    → StripeLaws (plain_store ops) hash_of
plain-StripeLaws ops hash_of laws = record {
  base = laws;
  stripe_id = λ d s bytes. laws.put_id s bytes;
  stripe_get = λ d s bytes. laws.put_get s bytes;
  stripe_keeps = λ d s bytes id h. laws.put_keeps s bytes id h;
}

pub alive-All :
    {S : Type 0} (ops : StoreOps S) (s : S) (ids : List ShardId)
    → All (Held ops s) ids
    → alive ops s ids ≡ length ids
unfolding alive
alive-All ops s [] h = refl
alive-All ops s (id ∷ ids) h = rw h.0 (omega (arith, alive-All ops s ids h.1))

pub length-map : {A B : Type 0} (f : A → B) (xs : List A) → length (map f xs) ≡ length xs
length-map f [] = refl
length-map f (x ∷ xs) = ap suc (length-map f xs)

module _ (prims : Primitives) (laws : PrimitiveLaws prims) where
  unfoldable pub Packed : Bytes → Bytes × Bool → Type 0
  Packed plain r = (unpack prims r.1 r.0 ≡ some plain) × (length r.0 ≤ length plain)

  shorter-Packed :
      (plain : Bytes) (o : Option Bytes) (r : Bytes × Bool)
      → prims.deflate plain ≡ o
      → shorter prims plain o ≡ some r
      → Packed plain r
  unfolding Packed unpack
  shorter-Packed plain none r d h = absurd (cc h)
  shorter-Packed plain (some packed) r d h =
      elim (Bool-cases (ltb (length packed) (length plain))) [
        | inl less ↦
            let same : (packed, true) ≡ r = some-injective _ _ (rw less at h) in
            subst (Packed plain) same (laws.inflates plain packed d, ground (arith, less))
        | inr not_less ↦
            let same : (plain, false) ≡ r = some-injective _ _ (rw not_less at h) in
            subst (Packed plain) same (refl, omega arith)
      ]

  pub pack-Packed :
      (c : Bool) (plain : Bytes) (r : Bytes × Bool) → pack prims c plain ≡ some r → Packed plain r
  unfolding pack Packed unpack
  pack-Packed true plain r h = shorter-Packed plain (prims.deflate plain) r refl h
  pack-Packed false plain r h = subst (Packed plain) (some-injective _ _ h) (refl, omega arith)

  pub seal-opens :
      (key plain random : Bytes) (r : Bytes × Bytes)
      → seal prims key plain random ≡ some r
      → (open_sealed prims key r.0 ≡ some plain) × (length r.0 ≡ length plain + 28)
  unfolding seal open_sealed
  seal-opens key plain random r h =
      let (n, (e, same)) = bind-some (read_full nonce_size random) _ r h in
      let l = read_full-length 12 random n e in
      let ct : Bytes = prims.gcm_seal key n.0 plain in
      let size : length (n.0 ++ ct) ≡ length plain + 28 =
        length-append n.0 ct ∙ omega (arith, l, laws.tag key n.0 plain) in
      let long : ltb (length (n.0 ++ ct)) 12 ≡ false = ground (arith, size) in
      let opened : open_sealed prims key (n.0 ++ ct) ≡ some plain =
        rw (long, take-append_left 12 n.0 ct l, drop-append_left 12 n.0 ct l)
          (laws.opens key n.0 plain) in
      let sealed_is : n.0 ++ ct ≡ r.0 = ap (λ p. p.0) (some-injective _ _ same) in
      rw (← sealed_is) (opened, size)
