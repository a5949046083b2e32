-- ===== src/Erasure/RoundTrip.antt =====
-- A payload is decoded from any K shards of its stripe, which is what repair asks of the code.
use revika.Base.{
  append_assoc, ℕ, suc, ◌+◌, ◌-◌, ◌*◌, ◌^◌, ◌≤◌, ◌<◌, ◌≡◌, refl, ap, ◌∙◌, inl, inr, true, false,
  Option, none, some, List, [], ◌∷◌, ◌++◌, arith, ltb, eqb, Bytes, length, be_bytes, bind-some,
  length-append, length-be_bytes, of_be-be_bytes, take-append_left, drop-append_left, Bool-cases,
}
use revika.Repair.Survey.{Survivors, lost}
use revika.Repair.Restored.{IsStripe}
use revika.Erasure.{
  Params, total, is_valid, Codec, count_present, first_length, unframe, encoder, encode, decode,
  code_of,
}

-- What a Reed-Solomon code of K and M shards promises: as many shards, all of them back from any K of
-- them, and their join as the payload with the padding behind it.
pub record CodecLaws (k m : ℕ) (codec : Codec) : Type 0 where
  pub count :
      (payload : Bytes) (shards coded : List Bytes)
      → codec.split payload ≡ some shards
      → codec.encode_parity shards ≡ some coded
      → length coded ≡ k + m
  pub rebuilds :
      (payload : Bytes) (shards coded : List Bytes) (partial : List (Option Bytes))
      → codec.split payload ≡ some shards
      → codec.encode_parity shards ≡ some coded
      → Survivors coded partial
      → k + lost partial ≤ k + m
      → codec.reconstruct partial ≡ some coded
  pub joins :
      (payload : Bytes) (shards coded : List Bytes)
      → codec.split payload ≡ some shards
      → codec.encode_parity shards ≡ some coded
      → (padding : Bytes) × (codec.join coded (k * first_length coded) ≡ some (payload ++ padding))

unframe-framed :
    (bytes padding : Bytes)
    → length bytes < 2 ^ 64
    → unframe ((be_bytes 8 (length bytes) ++ bytes) ++ padding) ≡ some bytes
unfolding unframe
unframe-framed bytes padding small =
    let header = be_bytes 8 (length bytes) in
    let h = length-be_bytes 8 (length bytes) in
    let whole : (header ++ bytes) ++ padding ≡ header ++ (bytes ++ padding) =
      append_assoc header bytes padding in
    let size : length (header ++ (bytes ++ padding)) ≡ 8 + (length bytes + length padding) =
      length-append header (bytes ++ padding) ∙ omega (arith, h, length-append bytes padding) in
    let long : ltb (8 + (length bytes + length padding)) 8 ≡ false = ground arith in
    let room : ltb (8 + (length bytes + length padding) - 8) (length bytes) ≡ false =
      ground arith in
    rw
      (
        whole,
        size,
        take-append_left 8 header (bytes ++ padding) h,
        drop-append_left 8 header (bytes ++ padding) h,
        of_be-be_bytes 8 (length bytes) (omega arith),
        long,
        room,
        take-append_left (length bytes) bytes padding refl,
      )
      refl

present_lost :
    (partial : List (Option Bytes)) → count_present partial + lost partial ≡ length partial
present_lost [] = refl
present_lost (none ∷ partial) = omega (arith, present_lost partial)
present_lost (some s ∷ partial) = omega (arith, present_lost partial)

Survivors-length :
    (coded : List Bytes) (partial : List (Option Bytes))
    → Survivors coded partial
    → length partial ≡ length coded
Survivors-length [] [] s = refl
Survivors-length [] (x ∷ xs) s = absurd s
Survivors-length (r ∷ rs) [] s = absurd s
Survivors-length (r ∷ rs) (none ∷ xs) s = ap suc (Survivors-length rs xs s)
Survivors-length (r ∷ rs) (some x ∷ xs) s = ap suc (Survivors-length rs xs s.1)

module _ (new_codec : ℕ → ℕ → Option Codec)
    (laws : (k m : ℕ) (codec : Codec) → new_codec k m ≡ some codec → CodecLaws k m codec) where
  new_codec-laws :
      (p : Params) (codec : Codec) → encoder new_codec p ≡ some codec → CodecLaws p.k p.m codec
  unfolding encoder
  new_codec-laws p codec h = elim (Bool-cases (is_valid p)) [
    | inl valid ↦ laws p.k p.m codec (rw valid at h)
    | inr bad ↦ absurd (let e : none ≡ some codec = rw bad at h in cc)
  ]

  pub length-encode :
      (p : Params) (bytes : Bytes) (coded : List Bytes)
      → encode new_codec p bytes ≡ some coded
      → length coded ≡ p.k + p.m
  unfolding encode
  length-encode p bytes coded h =
      let (codec, (made, h1)) = bind-some (encoder new_codec p) _ coded h in
      let payload = be_bytes 8 (length bytes) ++ bytes in
      let (shards, (cut, coded_is)) = bind-some (codec.split payload) _ coded h1 in
      (new_codec-laws p codec made).count payload shards coded cut coded_is

  pub encode-few :
      (p : Params) (bytes : Bytes) (coded : List Bytes)
      → encode new_codec p bytes ≡ some coded
      → p.k + p.m ≤ 256
  unfolding encode encoder is_valid total
  encode-few p bytes coded h =
      let (codec, (made, h1)) = bind-some (encoder new_codec p) _ coded h in ground (arith, made)

  -- The shards that Encode makes of a payload of less than 2 ^ 64 bytes are a stripe of it: Decode gives
  -- the payload back from them whenever at least K are there, whichever they are.
  pub encode-IsStripe :
      (p : Params) (bytes : Bytes) (coded : List Bytes)
      → length bytes < 2 ^ 64
      → encode new_codec p bytes ≡ some coded
      → IsStripe (code_of new_codec p) bytes coded
  unfolding encode decode total
  encode-IsStripe p bytes coded small h =
      let (codec, (made, h1)) = bind-some (encoder new_codec p) _ coded h in
      let payload = be_bytes 8 (length bytes) ++ bytes in
      let (shards, (cut, coded_is)) = bind-some (codec.split payload) _ coded h1 in
      let law = new_codec-laws p codec made in
      record {
        encoded = h;
        decodes = λ partial survivors enough.
            let size : length coded ≡ p.k + p.m = law.count payload shards coded cut coded_is in
            let size' : length partial ≡ p.k + p.m =
              Survivors-length coded partial survivors ∙ size in
            let whole : eqb (length partial) (p.k + p.m) ≡ true = ground (arith, size') in
            let there : ltb (count_present partial) p.k ≡ false =
              ground (arith, present_lost partial, size', size, enough) in
            let rebuilt =
              law.rebuilds payload shards coded partial cut coded_is survivors
                (omega (arith, size, enough)) in
            let (padding, joined) = law.joins payload shards coded cut coded_is in
            rw (made, whole, there, rebuilt, joined) (unframe-framed bytes padding small);
      }
