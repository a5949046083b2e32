-- ===== src/Stripe/Grants.antt =====
-- A grant is accepted for the stripe that it was built for, and its signature is for no other.
use mathlib.Core.Option.{some-injective}
use revika.Base.{
  ℕ, ◌<◌, ◌^◌, ◌≡◌, refl, ap, sym, ◌∙◌, false, ◌&&◌, not, some, ◌++◌, arith, eqb, Bytes, length,
  take, drop, be_bytes, of_be, bind-some, length-append, length-be_bytes, of_be-be_bytes,
  take-append_left, drop-append_left, drop-append_past, append-injective,
}
use revika.Cap.{Signatures, SignatureLaws}
use revika.Stripe.{
  Descriptor, marshal, grant_domain, grant_payload, is_after, grant_owner, nonce_of,
  grant_signature, build_grant, verify_signed, verify_grant, grant_nonce,
}
use revika.Stripe.Layout.{Addresses, marshal-injective}

-- The fields of a grant.
module _ (key stamp nonce sig : Bytes) (h : length key ≡ 32) (hs : length stamp ≡ 8)
    (hn : length nonce ≡ 8) where
  abbrev grant_layout : Bytes
  grant_layout = key ++ (stamp ++ (nonce ++ sig))

  owner_field : grant_owner grant_layout ≡ key
  owner_field = take-append_left 32 key _ h

  expiry_field : take 8 (drop 32 grant_layout) ≡ stamp
  expiry_field = ap (take 8) (drop-append_left 32 key _ h) ∙ take-append_left 8 stamp _ hs

  nonce_field : nonce_of grant_layout ≡ nonce
  nonce_field =
      ap (take 8) (drop-append_past 32 8 key _ h ∙ drop-append_left 8 stamp _ hs)
      ∙ take-append_left 8 nonce _ hn

  signature_field : grant_signature grant_layout ≡ sig
  signature_field =
      drop-append_past 32 16 key _ h
      ∙ drop-append_past 8 8 stamp _ hs
      ∙ drop-append_left 8 nonce _ hn

  length-grant_layout : length sig ≡ 64 → length grant_layout ≡ 112
  length-grant_layout hsig =
      rw
        (
          length-append key (stamp ++ (nonce ++ sig)),
          length-append stamp (nonce ++ sig),
          length-append nonce sig,
          h,
          hs,
          hn,
          hsig,
        )
        refl

module _ (s : Signatures) (laws : SignatureLaws s) where
  -- A grant that is built for a descriptor, with a nonce of 8 bytes and a 64-bit expiry, verifies for
  -- that descriptor as long as the expiry is 0 or not behind the clock; it names the signer, and its
  -- nonce can be read from it.
  pub verify_grant-build_grant :
      (signer : s.SignKey) (d : Descriptor) (expiry : ℕ) (nonce grant : Bytes) (now : ℕ)
      → expiry < 2 ^ 64
      → length nonce ≡ 8
      → not (eqb expiry 0) && is_after now expiry ≡ false
      → build_grant s signer d expiry nonce ≡ some grant
      → (verify_grant s grant d now ≡ some (s.public signer)) × (grant_nonce grant ≡ some nonce)
  unfolding build_grant verify_grant verify_signed grant_nonce
  verify_grant-build_grant signer d expiry nonce grant now small hn live h =
      let (desc, (written, e)) = bind-some (marshal d) _ grant h in
      let key = s.public signer in
      let stamp = be_bytes 8 expiry in
      let sig = s.sign signer (grant_payload expiry nonce desc) in
      let hk = laws.public_size signer in
      let hs = length-be_bytes 8 expiry in
      let size = length-grant_layout key stamp nonce sig hk hs hn (laws.sign_size signer _) in
      let grant_is = sym (some-injective _ _ e) in
      (
        rw
            (
              grant_is,
              size,
              owner_field key stamp nonce sig hk hs hn,
              expiry_field key stamp nonce sig hk hs hn,
              nonce_field key stamp nonce sig hk hs hn,
              signature_field key stamp nonce sig hk hs hn,
              of_be-be_bytes 8 expiry (omega arith),
              live,
              written,
              laws.verifies signer (grant_payload expiry nonce desc),
            )
            refl,
        rw (grant_is, size, nonce_field key stamp nonce sig hk hs hn) refl,
      )

-- Two stripes whose payloads are equal, with nonces of 8 bytes, are the same stripe, with the same nonce.
pub grant_payload-injective :
    (d d' : Descriptor) (b b' nonce nonce' : Bytes) (expiry expiry' : ℕ)
    → Addresses d.shards
    → Addresses d'.shards
    → marshal d ≡ some b
    → marshal d' ≡ some b'
    → length nonce ≡ 8
    → length nonce' ≡ 8
    → expiry < 2 ^ 64
    → expiry' < 2 ^ 64
    → grant_payload expiry nonce b ≡ grant_payload expiry' nonce' b'
    → (d ≡ d') × ((nonce ≡ nonce') × (expiry ≡ expiry'))
unfolding grant_payload
grant_payload-injective d d' b b' nonce nonce' expiry expiry' hs hs' h h' hn hn' small small' e =
    let (_, rest) = append-injective 21 grant_domain grant_domain _ _ refl refl e in
    let (stamps, rest_n) =
      append-injective 8 _ _ _ _ (length-be_bytes 8 expiry) (length-be_bytes 8 expiry') rest in
    let (nonces, desc) = append-injective 8 nonce nonce' b b' hn hn' rest_n in
    (
      marshal-injective d d' b hs hs' h (h' ∙ ap some (sym desc)),
      (
        nonces,
        sym (of_be-be_bytes 8 expiry (omega arith))
            ∙ ap of_be stamps
            ∙ of_be-be_bytes 8 expiry' (omega arith),
      ),
    )
