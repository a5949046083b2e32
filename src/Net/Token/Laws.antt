-- ===== src/Net/Token/Laws.antt =====
-- A token is accepted for what it was built for, and no payload stands for two requests.
use revika.Base.{
  ℕ, ◌+◌, ◌<◌, ◌^◌, ◌≡◌, refl, ap, sym, ◌∙◌, true, some, ◌++◌, arith, Bytes, length, be_bytes,
  of_be, length-append, length-be_bytes, of_be-be_bytes, take-append_left, drop-append_left,
  drop-append_past, append-injective, eqb, if◌then◌else◌,
}
use revika.Net.AuthCache.{in_window}
use revika.Net.Wire.{Op, op_byte, op_put, op_get, op_has, op_delete, op_renew, op_revoke_grant}
use revika.Cap.{Signatures, SignatureLaws}
use revika.Net.Token.{token_payload, build_token, verify_token}

module _ (s : Signatures) (laws : SignatureLaws s) where
  -- A token built for a request verifies for that request as long as its stamp, a 64-bit word, is
  -- in the window, and names the signer.
  pub verify_token-build_token :
      (k : s.SignKey) (o : Op) (id node : Bytes) (ts now : ℕ)
      → ts < 2 ^ 64
      → in_window now ts ≡ true
      → verify_token s (build_token s k o id node ts) o id node now ≡ some (s.public k)
  unfolding verify_token build_token
  verify_token-build_token k o id node ts now small h =
      let key = s.public k in
      let stamp = be_bytes 8 ts in
      let sig = s.sign k (token_payload o id node ts) in
      let size : length (key ++ (stamp ++ sig)) ≡ 104 =
        length-append key (stamp ++ sig)
        ∙ (rw
            (
              laws.public_size k,
              length-append stamp sig,
              length-be_bytes 8 ts,
              laws.sign_size k (token_payload o id node ts),
            )
            refl) in
      rw
        (
          size,
          take-append_left 32 key (stamp ++ sig) (laws.public_size k),
          drop-append_left 32 key (stamp ++ sig) (laws.public_size k),
          take-append_left 8 stamp sig (length-be_bytes 8 ts),
          drop-append_past 32 8 key (stamp ++ sig) (laws.public_size k),
          drop-append_left 8 stamp sig (length-be_bytes 8 ts),
          of_be-be_bytes 8 ts (omega arith),
          h,
          laws.verifies k (token_payload o id node ts),
        )
        refl

abbrev op_of_byte : ℕ → Op
op_of_byte n =
    if eqb n 1
    then op_put
    else if eqb n 2
    then op_get
    else if eqb n 3
    then op_has
    else if eqb n 4
    then op_delete
    else if eqb n 5
    then op_renew
    else op_revoke_grant

op_of_byte-op_byte : (o : Op) → op_of_byte (op_byte o) ≡ o
unfolding op_byte
op_of_byte-op_byte op_put = refl
op_of_byte-op_byte op_get = refl
op_of_byte-op_byte op_has = refl
op_of_byte-op_byte op_delete = refl
op_of_byte-op_byte op_renew = refl
op_of_byte-op_byte op_revoke_grant = refl

be_bytes-injective : (v v' : ℕ) → v < 2 ^ 64 → v' < 2 ^ 64 → be_bytes 8 v ≡ be_bytes 8 v' → v ≡ v'
be_bytes-injective v v' h h' e =
    sym (of_be-be_bytes 8 v (omega arith)) ∙ ap of_be e ∙ of_be-be_bytes 8 v' (omega arith)

-- Two requests with the same signed payload are the same: the verb, the shard, the node and the
-- stamp, where identifiers have 32 bytes and stamps are 64-bit words.
pub token_payload-injective :
    (o o' : Op) (id id' node node' : Bytes) (ts ts' : ℕ)
    → length id ≡ 32
    → length id' ≡ 32
    → ts < 2 ^ 64
    → ts' < 2 ^ 64
    → token_payload o id node ts ≡ token_payload o' id' node' ts'
    → (o ≡ o') × ((id ≡ id') × ((node ≡ node') × (ts ≡ ts')))
unfolding token_payload
token_payload-injective o o' id id' node node' ts ts' hi hi' small small' h =
    let verb : op_byte o ≡ op_byte o' = cc in
    let rest : id ++ (node ++ be_bytes 8 ts) ≡ id' ++ (node' ++ be_bytes 8 ts') = cc in
    let (same_id, tail) = append-injective 32 id id' _ _ hi hi' rest in
    let sizes : length node + 8 ≡ length node' + 8 =
      rw
        (
          length-append node (be_bytes 8 ts),
          length-append node' (be_bytes 8 ts'),
          length-be_bytes 8 ts,
          length-be_bytes 8 ts',
        )
        at (ap length tail) in
    let (same_node, stamps) =
      append-injective (length node) node node' _ _ refl (omega arith) tail in
    (
      sym (op_of_byte-op_byte o) ∙ ap op_of_byte verb ∙ op_of_byte-op_byte o',
      (same_id, (same_node, be_bytes-injective ts ts' small small' stamps)),
    )
