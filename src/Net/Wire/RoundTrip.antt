-- ===== src/Net/Wire/RoundTrip.antt =====
-- Whatever request the client writes, the server reads.
use mathlib.Core.Option.{some-injective}
use revika.Base.{
  ℕ, ◌≤◌, ◌≡◌, refl, sym, some, [], ◌∷◌, ◌++◌, append-nil, Bytes, length, read_full,
  read_full-append, bind-some,
}
use revika.Stripe.{grant_size}
use revika.Net.Wire.{
  Op, op_put, op_delete, op_renew, op_revoke_grant, op_byte, write_blob, read_blob, read_id,
  auth_token_size, max_shard_size, max_stripe_blob,
}
use revika.Net.Wire.Frame.{
  Request, put_request, get_request, has_request, delete_request, renew_request,
  revoke_grant_request, write_signed, write_put, write_request, request, read_put, read_signed,
  read_plain, read_body, read_request, Fits, write_blob-Written, read-Written,
}

read_signed-write_signed :
    (n : ℕ) (make : Bytes → Bytes → Request) (op : Op) (head token w : Bytes)
    → length head ≡ n
    → length token ≤ auth_token_size
    → write_signed op head token ≡ some w
    → (body : Bytes) × ((w ≡ op_byte op ∷ body)
        × (read_signed n make body ≡ some (make head token)))
unfolding write_signed read_signed
read_signed-write_signed n make op head token w hn ht h =
    let (blob, (sent, e)) = bind-some (write_blob token) _ w h in
    let read : read_blob auth_token_size blob ≡ some (token, []) =
      rw append-nil at
        (read-Written auth_token_size token blob [] (write_blob-Written token blob sent) ht) in
    (head ++ blob, (sym (some-injective _ _ e), rw (read_full-append n head blob hn, read) refl))

read_put-write_put :
    (shard token stripe grant : Bytes) (reason : ℕ) (w : Bytes)
    → Fits (put_request shard token stripe grant reason)
    → write_put shard token stripe grant reason ≡ some w
    → (body : Bytes) × ((w ≡ op_byte op_put ∷ body)
        × (read_put body ≡ some (put_request shard token stripe grant reason)))
unfolding write_put read_put
read_put-write_put shard token stripe grant reason w fits h =
    let (a, (sent_a, h_a)) = bind-some (write_blob shard) _ w h in
    let (b, (sent_b, h_b)) = bind-some (write_blob token) _ w h_a in
    let (c, (sent_c, h_c)) = bind-some (write_blob stripe) _ w h_b in
    let (d, (sent_d, h_d)) = bind-some (write_blob grant) _ w h_c in
    let whole_a = write_blob-Written shard a sent_a in
    (
      a ++ (b ++ (c ++ (d ++ (reason ∷ [])))),
      (
        sym (some-injective _ _ h_d),
        rw
            (
              read-Written max_shard_size shard a _ whole_a whole_a.0,
              read-Written auth_token_size token b _ (write_blob-Written token b sent_b) fits.0,
              read-Written max_stripe_blob stripe c _ (write_blob-Written stripe c sent_c) fits.1.0,
              read-Written grant_size grant d _ (write_blob-Written grant d sent_d) fits.1.1,
            )
            refl,
      ),
    )

read_plain_lem :
    (make : Bytes → Request) (id : Bytes) → length id ≡ 32 → read_plain make id ≡ some (make id)
unfolding read_plain read_id
read_plain_lem make id h =
    let read : read_full 32 id ≡ some (id, []) = rw append-nil at (read_full-append 32 id [] h) in
    rw read refl

-- What a client writes for a request whose parts have the sizes of the protocol is read by the
-- server as that request.
pub read_request-write_request :
    (r : Request) (w : Bytes) → Fits r → write_request r ≡ some w → read_request w ≡ request r
unfolding write_request read_request read_body op_byte
read_request-write_request (put_request shard token stripe grant reason) w fits h =
    let (body, (e, read)) = read_put-write_put shard token stripe grant reason w fits h in
    rw (e, read) refl
read_request-write_request (get_request id) w fits h =
    rw (sym (some-injective _ _ h), read_plain_lem get_request id fits) refl
read_request-write_request (has_request id) w fits h =
    rw (sym (some-injective _ _ h), read_plain_lem has_request id fits) refl
read_request-write_request (delete_request id token) w fits h =
    let (body, (e, read)) =
      read_signed-write_signed 32 delete_request op_delete id token w fits.0 fits.1 h in
    rw (e, read) refl
read_request-write_request (renew_request id token) w fits h =
    let (body, (e, read)) =
      read_signed-write_signed 32 renew_request op_renew id token w fits.0 fits.1 h in
    rw (e, read) refl
read_request-write_request (revoke_grant_request nonce token) w fits h =
    let (body, (e, read)) =
      read_signed-write_signed 8 revoke_grant_request op_revoke_grant nonce token w fits.0 fits.1
        h in
    rw (e, read) refl
