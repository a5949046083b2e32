-- ===== src/Net/Wire/Frame.antt =====
-- The requests of internal/net: how client.go writes them and how the handlers of server.go read them.

use mathlib.Core.Option.{some-injective}
use revika.Base.{
  ◌^◌, ℕ, ◌≤◌, ◌<◌, ◌≡◌, refl, sym, inl, inr, false, Option, none, some, [], ◌∷◌, ◌++◌,
  append_assoc, arith, ltb, eqb, if◌then◌else◌, Bool-cases, Bytes, length, be_bytes, read_byte,
  read_full, ◌>>=◌, length-be_bytes, of_be-be_bytes, read_full-append,
}
use revika.Stripe.{grant_size}
use revika.Net.Wire.{
  Op, op_put, op_get, op_has, op_delete, op_renew, op_revoke_grant, op_byte, write_blob, read_blob,
  read_id, max_shard_size, max_stripe_blob, auth_token_size,
}

pub data Request : Type 0 where
  put_request : Bytes → Bytes → Bytes → Bytes → ℕ → Request
  get_request has_request : Bytes → Request
  delete_request renew_request : Bytes → Bytes → Request
  revoke_grant_request : Bytes → Bytes → Request

-- An identifier or a nonce, then a token: `Delete`, `Renew` and `RevokeGrant`.
unfoldable pub write_signed : Op → Bytes → Bytes → Option Bytes
unfolding write_blob op_byte
write_signed op head token = do blob ← write_blob token; some (op_byte op ∷ (head ++ blob))

-- `putRaw`
unfoldable pub write_put : Bytes → Bytes → Bytes → Bytes → ℕ → Option Bytes
unfolding write_blob op_byte
write_put shard token stripe grant reason = do
  a ← write_blob shard
  b ← write_blob token
  c ← write_blob stripe
  d ← write_blob grant
  some (op_byte op_put ∷ (a ++ (b ++ (c ++ (d ++ (reason ∷ []))))))

unfoldable pub write_request : Request → Option Bytes
unfolding write_signed write_put op_byte
write_request (put_request shard token stripe grant reason) =
    write_put shard token stripe grant reason
write_request (get_request id) = some (op_byte op_get ∷ id)
write_request (has_request id) = some (op_byte op_has ∷ id)
write_request (delete_request id token) = write_signed op_delete id token
write_request (renew_request id token) = write_signed op_renew id token
write_request (revoke_grant_request nonce token) = write_signed op_revoke_grant nonce token

-- A stream that ends too early, or a blob that is too long, is reset.
pub data Read : Type 0 where
  reset unknown_op : Read
  request : Request → Read

abbrev pub finish : Option Request → Read
finish none = reset
finish (some r) = request r

unfoldable pub read_put : Bytes → Option Request
unfolding read_blob
read_put bs = do
  (shard, r1) ← read_blob max_shard_size bs
  (token, r2) ← read_blob auth_token_size r1
  (stripe, r3) ← read_blob max_stripe_blob r2
  (grant, r4) ← read_blob grant_size r3
  (reason, r5) ← read_byte r4
  some (put_request shard token stripe grant reason)

unfoldable pub read_signed : ℕ → (Bytes → Bytes → Request) → Bytes → Option Request
unfolding read_full read_blob
read_signed n make bs = do
  (head, r1) ← read_full n bs
  (token, r2) ← read_blob auth_token_size r1
  some (make head token)

unfoldable pub read_plain : (Bytes → Request) → Bytes → Option Request
unfolding read_id
read_plain make bs = do (id, r1) ← read_id bs; some (make id)

-- The switch of `handleShard`.
unfoldable pub read_body : ℕ → Bytes → Read
unfolding read_put read_signed read_plain
read_body op bs =
    if eqb op 1
    then finish (read_put bs)
    else if eqb op 2
    then finish (read_plain get_request bs)
    else if eqb op 3
    then finish (read_plain has_request bs)
    else if eqb op 4
    then finish (read_signed 32 delete_request bs)
    else if eqb op 5
    then finish (read_signed 32 renew_request bs)
    else if eqb op 6
    then finish (read_signed 8 revoke_grant_request bs)
    else unknown_op

unfoldable pub read_request : Bytes → Read
unfolding read_body
read_request [] = reset
read_request (op ∷ bs) = read_body op bs

-- The sizes that the protocol fixes or caps.
abbrev pub Fits : Request → Type 0
Fits (put_request shard token stripe grant reason) =
    (length token ≤ auth_token_size)
    × ((length stripe ≤ max_stripe_blob) × (length grant ≤ grant_size))
Fits (get_request id) = length id ≡ 32
Fits (has_request id) = length id ≡ 32
Fits (delete_request id token) = (length id ≡ 32) × (length token ≤ auth_token_size)
Fits (renew_request id token) = (length id ≡ 32) × (length token ≤ auth_token_size)
Fits (revoke_grant_request nonce token) = (length nonce ≡ 8) × (length token ≤ auth_token_size)

abbrev pub Written : Bytes → Bytes → Type 0
Written b w = (length b ≤ max_shard_size) × (w ≡ be_bytes 4 (length b) ++ b)

ltb_le : (a b : ℕ) → b ≤ a → ltb a b ≡ false
ltb_le a b h = ground arith

ltb_ge : (a b : ℕ) → ltb a b ≡ false → b ≤ a
ltb_ge a b h = ground arith

pub write_blob-Written : (b w : Bytes) → write_blob b ≡ some w → Written b w
unfolding write_blob
write_blob-Written b w h = elim (Bool-cases (ltb max_shard_size (length b))) [
  | inl long ↦ absurd (let e : none ≡ some w = rw long at h in cc)
  | inr fits ↦
      let e : some (be_bytes 4 (length b) ++ b) ≡ some w = rw fits at h in
      (ltb_ge _ _ fits, sym (some-injective _ _ e))
]

pub read-Written :
    (limit : ℕ) (b w rest : Bytes)
    → Written b w
    → length b ≤ limit
    → read_blob limit (w ++ rest) ≡ some (b, rest)
unfolding read_blob
read-Written limit b w rest h fits =
    rw
      (
        h.1,
        append_assoc (be_bytes 4 (length b)) b rest,
        read_full-append 4 (be_bytes 4 (length b)) (b ++ rest) (length-be_bytes 4 (length b)),
        of_be-be_bytes 4 (length b) (small (length b) h.0),
        ltb_le limit (length b) fits,
      )
      (read_full-append (length b) b rest refl)
  where
    small : (n : ℕ) → n ≤ max_shard_size → n < 256 ^ 4
    small n h = omega arith
